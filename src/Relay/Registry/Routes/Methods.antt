-- ===== src/Relay/Registry/Routes/Methods.antt =====
-- What each method of the routing table does to its two maps.
use termhop.Base.{
  String, ◌≡◌, refl, ◌==◌, eq_iff, true, false, ◌&&◌, Option, none, some, arith, if◌then◌else◌, inl,
  inr, Option-cases, get_or,
}
use termhop.Dict.{Unique, get, get-put, get-pop, get-discard}
use termhop.Relay.Registry.{
  WebSocket, Role, agent, client, SessionPhase, SessionSlot, new_slot, slot_get, slot_set, is_empty,
  SessionRegistry, create, attach, set_phase, detach, remove, register_device, session_for_device,
  taken_by_other, routed_elsewhere,
}
use termhop.Relay.Registry.Laws.{get-create}
use termhop.Relay.Registry.Routes.{same_role, slot_route, route, Routes, claim, settle, forget}

slot_get-slot_set :
    (slot : SessionSlot) (ρ σ : Role) (o : Option WebSocket)
    → slot_get (slot_set slot ρ o) σ ≡ (if same_role ρ σ then o else slot_get slot σ)
unfolding slot_get slot_set
slot_get-slot_set slot agent agent o = refl
slot_get-slot_set slot agent client o = refl
slot_get-slot_set slot client agent o = refl
slot_get-slot_set slot client client o = refl

empty-slot_get : (slot : SessionSlot) (σ : Role) → is_empty slot ≡ true → slot_get slot σ ≡ none
unfolding slot_get is_empty
empty-slot_get slot agent h = ground arith
empty-slot_get slot client h = ground arith

new_slot-slot_get : (σ : Role) → slot_get new_slot σ ≡ none
unfolding slot_get
new_slot-slot_get agent = refl
new_slot-slot_get client = refl

same_role_eq : (ρ σ : Role) → same_role ρ σ ≡ true → ρ ≡ σ
same_role_eq agent agent h = refl
same_role_eq agent client h = cc
same_role_eq client agent h = cc
same_role_eq client client h = refl

-- What `attach` leaves at each key: the slot with the connection in it, or the slot as it was.
pub get-attach :
    (r : SessionRegistry) (s j : String) (ρ : Role) (ws : WebSocket)
    → let slot = get_or new_slot (get r.sessions s) in
      get (attach s ρ ws r).1.sessions j ≡ (
        if s == j
        then some (if taken_by_other (slot_get slot ρ) ws then slot else slot_set slot ρ (some ws))
        else get r.sessions j)
unfolding attach
get-attach r s j ρ ws =
    let slot = get_or new_slot (get r.sessions s) in
    ground (arith, get-create r s j, get-put (create r s).sessions s j (slot_set slot ρ (some ws)))

-- The slot that a detach leaves: none, when its last connection goes.
abbrev left_slot : Role → Option SessionSlot → Option SessionSlot
left_slot ρ none = none
left_slot ρ (some slot) =
    if is_empty (slot_set slot ρ none) then none else some (slot_set slot ρ none)

pub get-detach :
    (r : SessionRegistry) (s j : String) (ρ : Role)
    → get (detach s ρ r).sessions j
      ≡ (if s == j then left_slot ρ (get r.sessions s) else get r.sessions j)
unfolding detach
get-detach r s j ρ = elim (Option-cases (get r.sessions s)) [
  | inl e ↦ rw (e, detach) (ground (arith, e, eq_iff s j))
  | inr (slot, e) ↦
      rw (e, detach)
        (ground (arith, get-pop r.sessions s j, get-put r.sessions s j (slot_set slot ρ none)))
]

slot_route-left_slot :
    (ρ σ : Role) (o : Option SessionSlot)
    → slot_route σ (left_slot ρ o) ≡ (if same_role ρ σ then none else slot_route σ o)
unfolding slot_get slot_set is_empty
slot_route-left_slot agent agent o = ground arith
slot_route-left_slot agent client o = ground arith
slot_route-left_slot client agent o = ground arith
slot_route-left_slot client client o = ground arith

module _ (r : SessionRegistry) (s j : String) where
  pub route-attach :
      (ρ σ : Role) (ws : WebSocket)
      → route (attach s ρ ws r).1 j σ
        ≡ (if s == j && same_role ρ σ then claim (route r j σ) ws else route r j σ)
  unfolding route slot_get slot_set taken_by_other
  route-attach agent agent ws = ground (arith, get-attach r s j agent ws, eq_iff s j)
  route-attach agent client ws = ground (arith, get-attach r s j agent ws, eq_iff s j)
  route-attach client agent ws = ground (arith, get-attach r s j client ws, eq_iff s j)
  route-attach client client ws = ground (arith, get-attach r s j client ws, eq_iff s j)

  pub route-detach :
      (ρ σ : Role)
      → route (detach s ρ r) j σ ≡ (if s == j && same_role ρ σ then none else route r j σ)
  unfolding route detach slot_get
  route-detach ρ σ =
      ground (arith, get-detach r s j ρ, slot_route-left_slot ρ σ (get r.sessions s), eq_iff s j)

  pub route-set_phase :
      (σ : Role) (phase : SessionPhase) → route (set_phase s phase r) j σ ≡ route r j σ
  unfolding route set_phase slot_get
  route-set_phase agent phase = elim (Option-cases (get r.sessions s)) [
    | inl e ↦ rw (e, set_phase)
    | inr (slot, e) ↦
        rw (e, set_phase)
          (ground (arith, get-put r.sessions s j (record slot { phase = phase }), eq_iff s j))
  ]
  route-set_phase client phase = elim (Option-cases (get r.sessions s)) [
    | inl e ↦ rw (e, set_phase)
    | inr (slot, e) ↦
        rw (e, set_phase)
          (ground (arith, get-put r.sessions s j (record slot { phase = phase }), eq_iff s j))
  ]

  pub route-remove : (σ : Role) → route (remove s r) j σ ≡ (if s == j then none else route r j σ)
  unfolding route remove
  route-remove σ = ground (arith, get-pop r.sessions s j)

pub homes-attach :
    (r : SessionRegistry) (s : String) (ρ : Role) (ws : WebSocket)
    → (attach s ρ ws r).1.devices ≡ r.devices
unfolding attach create
homes-attach r s ρ ws = ground arith

pub homes-detach :
    (r : SessionRegistry) (s : String) (ρ : Role) → (detach s ρ r).devices ≡ r.devices
unfolding detach
homes-detach r s ρ = ground arith

pub homes-set_phase :
    (r : SessionRegistry) (s : String) (phase : SessionPhase)
    → (set_phase s phase r).devices ≡ r.devices
unfolding set_phase
homes-set_phase r s phase = ground arith

pub homes-remove :
    (r : SessionRegistry) (s d : String)
    → Unique r.devices
    → session_for_device (remove s r) d ≡ forget s (session_for_device r d)
unfolding session_for_device remove
homes-remove r s d u = ground (arith, get-discard (λ home. home == s) r.devices d u)

taken_home :
    (home : Option String) (s : String) → routed_elsewhere home s ≡ false → settle home s ≡ some s
unfolding routed_elsewhere
taken_home none s h = refl
taken_home (some home) s h = ground (arith, eq_iff home s)

pub same_routes :
    (m n : Routes)
    → ((s : String) (ρ : Role) → m.sockets s ρ ≡ n.sockets s ρ)
    → ((d : String) → m.homes d ≡ n.homes d)
    → m ≡ n
same_routes m n f g = λ i. record { sockets = λ s ρ. f s ρ i; homes = λ d. g d i }

pub homes-register :
    (r : SessionRegistry) (device s d : String)
    → session_for_device (register_device device s r).1 d
      ≡ (if device == d then settle (session_for_device r d) s else session_for_device r d)
unfolding session_for_device register_device
homes-register r device s d =
    ground
      (arith, get-put r.devices device d s, eq_iff device d, taken_home (get r.devices device) s)

pub route-register :
    (r : SessionRegistry) (device s j : String) (σ : Role)
    → route (register_device device s r).1 j σ ≡ route r j σ
unfolding route register_device
route-register r device s j σ = ground arith
