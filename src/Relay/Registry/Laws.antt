-- ===== src/Relay/Registry/Laws.antt =====
-- The invariant of the routing table: keys are distinct, and a session is there only while a
-- connection is attached to it.
use termhop.Base.{
  inl, inr, Bool-cases, Option-cases, get_or, String, ◌≡◌, ◌==◌, eq_iff, true, false, none, some,
  arith, if◌then◌else◌,
}
use termhop.Dict.{
  Dict, Unique, get, put, pop, get-put, get-pop, put-Unique, pop-Unique, discard-Unique,
}
use termhop.Relay.Registry.{
  WebSocket, Role, agent, client, SessionPhase, SessionSlot, new_slot, slot_get, slot_set, is_empty,
  SessionRegistry, new_registry, create, attach, set_phase, detach, remove, register_device,
  taken_by_other,
}

pub record IsRegistry (r : SessionRegistry) : Type 0 where
  pub sessions_Unique : Unique r.sessions
  pub devices_Unique : Unique r.devices
  pub attached :
      (s : String) (slot : SessionSlot) → get r.sessions s ≡ some slot → is_empty slot ≡ false

pub new_registry-IsRegistry : IsRegistry new_registry
unfolding get
new_registry-IsRegistry = record {
  sessions_Unique = tt;
  devices_Unique = tt;
  attached = λ s slot e. cc;
}

slot_set-attached :
    (slot : SessionSlot) (role : Role) (ws : WebSocket)
    → is_empty (slot_set slot role (some ws)) ≡ false
unfolding is_empty slot_set
slot_set-attached slot agent ws = ground arith
slot_set-attached slot client ws = ground arith

-- What a lookup sees after `setdefault`.
pub get-create :
    (r : SessionRegistry) (s j : String)
    → get (create r s).sessions j
      ≡ (if s == j then some (get_or new_slot (get r.sessions s)) else get r.sessions j)
unfolding create
get-create r s j = elim (Option-cases (get r.sessions s)) [
  | inl e ↦ rw (e, create) (get-put r.sessions s j new_slot)
  | inr (slot, e) ↦ rw (e, create) (ground (arith, eq_iff s j, e))
]

create-Unique :
    (r : SessionRegistry) (s : String)
    → Unique r.sessions
    → Unique r.devices
    → Unique (create r s).sessions × Unique (create r s).devices
unfolding create
create-Unique r s u w = ground (arith, put-Unique r.sessions s new_slot u)

-- A table whose other slots are attached stays so when an attached slot is written.
put-attached :
    (d : Dict SessionSlot) (s : String) (slot : SessionSlot)
    → is_empty slot ≡ false
    → ((j : String) (other : SessionSlot)
        → (s == j) ≡ false
        → get d j ≡ some other
        → is_empty other ≡ false)
    → (j : String) (other : SessionSlot) → get (put d s slot) j ≡ some other
    → is_empty other ≡ false
put-attached d s slot filled rest j other e = ground (arith, get-put d s j slot, rest j other)

module _ (r : SessionRegistry) (v : IsRegistry r) (s : String) where
  slot_write-IsRegistry :
      (slot : SessionSlot)
      → is_empty slot ≡ false
      → IsRegistry (record r { sessions = put r.sessions s slot })
  slot_write-IsRegistry slot filled = record {
    sessions_Unique = put-Unique r.sessions s slot v.sessions_Unique;
    devices_Unique = v.devices_Unique;
    attached = put-attached r.sessions s slot filled (λ j other _ e. v.attached j other e);
  }

  pub create_write-IsRegistry :
      (slot : SessionSlot)
      → is_empty slot ≡ false
      → IsRegistry (record (create r s) { sessions = put (create r s).sessions s slot })
  create_write-IsRegistry slot filled =
      let u = create-Unique r s v.sessions_Unique v.devices_Unique in
      record {
        sessions_Unique = put-Unique (create r s).sessions s slot u.0;
        devices_Unique = u.1;
        attached =
            put-attached (create r s).sessions s slot filled
              λ j other ne e. v.attached j other (ground (arith, get-create r s j));
      }

  -- An attach that is refused finds the slot there, and creates none.
  create-taken :
      (role : Role) (ws : WebSocket)
      → taken_by_other (slot_get (get_or new_slot (get r.sessions s)) role) ws ≡ true
      → create r s ≡ r
  unfolding create taken_by_other slot_get
  create-taken agent ws h = ground arith
  create-taken client ws h = ground arith

  pub attach-IsRegistry : (role : Role) (ws : WebSocket) → IsRegistry (attach s role ws r).1
  unfolding attach
  attach-IsRegistry role ws =
      let slot = get_or new_slot (get r.sessions s) in
      elim (Bool-cases (taken_by_other (slot_get slot role) ws)) [
        | inl taken ↦ rw (taken, attach) (rw (create-taken role ws taken) v)
        | inr free ↦
            rw (free, attach)
              (create_write-IsRegistry (slot_set slot role (some ws))
                (slot_set-attached slot role ws))
      ]

  pub set_phase-IsRegistry : (phase : SessionPhase) → IsRegistry (set_phase s phase r)
  unfolding set_phase is_empty
  set_phase-IsRegistry phase = elim (Option-cases (get r.sessions s)) [
    | inl e ↦ rw (e, set_phase) v
    | inr (slot, e) ↦
        rw (e, set_phase)
          (slot_write-IsRegistry (record slot { phase = phase }) (v.attached s slot e))
  ]

  without-IsRegistry : IsRegistry (record r { sessions = pop r.sessions s })
  without-IsRegistry = record {
    sessions_Unique = pop-Unique r.sessions s v.sessions_Unique;
    devices_Unique = v.devices_Unique;
    attached = λ j slot e. ground (arith, get-pop r.sessions s j, v.attached j slot);
  }

  pub detach-IsRegistry : (role : Role) → IsRegistry (detach s role r)
  unfolding detach
  detach-IsRegistry role = elim (Option-cases (get r.sessions s)) [
    | inl e ↦ rw (e, detach) v
    | inr (slot, e) ↦ elim (Bool-cases (is_empty (slot_set slot role none))) [
      | inl last ↦ rw (e, detach) (rw (last, detach) without-IsRegistry)
      | inr more ↦
          rw (e, detach) (rw (more, detach) (slot_write-IsRegistry (slot_set slot role none) more))
    ]
  ]

  pub remove-IsRegistry : IsRegistry (remove s r)
  unfolding remove
  remove-IsRegistry = record {
    sessions_Unique = pop-Unique r.sessions s v.sessions_Unique;
    devices_Unique = discard-Unique _ r.devices v.devices_Unique;
    attached = without-IsRegistry.attached;
  }

  pub register_device-IsRegistry :
      (device_id : String) → IsRegistry (register_device device_id s r).1
  unfolding register_device
  register_device-IsRegistry device_id = record {
    sessions_Unique = ground (arith, v.sessions_Unique);
    devices_Unique = ground (arith, put-Unique r.devices device_id s v.devices_Unique);
    attached = λ j slot e. ground (arith, v.attached j slot);
  }
