-- ===== src/Relay/Envelope/Laws.antt =====
-- What an accepted envelope is known to be.
use Prim.Native.String.{len}
use termhop.Base.{
  ℕ, ◌-◌, ◌≤◌, ◌^◌, ◌≡◌, refl, ap, subst, get_or, in_range, ◌&&◌, leb, String, Bool, true, false,
  Option, none, some, [], str_len, codes, arith, if◌then◌else◌, ltb, eqb,
}
use termhop.Dict.{Dict, get}
use termhop.Json.{Value, null, bool, int, float, str, arr, obj, pos, negsuc}
use termhop.Relay.Errors.{Raised}
use termhop.Relay.Exec.{Result, ok, raised}
use termhop.Relay.Envelope.{
  Envelope, int_field, type_field, type_chars, session_field, payload_field, known_fields, ◌>>=?◌,
  as_dict, validate_dict, model_validate, check_version, validated, decoded, parse_envelope,
}

abbrev FitsSession : Option String → Type 0
FitsSession none = Unit {0}
FitsSession (some s) = str_len s ≤ 69

-- The bounds of every field, and the form of the type.
pub record IsWellFormed (e : Envelope) : Type 0 where
  pub v_bounds : (1 ≤ e.v) × (e.v ≤ 255)
  pub type_bounds : (1 ≤ str_len e.type) × (str_len e.type ≤ 64)
  pub type_form : type_chars (codes e.type) ≡ true
  pub session_fits : FitsSession e.session_id
  pub seq_bound : e.seq ≤ 2 ^ 53 - 1
  pub ts_bound : e.ts ≤ 2 ^ 63 - 1

given :
    {A B : Type 0} (o : Option A) (f : A → Option B) {b : B}
    → (o >>=? f) ≡ some b
    → (a : A) × (o ≡ some a) × (f a ≡ some b)
given none f h = cc
given (some a) f h = (a, refl, h)

cond_some :
    {A : Type 0} (b : Bool) {t s : A} → (if b then some t else none) ≡ some s → (b ≡ true) × (t ≡ s)
cond_some true {t} h = (refl, ap (get_or t) h)
cond_some false h = cc

int_field-bounds :
    (lo hi : ℕ) (o : Option Value) {n : ℕ} → int_field lo hi o ≡ some n → (lo ≤ n) × (n ≤ hi)
unfolding int_field
int_field-bounds lo hi (some (int (pos k))) h = ground arith
int_field-bounds lo hi (some (int (negsuc k))) h = cc
int_field-bounds lo hi (some null) h = cc
int_field-bounds lo hi (some (bool b)) h = cc
int_field-bounds lo hi (some (float b)) h = cc
int_field-bounds lo hi (some (str s)) h = cc
int_field-bounds lo hi (some (arr x)) h = cc
int_field-bounds lo hi (some (obj x)) h = cc
int_field-bounds lo hi none h = cc

abbrev IsType : String → Type 0
IsType s = (1 ≤ str_len s) × (str_len s ≤ 64) × (type_chars (codes s) ≡ true)

type_field-IsType : (o : Option Value) {s : String} → type_field o ≡ some s → IsType s
unfolding type_field
type_field-IsType (some (str t)) h =
    let p = cond_some (in_range 1 64 (str_len t) && type_chars (codes t)) h in
    subst IsType p.1 (ground (arith, p.0), ground (arith, p.0), ground (arith, p.0))
type_field-IsType (some (int k)) h = cc
type_field-IsType (some null) h = cc
type_field-IsType (some (bool b)) h = cc
type_field-IsType (some (float b)) h = cc
type_field-IsType (some (arr x)) h = cc
type_field-IsType (some (obj x)) h = cc
type_field-IsType none h = cc

session_field-fits :
    (o : Option Value) {s : Option String} → session_field o ≡ some s → FitsSession s
unfolding session_field
session_field-fits (some (str t)) h =
    let p = cond_some (leb (str_len t) 69) h in subst FitsSession p.1 (ground (arith, p.0))
session_field-fits (some (int k)) h = cc
session_field-fits (some null) h = subst FitsSession (ap (get_or none) h) tt
session_field-fits (some (bool b)) h = cc
session_field-fits (some (float b)) h = cc
session_field-fits (some (arr x)) h = cc
session_field-fits (some (obj x)) h = cc
session_field-fits none h = subst FitsSession (ap (get_or none) h) tt

some_eq : {A : Type 0} {a b : A} → some a ≡ some b → a ≡ b
some_eq {a = a} h = ap (get_or a) h

when_true :
    {A : Type 0} (b : Bool) {o : Option A} {a : A} → (if b then o else none) ≡ some a → o ≡ some a
when_true true h = h
when_true false h = cc

validate_dict-IsWellFormed :
    (d : Dict Value) {e : Envelope} → validate_dict d ≡ some e → IsWellFormed e
unfolding validate_dict
validate_dict-IsWellFormed d h =
    let (version, v_read, h₁) =
      given (int_field 1 255 (get d "v")) _ (when_true (known_fields d) h) in
    let (kind, type_read, h₂) = given (type_field (get d "type")) _ h₁ in
    let (session, session_read, h₃) = given (session_field (get d "session_id")) _ h₂ in
    let (number, seq_read, h₄) = given (int_field 0 (2 ^ 53 - 1) (get d "seq")) _ h₃ in
    let (stamp, ts_read, h₅) = given (int_field 0 (2 ^ 63 - 1) (get d "ts")) _ h₄ in
    let (body, payload_read, h₆) = given (payload_field (get d "payload")) _ h₅ in
    let type_is = type_field-IsType (get d "type") type_read in
    subst IsWellFormed (some_eq h₆) (record {
      v_bounds = int_field-bounds 1 255 (get d "v") v_read;
      type_bounds = (type_is.0, type_is.1);
      type_form = type_is.2;
      session_fits = session_field-fits (get d "session_id") session_read;
      seq_bound = (int_field-bounds 0 (2 ^ 53 - 1) (get d "seq") seq_read).1;
      ts_bound = (int_field-bounds 0 (2 ^ 63 - 1) (get d "ts") ts_read).1;
    })

model_validate-IsWellFormed :
    (x : Value) {e : Envelope} → model_validate x ≡ some e → IsWellFormed e
unfolding model_validate
model_validate-IsWellFormed (obj fs) h = validate_dict-IsWellFormed (as_dict [] fs) h
model_validate-IsWellFormed null h = cc
model_validate-IsWellFormed (bool b) h = cc
model_validate-IsWellFormed (int k) h = cc
model_validate-IsWellFormed (float b) h = cc
model_validate-IsWellFormed (str s) h = cc
model_validate-IsWellFormed (arr x) h = cc

ok_value : Envelope → Result Envelope → Envelope
ok_value e (ok x) = x
ok_value e (raised r) = e

ok_if :
    (b : Bool) (r : Raised) {x y : Envelope}
    → (if b then ok x else raised r) ≡ ok y
    → (b ≡ true) × (x ≡ y)
unfolding ok_value
ok_if true r {x} h = (refl, ap (ok_value x) h)
ok_if false r h = cc

-- An accepted envelope is of the expected version, and within the bounds.
abbrev IsAccepted : ℕ → Envelope → Type 0
IsAccepted version e = (e.v ≡ version) × IsWellFormed e

validated-IsAccepted :
    (version : ℕ) (o : Option Envelope) {e : Envelope}
    → ((x : Envelope) → o ≡ some x → IsWellFormed x)
    → validated version o ≡ ok e
    → IsAccepted version e
unfolding validated check_version
validated-IsAccepted version none k h = cc
validated-IsAccepted version (some x) k h =
    let p = ok_if (eqb x.v version) _ h in
    subst (IsAccepted version) p.1 (ground (arith, p.0), k x refl)

decoded-IsAccepted :
    (version : ℕ) (o : Option Value) {e : Envelope}
    → decoded version o ≡ ok e
    → IsAccepted version e
unfolding decoded
decoded-IsAccepted version none h = cc
decoded-IsAccepted version (some x) h =
    validated-IsAccepted version (model_validate x) (λ y. model_validate-IsWellFormed x) h

not_too_long :
    (b : Bool) (r : Raised) {x : Result Envelope} {e : Envelope}
    → (if b then raised r else x) ≡ ok e
    → (b ≡ false) × (x ≡ ok e)
not_too_long true r h = cc
not_too_long false r h = (refl, h)

-- Whatever the JSON decoder gives, a text that is accepted is no longer than the cap in bytes, and its
-- envelope is of the expected version, with every field within the declared bounds and a type of the
-- declared form.
pub parse_envelope-accepts :
    (json_loads : String → Option Value) (raw : String) (max_bytes version : ℕ) {e : Envelope}
    → parse_envelope json_loads raw max_bytes version ≡ ok e
    → (len raw ≤ max_bytes) × (e.v ≡ version) × IsWellFormed e
unfolding parse_envelope
parse_envelope-accepts json_loads raw max_bytes version h =
    let p = not_too_long (ltb max_bytes (len raw)) _ h in
    let accepted = decoded-IsAccepted version (json_loads raw) p.1 in
    (ground (arith, p.0), accepted.0, accepted.1)
