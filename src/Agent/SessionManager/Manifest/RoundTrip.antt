-- ===== src/Agent/SessionManager/Manifest/RoundTrip.antt =====
-- What a session manager saves is what the next one loads.
use termhop.Base.{
  String, ◌≡◌, refl, sym, ◌∙◌, ap, ◌==◌, true, Option, none, some, List, [], ◌∷◌, if◌then◌else◌,
  Bool-cases, inl, inr, eq_iff,
}
use termhop.Dict.{Dict, get, put, values, get-put}
use termhop.Json.{pos, Value, int, Items, cons}
use termhop.Agent.SessionManager.{
  SessionRecord, SessionManager, Inputs, state_name, is_session_id, save, write_manifest,
}
use termhop.Agent.SessionManager.Manifest.{
  LoadedRecord, asdict, document, arguments, required, from_arguments, read_record, load_items,
  load, file_value, code_value, keep,
}

-- The record as it is loaded
abbrev pub loaded : SessionRecord → LoadedRecord
loaded r = record {
  session_id = r.session_id;
  label = Value.str r.label;
  cwd = Value.str r.cwd;
  state = Value.str (state_name r.state);
  created_at = int (pos r.created_at);
  updated_at = int (pos r.updated_at);
  exit_code = code_value r.exit_code;
}

-- Every record stands under its own identifier, which has the right form, and no identifier comes twice.
abbrev pub IsKeyed : Dict SessionRecord → Type 0
IsKeyed [] = Unit {0}
IsKeyed ((k, r) ∷ d) =
    (k ≡ r.session_id) × (is_session_id r.session_id ≡ true) × (get d k ≡ none) × IsKeyed d

read_record-asdict :
    (r : SessionRecord)
    → is_session_id r.session_id ≡ true
    → read_record (asdict r) ≡ some (loaded r)
unfolding read_record from_arguments arguments required get put
read_record-asdict r fits = rw fits refl

abbrev or_else : Option LoadedRecord → Option LoadedRecord → Option LoadedRecord
or_else none other = other
or_else (some r) other = some r

abbrev pub loaded_of : Option SessionRecord → Option LoadedRecord
loaded_of none = none
loaded_of (some r) = some (loaded r)

load_item :
    (acc : Dict LoadedRecord) (v : Value) (vs : Items) (r : LoadedRecord)
    → read_record v ≡ some r
    → load_items acc (cons v vs) ≡ load_items (put acc r.session_id r) vs
unfolding load_items
load_item acc v vs r h = ap (λ o. load_items (keep acc o) vs) h

-- A record that is not listed later is found, where it is looked for.
found_first :
    (j k : String) (r : SessionRecord) (later : Option SessionRecord) (before : Option LoadedRecord)
    → (j ≡ k → later ≡ none)
    → or_else (loaded_of later) (if j == k then some (loaded r) else before)
      ≡ or_else (loaded_of (if j == k then some r else later)) before
found_first j k r later before unique = elim (Bool-cases (j == k)) [
  | inl same ↦ rw same (rw (unique ((eq_iff j k).0 same)) refl)
  | inr other ↦ rw other refl
]

get-load_items :
    (d : Dict SessionRecord) (acc : Dict LoadedRecord) (k : String)
    → IsKeyed d
    → get (load_items acc (document (values d))) k ≡ or_else (loaded_of (get d k)) (get acc k)
unfolding values get
get-load_items [] acc k keyed = unfold load_items in refl
get-load_items ((j, r) ∷ d) acc k (named, fits, unique, keyed) =
    ap (λ (l : Dict LoadedRecord). get l k)
      (load_item acc (asdict r) (document (values d)) (loaded r) (read_record-asdict r fits))
    ∙ get-load_items d (put acc r.session_id (loaded r)) k keyed
    ∙ ap (or_else (loaded_of (get d k))) (get-put acc r.session_id k (loaded r))
    ∙ ap (λ id. or_else (loaded_of (get d k)) (if id == k then some (loaded r) else get acc k))
        (sym named)
    ∙ found_first j k r (get d k) (get acc k) λ same. ap (λ id. get d id) (sym same) ∙ unique

or_else-none : (o : Option LoadedRecord) → or_else o none ≡ o
or_else-none none = refl
or_else-none (some r) = refl

-- After a save that the disk takes, a new manager on the same file finds under every identifier the record that
-- the old one had there, with all its fields, or none if it had none: where every record stands under its own
-- identifier, which has the right form, and no identifier comes twice.
pub load-save :
    (io : Inputs) (m : SessionManager) (old : List SessionRecord) (k : String)
    → m.manifest ≡ some old
    → io.disk_up ≡ true
    → IsKeyed m.sessions
    → get (load (file_value (save io m).1.manifest)) k ≡ loaded_of (get m.sessions k)
unfolding save write_manifest load get
load-save io m old k on_disk up keyed =
    simp (on_disk, up) (get-load_items m.sessions [] k keyed ∙ or_else-none _)
