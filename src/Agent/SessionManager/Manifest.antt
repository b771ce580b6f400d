-- ===== src/Agent/SessionManager/Manifest.antt =====
-- agent/common/session_manager.py: the manifest as a JSON document, how `_save` writes it and `_load` reads it.
-- What is read has only its identifier checked: the other fields are whatever stood there.
pub mod RoundTrip
use termhop.Base.{
  String, ◌==◌, Bool, true, false, not, ◌&&◌, Option, none, some, List, [], ◌∷◌, if◌then◌else◌,
  is_some, every, member,
}
use termhop.Dict.{Dict, get, put}
use termhop.Json.{ℤ, pos, Value, null, str, int, obj, arr, Fields, end, field, Items, nil, cons}
use termhop.Agent.SessionManager.{SessionRecord, state_name, is_session_id}

-- SessionRecord(**item)
pub record LoadedRecord : Type 0 where
  pub session_id : String
  pub label : Value
  pub cwd : Value
  pub state : Value
  pub created_at : Value
  pub updated_at : Value
  pub exit_code : Value

abbrev code_value : Option ℤ → Value
code_value none = null
code_value (some n) = int n

-- asdict(item)
abbrev pub asdict : SessionRecord → Value
asdict r = obj (
    field "session_id" (str r.session_id) (
      field "label" (str r.label) (
        field "cwd" (str r.cwd) (
          field "state" (str (state_name r.state)) (
            field "created_at" (int (pos r.created_at)) (
              field "updated_at" (int (pos r.updated_at))
                (field "exit_code" (code_value r.exit_code) end)))))))

abbrev pub document : List SessionRecord → Items
document [] = nil
document (r ∷ rs) = cons (asdict r) (document rs)

-- What `json.loads` makes of an object
unfoldable pub arguments : Dict Value → Fields → Dict Value
arguments d end = d
arguments d (field k v fs) = arguments (put d k v) fs

abbrev field_names : List String
field_names =
    "session_id" ∷ "label" ∷ "cwd" ∷ "state" ∷ "created_at" ∷ "updated_at" ∷ "exit_code" ∷ []

-- The default of `exit_code`
abbrev or_null : Option Value → Value
or_null none = null
or_null (some v) = v

-- Every argument that has no default
required :
    Option Value
    → Option Value
    → Option Value
    → Option Value
    → Option Value
    → Option Value
    → Value
    → Option LoadedRecord
required (some (str session_id)) (some label) (some cwd) (some state) (some created_at)
      (some updated_at) code =
    if is_session_id session_id
    then some (record {
      session_id = session_id;
      label = label;
      cwd = cwd;
      state = state;
      created_at = created_at;
      updated_at = updated_at;
      exit_code = code;
    })
    else none
required _ _ _ _ _ _ code = none

from_arguments : Dict Value → Option LoadedRecord
unfolding required
from_arguments d =
    if every (λ kv. member kv.0 field_names) d
    then required (get d "session_id") (get d "label") (get d "cwd") (get d "state")
        (get d "created_at") (get d "updated_at") (or_null (get d "exit_code"))
    else none

-- The record that an item is, where it is one and its identifier fits
unfoldable pub read_record : Value → Option LoadedRecord
unfolding from_arguments arguments
read_record (obj fs) = from_arguments (arguments [] fs)
read_record _ = none

abbrev keep : Dict LoadedRecord → Option LoadedRecord → Dict LoadedRecord
keep d none = d
keep d (some r) = put d r.session_id r

unfoldable pub load_items : Dict LoadedRecord → Items → Dict LoadedRecord
unfolding read_record
load_items d nil = d
load_items d (cons v vs) = load_items (keep d (read_record v)) vs

-- `_load` of a new manager, by what `json.loads` gives of the file; none where reading it fails
unfoldable pub load : Option Value → Dict LoadedRecord
unfolding load_items
load (some (arr items)) = load_items [] items
load _ = []

-- The document that a manifest is read as
abbrev pub file_value : Option (List SessionRecord) → Option Value
file_value none = none
file_value (some records) = some (arr (document records))
