-- ===== src/Json.antt =====
-- The values of a decoded JSON document, `Any` in a payload, and Python's tests on them.
-- Of a float only its truth value is kept: the code never computes with one.
use termhop.Base.{ℕ, String, ◌==◌, Bool, true, false, not, eqb}
use termhop.Dict.{Dict}

pub data ℤ : Type 0 where
  pos : ℕ → ℤ
  negsuc : ℕ → ℤ

mutual
  pub data Value : Type 0 where
    null : Value
    obj : Fields → Value
    arr : Items → Value
    str : String → Value
    bool : Bool → Value
    int : ℤ → Value
    float : Bool → Value

  pub data Fields : Type 0 where
    end : Fields
    field : String → Value → Fields → Fields

  pub data Items : Type 0 where
    nil : Items
    cons : Value → Items → Items

-- payload: dict[str, Any]
abbrev pub Payload : Type 0
Payload = Dict Value

-- bool(value)
unfoldable pub truthy : Value → Bool
truthy null = false
truthy (bool b) = b
truthy (int (pos n)) = not (eqb n 0)
truthy (int (negsuc n)) = true
truthy (float nonzero) = nonzero
truthy (str s) = not (s == "")
truthy (arr nil) = false
truthy (arr (cons _ _)) = true
truthy (obj end) = false
truthy (obj (field _ _ _)) = true
