-- ===== src/Json.antt =====
-- Values that the program receives as `unknown`: parsed JSON, and `undefined` for what is absent.
use ticket_c2c_platform.Prelude.{ℕ, Bool, true, false, Text, ◌=t◌, if◌then◌else◌}

-- A JavaScript number: a whole one, -(n + 1), or any other (a fraction, NaN, an infinity).
pub data JsNumber : Type 0 where
  whole negative : ℕ → JsNumber
  other : JsNumber

mutual
  pub data Json : Type 0 where
    undefined null : Json
    bool : Bool → Json
    num : JsNumber → Json
    str : Text → Json
    arr : Items → Json
    obj : Fields → Json

  pub data Items : Type 0 where
    nil : Items
    cons : Json → Items → Items

  -- The properties of an object; no key stands twice.
  pub data Fields : Type 0 where
    end : Fields
    field : Text → Json → Fields → Fields

unfoldable pub get_field : Text → Fields → Json
get_field k end = undefined
get_field k (field j v fs) = if j =t k then v else get_field k fs

-- `value[key]` of an object
unfoldable pub get : Text → Json → Json
unfolding get_field
get k (obj fs) = get_field k fs
get k _ = undefined

abbrev pub is_undefined : Json → Bool
is_undefined undefined = true
is_undefined _ = false

-- `typeof value === 'object' && value !== null && !Array.isArray(value)`
abbrev pub is_object : Json → Bool
is_object (obj fs) = true
is_object _ = false

-- Number.MAX_SAFE_INTEGER
abbrev pub max_safe_integer : ℕ
max_safe_integer = 9007199254740991
