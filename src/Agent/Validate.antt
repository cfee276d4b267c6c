-- ===== src/Agent/Validate.antt =====
-- agent/src/validate.rs: the limits on a JSON value that a request may carry. The type of JSON values is that
-- of the crate serde_json: a parameter, with the view of a value that a match on it gives.
mod Limits
mod Tests
use mu5250_open_ui.Base.{ℕ, zero, suc, List, [], ◌∷◌, map, length, ltb, if◌then◌else◌}
use mu5250_open_ui.Base.Results.{Result, ok, err, and_then}

abbrev pub max_depth : ℕ
max_depth = 8

abbrev pub max_string_len : ℕ
max_string_len = 4096

abbrev pub max_keys : ℕ
max_keys = 64

abbrev pub max_array_len : ℕ
max_array_len = 256

-- What a match on a value shows.
pub data Shape (V : Type 0) : Type 0 where
  null bool number : Shape V
  string : List ℕ → Shape V
  array : List V → Shape V
  object : List (List ℕ × V) → Shape V

-- The error texts, with the numbers that they quote.
pub data Error : Type 0 where
  too_deep got_null not_container : Error
  too_many_keys array_too_large string_too_long : ℕ → Error

abbrev pub values : {V : Type 0} → List (List ℕ × V) → List V
values entries = map (λ e. e.1) entries

-- `for val in .. { check_depth(val, depth + 1)?; }`
unfoldable pub check_each :
    {V : Type 0} → (V → Result Error (Unit {0})) → List V → Result Error (Unit {0})
check_each check [] = ok tt
check_each check (v ∷ vs) = and_then (check v) (λ _. check_each check vs)

-- The match on a value, with the check of the values in it.
unfoldable pub check_shape :
    {V : Type 0} → (V → Result Error (Unit {0})) → Shape V → Result Error (Unit {0})
unfolding check_each
check_shape check null = ok tt
check_shape check bool = ok tt
check_shape check number = ok tt
check_shape check (string s) =
    if ltb max_string_len (length s) then err (string_too_long (length s)) else ok tt
check_shape check (array arr) =
    if ltb max_array_len (length arr)
    then err (array_too_large (length arr))
    else check_each check arr
check_shape check (object entries) =
    if ltb max_keys (length entries)
    then err (too_many_keys (length entries))
    else check_each check (values entries)

module _ {V : Type 0} (shape : V → Shape V) where
  -- The check with `levels` more levels allowed: at depth `depth` there are `max_depth + 1 - depth`, and at
  -- none the value is too deep.
  unfoldable pub check_depth : ℕ → V → Result Error (Unit {0})
  check_depth zero v = err too_deep
  check_depth (suc levels) v = check_shape (check_depth levels) (shape v)

  unfoldable pub validate_ubus_input : V → Result Error (Unit {0})
  validate_ubus_input v = elim (shape v) [
    | null ↦ err got_null
    | bool ↦ err not_container
    | number ↦ err not_container
    | string s ↦ err not_container
    | array arr ↦ check_depth (suc max_depth) v
    | object entries ↦ check_depth (suc max_depth) v
  ]
