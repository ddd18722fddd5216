-- ===== src/Configuration/Typed.antt =====
-- fma-common/option.h, the template `Option<T>`: `Check` and `Value`. Of the type `T` the template uses
-- `ParseString`, which says whether it succeeds and leaves a value in any case, `<`, and the equality of
-- the set of possible values; these are parameters. `OptionRef` has the value that the option refers to.
pub mod Check
mod Tests
use fma_common.Common.{
  Bool, true, false, not, ◌&&◌, ◌||◌, Option, none, some, List, [], ◌∷◌, Bytes, if◌then◌else◌,
}

pub record TypedOption (T : Type 0) : Type 0 where
  pub value_string : Option Bytes
  pub default : Option T
  pub min : Option T
  pub max : Option T
  pub possible_values : List T
  pub checked : Bool
  pub value : T
  pub value_ref : T

module _ {T : Type 0} (parse_string : Bytes → T → Bool × T) (less same : T → T → Bool) where
  -- `find` of the set of possible values.
  pub is_listed : T → List T → Bool
  is_listed v [] = false
  is_listed v (w ∷ ws) = if same v w then true else is_listed v ws

  -- The value before the limits are tested, and whether it could be parsed.
  pub fetch : Option Bytes → Option T → T → Bool × T
  fetch none none value = (true, value)
  fetch none (some d) value = (true, d)
  fetch (some s) none value = parse_string s value
  fetch (some s) (some d) value = parse_string s d

  pub is_passed : Option Bytes → Option T → Bool
  is_passed none none = false
  is_passed none (some d) = true
  is_passed (some s) d = true

  pub is_below : Option T → T → Bool
  is_below none v = false
  is_below (some min) v = less v min

  pub is_above : Option T → T → Bool
  is_above none v = false
  is_above (some max) v = less max v

  pub is_possible : List T → T → Bool
  is_possible [] v = true
  is_possible (w ∷ ws) v = is_listed v (w ∷ ws)

  pub in_limits : TypedOption T → T → Bool
  in_limits o v =
      if is_below o.min v
      then false
      else if is_above o.max v
      then false
      else is_possible o.possible_values v

  -- The end of `Check`, by what its tests give: whether it returns, and the option then; otherwise it
  -- throws.
  pub end_check : Bool → Bool → Bool → T → TypedOption T → Bool × TypedOption T
  end_check parsed passed within v o =
      let fetched = record o { checked = true; value = v } in
      if not parsed
      then (false, fetched)
      else if not passed
      then (false, fetched)
      else if within
      then (true, record fetched { value_ref = v })
      else (false, fetched)

  -- `Check`
  pub check : TypedOption T → Bool × TypedOption T
  check o =
      let (parsed, v) = fetch o.value_string o.default o.value in
      if o.checked
      then (true, o)
      else end_check parsed (is_passed o.value_string o.default) (in_limits o v) v o
