-- ===== src/Configuration/Typed/Tests.antt =====
-- Options of numbers and their `Check` (fma-common/option.h).
use fma_common.Common.{
  ℕ, ◌≡◌, refl, Bool, true, false, Option, some, [], ◌∷◌, Bytes, codes, ltb, ◌==◌, length,
}
use fma_common.Configuration.Typed.{
  TypedOption, is_listed, fetch, is_passed, is_below, is_above, is_possible, in_limits, end_check,
  check,
}
use fma_common.Configuration.Typed.Check.{
  check-check, check-accepts, Given, AtLeast, AtMost, Listed,
}

-- An option of numbers, with the length of a text for its number.
abbrev parse_demo : Bytes → ℕ → Bool × ℕ
parse_demo s start = (ltb 0 (length s), length s)

abbrev limited_demo : Option Bytes → TypedOption ℕ
limited_demo text = record {
  value_string = text;
  default = some 2;
  min = some 1;
  max = some 3;
  possible_values = 2 ∷ 3 ∷ [];
  checked = false;
  value = 0;
  value_ref = 0;
}

less_demo : ℕ → ℕ → Bool
less_demo a b = ltb a b

same_demo : ℕ → ℕ → Bool
same_demo a b = a == b

check-accepts_example :
    (v : ℕ) × ((check parse_demo less_demo same_demo (limited_demo (some (codes "abc")))).1
      ≡ record (limited_demo (some (codes "abc"))) { checked = true; value = v; value_ref = v })
    × Given parse_demo less_demo same_demo (some (codes "abc")) (some 2) v
    × AtLeast parse_demo less_demo same_demo (some 1) v
    × AtMost parse_demo less_demo same_demo (some 3) v
    × Listed parse_demo less_demo same_demo (2 ∷ 3 ∷ []) v
unfolding check end_check fetch is_passed in_limits is_below is_above is_possible is_listed
    less_demo same_demo
check-accepts_example =
    check-accepts parse_demo less_demo same_demo (limited_demo (some (codes "abc"))) refl refl

-- A value above the maximum.
check_large_demo :
    (check parse_demo less_demo same_demo (limited_demo (some (codes "abcd")))).0 ≡ false
unfolding check end_check fetch is_passed in_limits is_below is_above is_possible is_listed
    less_demo same_demo
check_large_demo = refl

check-check_example :
    check parse_demo less_demo same_demo
      (check parse_demo less_demo same_demo (limited_demo (some (codes "abcd")))).1
    ≡ (true, (check parse_demo less_demo same_demo (limited_demo (some (codes "abcd")))).1)
check-check_example =
    check-check parse_demo less_demo same_demo (limited_demo (some (codes "abcd")))
