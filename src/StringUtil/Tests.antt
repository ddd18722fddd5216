-- ===== src/StringUtil/Tests.antt =====
-- Runs of the string functions of fma-common/string_util.h.
use fma_common.Common.{
  ℕ, ◌≡◌, refl, ◌↔◌, [], ◌∷◌, ◌++◌, arith, Bytes, Bool, true, false, if◌then◌else◌, length, map,
  codes, ◌==◌,
}
use fma_common.Common.Int.{negsuc}
use fma_common.TextParser.Numbers.{parsed, parse_int64}
use fma_common.StringUtil.{is_in, string_equal, starts_with, fold_case, split, filter_string}
use fma_common.StringUtil.Print.{
  print_signed, print_uint, reversed_digits, parse_int64-print_signed,
}
use fma_common.StringUtil.Compare.{starts_with_lem, string_equal_lem}
use fma_common.StringUtil.Split.{Cuts, concat, split_lem}

parse_int64-print_signed_example :
    parse_int64 (print_signed 64 (negsuc 41))
    ≡ parsed (length (print_signed 64 (negsuc 41))) (negsuc 41)
parse_int64-print_signed_example =
    parse_int64-print_signed 64 (negsuc 41) (omega arith) (omega arith)

-- `ToString` of -128 as an int8_t prints no digit.
abbrev least_int8 : Bytes
least_int8 = b'-' ∷ b'/' ∷ b'.' ∷ b'(' ∷ []

least_int8_lem : print_signed 8 (negsuc 127) ≡ least_int8
unfolding print_signed print_uint reversed_digits
least_int8_lem = refl

-- A `tolower` of ASCII letters.
abbrev lower_demo : ℕ → ℕ
lower_demo c = if c == b'A' then b'a' else c

starts_with_example : (starts_with lower_demo (codes "Abc") (codes "aB") false ≡ true) ↔ (
    (head : Bytes) × (rest : Bytes) × (codes "Abc" ≡ head ++ rest)
    × (map (fold_case lower_demo false) head ≡ map (fold_case lower_demo false) (codes "aB")))
starts_with_example = starts_with_lem lower_demo (codes "Abc") (codes "aB") false

string_equal_example : (string_equal lower_demo (codes "xA") (codes "xa") false ≡ true) ↔ (
    map (fold_case lower_demo false) (codes "xA") ≡ map (fold_case lower_demo false) (codes "xa"))
string_equal_example = string_equal_lem lower_demo (codes "xA") (codes "xa") false

abbrev is_space : ℕ → Bool
is_space c = is_in c (codes " ")

split_example :
    Cuts (λ c. is_in c (codes ",;")) (codes "a,b;") (split (codes "a,b;") (codes ",;"))
    × (concat (split (codes "a,b;") (codes ",;")) ≡ filter_string (codes "a,b;") (codes ",;"))
split_example = split_lem (codes "a,b;") (codes ",;")
