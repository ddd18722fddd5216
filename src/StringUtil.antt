-- ===== src/StringUtil.antt =====
-- fma-common/string_util.h: trimming, comparing, splitting and joining of strings, and the printing
-- of integers. `tolower` of the C library is a parameter.
pub mod Print
pub mod Compare
pub mod Strip
pub mod Split
mod Tests
use fma_common.Common.{
  ℕ, zero, suc, ◌+◌, ◌-◌, List, [], ◌∷◌, ◌++◌, Bytes, Bool, true, false, not, ◌&&◌, ltb, ◌==◌,
  if◌then◌else◌, length, drop, codes, eq_bytes, map, Option, none, some,
}

-- `IsIn`
unfoldable pub is_in : ℕ → Bytes → Bool
is_in c [] = false
is_in c (x ∷ xs) = if x == c then true else is_in c xs

-- The string from the first byte on that fails a test, and the part before it.
pub skip_front : (ℕ → Bool) → Bytes → Bytes
skip_front test [] = []
skip_front test (c ∷ s) = if test c then skip_front test s else c ∷ s

pub take_front : (ℕ → Bool) → Bytes → Bytes
take_front test [] = []
take_front test (c ∷ s) = if test c then c ∷ take_front test s else []

-- A byte before what is kept: it stays unless it passes the test and nothing is kept behind it.
unfoldable pub keep_byte : Bytes → Bool → ℕ → Bytes
keep_byte [] true c = []
keep_byte [] false c = c ∷ []
keep_byte (d ∷ kept) passed c = c ∷ d ∷ kept

-- The string up to the last byte that fails a test.
pub trim_back : (ℕ → Bool) → Bytes → Bytes
trim_back test [] = []
trim_back test (c ∷ s) = keep_byte (trim_back test s) (test c) c

-- The two loops that `Strip` shares between a character and a set of them.
pub strip_with : (ℕ → Bool) → Bytes → Bytes
strip_with test str = trim_back test (skip_front test str)

pub strip_char : Bytes → ℕ → Bytes
strip_char str c = strip_with (λ x. x == c) str

pub strip : Bytes → Bytes → Bytes
strip str chars = strip_with (λ x. is_in x chars) str

-- The comparing loop over `pattern`, with a view of the bytes.
pub same_bytes : (ℕ → ℕ) → Bytes → Bytes → Bool
same_bytes f s [] = true
same_bytes f [] (p ∷ ps) = false
same_bytes f (c ∷ s) (p ∷ ps) = if f p == f c then same_bytes f s ps else false

module _ (tolower : ℕ → ℕ) where
  -- How the two branches see a byte.
  abbrev pub fold_case : Bool → ℕ → ℕ
  fold_case case_sensitive c = if case_sensitive then c else tolower c

  pub string_equal : Bytes → Bytes → Bool → Bool
  string_equal left right case_sensitive =
      if length left == length right
      then same_bytes (fold_case case_sensitive) left right
      else false

  pub starts_with : Bytes → Bytes → Bool → Bool
  starts_with str pattern case_sensitive =
      if ltb (length str) (length pattern)
      then false
      else same_bytes (fold_case case_sensitive) str pattern

  pub ends_with : Bytes → Bytes → Bool → Bool
  ends_with str pattern case_sensitive =
      if ltb (length str) (length pattern)
      then false
      else same_bytes (fold_case case_sensitive) (drop (length str - length pattern) str) pattern

  -- `ParseString<bool>`
  pub parse_string_bool : Bytes → Option Bool
  parse_string_bool str =
      let s = map tolower str in
      let is = λ (word : Bytes). eq_bytes s word in
      if is (codes "true")
      then some true
      else if is (codes "t")
      then some true
      else if is (codes "1")
      then some true
      else if is (codes "false")
      then some false
      else if is (codes "f")
      then some false
      else if is (codes "0")
      then some false
      else none

-- The loop of `Split` on what is left of the string; each round but the last takes one byte or more.
pub split_loop : ℕ → (ℕ → Bool) → Bytes → List Bytes
split_loop zero breaker str = []
split_loop (suc fuel) breaker str =
    let start = skip_front breaker str in
    let word = take_front (λ c. not (breaker c)) start in
    let rest = split_loop fuel breaker (skip_front (λ c. not (breaker c)) start) in
    if length str == 0 then [] else if length word == 0 then rest else word ∷ rest

pub split : Bytes → Bytes → List Bytes
split str breakers = split_loop (length str) (λ c. is_in c breakers) str

pub filter_string : Bytes → Bytes → Bytes
filter_string [] to_be_removed = []
filter_string (c ∷ str) to_be_removed =
    let rest = filter_string str to_be_removed in if is_in c to_be_removed then rest else c ∷ rest

-- `JoinString`; the source reads the first string without a test, so there is one.
pub join_string : Bytes → List Bytes → Bytes → Bytes
join_string first [] glue = first
join_string first (next ∷ more) glue = first ++ (glue ++ join_string next more glue)
