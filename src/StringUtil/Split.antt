-- ===== src/StringUtil/Split.antt =====
-- What `Split` of fma-common/string_util.h finds, with `FilterString` and `JoinString`.
use fma_common.Common.{
  ℕ, zero, suc, ◌≤◌, ◌<◌, ◌≡◌, refl, ◌∙◌, ap, sym, subst, List, [], ◌∷◌, ◌++◌, arith, Bytes, Bool,
  true, false, append_assoc, All-append, not, ◌==◌, if◌then◌else◌, Bool-cases, inl, inr, length,
  All,
}
use fma_common.StringUtil.{is_in, skip_front, take_front, split_loop, split, filter_string}

-- The words in one string.
abbrev pub concat : List Bytes → Bytes
concat [] = []
concat (w ∷ ws) = w ++ concat ws

-- A word of `Split`: it is not empty and has no breaker.
abbrev pub IsWord : (ℕ → Bool) → Bytes → Type 0
IsWord breaker word = (0 < length word) × All (λ c. breaker c ≡ false) word

-- Without the breakers.
abbrev pub kept : (ℕ → Bool) → Bytes → Bytes
kept breaker [] = []
kept breaker (c ∷ s) = if breaker c then kept breaker s else c ∷ kept breaker s

filter_string_lem : (str chars : Bytes) → filter_string str chars ≡ kept (λ c. is_in c chars) str
unfolding filter_string
filter_string_lem [] chars = refl
filter_string_lem (c ∷ str) chars = rw (filter_string_lem str chars) refl

kept-skip_front : (b : ℕ → Bool) (s : Bytes) → kept b (skip_front b s) ≡ kept b s
unfolding skip_front
kept-skip_front b [] = refl
kept-skip_front b (c ∷ s) = ground (arith, kept-skip_front b s)

kept_front :
    (b : ℕ → Bool) (s : Bytes)
    → let other = λ (c : ℕ). not (b c) in
      take_front other s ++ kept b (skip_front other s) ≡ kept b s
unfolding skip_front take_front
kept_front b [] = refl
kept_front b (c ∷ s) = elim (Bool-cases (b c)) [
  | inl e ↦ rw e (rw e refl)
  | inr e ↦ rw e (ap (◌∷◌ c) (kept_front b s))
]

take_front-All : (b : ℕ → Bool) (s : Bytes) → All (λ c. b c ≡ false) (take_front (λ c. not (b c)) s)
unfolding take_front
take_front-All b [] = tt
take_front-All b (c ∷ s) = elim (Bool-cases (b c)) [
  | inl e ↦ rw e tt
  | inr e ↦ rw e (e, take_front-All b s)
]

length-skip_front : (b : ℕ → Bool) (s : Bytes) → length (skip_front b s) ≤ length s
unfolding skip_front
length-skip_front b [] = omega arith
length-skip_front b (c ∷ s) = ground (arith, length-skip_front b s)

-- One round shortens the string.
round_shorter :
    (b : ℕ → Bool) (s : Bytes)
    → 0 < length s
    → length (skip_front (λ c. not (b c)) (skip_front b s)) < length s
unfolding skip_front
round_shorter b [] h = absurd (omega arith)
round_shorter b (c ∷ s) h = elim (Bool-cases (b c)) [
  | inl e ↦
      rw e
        (omega (arith, length-skip_front (λ d. not (b d)) (skip_front b s), length-skip_front b s))
  | inr e ↦ rw e (rw e (omega (arith, length-skip_front (λ d. not (b d)) s)))
]

-- The string is empty, or begins with a breaker.
abbrev pub AtBreaker : (ℕ → Bool) → Bytes → Type 0
AtBreaker breaker [] = Unit
AtBreaker breaker (c ∷ s) = breaker c ≡ true

-- The string is breakers, a word that a breaker or the end follows, and so on, to breakers at its end.
pub data Cuts (breaker : ℕ → Bool) : Bytes → List Bytes → Type 0 where
  cut_end : {s : Bytes} → All (λ c. breaker c ≡ true) s → Cuts breaker s []
  cut_word :
      {s rest : Bytes} {words : List Bytes} (before found : Bytes)
      → s ≡ before ++ (found ++ rest)
      → All (λ c. breaker c ≡ true) before
      → IsWord breaker found
      → AtBreaker breaker rest
      → Cuts breaker rest words
      → Cuts breaker s (found ∷ words)

take_back_front : (f : ℕ → Bool) (s : Bytes) → take_front f s ++ skip_front f s ≡ s
unfolding take_front skip_front
take_back_front f [] = refl
take_back_front f (c ∷ s) = elim (Bool-cases (f c)) [
  | inl e ↦ rw e (ap (◌∷◌ c) (take_back_front f s))
  | inr e ↦ rw e refl
]

take_front-true : (f : ℕ → Bool) (s : Bytes) → All (λ c. f c ≡ true) (take_front f s)
unfolding take_front
take_front-true f [] = tt
take_front-true f (c ∷ s) = elim (Bool-cases (f c)) [
  | inl e ↦ rw e (e, take_front-true f s)
  | inr e ↦ rw e tt
]

skip_front-AtBreaker : (b : ℕ → Bool) (s : Bytes) → AtBreaker b (skip_front (λ c. not (b c)) s)
unfolding skip_front
skip_front-AtBreaker b [] = tt
skip_front-AtBreaker b (c ∷ s) = elim (Bool-cases (b c)) [
  | inl e ↦ rw e (rw e refl)
  | inr e ↦ rw e (skip_front-AtBreaker b s)
]

abbrev Splits : (ℕ → Bool) → Bytes → List Bytes → Type 0
Splits b s words = (concat words ≡ kept b s) × All (IsWord b) words

-- The result of one round, from the word that it finds and the words of the rest.
put_word :
    (b : ℕ → Bool) (s word rest : Bytes) (words : List Bytes)
    → word ++ kept b rest ≡ kept b s
    → All (λ c. b c ≡ false) word
    → Splits b rest words
    → Splits b s (if length word == 0 then words else word ∷ words)
put_word b s [] rest words parts plain (joined, all) = (joined ∙ parts, all)
put_word b s (c ∷ word) rest words parts plain (joined, all) =
    let some_byte : (length (c ∷ word) == 0) ≡ false = ground arith in
    rw some_byte (ap (◌++◌ (c ∷ word)) joined ∙ parts, ((omega arith, plain), all))

split_loop-Splits :
    (fuel : ℕ) (b : ℕ → Bool) (s : Bytes) → length s ≤ fuel → Splits b s (split_loop fuel b s)
unfolding split_loop
split_loop-Splits zero b [] h = (refl, tt)
split_loop-Splits zero b (c ∷ s) h = absurd (omega arith)
split_loop-Splits (suc fuel) b [] h = (refl, tt)
split_loop-Splits (suc fuel) b (c ∷ s) h =
    let start = skip_front b (c ∷ s) in
    let rest = skip_front (λ d. not (b d)) start in
    let some_byte : (length (c ∷ s) == 0) ≡ false = ground arith in
    let less : length rest ≤ fuel = omega (arith, round_shorter b (c ∷ s) (omega arith)) in
    rw some_byte (
      put_word b (c ∷ s) (take_front (λ d. not (b d)) start) rest (split_loop fuel b rest)
        (kept_front b start ∙ kept-skip_front b (c ∷ s)) (take_front-All b start)
        (split_loop-Splits fuel b rest less))

-- Breakers before a string.
Cuts-breakers :
    (b : ℕ → Bool) (before : Bytes) {s : Bytes} {words : List Bytes}
    → All (λ c. b c ≡ true) before
    → Cuts b s words
    → Cuts b (before ++ s) words
Cuts-breakers b before breakers (cut_end {s} h) =
    cut_end (All-append (λ c. b c ≡ true) before s breakers h)
Cuts-breakers b before breakers (cut_word {s} {rest} more found e h is_word stops cuts) =
    cut_word (before ++ more) found
      (ap (◌++◌ before) e ∙ sym (append_assoc before more (found ++ rest)))
      (All-append (λ c. b c ≡ true) before more breakers h) is_word stops cuts

put_cut :
    (b : ℕ → Bool) (s before found rest : Bytes) (words : List Bytes)
    → before ++ (found ++ rest) ≡ s
    → All (λ c. b c ≡ true) before
    → All (λ c. b c ≡ false) found
    → AtBreaker b rest
    → Cuts b rest words
    → Cuts b s (if length found == 0 then words else found ∷ words)
put_cut b s before [] rest words parts breakers plain stops cuts =
    subst (λ l. Cuts b l words) parts (Cuts-breakers b before breakers cuts)
put_cut b s before (c ∷ found) rest words parts breakers plain stops cuts =
    let some_byte : (length (c ∷ found) == 0) ≡ false = ground arith in
    rw some_byte (cut_word before (c ∷ found) (sym parts) breakers (omega arith, plain) stops cuts)

split_loop-Cuts :
    (fuel : ℕ) (b : ℕ → Bool) (s : Bytes) → length s ≤ fuel → Cuts b s (split_loop fuel b s)
unfolding split_loop
split_loop-Cuts zero b [] h = cut_end tt
split_loop-Cuts zero b (c ∷ s) h = absurd (omega arith)
split_loop-Cuts (suc fuel) b [] h = cut_end tt
split_loop-Cuts (suc fuel) b (c ∷ s) h =
    let other = λ (d : ℕ). not (b d) in
    let start = skip_front b (c ∷ s) in
    let rest = skip_front other start in
    let some_byte : (length (c ∷ s) == 0) ≡ false = ground arith in
    let less : length rest ≤ fuel = omega (arith, round_shorter b (c ∷ s) (omega arith)) in
    rw some_byte (
      put_cut b (c ∷ s) (take_front b (c ∷ s)) (take_front other start) rest
        (split_loop fuel b rest)
        (ap (◌++◌ (take_front b (c ∷ s))) (take_back_front other start) ∙ take_back_front b (c ∷ s))
        (take_front-true b (c ∷ s)) (take_front-All b start) (skip_front-AtBreaker b start)
        (split_loop-Cuts fuel b rest less))

-- `Split` cuts the string at every breaker: the string is breakers, a word without one that is not
-- empty and that a breaker or the end follows, and so on, and `Split` returns these words, in their
-- order; joined they are the string that `FilterString` leaves without the breakers.
pub split_lem :
    (str breakers : Bytes)
    → Cuts (λ c. is_in c breakers) str (split str breakers)
      × (concat (split str breakers) ≡ filter_string str breakers)
unfolding split
split_lem str breakers =
    let is = λ (c : ℕ). is_in c breakers in
    let (joined, all) = split_loop-Splits (length str) is str (omega arith) in
    (
      split_loop-Cuts (length str) is str (omega arith),
      joined ∙ sym (filter_string_lem str breakers),
    )
