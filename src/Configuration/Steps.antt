-- ===== src/Configuration/Steps.antt =====
-- The rounds of the loop of `Parse` (fma-common/configuration.h), and what an assignment does to the
-- options.
use fma_common.Common.{
  ℕ, zero, suc, ◌<◌, ◌≡◌, refl, ap, Bool, false, Option, none, some, List, [], ◌∷◌, Bytes, ◌==◌,
  if◌then◌else◌, length, arith,
}
use fma_common.Configuration.{
  OptionBase, Configuration, one, two, set_value_string, preserve_at, parse_arg, mark, behind,
  parse_args,
}

-- A round that consumes one argument, whatever follows.
pub parse_args-one :
    (permissive took : Bool) (c d : Configuration) (a : Bytes × Bool) (args : List (Bytes × Bool))
    → ((following : Option Bytes) → parse_arg permissive c a following ≡ one d took)
    → parse_args permissive (a ∷ args) c ≡ behind (mark took a ∷ []) (parse_args permissive args d)
unfolding parse_args behind
parse_args-one permissive took c d a [] h = rw (h none, parse_args) refl
parse_args-one permissive took c d a (b ∷ args) h = rw (h (some b.0), parse_args) refl

pub parse_args-two :
    (permissive took : Bool) (c d : Configuration) (a b : Bytes × Bool) (args : List (Bytes × Bool))
    → parse_arg permissive c a (some b.0) ≡ two d took
    → parse_args permissive (a ∷ b ∷ args) c
      ≡ behind (mark took a ∷ mark took b ∷ []) (parse_args permissive args d)
unfolding parse_args
parse_args-two permissive took c d a b args h = rw (h, parse_args) refl

abbrev pub value_at : List OptionBase → ℕ → Option Bytes
value_at [] o = none
value_at (option ∷ options) zero = option.value_string
value_at (option ∷ options) (suc o) = value_at options o

pub length-set_value_string :
    (options : List OptionBase) (q : ℕ) (value : Bytes)
    → length (set_value_string options q value) ≡ length options
unfolding set_value_string
length-set_value_string [] q value = refl
length-set_value_string (option ∷ options) zero value = refl
length-set_value_string (option ∷ options) (suc q) value =
    ap suc (length-set_value_string options q value)

pub preserve_at-set_value_string :
    (options : List OptionBase) (q : ℕ) (value : Bytes) (o : ℕ)
    → preserve_at (set_value_string options q value) o ≡ preserve_at options o
unfolding set_value_string preserve_at
preserve_at-set_value_string [] q value o = refl
preserve_at-set_value_string (option ∷ options) zero value zero = refl
preserve_at-set_value_string (option ∷ options) zero value (suc o) = refl
preserve_at-set_value_string (option ∷ options) (suc q) value zero = refl
preserve_at-set_value_string (option ∷ options) (suc q) value (suc o) =
    preserve_at-set_value_string options q value o

pub value_at-set_value_string :
    (options : List OptionBase) (q : ℕ) (value : Bytes) (o : ℕ)
    → o < length options
    → value_at (set_value_string options q value) o
      ≡ (if q == o then some value else value_at options o)
unfolding set_value_string
value_at-set_value_string [] q value o h = absurd (omega (arith, h))
value_at-set_value_string (option ∷ options) zero value zero h = refl
value_at-set_value_string (option ∷ options) zero value (suc o) h =
    let differ : (0 == suc o) ≡ false = ground arith in rw (differ) refl
value_at-set_value_string (option ∷ options) (suc q) value zero h =
    let differ : (suc q == 0) ≡ false = ground arith in rw (differ) refl
value_at-set_value_string (option ∷ options) (suc q) value (suc o) h =
    let pred : (suc q == suc o) ≡ (q == o) = ground arith in
    rw (pred) (value_at-set_value_string options q value o (omega (arith, h)))
