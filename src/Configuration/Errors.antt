-- ===== src/Configuration/Errors.antt =====
-- When the permissive `Parse` throws (fma-common/configuration.h).
use mathlib.Core.Option.{some-ne-none}
use fma_common.Common.{
  codes, eq_bytes, length, map, ℕ, ◌≡◌, refl, ap, Bool, true, false, Option, none, some, List, [],
  ◌∷◌, ◌++◌, Bytes, ◌⊎◌, subst, Bool-cases, Option-cases, inl, inr, get_elem?,
}
use fma_common.Configuration.{
  add_help, add_binary, add_option, add_keys, parse, Configuration, Round, one, two, throws,
  find_option, starts_with_hyphen, key_str, is_bool, assign, parse_option, skip_unknown,
  parse_positional, parse_arg, mark, behind, parse_args,
}

-- A configuration knows the same names.
abbrev SameNames : Configuration → Configuration → Type 0
SameNames c d = (d.named_options ≡ c.named_options) × (d.bool_options ≡ c.bool_options)

-- An argument that is not taken yet and names an option that wants a value.
abbrev pub WantsValue : Configuration → Bytes × Bool → Type 0
WantsValue c (arg, taken) =
    (o : ℕ) × (taken ≡ false)
    × (starts_with_hyphen arg ≡ true)
    × (find_option (key_str arg) c.named_options ≡ some o)
    × (is_bool (key_str arg) c.bool_options ≡ false)

-- What a round of a permissive loop is.
abbrev RoundOk : Configuration → Bytes × Bool → Option Bytes → Round → Type 0
RoundOk c a following throws = (following ≡ none) × WantsValue c a
RoundOk c a following (one d took) = SameNames c d
RoundOk c a following (two d took) = SameNames c d

on_value-RoundOk :
    (c : Configuration) (arg : Bytes) (following : Option Bytes) (o : ℕ) (took : Bool)
    → WantsValue c (arg, false)
    → RoundOk c
        (arg, false)
        following
        (elim following [ none ↦ throws | some value ↦ two (assign o value c) took ])
unfolding assign
on_value-RoundOk c arg none o took wants = (refl, wants)
on_value-RoundOk c arg (some value) o took wants = (refl, refl)

parse_option-RoundOk :
    (c : Configuration) (arg : Bytes) (following : Option Bytes) (o : ℕ)
    → starts_with_hyphen arg ≡ true
    → find_option (key_str arg) c.named_options ≡ some o
    → RoundOk c (arg, false) following (parse_option c (key_str arg) following o)
unfolding parse_option
parse_option-RoundOk c arg following o dash found =
    elim (Bool-cases (is_bool (key_str arg) c.bool_options)) [
      | inl e ↦ rw (e) (unfold assign in (refl, refl))
      | inr e ↦ rw (e) (on_value-RoundOk c arg following o _ (o, refl, dash, found, e))
    ]

skip_unknown-RoundOk :
    (c : Configuration) (a : Bytes × Bool) (following : Option Bytes)
    → RoundOk c a following (skip_unknown true c following)
unfolding skip_unknown
skip_unknown-RoundOk c a none = (refl, refl)
skip_unknown-RoundOk c a (some value) = elim (Bool-cases (starts_with_hyphen value)) [
  | inl e ↦ rw (e) (refl, refl)
  | inr e ↦ rw (e) (refl, refl)
]

parse_positional-RoundOk :
    (c : Configuration) (a : Bytes × Bool) (following : Option Bytes) (arg : Bytes)
    → RoundOk c a following (parse_positional c arg)
unfolding parse_positional assign
parse_positional-RoundOk c a following arg =
    elim (Option-cases (get_elem? c.positional_options c.positional_index)) [
      | inl e ↦ rw (e, parse_positional) (refl, refl)
      | inr (o, e) ↦ rw (e, parse_positional) (refl, refl)
    ]

parse_arg-RoundOk :
    (c : Configuration) (a : Bytes × Bool) (following : Option Bytes)
    → RoundOk c a following (parse_arg true c a following)
unfolding parse_arg
parse_arg-RoundOk c (arg, true) following = (refl, refl)
parse_arg-RoundOk c (arg, false) following = elim (Bool-cases (starts_with_hyphen arg)) [
  | inr e ↦ rw (e) (parse_positional-RoundOk c (arg, false) following arg)
  | inl dash ↦ elim (Option-cases (find_option (key_str arg) c.named_options)) [
    | inl e ↦ rw (dash, e) (skip_unknown-RoundOk c (arg, false) following)
    | inr (o, e) ↦ rw (dash, e) (parse_option-RoundOk c arg following o dash e)
  ]
]

Round-cases :
    (r : Round)
    → (r ≡ throws)
      ⊎ ((d : Configuration) × (took : Bool) × (r ≡ one d took))
      ⊎ ((d : Configuration) × (took : Bool) × (r ≡ two d took))
Round-cases throws = inl refl
Round-cases (one d took) = inr (inl (d, took, refl))
Round-cases (two d took) = inr (inr (d, took, refl))

WantsValue-back :
    (c d : Configuration) (a : Bytes × Bool) → SameNames c d → WantsValue d a → WantsValue c a
WantsValue-back c d a same (o, free, dash, found, wants) = (
  o,
  free,
  dash,
  subst (λ names. find_option (key_str a.0) names ≡ some o) same.0 found,
  subst (λ names. is_bool (key_str a.0) names ≡ false) same.1 wants,
)

-- Whatever the arguments, and those of them that are taken already: the permissive loop of `Parse`
-- returns, or its last argument is one that names an option and lacks the value that the option wants.
pub parse_args-cases :
    (c : Configuration) (args : List (Bytes × Bool))
    → ((d : Configuration) × (marked : List (Bytes × Bool)) × (parse_args true args c
          ≡ some (d, marked)))
      ⊎ ((front : List (Bytes × Bool)) × (last : Bytes × Bool) × (args ≡ front ++ last ∷ [])
          × WantsValue c last)
unfolding parse_args behind
parse_args-cases c [] = inl (c, [], refl)
parse_args-cases c (a ∷ []) =
    let ok = parse_arg-RoundOk c a none in
    elim (Round-cases (parse_arg true c a none)) [
      | inl e ↦ inr ([], a, refl, (subst (RoundOk c a none) e ok).1)
      | inr (inl (d, took, e)) ↦ inl (d, mark took a ∷ [], rw (e, parse_args) refl)
      | inr (inr (d, took, e)) ↦ inl (d, mark took a ∷ [], rw (e, parse_args) refl)
    ]
parse_args-cases c (a ∷ b ∷ args) =
    let ok = parse_arg-RoundOk c a (some b.0) in
    elim (Round-cases (parse_arg true c a (some b.0))) [
      | inl e ↦ absurd (some-ne-none b.0 (subst (RoundOk c a (some b.0)) e ok).0)
      | inr (inl (d, took, e)) ↦ elim (parse_args-cases d (b ∷ args)) [
        | inl (u, marked, runs) ↦ inl (u, mark took a ∷ marked, rw (e, parse_args, runs) refl)
        | inr (front, last, split, wants) ↦ inr (
          a ∷ front,
          last,
          ap (λ l. a ∷ l) split,
          WantsValue-back c d last (subst (RoundOk c a (some b.0)) e ok) wants,
        )
      ]
      | inr (inr (d, took, e)) ↦ elim (parse_args-cases d args) [
        | inl (u, marked, runs) ↦
            inl (u, mark took a ∷ mark took b ∷ marked, rw (e, parse_args, runs) refl)
        | inr (front, last, split, wants) ↦ inr (
          a ∷ b ∷ front,
          last,
          ap (λ l. a ∷ b ∷ l) split,
          WantsValue-back c d last (subst (RoundOk c a (some b.0)) e ok) wants,
        )
      ]
    ]

find_option-append :
    (key k : Bytes) (o : ℕ) (named : List (Bytes × ℕ))
    → eq_bytes k key ≡ false
    → find_option key named ≡ none
    → find_option key (named ++ (k, o) ∷ []) ≡ none
unfolding find_option
find_option-append key k o [] differ h = rw (differ) refl
find_option-append key k o ((l, q) ∷ named) differ h = elim (Bool-cases (eq_bytes l key)) [
  | inl e ↦ absurd (some-ne-none q (let found : some q ≡ none = rw (e) at h in found))
  | inr e ↦
      let deeper : find_option key named ≡ none = rw (e) at h in
      rw (e) (find_option-append key k o named differ deeper)
]

-- Adding the option of `--help` succeeds, or its short name is that of another option.
add_help-cases :
    (c : Configuration)
    → ((d : Configuration) × (add_help c ≡ some d))
      ⊎ ((find_option (codes "help") c.named_options ≡ none)
          × ((o : ℕ) × (find_option (codes "h") c.named_options ≡ some o)))
unfolding add_help add_binary add_option add_keys
add_help-cases c = elim (Option-cases (find_option (codes "help") c.named_options)) [
  | inr (o, e) ↦ inl (c, rw (e, add_help) refl)
  | inl e ↦ elim (Option-cases (find_option (codes "h") c.named_options)) [
    | inr found ↦ inr (e, found)
    | inl e' ↦
        let n = length c.options in
        let later = find_option-append (codes "h") (codes "help") n c.named_options refl e' in
        inl (
          record c {
            options =
                c.options
                ++ record {
                  keys = codes "help" ∷ codes "h" ∷ [];
                  value_string = none;
                  preserve = true;
                }
                  ∷ [];
            named_options = (c.named_options ++ (codes "help", n) ∷ []) ++ (codes "h", n) ∷ [];
            bool_options = c.bool_options ++ codes "help" ∷ codes "h" ∷ [];
          },
          rw (e, add_help, e, add_keys, later) refl,
        )
  ]
]

unmarked-snoc :
    (argv : List Bytes) (front : List (Bytes × Bool)) (last : Bytes × Bool)
    → map (λ (a : Bytes). (a, false)) argv ≡ front ++ last ∷ []
    → (before : List Bytes) × (a : Bytes) × (argv ≡ before ++ a ∷ []) × (last ≡ (a, false))
unmarked-snoc [] [] last e = absurd cc
unmarked-snoc [] (x ∷ front) last e = absurd cc
unmarked-snoc (a ∷ []) [] last e = ([], a, refl, cc)
unmarked-snoc (a ∷ b ∷ argv) [] last e = absurd cc
unmarked-snoc (a ∷ argv) (x ∷ front) last e =
    let rest : map (λ (b : Bytes). (b, false)) argv ≡ front ++ last ∷ [] = cc in
    let (before, z, split, same) = unmarked-snoc argv front last rest in
    (a ∷ before, z, ap (λ l. a ∷ l) split, same)

-- Whatever the arguments, the permissive `Parse` returns; or no option is named "help" and one is
-- named "h", so that "help,h" cannot be added; or, with the option of `--help` there, the last argument
-- names an option and lacks the value that the option wants.
pub parse-cases :
    (c : Configuration) (argv : List Bytes)
    → ((d : Configuration) × (marked : List (Bytes × Bool)) × (parse true argv c
          ≡ some (d, marked)))
      ⊎ ((find_option (codes "help") c.named_options ≡ none)
          × ((o : ℕ) × (find_option (codes "h") c.named_options ≡ some o)))
      ⊎ ((d : Configuration) × (before : List Bytes) × (last : Bytes) × (add_help c ≡ some d)
          × (argv ≡ before ++ last ∷ [])
          × WantsValue d (last, false))
unfolding parse
parse-cases c argv = elim (add_help-cases c) [
  | inr taken ↦ inr (inl taken)
  | inl (d, helped) ↦ elim (parse_args-cases d (map (λ (a : Bytes). (a, false)) argv)) [
    | inl (u, marked, runs) ↦ inl (u, marked, rw (helped) runs)
    | inr (front, last, split, wants) ↦
        let (before, a, split', same) = unmarked-snoc argv front last split in
        inr (inr (d, before, a, helped, split', subst (WantsValue d) same wants))
  ]
]
