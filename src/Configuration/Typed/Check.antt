-- ===== src/Configuration/Typed/Check.antt =====
-- What `Check` of fma-common/option.h accepts.
use mathlib.Core.List.{Mem, mem-cons_self, mem-cons_of_mem}
use fma_common.Common.{
  ◌≡◌, ◌⊎◌, refl, sym, subst, ap, ◌∙◌, Bool, true, false, Bool-cases, inl, inr, Option, none, some,
  List, [], ◌∷◌, Bytes, if◌then◌else◌,
}
use fma_common.Configuration.Typed.{
  TypedOption, is_listed, fetch, is_passed, in_limits, end_check, check, is_below, is_above,
  is_possible,
}

module _ {T : Type 0} (parse_string : Bytes → T → Bool × T) (less same : T → T → Bool) where
  abbrev fetched : TypedOption T → Bool × T
  fetched o = fetch parse_string less same o.value_string o.default o.value

  abbrev run : TypedOption T → Bool × TypedOption T
  run o = check parse_string less same o

  abbrev ended : TypedOption T → Bool × TypedOption T
  ended o =
      end_check parse_string less same (fetched o).0
        (is_passed parse_string less same o.value_string o.default)
        (in_limits parse_string less same o (fetched o).1) (fetched o).1 o

  check-again : (o : TypedOption T) → o.checked ≡ true → run o ≡ (true, o)
  unfolding check
  check-again o e = ap (λ (b : Bool). if b then (true, o) else ended o) e

  check-fresh : (o : TypedOption T) → o.checked ≡ false → run o ≡ ended o
  unfolding check
  check-fresh o e = ap (λ (b : Bool). if b then (true, o) else ended o) e

  end_check-checked :
      (parsed passed within : Bool) (v : T) (o : TypedOption T)
      → (end_check parse_string less same parsed passed within v o).1.checked ≡ true
  unfolding end_check
  end_check-checked false passed within v o = refl
  end_check-checked true false within v o = refl
  end_check-checked true true false v o = refl
  end_check-checked true true true v o = refl

  check-checked : (o : TypedOption T) → (run o).1.checked ≡ true
  check-checked o = elim (Bool-cases o.checked) [
    | inl e ↦ subst (λ r. r.1.checked ≡ true) (sym (check-again o e)) e
    | inr e ↦ subst (λ r. r.1.checked ≡ true) (sym (check-fresh o e)) (end_check-checked _ _ _ _ o)
  ]

  -- A `Check` that follows another, whether that one returned or threw, returns and changes nothing.
  pub check-check :
      (o : TypedOption T)
      → check parse_string less same (check parse_string less same o).1
        ≡ (true, (check parse_string less same o).1)
  check-check o = check-again _ (check-checked o)

  -- The value that the option was given: its string parsed, or without a string the default.
  abbrev pub Given : Option Bytes → Option T → T → Type 0
  Given (some s) default v = (start : T) × (parse_string s start ≡ (true, v))
  Given none default v = default ≡ some v

  abbrev pub AtLeast : Option T → T → Type 0
  AtLeast none v = Unit
  AtLeast (some m) v = less v m ≡ false

  abbrev pub AtMost : Option T → T → Type 0
  AtMost none v = Unit
  AtMost (some m) v = less m v ≡ false

  abbrev pub Listed : List T → T → Type 0
  Listed ws v = (ws ≡ []) ⊎ ((w : T) × Mem w ws × (same v w ≡ true))

  end_check-true :
      (parsed passed within : Bool) (v : T) (o : TypedOption T)
      → (end_check parse_string less same parsed passed within v o).0 ≡ true
      → (parsed ≡ true)
        × (passed ≡ true)
        × (within ≡ true)
        × (end_check parse_string less same parsed passed within v o
            ≡ (true, record o { checked = true; value = v; value_ref = v }))
  unfolding end_check
  end_check-true false passed within v o h = absurd cc
  end_check-true true false within v o h = absurd cc
  end_check-true true true false v o h = absurd cc
  end_check-true true true true v o h = (refl, refl, refl, refl)

  pair_eta : (r : Bool × T) → r.0 ≡ true → r ≡ (true, r.1)
  pair_eta (b, v) h = ap (λ (c : Bool). (c, v)) h

  fetch-Given :
      (s : Option Bytes) (d : Option T) (value : T)
      → (fetch parse_string less same s d value).0 ≡ true
      → is_passed parse_string less same s d ≡ true
      → Given s d (fetch parse_string less same s d value).1
  unfolding fetch is_passed
  fetch-Given none none value a b = absurd cc
  fetch-Given none (some d) value a b = refl
  fetch-Given (some s) none value a b = (value, pair_eta (parse_string s value) a)
  fetch-Given (some s) (some d) value a b = (d, pair_eta (parse_string s d) a)

  is_below-false :
      (m : Option T) (v : T) → is_below parse_string less same m v ≡ false → AtLeast m v
  unfolding is_below
  is_below-false none v h = tt
  is_below-false (some m) v h = h

  is_above-false : (m : Option T) (v : T) → is_above parse_string less same m v ≡ false → AtMost m v
  unfolding is_above
  is_above-false none v h = tt
  is_above-false (some m) v h = h

  is_listed-true :
      (v : T) (ws : List T)
      → is_listed parse_string less same v ws ≡ true
      → (w : T) × Mem w ws × (same v w ≡ true)
  unfolding is_listed
  is_listed-true v [] h = absurd cc
  is_listed-true v (w ∷ ws) h = elim (Bool-cases (same v w)) [
    | inl e ↦ (w, mem-cons_self, e)
    | inr e ↦
        let later : is_listed parse_string less same v ws ≡ true = rw e at h in
        let (u, member, eq) = is_listed-true v ws later in (u, mem-cons_of_mem w member, eq)
  ]

  is_possible-true :
      (ws : List T) (v : T) → is_possible parse_string less same ws v ≡ true → Listed ws v
  unfolding is_possible
  is_possible-true [] v h = inl refl
  is_possible-true (w ∷ ws) v h = inr (is_listed-true v (w ∷ ws) h)

  in_limits-true :
      (o : TypedOption T) (v : T)
      → in_limits parse_string less same o v ≡ true
      → AtLeast o.min v × AtMost o.max v × Listed o.possible_values v
  unfolding in_limits
  in_limits-true o v h =
      tests (is_below parse_string less same o.min v) (is_above parse_string less same o.max v) refl
        refl h
    where
      tests :
          (below above : Bool)
          → is_below parse_string less same o.min v ≡ below
          → is_above parse_string less same o.max v ≡ above
          → (if below
              then false
              else if above
              then false
              else is_possible parse_string less same o.possible_values v)
            ≡ true
          → AtLeast o.min v × AtMost o.max v × Listed o.possible_values v
      tests true above a b t = absurd cc
      tests false true a b t = absurd cc
      tests false false a b t =
          (is_below-false o.min v a, is_above-false o.max v b, is_possible-true _ v t)

  -- When `Check` returns on an option that was not checked before, the value is the one that the option was given, it is
  -- not below the minimum, not above the maximum and among the possible values, where there are such,
  -- and the variable that the option refers to has it.
  pub check-accepts :
      (o : TypedOption T)
      → o.checked ≡ false
      → (check parse_string less same o).0 ≡ true
      → (v : T) × ((check parse_string less same o).1
          ≡ record o { checked = true; value = v; value_ref = v })
        × Given o.value_string o.default v
        × AtLeast o.min v
        × AtMost o.max v
        × Listed o.possible_values v
  check-accepts o fresh returned =
      let by = check-fresh o fresh in
      let (parsed, passed, within, result) =
        end_check-true _ _ _ (fetched o).1 o (subst (λ r. r.0 ≡ true) by returned) in
      let limits = in_limits-true o (fetched o).1 within in
      (
        (fetched o).1,
        ap (λ r. r.1) (by ∙ result),
        fetch-Given o.value_string o.default o.value parsed passed,
        limits.0,
        limits.1,
        limits.2,
      )
