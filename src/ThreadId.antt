-- ===== src/ThreadId.antt =====
-- fma-common/thread_id.h, class `ThreadIdAssigner`: the flags of the identifiers in use, as the list of
-- the static array. Both functions hold the mutex, so each is one atomic step.
mod Tests
use fma_common.Common.{
  ℕ, zero, suc, ◌+◌, ◌≤◌, ◌<◌, ◌≡◌, refl, ◌≢◌, ◌∙◌, ap, sym, Bool, true, false, not, List, [], ◌∷◌,
  Option, none, some, arith, length, get_or, set, length-set, if◌then◌else◌, Bool-cases, inl, inr,
  ◌⊎◌, All, replicate,
}

abbrev pub fma_max_threads : ℕ
fma_max_threads = 480

-- The loop from the identifier `i` on.
pub first_free : List Bool → ℕ → Option ℕ
first_free [] i = none
first_free (occupied ∷ rest) i = if occupied then first_free rest (suc i) else some i

-- `none` is the result -1.
pub get_thread_id : List Bool → Option ℕ × List Bool
get_thread_id occupied = elim (first_free occupied 0) [
  | none ↦ (none, occupied)
  | some i ↦ (some i, set occupied i true)
]

pub release_thread_id : List Bool → ℕ → List Bool
release_thread_id occupied id = set occupied id false

-- The first free identifier, counted from `k`.
abbrev Found : List Bool → ℕ → Option ℕ → Type 0
Found occupied k none = All (λ b. b ≡ true) occupied
Found occupied k (some i) =
    (j : ℕ) × (i ≡ k + j) × (j < length occupied) × (get_or occupied j true ≡ false)

first_free-Found : (occupied : List Bool) (k : ℕ) → Found occupied k (first_free occupied k)
unfolding first_free
first_free-Found [] k = tt
first_free-Found (true ∷ rest) k = later (first_free rest (suc k)) (first_free-Found rest (suc k))
  where
    later : (o : Option ℕ) → Found rest (suc k) o → Found (true ∷ rest) k o
    later none h = (refl, h)
    later (some i) (j, at, small, free) = (suc j, omega arith, omega arith, free)
first_free-Found (false ∷ rest) k = (0, omega arith, omega arith, refl)

get_or-set-same :
    (xs : List Bool) (i : ℕ) (v d : Bool) → i < length xs → get_or (set xs i v) i d ≡ v
get_or-set-same [] i v d h = absurd (omega arith)
get_or-set-same (x ∷ xs) zero v d h = refl
get_or-set-same (x ∷ xs) (suc i) v d h = get_or-set-same xs i v d (omega arith)

set-back :
    (xs : List Bool) (i : ℕ) (v d : Bool) → i < length xs → set (set xs i v) i (get_or xs i d) ≡ xs
set-back [] i v d h = refl
set-back (x ∷ xs) zero v d h = refl
set-back (x ∷ xs) (suc i) v d h = ap (◌∷◌ x) (set-back xs i v d (omega arith))

-- `GetThreadId` returns -1 only when every identifier is taken; otherwise an identifier of the array
-- that was free and is taken then, and releasing it gives the flags back as they were.
pub get_thread_id_lem :
    (occupied : List Bool)
    → ((get_thread_id occupied ≡ (none, occupied)) × All (λ b. b ≡ true) occupied)
      ⊎ ((i : ℕ) × ((get_thread_id occupied).0 ≡ some i)
          × (i < length occupied)
          × (get_or occupied i true ≡ false)
          × (get_or (get_thread_id occupied).1 i false ≡ true)
          × (release_thread_id (get_thread_id occupied).1 i ≡ occupied))
unfolding get_thread_id release_thread_id
get_thread_id_lem occupied = from (first_free occupied 0) refl (first_free-Found occupied 0)
  where
    from :
        (o : Option ℕ)
        → first_free occupied 0 ≡ o
        → Found occupied 0 (first_free occupied 0)
        → ((get_thread_id occupied ≡ (none, occupied)) × All (λ b. b ≡ true) occupied)
          ⊎ ((i : ℕ) × ((get_thread_id occupied).0 ≡ some i)
              × (i < length occupied)
              × (get_or occupied i true ≡ false)
              × (get_or (get_thread_id occupied).1 i false ≡ true)
              × (release_thread_id (get_thread_id occupied).1 i ≡ occupied))
    from none e f = inl (rw (get_thread_id, e) refl, rw e at f)
    from (some i) e f =
        let (j, at, small, free) : Found occupied 0 (some i) = rw e at f in
        let same : i ≡ j = omega arith in
        let back : set (set occupied j true) j false ≡ occupied =
          rw free at (set-back occupied j true true small) in
        inr (
          j,
          rw (get_thread_id, e) (ap some same),
          small,
          free,
          rw (get_thread_id, e, same) (get_or-set-same occupied j true false small),
          rw (get_thread_id, e, same) back,
        )
