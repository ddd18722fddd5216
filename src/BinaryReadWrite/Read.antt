-- ===== src/BinaryReadWrite/Read.antt =====
-- `BinaryRead` (fma-common/binary_read_write_helper.h) reads a value from the bytes that stand for it.
use fma_common.Common.{
  ℕ, ◌+◌, ◌-◌, ◌*◌, ◌/◌, ◌%◌, ◌≤◌, ◌<◌, ◌≡◌, ◌==◌, ==_iff, true, refl, sym, ap, subst, ◌∙◌, false,
  some, List, [], ◌∷◌, ◌++◌, Bytes, All, ltb, replicate, arith, length, take, drop, append_assoc,
  append-nil, length-append, drop_past, take-append, drop-append, length-take, length-replicate,
  All-append, All-take, All-replicate,
}
use fma_common.Stream.{FullInputStream}
use fma_common.BinaryReadWrite.{
  size_mod, size_width, le_bytes, le_value, Kind, plain, block, vector, pair, triple, Read, default,
  resize, read_plain, read_pair, read_triple, read_block, read_each, read_vector, binary_read,
}
use fma_common.BinaryReadWrite.Encoding.{
  encode, encode_each, Fits, Shaped, IsKind, encode_pos, default-Shaped, length-le_bytes,
  le_value-le_bytes,
}

pub length-resize : {A : Type 0} (size : ℕ) (a : A) (d : List A) → length (resize size a d) ≡ size
unfolding resize
length-resize size a d = omega (
  arith,
  length-append (take size d) (replicate (size - length d) a),
  length-take size d,
  length-replicate (size - length d) a,
)

All-resize :
    {A : Type 0} (P : A → Type 0) (size : ℕ) (a : A) (d : List A)
    → P a
    → All P d
    → All P (resize size a d)
unfolding resize
All-resize P size a d pa h =
    All-append P (take size d) (replicate (size - length d) a) (All-take P size d h)
      (All-replicate P (size - length d) a pa)

pub le-mul : (n w : ℕ) → 0 < w → n ≤ n * w
le-mul n w h = grind arith

pub not_larger : (a b : ℕ) → b ≤ a → ltb a b ≡ false
not_larger a b h = ground arith

module _ (I : FullInputStream) where
  open I use {State, rest, read, read_bytes, read_rest}

  -- What is left after a read is behind the bytes that were read.
  pub read_plain_lem :
      (width : ℕ) (s : State) (d v more : Bytes)
      → length d ≡ width
      → length v ≡ width
      → rest s ≡ v ++ more
      → (t : State) × (read_plain I width s d ≡ (width, v, t)) × (rest t ≡ more)
  unfolding read_plain
  read_plain_lem width s d v more old ok there =
      let got : (read s width).0 ≡ v = read_bytes s width ∙ rw (there, ← ok) (take-append v more) in
      let left : rest (read s width).1 ≡ more =
        read_rest s width ∙ rw (there, ← ok) (drop-append v more) in
      let over : drop (length v) d ≡ [] = drop_past (length v) d (omega arith) in
      ((read s width).1, rw (got, over, append-nil, ok) refl, left)

  abbrev pub ReadsAs : {A : Type 0} → Read I A → (A → Bytes) → (A → Type 0) → (A → Type 0) → Type 0
  ReadsAs {A} reader code Ok Old =
      (s : State) (d v : A) (more : Bytes)
      → Old d
      → Ok v
      → length (code v) < size_mod
      → rest s ≡ code v ++ more
      → (t : State) × (reader s d ≡ some (length (code v), v, t)) × (rest t ≡ more)

  read_pair-ReadsAs :
      {A B : Type 0} (first : Read I A) (second : Read I B) (code : A → Bytes) (code' : B → Bytes)
      (Ok Old : A → Type 0) (Ok' Old' : B → Type 0)
      → ReadsAs first code Ok Old
      → ReadsAs second code' Ok' Old'
      → ReadsAs
          (read_pair I first second)
          (λ v. code v.0 ++ code' v.1)
          (λ v. Ok v.0 × Ok' v.1)
          (λ v. Old v.0 × Old' v.1)
  unfolding read_pair
  read_pair-ReadsAs first second code code' Ok Old Ok' Old' h h' s (a, b) (x, y) more old ok fits
        there =
      let whole = length-append (code x) (code' y) in
      let (t, e, left) =
        h s a x (code' y ++ more) old.0 ok.0 (omega (arith, whole, fits))
          (there ∙ append_assoc (code x) (code' y) more) in
      let (u, e', left') = h' t b y more old.1 ok.1 (omega (arith, whole, fits)) left in
      let sum : (length (code x) + length (code' y)) % size_mod ≡ length (code x ++ code' y) =
        omega (arith, whole, fits) in
      (u, rw (e, e', sum) refl, left')

  read_triple-ReadsAs :
      {A B C : Type 0} (first : Read I A) (second : Read I B) (third : Read I C) (code : A → Bytes)
      (code' : B → Bytes) (code'' : C → Bytes) (Ok Old : A → Type 0) (Ok' Old' : B → Type 0)
      (Ok'' Old'' : C → Type 0)
      → ReadsAs first code Ok Old
      → ReadsAs second code' Ok' Old'
      → ReadsAs third code'' Ok'' Old''
      → ReadsAs
          (read_triple I first second third)
          (λ v. code v.0 ++ (code' v.1 ++ code'' v.2))
          (λ v. Ok v.0 × Ok' v.1 × Ok'' v.2)
          (λ v. Old v.0 × Old' v.1 × Old'' v.2)
  unfolding read_triple
  read_triple-ReadsAs first second third code code' code'' Ok Old Ok' Old' Ok'' Old'' h h' h'' s
        (a, b, c) (x, y, z) more old ok fits there =
      let whole = length-append (code x) (code' y ++ code'' z) in
      let inner = length-append (code' y) (code'' z) in
      let (t, e, left) =
        h s a x ((code' y ++ code'' z) ++ more) old.0 ok.0 (omega (arith, whole, fits))
          (there ∙ append_assoc (code x) (code' y ++ code'' z) more) in
      let (u, e', left') =
        h' t b y (code'' z ++ more) old.1 ok.1 (omega (arith, whole, inner, fits))
          (left ∙ append_assoc (code' y) (code'' z) more) in
      let (v, e'', left'') = h'' u c z more old.2 ok.2 (omega (arith, whole, inner, fits)) left' in
      let sum : ((length (code x) + length (code' y)) % size_mod + length (code'' z)) % size_mod
          ≡ length (code x ++ (code' y ++ code'' z)) =
        omega (arith, whole, inner, fits) in
      (v, rw (e, e', e'', sum) refl, left'')

  read_each_step :
      {A : Type 0} (reader : Read I A) (sum total n : ℕ) (s t u : State) (a v : A) (d vs : List A)
      → reader s a ≡ some (n, v, t)
      → 0 < n
      → read_each I reader ((sum + n) % size_mod) t d ≡ some (total, vs, u)
      → read_each I reader sum s (a ∷ d) ≡ some (total, v ∷ vs, u)
  unfolding read_each
  read_each_step reader sum total n s t u a v d vs e pos e' =
      let some_bytes : (n == 0) ≡ false = ground arith in rw (e, some_bytes, e') refl

  pub read_each-ReadsAs :
      {A : Type 0} (reader : Read I A) (code : A → Bytes) (Ok Old : A → Type 0)
      → ReadsAs reader code Ok Old
      → ((v : A) → Ok v → 0 < length (code v))
      → (sum : ℕ) (s : State) (d vs : List A) (more : Bytes) → length d ≡ length vs
      → All Old d
      → All Ok vs
      → sum + length (encode_each code vs) < size_mod
      → rest s ≡ encode_each code vs ++ more
      → (t : State) × (read_each I reader sum s d
          ≡ some (sum + length (encode_each code vs), vs, t))
        × (rest t ≡ more)
  unfolding read_each
  read_each-ReadsAs reader code Ok Old h pos sum s [] [] more same olds oks fits there =
      (s, ap (λ (n : ℕ). some (n, [], s)) (omega arith), there)
  read_each-ReadsAs reader code Ok Old h pos sum s [] (v ∷ vs) more same olds oks fits there =
      absurd (omega arith)
  read_each-ReadsAs reader code Ok Old h pos sum s (a ∷ d) [] more same olds oks fits there =
      absurd (omega arith)
  read_each-ReadsAs reader code Ok Old h pos sum s (a ∷ d) (v ∷ vs) more same olds oks fits there =
      let whole = length-append (code v) (encode_each code vs) in
      let (t, e, left) =
        h s a v (encode_each code vs ++ more) olds.0 oks.0 (omega (arith, whole, fits))
          (there ∙ append_assoc (code v) (encode_each code vs) more) in
      let step : sum + length (code v) ≡ (sum + length (code v)) % size_mod =
        omega (arith, whole, fits) in
      let (u, e', left') =
        read_each-ReadsAs reader code Ok Old h pos (sum + length (code v)) t d vs more (omega arith)
          olds.1 oks.1 (omega (arith, whole, fits)) left in
      (
        u,
        read_each_step reader sum _ (length (code v)) s t u a v d vs e (pos v oks.0) (
            subst
              (λ n.
                read_each I reader n t d ≡ some (sum + length (encode_each code (v ∷ vs)), vs, u))
              step (e' ∙ ap (λ (n : ℕ). some (n, vs, u)) (omega (arith, whole)))),
        left',
      )

  module _ (max_bytes : ℕ) (uninit : Bytes) (bounded : max_bytes < size_mod)
      (sized : length uninit ≡ size_width) where
    -- The size in front of the elements of a container.
    read_size :
        (s : State) (size : ℕ) (more : Bytes)
        → size < size_mod
        → rest s ≡ le_bytes size_width size ++ more
        → (t : State) × (read_plain I size_width s uninit
            ≡ (size_width, le_bytes size_width size, t))
          × (le_value (le_bytes size_width size) ≡ size)
          × (rest t ≡ more)
    read_size s size more small there =
        let (t, e, left) =
          read_plain_lem size_width s uninit (le_bytes size_width size) more sized
            (length-le_bytes size_width size) there in
        (t, e, le_value-le_bytes size_width size small, left)

    read_block-ReadsAs :
        (w : ℕ)
        → 0 < w
        → ReadsAs
            (read_block I max_bytes uninit w)
            (encode (block w))
            (Fits max_bytes (block w))
            (λ _. Unit {0})
    unfolding read_block encode
    read_block-ReadsAs w pos s d v more old ok fits there =
        let size = length v / w in
        let whole = length-append (le_bytes size_width size) v in
        let eight = length-le_bytes size_width size in
        let small : size < size_mod = omega (arith, ok, le-mul size w pos, bounded) in
        let (t, e, value, left) =
          read_size s size (v ++ more) small
            (there ∙ append_assoc (le_bytes size_width size) v more) in
        let bytes : size * w % size_mod ≡ length v = omega (arith, ok, bounded) in
        let room : ltb max_bytes (size * w) ≡ false =
          not_larger max_bytes (size * w) (omega (arith, ok)) in
        let (u, e', left') =
          read_plain_lem (length v) t (resize (size * w) 0 d) v more
            (length-resize (size * w) 0 d ∙ ok.0) refl left in
        let same : (length v == length v) ≡ true = (==_iff (length v) (length v)).1 refl in
        let count : (length v + size_width) % size_mod ≡ length (le_bytes size_width size ++ v) =
          omega (arith, whole, eight, fits) in
        (u, rw (e, value, bytes, e', room, same, count) refl, left')

    read_vector-ReadsAs :
        {A : Type 0} (w : ℕ) (a : A) (reader : Read I A) (code : A → Bytes) (Ok Old : A → Type 0)
        → 0 < w
        → Old a
        → ReadsAs reader code Ok Old
        → ((v : A) → Ok v → 0 < length (code v))
        → ReadsAs
            (read_vector I max_bytes uninit w a reader)
            (λ vs. le_bytes size_width (length vs) ++ encode_each code vs)
            (λ vs. (length vs * w ≤ max_bytes) × All Ok vs)
            (All Old)
    unfolding read_vector
    read_vector-ReadsAs w a reader code Ok Old width olda h pos s d vs more old ok fits there =
        let head = le_bytes size_width (length vs) in
        let whole = length-append head (encode_each code vs) in
        let eight = length-le_bytes size_width (length vs) in
        let small : length vs < size_mod =
          omega (arith, ok.0, le-mul (length vs) w width, bounded) in
        let (t, e, value, left) =
          read_size s (length vs) (encode_each code vs ++ more) small
            (there ∙ append_assoc head (encode_each code vs) more) in
        let room : ltb max_bytes (length vs * w) ≡ false =
          not_larger max_bytes (length vs * w) ok.0 in
        let (u, e', left') =
          read_each-ReadsAs reader code Ok Old h pos size_width t (resize (length vs) a d) vs more
            (length-resize (length vs) a d) (All-resize Old (length vs) a d olda old) ok.1
            (omega (arith, whole, eight, fits)) left in
        (
          u,
          rw (e, value, room, e') (ap (λ (n : ℕ). some (n, vs, u)) (omega (arith, whole, eight))),
          left',
        )

    -- Whatever the type: from the bytes that stand for a value, `BinaryRead` makes the value, whatever
    -- the object held before, consumes those bytes, and returns how many they are.
    pub binary_read-ReadsAs :
        (k : Kind)
        → IsKind k
        → ReadsAs (binary_read I max_bytes uninit k) (encode k) (Fits max_bytes k) (Shaped k)
    unfolding binary_read encode
    binary_read-ReadsAs (plain w) kind s d v more old ok fits there =
        let (t, e, left) = read_plain_lem w s d v more old ok there in
        (t, ap some e ∙ ap (λ (n : ℕ). some (n, v, t)) (sym ok), left)
    binary_read-ReadsAs (block w) kind s d v more old ok fits there =
        read_block-ReadsAs w kind s d v more tt ok fits there
    binary_read-ReadsAs (vector w k) kind s d v more old ok fits there =
        read_vector-ReadsAs w (default k) (binary_read I max_bytes uninit k) (encode k)
          (Fits max_bytes k) (Shaped k) kind.0 (default-Shaped k) (binary_read-ReadsAs k kind.1)
          (λ x okx. encode_pos max_bytes k x kind.1 okx) s d v more old ok fits there
    binary_read-ReadsAs (pair j k) kind s d v more old ok fits there =
        read_pair-ReadsAs (binary_read I max_bytes uninit j) (binary_read I max_bytes uninit k)
          (encode j) (encode k) (Fits max_bytes j) (Shaped j) (Fits max_bytes k) (Shaped k)
          (binary_read-ReadsAs j kind.0) (binary_read-ReadsAs k kind.1) s d v more old ok fits there
    binary_read-ReadsAs (triple i j k) kind s d v more old ok fits there =
        read_triple-ReadsAs (binary_read I max_bytes uninit i) (binary_read I max_bytes uninit j)
          (binary_read I max_bytes uninit k) (encode i) (encode j) (encode k) (Fits max_bytes i)
          (Shaped i) (Fits max_bytes j) (Shaped j) (Fits max_bytes k) (Shaped k)
          (binary_read-ReadsAs i kind.0) (binary_read-ReadsAs j kind.1)
          (binary_read-ReadsAs k kind.2) s d v more old ok fits there
