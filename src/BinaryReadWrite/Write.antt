-- ===== src/BinaryReadWrite/Write.antt =====
-- What `BinaryWrite` (fma-common/binary_read_write_helper.h) appends to a stream.
use fma_common.Common.{
  ℕ, ◌+◌, ◌*◌, ◌/◌, ◌%◌, ◌<◌, ◌≡◌, refl, sym, ap, ◌∙◌, List, [], ◌∷◌, ◌++◌, Bytes, All, arith,
  length, take, append_assoc, append-nil, length-append, take_past,
}
use native.Mathlib.Nat.{mul_comm}
use fma_common.Stream.{OutputStream}
use fma_common.BinaryReadWrite.{
  size_mod, size_width, le_bytes, Kind, plain, block, vector, pair, triple, Write, write_plain,
  write_pair, write_triple, write_block, write_each, write_vector, binary_write,
}
use fma_common.BinaryReadWrite.Encoding.{encode_each, encode, Fits, length-le_bytes}

module _ (O : OutputStream) where
  open O use {State, written, write, write_lem}

  -- A writer appends the bytes that stand for a value, and counts them.
  abbrev pub WritesAs : {A : Type 0} → Write O A → (A → Bytes) → (A → Type 0) → Type 0
  WritesAs {A} writer code Ok =
      (s : State) (v : A)
      → Ok v
      → length (code v) < size_mod
      → ((writer s v).0 ≡ length (code v)) × (written (writer s v).1 ≡ written s ++ code v)

  pub write_each-WritesAs :
      {A : Type 0} (writer : Write O A) (code : A → Bytes) (Ok : A → Type 0)
      → WritesAs writer code Ok
      → (size : ℕ) (s : State) (vs : List A) → All Ok vs
      → size + length (encode_each code vs) < size_mod
      → ((write_each O writer size s vs).0 ≡ size + length (encode_each code vs))
        × (written (write_each O writer size s vs).1 ≡ written s ++ encode_each code vs)
  unfolding write_each
  write_each-WritesAs writer code Ok h size s [] oks fits =
      (omega (arith), sym (append-nil (written s)))
  write_each-WritesAs writer code Ok h size s (v ∷ vs) oks fits =
      let whole = length-append (code v) (encode_each code vs) in
      let (count, bytes) = h s v oks.0 (omega (arith, whole, fits)) in
      let next : (size + (writer s v).0) % size_mod ≡ size + length (code v) =
        omega (arith, count, whole, fits) in
      let (total, all) =
        write_each-WritesAs writer code Ok h (size + length (code v)) (writer s v).1 vs oks.1
          (omega (arith, whole, fits)) in
      let step = ap (λ (n : ℕ). write_each O writer n (writer s v).1 vs) next in
      (
        ap (λ r. r.0) step ∙ omega (arith, total, whole),
        ap (λ r. written r.1) step
            ∙ all
            ∙ rw bytes (append_assoc (written s) (code v) (encode_each code vs)),
      )

  write_pair-WritesAs :
      {A B : Type 0} (first : Write O A) (second : Write O B) (code : A → Bytes) (code' : B → Bytes)
      (Ok : A → Type 0) (Ok' : B → Type 0)
      → WritesAs first code Ok
      → WritesAs second code' Ok'
      → WritesAs (write_pair O first second) (λ v. code v.0 ++ code' v.1) (λ v. Ok v.0 × Ok' v.1)
  unfolding write_pair
  write_pair-WritesAs first second code code' Ok Ok' h h' s (x, y) ok fits =
      let whole = length-append (code x) (code' y) in
      let (n, bytes) = h s x ok.0 (omega (arith, whole, fits)) in
      let (m, more) = h' (first s x).1 y ok.1 (omega (arith, whole, fits)) in
      (
        omega (arith, n, m, whole, fits),
        more ∙ rw bytes (append_assoc (written s) (code x) (code' y)),
      )

  write_triple-WritesAs :
      {A B C : Type 0} (first : Write O A) (second : Write O B) (third : Write O C)
      (code : A → Bytes) (code' : B → Bytes) (code'' : C → Bytes) (Ok : A → Type 0)
      (Ok' : B → Type 0) (Ok'' : C → Type 0)
      → WritesAs first code Ok
      → WritesAs second code' Ok'
      → WritesAs third code'' Ok''
      → WritesAs
          (write_triple O first second third)
          (λ v. code v.0 ++ (code' v.1 ++ code'' v.2))
          (λ v. Ok v.0 × Ok' v.1 × Ok'' v.2)
  unfolding write_triple
  write_triple-WritesAs first second third code code' code'' Ok Ok' Ok'' h h' h'' s (x, y, z) ok
        fits =
      let whole = length-append (code x) (code' y ++ code'' z) in
      let inner = length-append (code' y) (code'' z) in
      let (n, a) = h s x ok.0 (omega (arith, whole, fits)) in
      let (m, b) = h' (first s x).1 y ok.1 (omega (arith, whole, inner, fits)) in
      let (k, c) = h'' (second (first s x).1 y).1 z ok.2 (omega (arith, whole, inner, fits)) in
      (omega (arith, n, m, k, whole, inner, fits), c ∙ rw (b, a, append_assoc, append_assoc) refl)

  -- What stands before the elements of a container.
  pub write_header :
      (s : State) (size : ℕ) (body : Bytes) (t : State)
      → written t ≡ written (write s (le_bytes size_width size)) ++ body
      → written t ≡ written s ++ (le_bytes size_width size ++ body)
  write_header s size body t h =
      h ∙ rw (write_lem s (le_bytes size_width size)) (append_assoc (written s) _ body)

  write_block-WritesAs :
      (max_bytes w : ℕ) → WritesAs (write_block O w) (encode (block w)) (Fits max_bytes (block w))
  unfolding write_block write_plain encode
  write_block-WritesAs max_bytes w s v ok fits =
      let whole = length-append (le_bytes size_width (length v / w)) v in
      let all : take (length v / w * w) v ≡ v =
        take_past (length v / w * w) v (omega (arith, ok.0)) in
      (
        omega (
          arith,
          whole,
          length-le_bytes size_width (length v / w),
          mul_comm w (length v / w),
          ok.0,
          fits,
        ),
        rw all (write_header s (length v / w) v _ (write_lem _ v)),
      )

  write_vector-WritesAs :
      {A : Type 0} (writer : Write O A) (code : A → Bytes) (Ok : A → Type 0)
      → WritesAs writer code Ok
      → WritesAs
          (write_vector O writer)
          (λ vs. le_bytes size_width (length vs) ++ encode_each code vs)
          (All Ok)
  unfolding write_vector write_plain
  write_vector-WritesAs writer code Ok h s vs ok fits =
      let head = le_bytes size_width (length vs) in
      let whole = length-append head (encode_each code vs) in
      let eight = length-le_bytes size_width (length vs) in
      let (count, bytes) =
        write_each-WritesAs writer code Ok h size_width (write s head) vs ok
          (omega (arith, whole, eight, fits)) in
      (omega (arith, count, whole, eight), write_header s (length vs) (encode_each code vs) _ bytes)

  -- Whatever the type: `BinaryWrite` appends the bytes that stand for the value, and returns how many
  -- they are, if they are fewer than 2 ^ 64.
  pub binary_write-WritesAs :
      (max_bytes : ℕ) (k : Kind) → WritesAs (binary_write O k) (encode k) (Fits max_bytes k)
  unfolding binary_write encode
  binary_write-WritesAs m (plain w) s v ok fits = (sym ok, write_lem s v)
  binary_write-WritesAs m (block w) s v ok fits = write_block-WritesAs m w s v ok fits
  binary_write-WritesAs m (vector w k) s vs ok fits =
      write_vector-WritesAs (binary_write O k) (encode k) (Fits m k) (binary_write-WritesAs m k) s
        vs ok.1 fits
  binary_write-WritesAs m (pair j k) s v ok fits =
      write_pair-WritesAs (binary_write O j) (binary_write O k) (encode j) (encode k) (Fits m j)
        (Fits m k) (binary_write-WritesAs m j) (binary_write-WritesAs m k) s v ok fits
  binary_write-WritesAs m (triple i j k) s v ok fits =
      write_triple-WritesAs (binary_write O i) (binary_write O j) (binary_write O k) (encode i)
        (encode j) (encode k) (Fits m i) (Fits m j) (Fits m k) (binary_write-WritesAs m i)
        (binary_write-WritesAs m j) (binary_write-WritesAs m k) s v ok fits
