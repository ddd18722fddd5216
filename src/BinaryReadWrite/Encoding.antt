-- ===== src/BinaryReadWrite/Encoding.antt =====
-- The bytes that stand for a value in a stream (fma-common/binary_read_write_helper.h), and what
-- `BinaryWrite` does with them.
use fma_common.Common.{
  ℕ, zero, suc, ◌*◌, ◌/◌, ◌^◌, ◌≤◌, ◌<◌, ◌≡◌, refl, ◌++◌, List, [], ◌∷◌, Bytes, All, arith, length,
  length-append, length-replicate,
}
use fma_common.BinaryReadWrite.{
  size_width, le_bytes, le_value, Kind, plain, block, vector, pair, triple, Value, default,
}

abbrev pub encode_each : {A : Type 0} → (A → Bytes) → List A → Bytes
encode_each code [] = []
encode_each code (v ∷ vs) = code v ++ encode_each code vs

unfoldable pub encode : (k : Kind) → Value k → Bytes
encode (plain w) v = v
encode (block w) v = le_bytes size_width (length v / w) ++ v
encode (vector w k) vs = le_bytes size_width (length vs) ++ encode_each (encode k) vs
encode (pair j k) (x, y) = encode j x ++ encode k y
encode (triple i j k) (x, y, z) = encode i x ++ (encode j y ++ encode k z)

-- The sizes are positive.
abbrev pub IsKind : Kind → Type 0
IsKind (plain w) = 0 < w
IsKind (block w) = 0 < w
IsKind (vector w k) = (0 < w) × IsKind k
IsKind (pair j k) = IsKind j × IsKind k
IsKind (triple i j k) = IsKind i × IsKind j × IsKind k

-- An object: what is copied with memcpy has its size.
abbrev pub Shaped : (k : Kind) → Value k → Type 0
Shaped (plain w) v = length v ≡ w
Shaped (block w) v = Unit
Shaped (vector w k) vs = All (Shaped k) vs
Shaped (pair j k) (x, y) = Shaped j x × Shaped k y
Shaped (triple i j k) (x, y, z) = Shaped i x × Shaped j y × Shaped k z

-- An object whose containers hold whole elements, and at most `max_bytes` of them.
abbrev pub Fits : ℕ → (k : Kind) → Value k → Type 0
Fits max_bytes (plain w) v = length v ≡ w
Fits max_bytes (block w) v = (length v / w * w ≡ length v) × (length v ≤ max_bytes)
Fits max_bytes (vector w k) vs = (length vs * w ≤ max_bytes) × All (Fits max_bytes k) vs
Fits max_bytes (pair j k) (x, y) = Fits max_bytes j x × Fits max_bytes k y
Fits max_bytes (triple i j k) (x, y, z) =
    Fits max_bytes i x × Fits max_bytes j y × Fits max_bytes k z

pub length-le_bytes : (width n : ℕ) → length (le_bytes width n) ≡ width
unfolding le_bytes
length-le_bytes zero n = refl
length-le_bytes (suc width) n = omega (arith, length-le_bytes width (n / 256))

pub le_value-le_bytes : (width n : ℕ) → n < 256 ^ width → le_value (le_bytes width n) ≡ n
unfolding le_bytes le_value
le_value-le_bytes zero n h = omega arith
le_value-le_bytes (suc width) n h =
    omega (arith, le_value-le_bytes width (n / 256) (omega (arith, h)))

pub default-Shaped : (k : Kind) → Shaped k (default k)
unfolding default
default-Shaped (plain w) = length-replicate w 0
default-Shaped (block w) = tt
default-Shaped (vector w k) = tt
default-Shaped (pair j k) = (default-Shaped j, default-Shaped k)
default-Shaped (triple i j k) = (default-Shaped i, default-Shaped j, default-Shaped k)

-- A value takes a byte at least.
pub encode_pos :
    (max_bytes : ℕ) (k : Kind) (v : Value k)
    → IsKind k
    → Fits max_bytes k v
    → 0 < length (encode k v)
unfolding encode
encode_pos m (plain w) v h f = omega arith
encode_pos m (block w) v h f = omega (
  arith,
  length-append (le_bytes size_width (length v / w)) v,
  length-le_bytes size_width (length v / w),
)
encode_pos m (vector w k) vs h f = omega (
  arith,
  length-append (le_bytes size_width (length vs)) (encode_each (encode k) vs),
  length-le_bytes size_width (length vs),
)
encode_pos m (pair j k) (x, y) h f =
    omega (arith, length-append (encode j x) (encode k y), encode_pos m j x h.0 f.0)
encode_pos m (triple i j k) (x, y, z) h f =
    omega (arith, length-append (encode i x) (encode j y ++ encode k z), encode_pos m i x h.0 f.0)
