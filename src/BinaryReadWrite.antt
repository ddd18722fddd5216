-- ===== src/BinaryReadWrite.antt =====
-- fma-common/binary_read_write_helper.h: the templates `BinaryReader` and `BinaryWriter`, with a
-- constructor of `Kind` for each specialisation that the compiler can choose. A value that is copied with
-- `memcpy` is the list of its bytes; so is a container of such values, a string for one. `Read` returns
-- the number of bytes, the object that it has read into and the stream; `none` is the exception of a
-- container that cannot be resized. The streams are those that read as many bytes as were asked for while
-- there are as many. `&d[0]` of an empty container is taken for a pointer that nothing is read or written
-- through. The operands of a sum of calls are evaluated from the left. Maps and
-- sets are in BinaryReadWrite/Keyed.antt.
pub mod Encoding
pub mod Write
pub mod Read
pub mod Keyed
pub mod RoundTrip
mod Tests
use fma_common.Common.{
  ℕ, zero, suc, ◌+◌, ◌-◌, ◌*◌, ◌/◌, ◌%◌, ◌^◌, Option, none, some, List, [], ◌∷◌, ◌++◌, Bytes, ltb,
  ◌==◌, if◌then◌else◌, ◌>>=◌, length, take, drop, replicate,
}
use fma_common.Stream.{FullInputStream, OutputStream}

abbrev pub size_mod : ℕ
size_mod = 2 ^ 64

-- `sizeof(size_t)`
abbrev pub size_width : ℕ
size_width = 8

-- The memory of a number, on a little-endian machine, and the number in a memory.
unfoldable pub le_bytes : ℕ → ℕ → Bytes
le_bytes zero n = []
le_bytes (suc width) n = n % 256 ∷ le_bytes width (n / 256)

unfoldable pub le_value : Bytes → ℕ
le_value [] = 0
le_value (b ∷ bs) = b + 256 * le_value bs

pub data Kind : Type 0 where
  -- a type of that many bytes that is copied with memcpy
  plain : ℕ → Kind
  -- a sequential container of such a type
  block : ℕ → Kind
  -- a sequential container of another type, with the size of an element and the default one's kind
  vector : ℕ → Kind → Kind
  pair : Kind → Kind → Kind
  triple : Kind → Kind → Kind → Kind

abbrev pub Value : Kind → Type 0
Value (plain w) = Bytes
Value (block w) = Bytes
Value (vector w k) = List (Value k)
Value (pair j k) = Value j × Value k
Value (triple i j k) = Value i × Value j × Value k

-- The object that a container's `resize` adds: zeros and empty containers.
unfoldable pub default : (k : Kind) → Value k
default (plain w) = replicate w 0
default (block w) = []
default (vector w k) = []
default (pair j k) = (default j, default k)
default (triple i j k) = (default i, default j, default k)

-- `d.resize(size)`
unfoldable pub resize {ℓ} : {A : Type ℓ} → ℕ → A → List A → List A
resize size a d = take size d ++ replicate (size - length d) a

module _ (I : FullInputStream) where
  open I use {State, read}

  abbrev pub Read : Type 0 → Type 0
  Read A = State → A → Option (ℕ × A × State)

  -- `s.Read(&d, sizeof(T))`: what is missing stays as it was.
  pub read_plain : ℕ → State → Bytes → ℕ × Bytes × State
  read_plain width s d =
      let (got, s') = read s width in (length got, got ++ drop (length got) d, s')

  pub read_pair : {A B : Type 0} → Read A → Read B → Read (A × B)
  read_pair read_first read_second s (a, b) = read_first s a >>= λ (n, a', t).
      read_second t b >>= λ (m, b', u). some ((n + m) % size_mod, (a', b'), u)

  pub read_triple : {A B C : Type 0} → Read A → Read B → Read C → Read (A × B × C)
  read_triple read_first read_second read_third s (a, b, c) = read_first s a >>= λ (n, a', t).
      read_second t b >>= λ (m, b', u).
      read_third u c >>= λ (k, c', v). some (((n + m) % size_mod + k) % size_mod, (a', b', c'), v)

  -- The loop over the elements `d[i]`, with the bytes read so far.
  pub read_each : {A : Type 0} → Read A → ℕ → State → List A → Option (ℕ × List A × State)
  read_each read_element bytes_read s [] = some (bytes_read, [], s)
  read_each read_element bytes_read s (a ∷ d) = read_element s a >>= λ (bytes, a', t).
      let rest = read_each read_element ((bytes_read + bytes) % size_mod) t d in
      if bytes == 0 then some (0, a' ∷ d, t) else (rest >>= λ (n, d', u). some (n, a' ∷ d', u))

  -- `max_bytes` is what a container can hold, and `uninit` the memory of the variable `size`.
  module _ (max_bytes : ℕ) (uninit : Bytes) where
    pub read_block : ℕ → Read Bytes
    read_block width s d =
        let (r, memory, t) = read_plain size_width s uninit in
        let size = le_value memory in
        let resized = resize (size * width) 0 d in
        let (bytes, d', u) = read_plain (size * width % size_mod) t resized in
        if r == 0
        then some (0, d, t)
        else if ltb max_bytes (size * width)
        then none
        else if bytes == size * width % size_mod
        then some ((bytes + size_width) % size_mod, d', u)
        else some (0, d', u)

    pub read_vector : {A : Type 0} → ℕ → A → Read A → Read (List A)
    read_vector width a read_element s d =
        let (r, memory, t) = read_plain size_width s uninit in
        let size = le_value memory in
        if r == 0
        then some (0, d, t)
        else if ltb max_bytes (size * width)
        then none
        else read_each read_element size_width t (resize size a d)

    -- `BinaryRead`
    pub binary_read : (k : Kind) → Read (Value k)
    unfolding read_plain read_pair read_triple read_block read_each read_vector resize
    binary_read (plain w) s d = some (read_plain w s d)
    binary_read (block w) s d = read_block w s d
    binary_read (vector w k) s d = read_vector w (default k) (binary_read k) s d
    binary_read (pair j k) s d = read_pair (binary_read j) (binary_read k) s d
    binary_read (triple i j k) s d = read_triple (binary_read i) (binary_read j) (binary_read k) s d

module _ (O : OutputStream) where
  open O use {State, write}

  abbrev pub Write : Type 0 → Type 0
  Write A = State → A → ℕ × State

  pub write_plain : ℕ → Write Bytes
  write_plain width s d = (width, write s d)

  pub write_pair : {A B : Type 0} → Write A → Write B → Write (A × B)
  write_pair write_first write_second s (a, b) =
      let (n, t) = write_first s a in let (m, u) = write_second t b in ((n + m) % size_mod, u)

  pub write_triple : {A B C : Type 0} → Write A → Write B → Write C → Write (A × B × C)
  write_triple write_first write_second write_third s (a, b, c) =
      let (n, t) = write_first s a in
      let (m, u) = write_second t b in
      let (k, v) = write_third u c in (((n + m) % size_mod + k) % size_mod, v)

  pub write_block : ℕ → Write Bytes
  write_block width s d =
      let size = length d / width in
      let (_, t) = write_plain size_width s (le_bytes size_width size) in
      ((size_width + width * size) % size_mod, write t (take (size * width) d))

  pub write_each : {A : Type 0} → Write A → ℕ → State → List A → ℕ × State
  write_each write_element size s [] = (size, s)
  write_each write_element size s (a ∷ d) =
      let (bytes, t) = write_element s a in write_each write_element ((size + bytes) % size_mod) t d

  pub write_vector : {A : Type 0} → Write A → Write (List A)
  write_vector write_element s d =
      let (size, t) = write_plain size_width s (le_bytes size_width (length d)) in
      write_each write_element size t d

  -- `BinaryWrite`
  pub binary_write : (k : Kind) → Write (Value k)
  unfolding write_plain write_pair write_triple write_block write_each write_vector
  binary_write (plain w) s d = write_plain w s d
  binary_write (block w) s d = write_block w s d
  binary_write (vector w k) s d = write_vector (binary_write k) s d
  binary_write (pair j k) s d = write_pair (binary_write j) (binary_write k) s d
  binary_write (triple i j k) s d =
      write_triple (binary_write i) (binary_write j) (binary_write k) s d
