-- ===== src/BinaryBuffer/Tests.antt =====
-- Runs of the buffer of fma-common/binary_buffer.h on concrete contents.
use fma_common.Common.{
  ℕ, ◌≤◌, ◌<◌, ◌≡◌, refl, ◌⊎◌, true, [], ◌∷◌, ◌++◌, arith, Bytes, length, take, drop, replicate,
  length-replicate,
}
use fma_common.BinaryBuffer.{
  BinaryBuffer, Allocator, ok, failed, read, write, write_head, empty, from_const,
}
use fma_common.BinaryBuffer.Content.{Holds}
use fma_common.BinaryBuffer.Refine.{Stores, fresh, write-Stores, write_head-Stores, read-cases}

-- An allocator whose blocks are all zeros.
abbrev alloc_demo : Allocator
alloc_demo = record { malloc = λ n. replicate n 0; malloc_size = λ n. length-replicate {A = ℕ} n 0 }

abbrev bytes_demo : Bytes
bytes_demo = 1 ∷ 2 ∷ 3 ∷ []

empty-Stores : Stores empty []
empty-Stores = fresh refl

write-Stores_example :
    (t : BinaryBuffer) × (write alloc_demo empty bytes_demo ≡ ok t) × Stores t ([] ++ bytes_demo)
write-Stores_example =
    write-Stores alloc_demo empty bytes_demo empty-Stores (unfold empty in omega arith)

write_head-Stores_example :
    (t : BinaryBuffer) × (write_head alloc_demo empty bytes_demo ≡ ok t)
    × Stores t (bytes_demo ++ [])
write_head-Stores_example =
    write_head-Stores alloc_demo empty bytes_demo empty-Stores (unfold empty in omega arith)

abbrev const_demo : BinaryBuffer
const_demo = from_const bytes_demo

const_demo-const_buf : const_demo.const_buf ≡ true
unfolding from_const
const_demo-const_buf = refl

const_demo-Holds : Holds const_demo bytes_demo
unfolding from_const
const_demo-Holds = record {
  before = [];
  behind = [];
  block = refl;
  start = refl;
  end = refl;
  size = refl;
  fits = omega arith;
}

read-cases_example :
    (read const_demo 2 ≡ failed) × (length bytes_demo < 2)
    ⊎ ((t : BinaryBuffer) × (read const_demo 2 ≡ ok (take 2 bytes_demo, t))
        × Holds t (drop 2 bytes_demo)
        × (2 ≤ length bytes_demo))
read-cases_example = read-cases const_demo 2 const_demo-Holds (unfold from_const in omega arith)
