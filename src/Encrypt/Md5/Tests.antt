-- ===== src/Encrypt/Md5/Tests.antt =====
-- Runs of `MD5` (fma-common/encrypt.h).
use fma_common.Common.{
  ◌+◌, ◌*◌, ◌%◌, ◌^◌, ◌≡◌, refl, [], ◌∷◌, ◌++◌, arith, Bytes, length, replicate,
}
use fma_common.Encrypt.Md5.{
  Md5Context, md5_init, md5_update, md5_encrypt, md5_final, md5_transform, md5_chunks, md5_blocks,
  memcpy,
}
use fma_common.Encrypt.Md5.Chunks.{feed_all}
use fma_common.Encrypt.Md5.Pieces.{
  IsCounting, view, bit_count, md5_update_lem, md5_update-append, md5_encrypt_salt,
}

abbrev abc : Bytes
abc = 97 ∷ 98 ∷ 99 ∷ []

abbrev start_demo : Md5Context
start_demo = md5_init (replicate 64 0)

start_demo-IsCounting : IsCounting start_demo
unfolding md5_init
start_demo-IsCounting = record { low = omega arith; high = omega arith }

-- The digest of "abc" in RFC 1321.
digest_abc :
    md5_encrypt (replicate 64 0) abc []
    ≡ 0x90 ∷ 0x01 ∷ 0x50 ∷ 0x98 ∷ 0x3c ∷ 0xd2 ∷ 0x4f ∷ 0xb0 ∷ 0xd6 ∷ 0x96 ∷ 0x3f ∷ 0x7d ∷ 0x28
      ∷ 0xe1 ∷ 0x7f ∷ 0x72 ∷ []
unfolding md5_encrypt md5_final md5_transform md5_chunks md5_blocks memcpy
digest_abc = refl

md5_update_example :
    (view (md5_update start_demo abc) ≡ feed_all (view start_demo) abc)
    × (bit_count (md5_update start_demo abc) ≡ (bit_count start_demo + 8 * length abc) % 2 ^ 64)
md5_update_example = md5_update_lem start_demo abc start_demo-IsCounting (omega arith)

md5_update-append_example :
    md5_update (md5_update start_demo abc) (replicate 70 1)
    ≡ md5_update start_demo (abc ++ replicate 70 1)
md5_update-append_example =
    md5_update-append start_demo abc (replicate 70 1) start_demo-IsCounting (omega arith)

md5_encrypt_salt_example :
    md5_encrypt (replicate 64 0) abc (115 ∷ []) ≡ md5_encrypt (replicate 64 0) (abc ++ 115 ∷ []) []
md5_encrypt_salt_example = md5_encrypt_salt (replicate 64 0) abc (115 ∷ []) (omega arith)
