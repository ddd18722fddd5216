-- ===== src/Encrypt/Blowfish/Rounds.antt =====
-- `DecryptBlock` undoes `EncryptBlock`: the rounds of fma-common/encrypt.h read backwards.
use fma_common.Common.{
  ℕ, zero, suc, ◌+◌, ◌-◌, bit_xor, ◌≡◌, refl, List, [], ◌∷◌, arith, get_or, All,
}
use fma_common.Common.Bits.{bit_xor-lt, bit_xor_cancel, bit_xor_sandwich}
use fma_common.Encrypt.Blowfish.{
  Blowfish, Block, IsCipher, IsBlock, IsWord, pary_at, feistel, round, encrypt_rounds,
  encrypt_block, decrypt_rounds, decrypt_block,
}

pub get_or-IsWord : (xs : List ℕ) (i : ℕ) → All IsWord xs → IsWord (get_or xs i 0)
get_or-IsWord [] i h = omega arith
get_or-IsWord (x ∷ xs) zero h = h.0
get_or-IsWord (x ∷ xs) (suc i) h = get_or-IsWord xs i h.1

feistel-IsWord : (c : Blowfish) (w : ℕ) → IsWord (feistel c w)
unfolding feistel
feistel-IsWord c w = omega arith

round-IsBlock : (c : Blowfish) (k : ℕ) (b : Block) → IsWord k → IsBlock b → IsBlock (round c k b)
unfolding round
round-IsBlock c k b hk v = record {
  left_word = bit_xor-lt 32 b.right _ v.right_word (feistel-IsWord c _);
  right_word = bit_xor-lt 32 b.left k v.left_word hk;
}

-- A round with the word `q` on the swapped and masked output of a round with the word `p`
-- gives the swapped and masked input.
round_back :
    (c : Blowfish) (p q r : ℕ) (b : Block)
    → IsWord p
    → IsWord q
    → IsWord r
    → IsBlock b
    → let s = round c p b in
      round c q (record { left = bit_xor s.right q; right = bit_xor s.left r })
      ≡ record { left = bit_xor b.right r; right = bit_xor b.left p }
unfolding round
round_back c p q r b hp hq hr v =
    rw
      (
        bit_xor_cancel 32 (bit_xor b.left p) q (bit_xor-lt 32 b.left p v.left_word hp) hq,
        bit_xor_sandwich 32 b.right (feistel c (bit_xor b.left p)) r v.right_word
            (feistel-IsWord c _) hr,
      )
      refl

module _ (c : Blowfish) (k : IsCipher c) (b : Block) (v : IsBlock b) where
  pary-IsWord : (i : ℕ) → IsWord (pary_at c i)
  pary-IsWord i = get_or-IsWord c.pary i k.pary_words

  encrypt_rounds-IsBlock : (n : ℕ) → IsBlock (encrypt_rounds c n b)
  unfolding encrypt_rounds
  encrypt_rounds-IsBlock zero = v
  encrypt_rounds-IsBlock (suc i) = round-IsBlock c _ _ (pary-IsWord i) (encrypt_rounds-IsBlock i)

  pub encrypt_block-IsBlock : IsBlock (encrypt_block c b)
  unfolding encrypt_block
  encrypt_block-IsBlock = record {
    left_word = bit_xor-lt 32 _ _ (encrypt_rounds-IsBlock 16).right_word (pary-IsWord 17);
    right_word = bit_xor-lt 32 _ _ (encrypt_rounds-IsBlock 16).left_word (pary-IsWord 16);
  }

  -- After `i` of its rounds `DecryptBlock` holds, swapped and masked with two key words, what
  -- `EncryptBlock` held before its last `i` rounds.
  decrypt_rounds_back :
      (i j : ℕ)
      → i + j ≡ 16
      → let s = encrypt_rounds c j b in
        decrypt_rounds c i (encrypt_block c b) ≡ record {
          left = bit_xor s.right (pary_at c (suc j));
          right = bit_xor s.left (pary_at c j);
        }
  unfolding decrypt_rounds encrypt_rounds encrypt_block
  decrypt_rounds_back zero j e = let at : j ≡ 16 = omega arith in rw at refl
  decrypt_rounds_back (suc i) j e =
      let at : 17 - i ≡ suc (suc j) = omega arith in
      rw (decrypt_rounds_back i (suc j) (omega arith), at)
        (round_back c (pary_at c j) (pary_at c (suc (suc j))) (pary_at c (suc j)) _ (pary-IsWord j)
          (pary-IsWord (suc (suc j))) (pary-IsWord (suc j)) (encrypt_rounds-IsBlock j))

  -- On a block of words, under a cipher whose tables hold words, `DecryptBlock` undoes
  -- `EncryptBlock`.
  pub decrypt_block-encrypt_block : decrypt_block c (encrypt_block c b) ≡ b
  unfolding decrypt_block encrypt_rounds
  decrypt_block-encrypt_block =
      rw
        (
          decrypt_rounds_back 16 0 refl,
          bit_xor_cancel 32 b.left (pary_at c 0) v.left_word (pary-IsWord 0),
          bit_xor_cancel 32 b.right (pary_at c 1) v.right_word (pary-IsWord 1),
        )
        refl
