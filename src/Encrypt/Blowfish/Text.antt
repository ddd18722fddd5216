-- ===== src/Encrypt/Blowfish/Text.antt =====
-- `Decrypt` undoes `Encrypt` on whole texts.
use fma_common.Common.{
  ℕ, ◌+◌, ◌-◌, ◌/◌, ◌%◌, ◌^◌, ◌≤◌, ◌<◌, ◌≡◌, refl, none, some, [], ◌∷◌, ◌++◌, arith, Bytes, IsByte,
  IsBytes, All-append, All-replicate, ◌≢◌, length, replicate, length-append, length-replicate,
  take-append,
}
use fma_common.Encrypt.Blowfish.{
  Blowfish, Block, IsCipher, IsBlock, IsWord, encrypt_block, decrypt_block, load_word, store_word,
  map_blocks, padding_length, encrypt, decrypt,
}
use fma_common.Encrypt.Blowfish.Rounds.{encrypt_block-IsBlock, decrypt_block-encrypt_block}
use fma_common.Encrypt.Blowfish.Padding.{
  padding_length_bounds, pkcs5_padding_length_pad, pkcs5_padding_length-ne-none,
  pkcs5_padding_length_short,
}

load-IsWord : (a b c d : ℕ) → IsByte a → IsByte b → IsByte c → IsByte d → IsWord (load_word a b c d)
unfolding load_word
load-IsWord a b c d ha hb hc hd = omega arith

store_load :
    (a b c d : ℕ) (rest : Bytes)
    → IsByte a
    → IsByte b
    → IsByte c
    → IsByte d
    → store_word (load_word a b c d) rest ≡ a ∷ b ∷ c ∷ d ∷ rest
unfolding store_word load_word
store_load a b c d rest ha hb hc hd = ground arith

load_store :
    (w : ℕ)
    → IsWord w
    → load_word (w % 256) (w / 2 ^ 8 % 256) (w / 2 ^ 16 % 256) (w / 2 ^ 24 % 256) ≡ w
unfolding load_word
load_store w h = omega arith

-- The bytes of one block, before `rest`.
abbrev spell : Block → Bytes → Bytes
spell b rest = store_word b.left (store_word b.right rest)

map_blocks-spell :
    (f : Block → Block) (b : Block) (rest : Bytes)
    → IsBlock b
    → map_blocks f (spell b rest) ≡ spell (f b) (map_blocks f rest)
unfolding map_blocks store_word
map_blocks-spell f b rest v =
    rw (load_store b.left v.left_word, load_store b.right v.right_word) refl

map_blocks_step :
    (f : Block → Block) (a b d e g h i j : ℕ) (rest : Bytes)
    → map_blocks f (a ∷ b ∷ d ∷ e ∷ g ∷ h ∷ i ∷ j ∷ rest)
      ≡ spell
          (f (record { left = load_word a b d e; right = load_word g h i j }))
          (map_blocks f rest)
unfolding map_blocks
map_blocks_step f a b d e g h i j rest = refl

map_blocks-nil : (f : Block → Block) → map_blocks f [] ≡ []
unfolding map_blocks
map_blocks-nil f = refl

length-map_blocks : (f : Block → Block) (str : Bytes) → length (map_blocks f str) ≡ length str
unfolding map_blocks store_word
length-map_blocks f (a ∷ b ∷ d ∷ e ∷ g ∷ h ∷ i ∷ j ∷ rest) = omega (arith, length-map_blocks f rest)
length-map_blocks f _ = refl

module _ (c : Blowfish) (k : IsCipher c) where
  block_back :
      (b : Block) (rest : Bytes)
      → IsBlock b
      → map_blocks (decrypt_block c) (spell (encrypt_block c b) rest)
        ≡ spell b (map_blocks (decrypt_block c) rest)
  block_back b rest v =
      rw
        (
          map_blocks-spell (decrypt_block c) (encrypt_block c b) rest
              (encrypt_block-IsBlock c k b v),
          decrypt_block-encrypt_block c k b v,
        )
        refl

  map_blocks_back :
      (str : Bytes)
      → IsBytes str
      → length str % 8 ≡ 0
      → map_blocks (decrypt_block c) (map_blocks (encrypt_block c) str) ≡ str
  map_blocks_back (a ∷ b ∷ d ∷ e ∷ g ∷ h ∷ i ∷ j ∷ rest)
        (pa, (pb, (pd, (pe, (pg, (ph, (pi, (pj, ps)))))))) n =
      let words : IsBlock (record { left = load_word a b d e; right = load_word g h i j }) =
        record {
          left_word = load-IsWord a b d e pa pb pd pe;
          right_word = load-IsWord g h i j pg ph pi pj;
        } in
      rw
        (
          map_blocks_step (encrypt_block c) a b d e g h i j rest,
          block_back _ (map_blocks (encrypt_block c) rest) words,
          map_blocks_back rest ps (omega arith),
          store_load g h i j rest pg ph pi pj,
          store_load a b d e (g ∷ h ∷ i ∷ j ∷ rest) pa pb pd pe,
        )
        refl
  map_blocks_back [] bs n =
      rw (map_blocks-nil (encrypt_block c), map_blocks-nil (decrypt_block c)) refl
  map_blocks_back _ bs n = absurd (omega arith)

  decrypt_padded :
      (src : Bytes) (n : ℕ)
      → IsBytes src
      → (0 < n) × (n ≤ 8) × ((length src + n) % 8 ≡ 0)
      → decrypt c (map_blocks (encrypt_block c) (src ++ replicate n n)) ≡ some src
  unfolding decrypt
  decrypt_padded src n bs (pos, small, whole) =
      let padded : IsBytes (src ++ replicate n n) =
        All-append IsByte src (replicate n n) bs (All-replicate IsByte n n (omega arith)) in
      let size : length (src ++ replicate n n) ≡ length src + n =
        rw (length-append src (replicate n n), length-replicate n n) in
      let cut : length (src ++ replicate n n) - n ≡ length src = omega (arith, size) in
      rw
        (
          map_blocks_back (src ++ replicate n n) padded (rw size whole),
          pkcs5_padding_length_pad src n pos small,
          cut,
          take-append src (replicate n n),
        )
        refl

  -- Decrypting what the same cipher encrypted gives the text back, for every text of bytes.
  pub decrypt-encrypt : (src : Bytes) → IsBytes src → decrypt c (encrypt c src) ≡ some src
  unfolding encrypt
  decrypt-encrypt src bs =
      decrypt_padded src (padding_length (length src)) bs (padding_length_bounds (length src))

  -- A ciphertext is the text and one to eight bytes more, a multiple of eight.
  pub length-encrypt :
      (src : Bytes)
      → (length src < length (encrypt c src))
        × (length (encrypt c src) ≤ length src + 8)
        × (length (encrypt c src) % 8 ≡ 0)
  unfolding encrypt
  length-encrypt src =
      let n = padding_length (length src) in
      let (pos, small, whole) = padding_length_bounds (length src) in
      let size : length (map_blocks (encrypt_block c) (src ++ replicate n n)) ≡ length src + n =
        rw (
          length-map_blocks (encrypt_block c) (src ++ replicate n n),
          length-append src (replicate n n),
          length-replicate n n,
        ) in
      rw size (omega arith)

-- On a ciphertext of eight bytes or more `Decrypt` reads no byte outside it, whatever it holds.
pub decrypt-ne-none : (c : Blowfish) (src : Bytes) → 8 ≤ length src → decrypt c src ≢ none
unfolding decrypt
decrypt-ne-none c src h =
    let dst = map_blocks (decrypt_block c) src in
    ground (
      arith,
      pkcs5_padding_length-ne-none dst (omega (arith, length-map_blocks (decrypt_block c) src)),
    )

-- A block is not whole below eight bytes, so a shorter text goes to the padding loop as it is.
map_blocks_short : (f : Block → Block) (str : Bytes) → length str < 8 → map_blocks f str ≡ str
unfolding map_blocks
map_blocks_short f (a ∷ b ∷ d ∷ e ∷ g ∷ h ∷ i ∷ j ∷ rest) p = absurd (omega arith)
map_blocks_short f _ p = refl

-- `m` bytes that each say `n`, with `m < n`, make `Decrypt` read before the start of its buffer.
pub decrypt_short :
    (c : Blowfish) (m n : ℕ) → 0 < m → m < n → n ≤ 8 → decrypt c (replicate m n) ≡ none
unfolding decrypt
decrypt_short c m n p q r =
    let short =
      map_blocks_short (decrypt_block c) (replicate m n) (omega (arith, length-replicate m n)) in
    rw (short, pkcs5_padding_length_short m n p q r) refl
