-- ===== src/Encrypt/Blowfish/Key.antt =====
-- `SetKey` makes a cipher from every key but the empty one.
use fma_common.Common.{
  bit_xor, ℕ, zero, suc, ◌+◌, ◌*◌, ◌/◌, ◌%◌, ◌^◌, ◌<◌, ◌≤◌, false, ◌≡◌, refl, ◌∙◌, ◌≢◌, ◌==◌,
  if◌then◌else◌, ℕ_discrete, some, List, [], ◌∷◌, arith, Bytes, IsByte, IsBytes, All, length,
  get_or, set, length-set, ltb, ◌&&◌, Bool, true,
}
use fma_common.Common.Bits.{bit_xor-lt}
use fma_common.Encrypt.Blowfish.{
  encrypt_block, Blowfish, Block, IsCipher, IsBlock, IsWord, gcd, key_word, mix_key, write_at,
  put_block, fill_pary, fill_sbox, set_key,
}
use fma_common.Encrypt.Blowfish.Tables.{initial_pary, initial_sbox}
use fma_common.Encrypt.Blowfish.Rounds.{get_or-IsWord, encrypt_block-IsBlock}

-- A test that every word of a table is below 2 ^ 32, run on the tables of the source.
all_words : List ℕ → Bool
all_words [] = true
all_words (w ∷ ws) = ltb w (2 ^ 32) && all_words ws

all_words_sound : (ws : List ℕ) → all_words ws ≡ true → All IsWord ws
unfolding all_words
all_words_sound [] h = tt
all_words_sound (w ∷ ws) h = ground (arith, all_words_sound ws)

initial_pary-IsWord : All IsWord initial_pary
initial_pary-IsWord = all_words_sound initial_pary (unfold all_words initial_pary in refl)

initial_sbox-IsWord : All IsWord initial_sbox
initial_sbox-IsWord = all_words_sound initial_sbox (unfold all_words initial_sbox in refl)

length-initial_pary : length initial_pary ≡ 18
unfolding initial_pary
length-initial_pary = refl

length-initial_sbox : length initial_sbox ≡ 1024
unfolding initial_sbox
length-initial_sbox = refl

set-IsWord : (ws : List ℕ) (i v : ℕ) → All IsWord ws → IsWord v → All IsWord (set ws i v)
set-IsWord [] i v h hv = tt
set-IsWord (w ∷ ws) zero v h hv = (hv, h.1)
set-IsWord (w ∷ ws) (suc i) v h hv = (h.0, set-IsWord ws i v h.1 hv)

get_or-IsByte : (bs : Bytes) (i : ℕ) → IsBytes bs → IsByte (get_or bs i 0)
get_or-IsByte [] i h = omega arith
get_or-IsByte (b ∷ bs) zero h = h.0
get_or-IsByte (b ∷ bs) (suc i) h = get_or-IsByte bs i h.1

key_word-IsWord : (key : Bytes) (i : ℕ) → IsBytes key → IsWord (key_word key i)
unfolding key_word
key_word-IsWord key i h = omega (
  arith,
  get_or-IsByte key ((i * 4 + 0) % length key) h,
  get_or-IsByte key ((i * 4 + 1) % length key) h,
  get_or-IsByte key ((i * 4 + 2) % length key) h,
  get_or-IsByte key ((i * 4 + 3) % length key) h,
)

-- A table of `size` words.
abbrev IsTable : ℕ → List ℕ → Type 0
IsTable size ws = (length ws ≡ size) × All IsWord ws

write_at-IsTable :
    (size : ℕ) (ws : List ℕ) (i v : ℕ)
    → IsTable size ws
    → i < size
    → IsWord v
    → (us : List ℕ) × (write_at ws i v ≡ some us) × IsTable size us
unfolding write_at
write_at-IsTable size ws i v (full, words) inside h =
    let room : ltb i (length ws) ≡ true = ground (arith, full, inside) in
    (set ws i v, rw room refl, (length-set ws i v ∙ full, set-IsWord ws i v words h))

put_block-IsTable :
    (size : ℕ) (ws : List ℕ) (i : ℕ) (o : Block)
    → IsTable size ws
    → i * 2 + 1 < size
    → IsBlock o
    → (us : List ℕ) × (put_block ws i o ≡ some us) × IsTable size us
unfolding put_block
put_block-IsTable size ws i o table inside block =
    let (us, first, table') =
      write_at-IsTable size ws (i * 2) o.left table (omega arith) block.left_word in
    let (vs, second, table'') =
      write_at-IsTable size us (i * 2 + 1) o.right table' inside block.right_word in
    (vs, rw (first, second) refl, table'')

mix_key-IsTable :
    (key : Bytes) (n : ℕ) (ps : List ℕ)
    → IsBytes key
    → n ≤ 18
    → IsTable 18 ps
    → (qs : List ℕ) × (mix_key key n ps ≡ some qs) × IsTable 18 qs
unfolding mix_key
mix_key-IsTable key zero ps hk inside hp = (ps, refl, hp)
mix_key-IsTable key (suc n) ps hk inside hp =
    let (qs, e, before) = mix_key-IsTable key n ps hk (omega arith) hp in
    let k = key_word key (n % (length key / gcd (length key) 4)) in
    let (us, e', after) =
      write_at-IsTable 18 qs n (bit_xor (get_or qs n 0) k) before (omega arith)
        (bit_xor-lt 32 _ _ (get_or-IsWord qs n before.1) (key_word-IsWord key _ hk)) in
    (us, rw (e, e') refl, after)

abbrev Running : Blowfish × Block → Type 0
Running s = IsCipher s.0 × IsBlock s.1

fill_pary-Running :
    (n : ℕ) (s : Blowfish × Block)
    → n ≤ 9
    → Running s
    → (t : Blowfish × Block) × (fill_pary n s ≡ some t) × Running t
unfolding fill_pary
fill_pary-Running zero s inside h = (s, refl, h)
fill_pary-Running (suc n) s inside h =
    let ((c, b), e, (k, block)) = fill_pary-Running n s (omega arith) h in
    let o = encrypt_block c b in
    let block' = encrypt_block-IsBlock c k b block in
    let (us, e', table) =
      put_block-IsTable 18 c.pary n o (k.pary_size, k.pary_words) (omega arith) block' in
    (
      (record c { pary = us }, o),
      rw (e, e') refl,
      (
        record {
          pary_size = table.0;
          sbox_size = k.sbox_size;
          pary_words = table.1;
          sbox_words = k.sbox_words;
        },
        block',
      ),
    )

fill_sbox-Running :
    (n : ℕ) (s : Blowfish × Block)
    → n ≤ 512
    → Running s
    → (t : Blowfish × Block) × (fill_sbox n s ≡ some t) × Running t
unfolding fill_sbox
fill_sbox-Running zero s inside h = (s, refl, h)
fill_sbox-Running (suc n) s inside h =
    let ((c, b), e, (k, block)) = fill_sbox-Running n s (omega arith) h in
    let o = encrypt_block c b in
    let block' = encrypt_block-IsBlock c k b block in
    let (us, e', table) =
      put_block-IsTable 1024 c.sbox n o (k.sbox_size, k.sbox_words) (omega arith) block' in
    (
      (record c { sbox = us }, o),
      rw (e, e') refl,
      (
        record {
          pary_size = k.pary_size;
          sbox_size = table.0;
          pary_words = k.pary_words;
          sbox_words = table.1;
        },
        block',
      ),
    )

-- What `SetKey` takes from `GCD`: the number of key words is positive, so that no index is taken
-- modulo zero.
gcd_four : (n : ℕ) → gcd n 4 ≡ (if n % 4 == 0 then 4 else if n % 4 == 2 then 2 else 1)
unfolding gcd
gcd_four n = elim (ℕ_discrete (n % 4) 0) [
  | yes e ↦ rw e refl
  | no e₀ ↦ elim (ℕ_discrete (n % 4) 1) [
    | yes e ↦ rw e refl
    | no e₁ ↦ elim (ℕ_discrete (n % 4) 2) [
      | yes e ↦ rw e refl
      | no e₂ ↦ let e : n % 4 ≡ 3 = omega arith in rw e refl
    ]
  ]
]

-- The number of words in the key buffer is positive, and their bytes are whole copies of the key.
pub key_buffer_length : (n : ℕ) → 0 < n → (0 < n / gcd n 4) × (n / gcd n 4 * 4 % n ≡ 0)
key_buffer_length n h = rw (gcd_four n) (grind arith)

-- `SetKey` succeeds on every key of one byte or more, and leaves 18 and 1024 words in the tables.
pub set_key-IsCipher :
    (key : Bytes) → key ≢ [] → IsBytes key → (c : Blowfish) × (set_key key ≡ some c) × IsCipher c
unfolding set_key
set_key-IsCipher [] h bs = absurd (h refl)
set_key-IsCipher (k ∷ key) h bs =
    let (pary, mixed, table) =
      mix_key-IsTable (k ∷ key) 18 initial_pary bs (omega arith)
        (length-initial_pary, initial_pary-IsWord) in
    let start : IsCipher (record { pary = pary; sbox = initial_sbox }) = record {
      pary_size = table.0;
      sbox_size = length-initial_sbox;
      pary_words = table.1;
      sbox_words = initial_sbox-IsWord;
    } in
    let zeros : IsBlock (record { left = 0; right = 0 }) = record {
      left_word = omega arith;
      right_word = omega arith;
    } in
    let (s, first, running) = fill_pary-Running 9 _ (omega arith) (start, zeros) in
    let ((c, b), second, running') = fill_sbox-Running 512 s (omega arith) running in
    let some_key : (length (k ∷ key) == 0) ≡ false = ground arith in
    (c, rw (some_key, mixed, first, second) refl, running'.0)
