-- ===== src/Crypto/Cwc/Context.antt =====
-- internal/crypto/cwc/cwc.go: encryption and authentication of whole messages.
--
-- crypto/aes is a parameter: `aes key block` is the encryption of one block under a key schedule, and
-- block.Encrypt writes 16 bytes. Arrays of bytes are lists; the bytes of s.buf behind bufLen are never
-- read, so that `buf` holds the first bufLen only.
use Prim.Native.Nat.{bit_xor}
use dso.Base.{
  not, ℕ, zero, suc, ◌+◌, ◌-◌, ◌%◌, Bool, true, false, ◌&&◌, ◌||◌, ◌==◌, ltb, if◌then◌else◌, Option,
  none, some, List, [], ◌∷◌, ◌++◌, length, take, drop, replicate,
}
use dso.Base.Words.{u8, at}
use dso.Base.Result.{Result, ok, err, ◌>>=◌}
use dso.Crypto.Cwc.Hash.{PolyHash, ablk_len, set_bytes, new_poly_hash, update, finalize}

abbrev pub cblk_len : ℕ
cblk_len = 16

pub record Context : Type 0 where
  pub block : List ℕ → List ℕ
  pub z : ℕ

-- `zv[0] &= 0x7f`
unfoldable pub clear_top : List ℕ → List ℕ
clear_top [] = []
clear_top (b ∷ bs) = b % 128 ∷ bs

-- aes.NewCipher accepts these lengths.
unfoldable pub new_context : (List ℕ → List ℕ → List ℕ) → List ℕ → Option Context
unfolding clear_top
new_context aes key =
    if length key == 16 || (length key == 24 || length key == 32)
    then some
        (record { block = aes key; z = set_bytes 0 (clear_top (aes key (0xC0 ∷ replicate 15 0))) })
    else none

-- The counter block: bytes 0 to 11, and the four bytes of the counter.
pub record Counter : Type 0 where
  pub nonce : List ℕ
  pub b12 : ℕ
  pub b13 : ℕ
  pub b14 : ℕ
  pub b15 : ℕ

abbrev pub counter_bytes : Counter → List ℕ
counter_bytes c = c.nonce ++ (c.b12 ∷ c.b13 ∷ c.b14 ∷ c.b15 ∷ [])

pub record MsgState : Type 0 where
  pub hash : PolyHash
  pub ctr : Counter
  pub buf : List ℕ

-- A panic of an index or a slice that is out of range.
pub data Panic : Type 0 where
  out_of_range : Panic

unfoldable pub message_start : Context → List ℕ → MsgState
message_start c iv = record {
  hash = new_poly_hash c.z;
  ctr = record { nonce = 0x80 ∷ take 11 iv; b12 = 0; b13 = 0; b14 = 0; b15 = 0 };
  buf = [];
}

-- `iv[:11]` panics on a shorter iv; of a longer one only 11 bytes are read.
unfoldable pub init_message : Context → List ℕ → Result Panic MsgState
init_message c iv = if ltb (length iv) 11 then err out_of_range else ok (message_start c iv)

-- The loop over the bytes 15 to 12: the first that is not 0 after the increment ends it.
unfoldable pub be_inc_ctr : Counter → Counter
be_inc_ctr c =
    if not (u8 (c.b15 + 1) == 0)
    then record c { b15 = u8 (c.b15 + 1) }
    else if not (u8 (c.b14 + 1) == 0)
    then record c { b14 = u8 (c.b14 + 1); b15 = 0 }
    else if not (u8 (c.b13 + 1) == 0)
    then record c { b13 = u8 (c.b13 + 1); b14 = 0; b15 = 0 }
    else record c { b12 = u8 (c.b12 + 1); b13 = 0; b14 = 0; b15 = 0 }

-- The buffer is full: `s.hash.update(s.buf[:])` empties it.
unfoldable pub emit_full : MsgState → MsgState
emit_full s =
    if length s.buf == ablk_len then record s { hash = update s.buf s.hash; buf = [] } else s

-- The loop of absorb, on fuel; `copy` takes what fits the buffer, or all that is left.
unfoldable pub absorb_loop : ℕ → List ℕ → MsgState → MsgState
absorb_loop zero bytes s = s
absorb_loop (suc fuel) [] s = s
absorb_loop (suc fuel) (x ∷ xs) s =
    let room = ablk_len - length s.buf in
    absorb_loop fuel (drop room (x ∷ xs))
      (emit_full (record s { buf = s.buf ++ take room (x ∷ xs) }))

unfoldable pub absorb : List ℕ → MsgState → MsgState
absorb bytes s = absorb_loop (length bytes) bytes s

unfoldable pub flush : MsgState → MsgState
flush s = if length s.buf == 0 then s else record s {
  hash = update (s.buf ++ replicate (ablk_len - length s.buf) 0) s.hash;
  buf = [];
}

-- The bytes of a block, each with the byte of the key stream at its index.
unfoldable pub xor_bytes : List ℕ → List ℕ → List ℕ
xor_bytes [] ks = []
xor_bytes (d ∷ ds) ks = bit_xor d (at ks 0) ∷ xor_bytes ds (drop 1 ks)

-- The loop of crypt, on fuel; a round takes 16 bytes or what is left.
unfoldable pub crypt_loop : Context → ℕ → List ℕ → MsgState → List ℕ × MsgState
crypt_loop c zero bytes s = ([], s)
crypt_loop c (suc fuel) [] s = ([], s)
crypt_loop c (suc fuel) (x ∷ xs) s =
    let s' = record s { ctr = be_inc_ctr s.ctr } in
    let (rest, s'') = crypt_loop c fuel (drop cblk_len (x ∷ xs)) s' in
    (xor_bytes (take cblk_len (x ∷ xs)) (c.block (counter_bytes s'.ctr)) ++ rest, s'')

unfoldable pub crypt : Context → List ℕ → MsgState → List ℕ × MsgState
crypt c bytes s = crypt_loop c (length bytes) bytes s

-- `tag[i] = hb[i] ^ sblk[i]` for the first bytes of the two arrays.
unfoldable pub xor_first : ℕ → List ℕ → List ℕ → List ℕ
xor_first zero hb sblk = []
xor_first (suc n) hb sblk = bit_xor (at hb 0) (at sblk 0) ∷ xor_first n (drop 1 hb) (drop 1 sblk)

-- The loop of computeTag. The arrays have 16 bytes, so that it panics at the index 16.
unfoldable pub xor_prefix : ℕ → List ℕ → List ℕ → Result Panic (List ℕ)
xor_prefix tag_len hb sblk =
    if ltb cblk_len tag_len then err out_of_range else ok (xor_first tag_len hb sblk)

unfoldable pub compute_tag : Context → ℕ → ℕ → ℕ → MsgState → Result Panic (List ℕ)
compute_tag c hdr_len data_len tag_len s =
    let hb = c.block (finalize hdr_len data_len s.hash) in
    let sblk = c.block (counter_bytes (record s.ctr { b12 = 0; b13 = 0; b14 = 0; b15 = 0 })) in
    xor_prefix tag_len hb sblk

unfoldable pub encrypt_message :
    Context → List ℕ → List ℕ → List ℕ → ℕ → Result Panic (List ℕ × List ℕ)
encrypt_message c iv hdr msg tag_len = do
  start ← init_message c iv
  let done = crypt c msg (flush (absorb hdr start))
  let ct = done.0
  tag ← compute_tag c (length hdr) (length ct) tag_len (flush (absorb ct done.1))
  ok (ct, tag)

-- subtle.ConstantTimeCompare: the same length and the same bytes.
unfoldable pub same_bytes : List ℕ → List ℕ → Bool
same_bytes [] [] = true
same_bytes [] (y ∷ ys) = false
same_bytes (x ∷ xs) [] = false
same_bytes (x ∷ xs) (y ∷ ys) = x == y && same_bytes xs ys

unfoldable pub decrypt_message :
    Context → List ℕ → List ℕ → List ℕ → List ℕ → Result Panic (Option (List ℕ))
decrypt_message c iv hdr ct tag = do
  start ← init_message c iv
  let s = flush (absorb ct (flush (absorb hdr start)))
  want ← compute_tag c (length hdr) (length ct) (length tag) s
  ok (if same_bytes want tag then some (crypt c ct s).0 else none)
