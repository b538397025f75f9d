-- ===== src/Crypto/Cwc/KeyStream.antt =====
-- internal/crypto/cwc/cwc.go: the key stream of crypt, and its counter.
use Prim.Native.Nat.{min}
use dso.Base.{
  ℕ, zero, suc, ◌+◌, ◌*◌, ◌%◌, ◌≤◌, ◌<◌, ◌≡◌, refl, sym, ap, ◌∙◌, arith, inl, inr, List, [], ◌∷◌,
  ◌++◌, length, take, drop, length-append, length-take, length-drop, take-append_length, take-all,
  drop-all, ◌⊎◌, take-append-drop, drop-append_length, append-nil,
}
use dso.Base.Words.{at}
use dso.Base.Xor.{bit_xor_cancel}
use dso.Crypto.Cwc.Context.{
  Context, Counter, MsgState, be_inc_ctr, counter_bytes, crypt_loop, xor_bytes, cblk_len,
}

length-xor_bytes : (ds ks : List ℕ) → length (xor_bytes ds ks) ≡ length ds
unfolding xor_bytes
length-xor_bytes [] ks = refl
length-xor_bytes (d ∷ ds) ks = ap suc (length-xor_bytes ds (drop 1 ks))

xor_bytes_cancel : (ds ks : List ℕ) → xor_bytes (xor_bytes ds ks) ks ≡ ds
unfolding xor_bytes
xor_bytes_cancel [] ks = refl
xor_bytes_cancel (d ∷ ds) ks = rw (bit_xor_cancel d (at ks 0), xor_bytes_cancel ds (drop 1 ks)) refl

cut :
    (xs ys : List ℕ)
    → (length xs ≡ cblk_len) ⊎ ((ys ≡ []) × (length xs ≤ cblk_len))
    → (take cblk_len (xs ++ ys) ≡ xs) × (drop cblk_len (xs ++ ys) ≡ ys)
cut xs ys (inl e) = (
  ap (λ n. take n (xs ++ ys)) (sym e) ∙ take-append_length xs ys,
  ap (λ n. drop n (xs ++ ys)) (sym e) ∙ drop-append_length xs ys,
)
cut xs ys (inr (e, h)) = rw (e, append-nil) (take-all cblk_len xs h, drop-all cblk_len xs h)

le-or-lt : (a b : ℕ) → (a ≤ b) ⊎ (b < a)
le-or-lt a b = omega arith

-- Two states that differ in the counter's four bytes at most.
pub record Same (s t : MsgState) : Type 0 where
  pub same_hash : s.hash ≡ t.hash
  pub same_buf : s.buf ≡ t.buf
  pub same_nonce : s.ctr.nonce ≡ t.ctr.nonce

module _ (c : Context) where
  key_stream : Counter → List ℕ
  key_stream ctr = c.block (counter_bytes ctr)

  -- The state of the next round.
  next : MsgState → MsgState
  next s = record s { ctr = be_inc_ctr s.ctr }

  crypt_round :
      (fuel : ℕ) (l : List ℕ) (s : MsgState)
      → 0 < length l
      → crypt_loop c (suc fuel) l s ≡ (
        xor_bytes (take cblk_len l) (key_stream (next s).ctr)
            ++ (crypt_loop c fuel (drop cblk_len l) (next s)).0,
        (crypt_loop c fuel (drop cblk_len l) (next s)).1,
      )
  unfolding crypt_loop key_stream next
  crypt_round fuel [] s h = absurd (omega arith)
  crypt_round fuel (x ∷ xs) s h = refl

  crypt_end : (fuel : ℕ) (s : MsgState) → crypt_loop c fuel [] s ≡ ([], s)
  unfolding crypt_loop
  crypt_end zero s = refl
  crypt_end (suc fuel) s = refl

  pub length-crypt_loop :
      (fuel : ℕ) (l : List ℕ) (s : MsgState)
      → length l ≤ fuel
      → length (crypt_loop c fuel l s).0 ≡ length l
  length-crypt_loop fuel [] s h = rw (crypt_end fuel s) refl
  length-crypt_loop zero (x ∷ xs) s h = absurd (omega arith)
  length-crypt_loop (suc fuel) (x ∷ xs) s h =
      let ks = key_stream (next s).ctr in
      let rest = drop cblk_len (x ∷ xs) in
      rw (crypt_round fuel (x ∷ xs) s (omega arith)) (
        omega (
          arith,
          length-append (xor_bytes (take cblk_len (x ∷ xs)) ks) (crypt_loop c fuel rest (next s)).0,
          length-xor_bytes (take cblk_len (x ∷ xs)) ks,
          length-take cblk_len (x ∷ xs),
          length-drop cblk_len (x ∷ xs),
          length-crypt_loop fuel rest (next s) (omega (arith, length-drop cblk_len (x ∷ xs))),
        ))

  next-Same : (s : MsgState) → Same (next s) s
  unfolding next be_inc_ctr
  next-Same s = record { same_hash = refl; same_buf = refl; same_nonce = ground arith }

  pub crypt_loop-Same : (fuel : ℕ) (l : List ℕ) (s : MsgState) → Same (crypt_loop c fuel l s).1 s
  crypt_loop-Same fuel [] s =
      rw (crypt_end fuel s) (record { same_hash = refl; same_buf = refl; same_nonce = refl })
  crypt_loop-Same zero (x ∷ xs) s =
      unfold crypt_loop in record { same_hash = refl; same_buf = refl; same_nonce = refl }
  crypt_loop-Same (suc fuel) (x ∷ xs) s =
      let later = crypt_loop-Same fuel (drop cblk_len (x ∷ xs)) (next s) in
      let now = next-Same s in
      rw (crypt_round fuel (x ∷ xs) s (omega arith)) (record {
        same_hash = later.same_hash ∙ now.same_hash;
        same_buf = later.same_buf ∙ now.same_buf;
        same_nonce = later.same_nonce ∙ now.same_nonce;
      })

  next_ctr : (s t : MsgState) → s.ctr ≡ t.ctr → (next s).ctr ≡ (next t).ctr
  unfolding next
  next_ctr s t e = ap be_inc_ctr e

  -- A round that is not the last one gives 16 bytes.
  rounds :
      (fuel : ℕ) (l : List ℕ) (s : MsgState) (out : List ℕ)
      → length out ≡ min cblk_len (length l)
      → (length out ≡ cblk_len)
        ⊎ (((crypt_loop c fuel (drop cblk_len l) (next s)).0 ≡ []) × (length out ≤ cblk_len))
  rounds fuel l s out e = elim (le-or-lt cblk_len (length l)) [
    | inl long ↦ inl (omega arith)
    | inr short ↦ inr (
      ap (λ r. (crypt_loop c fuel r (next s)).0) (drop-all cblk_len l (omega arith))
          ∙ ap (λ r. r.0) (crypt_end fuel (next s)),
      omega arith,
    )
  ]

  -- The key stream depends on the counter alone, so that the second time takes the first one back.
  pub crypt_loop_cancel :
      (fuel : ℕ) (l : List ℕ) (s t : MsgState)
      → length l ≤ fuel
      → s.ctr ≡ t.ctr
      → (crypt_loop c fuel (crypt_loop c fuel l s).0 t).0 ≡ l
  crypt_loop_cancel fuel [] s t h e = rw (crypt_end fuel s, crypt_end fuel t) refl
  crypt_loop_cancel zero (x ∷ xs) s t h e = absurd (omega arith)
  crypt_loop_cancel (suc fuel) (x ∷ xs) s t h e =
      let l : List ℕ = x ∷ xs in
      let ks = key_stream (next s).ctr in
      let out = xor_bytes (take cblk_len l) ks in
      let more = (crypt_loop c fuel (drop cblk_len l) (next s)).0 in
      let size : length out ≡ min cblk_len (length l) =
        length-xor_bytes (take cblk_len l) ks ∙ length-take cblk_len l in
      let parts = cut out more (rounds fuel l s out size) in
      let nonempty : 0 < length (out ++ more) = omega (arith, length-append out more, size) in
      let same_stream : key_stream (next t).ctr ≡ ks = ap key_stream (next_ctr t s (sym e)) in
      let shorter : length (drop cblk_len l) ≤ fuel = omega (arith, length-drop cblk_len l) in
      ap (λ r. (crypt_loop c (suc fuel) r.0 t).0) (crypt_round fuel l s (omega arith))
      ∙ ap (λ r. r.0) (crypt_round fuel (out ++ more) t nonempty)
      ∙ ap
          (λ k.
            xor_bytes (take cblk_len (out ++ more)) k
            ++ (crypt_loop c fuel (drop cblk_len (out ++ more)) (next t)).0)
          same_stream
      ∙ ap (λ k. xor_bytes k ks ++ (crypt_loop c fuel (drop cblk_len (out ++ more)) (next t)).0)
          parts.0
      ∙ ap (λ k. xor_bytes out ks ++ (crypt_loop c fuel k (next t)).0) parts.1
      ∙ ap (λ k. k ++ (crypt_loop c fuel more (next t)).0) (xor_bytes_cancel (take cblk_len l) ks)
      ∙ ap (λ k. take cblk_len l ++ k)
          (crypt_loop_cancel fuel (drop cblk_len l) (next s) (next t) shorter (next_ctr s t e))
      ∙ take-append-drop cblk_len l

-- The counter's four bytes as one number.
abbrev pub counter_value : Counter → ℕ
counter_value c = c.b12 * 16777216 + c.b13 * 65536 + c.b14 * 256 + c.b15

pub record IsCounter (c : Counter) : Type 0 where
  pub byte_12 : c.b12 < 256
  pub byte_13 : c.b13 < 256
  pub byte_14 : c.b14 < 256
  pub byte_15 : c.b15 < 256

-- beIncCtr adds one to the four bytes as a big-endian number, modulo 2 ^ 32, and leaves the first
-- twelve bytes of the counter block alone.
pub be_inc_ctr_lem :
    (c : Counter)
    → IsCounter c
    → (counter_value (be_inc_ctr c) ≡ (counter_value c + 1) % 4294967296)
      × IsCounter (be_inc_ctr c)
      × ((be_inc_ctr c).nonce ≡ c.nonce)
unfolding be_inc_ctr
be_inc_ctr_lem c v = ground arith
