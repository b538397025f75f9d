-- ===== src/Crypto/Cwc/Tag.antt =====
-- internal/crypto/cwc/cwc.go: what the tag is computed from.
use dso.Base.{
  ℕ, zero, suc, ◌-◌, ◌≡◌, refl, sym, ap, ◌∙◌, arith, true, List, [], ◌∷◌, ◌++◌, length, take, drop,
  ==_refl, le→ltb_false, ◌≤◌,
}
use dso.Base.Result.{ok}
use dso.Crypto.Cwc.Hash.{ablk_len, finalize}
use dso.Crypto.Cwc.Context.{
  Context, MsgState, emit_full, absorb_loop, absorb, flush, counter_bytes, cblk_len, xor_first,
  xor_prefix, compute_tag, same_bytes,
}
use dso.Crypto.Cwc.KeyStream.{Same}

emit_full-Same : (s t : MsgState) → Same s t → Same (emit_full s) (emit_full t)
unfolding emit_full
emit_full-Same s t e = ground arith

append-Same :
    (l : List ℕ) (s t : MsgState)
    → Same s t
    → Same (record s { buf = s.buf ++ l }) (record t { buf = t.buf ++ l })
append-Same l s t e = record {
  same_hash = e.same_hash;
  same_buf = ap (λ b. b ++ l) e.same_buf;
  same_nonce = e.same_nonce;
}

absorb_loop-Same :
    (fuel : ℕ) (l : List ℕ) (s t : MsgState)
    → Same s t
    → Same (absorb_loop fuel l s) (absorb_loop fuel l t)
unfolding absorb_loop
absorb_loop-Same zero l s t e = e
absorb_loop-Same (suc fuel) [] s t e = e
absorb_loop-Same (suc fuel) (x ∷ xs) s t e =
    let room : ℕ = ablk_len - length s.buf in
    let same : ablk_len - length t.buf ≡ room = ap (λ b. ablk_len - length b) (sym e.same_buf) in
    rw same (
      absorb_loop-Same fuel (drop room (x ∷ xs)) _ _
        (emit_full-Same _ _ (append-Same (take room (x ∷ xs)) s t e)))

pub absorb-Same : (l : List ℕ) (s t : MsgState) → Same s t → Same (absorb l s) (absorb l t)
unfolding absorb
absorb-Same l s t e = absorb_loop-Same (length l) l s t e

pub flush-Same : (s t : MsgState) → Same s t → Same (flush s) (flush t)
unfolding flush
flush-Same s t e = ground (arith, ap {B = ℕ} length e.same_buf)

pub compute_tag-Same :
    (c : Context) (a b n : ℕ) (s t : MsgState)
    → Same s t
    → compute_tag c a b n s ≡ compute_tag c a b n t
unfolding compute_tag
compute_tag-Same c a b n s t e = rw (e.same_hash, e.same_nonce) refl

emit_full_ctr : (s : MsgState) → (emit_full s).ctr ≡ s.ctr
unfolding emit_full
emit_full_ctr s = ground arith

absorb_loop_ctr : (fuel : ℕ) (l : List ℕ) (s : MsgState) → (absorb_loop fuel l s).ctr ≡ s.ctr
unfolding absorb_loop
absorb_loop_ctr zero l s = refl
absorb_loop_ctr (suc fuel) [] s = refl
absorb_loop_ctr (suc fuel) (x ∷ xs) s = absorb_loop_ctr fuel _ _ ∙ emit_full_ctr _

pub flush-absorb_ctr : (l : List ℕ) (s : MsgState) → (flush (absorb l s)).ctr ≡ s.ctr
unfolding flush absorb
flush-absorb_ctr l s = ground (arith, absorb_loop_ctr (length l) l s)

length-xor_first : (n : ℕ) (xs ys : List ℕ) → length (xor_first n xs ys) ≡ n
unfolding xor_first
length-xor_first zero xs ys = refl
length-xor_first (suc n) xs ys = ap suc (length-xor_first n (drop 1 xs) (drop 1 ys))

-- A tag of up to 16 bytes is computed, and has the length asked for.
pub length-compute_tag :
    (c : Context) (a b n : ℕ) (s : MsgState)
    → n ≤ cblk_len
    → (tag : List ℕ) × (compute_tag c a b n s ≡ ok tag) × (length tag ≡ n)
unfolding compute_tag xor_prefix
length-compute_tag c a b n s h =
    let hb = c.block (finalize a b s.hash) in
    let sblk = c.block (counter_bytes (record s.ctr { b12 = 0; b13 = 0; b14 = 0; b15 = 0 })) in
    (xor_first n hb sblk, rw (le→ltb_false cblk_len n h) refl, length-xor_first n hb sblk)

pub same_bytes_refl : (xs : List ℕ) → same_bytes xs xs ≡ true
unfolding same_bytes
same_bytes_refl [] = refl
same_bytes_refl (x ∷ xs) = rw (==_refl x, same_bytes_refl xs) refl

pub same_bytes_sound : (xs ys : List ℕ) → same_bytes xs ys ≡ true → xs ≡ ys
unfolding same_bytes
same_bytes_sound [] [] h = refl
same_bytes_sound [] (y ∷ ys) h = ground arith
same_bytes_sound (x ∷ xs) [] h = ground arith
same_bytes_sound (x ∷ xs) (y ∷ ys) h = ground (arith, same_bytes_sound xs ys)
