-- ===== src/Crypto/Cwc/RoundTrip.antt =====
-- internal/crypto/cwc/cwc.go: DecryptMessage on what EncryptMessage gives, and the other way.
use dso.Base.{
  ℕ, ◌≤◌, ◌<◌, ◌≡◌, refl, sym, ap, ◌∙◌, arith, Bool, true, false, Option, none, some, List, length,
  if◌then◌else◌, ◌⊎◌, inl, inr, le→ltb_false, lt→ltb,
}
use dso.Base.Result.{Result, ok, err, ◌>>=◌, Result-cases}
use dso.Crypto.Cwc.Context.{
  Context, MsgState, Panic, out_of_range, absorb, flush, crypt, crypt_loop, compute_tag,
  message_start, init_message, encrypt_message, decrypt_message, same_bytes,
}
use dso.Crypto.Cwc.KeyStream.{length-crypt_loop, crypt_loop-Same, crypt_loop_cancel}
use dso.Crypto.Cwc.Tag.{
  absorb-Same, flush-Same, compute_tag-Same, length-compute_tag, flush-absorb_ctr, same_bytes_refl,
  same_bytes_sound,
}

module _ (c : Context) where
  header_state : List ℕ → List ℕ → MsgState
  header_state iv hdr = flush (absorb hdr (message_start c iv))

  -- The tag of a ciphertext.
  tag_of : List ℕ → List ℕ → List ℕ → ℕ → Result Panic (List ℕ)
  tag_of iv hdr ct n =
      compute_tag c (length hdr) (length ct) n (flush (absorb ct (header_state iv hdr)))

  init_ok : (iv : List ℕ) → 11 ≤ length iv → init_message c iv ≡ ok (message_start c iv)
  unfolding init_message
  init_ok iv h = rw (le→ltb_false (length iv) 11 h) refl

  -- EncryptMessage computes the tag behind crypt, DecryptMessage before it.
  encrypt_lem :
      (iv hdr msg : List ℕ) (n : ℕ)
      → 11 ≤ length iv
      → let ct = (crypt c msg (header_state iv hdr)).0 in
        encrypt_message c iv hdr msg n ≡ (tag_of iv hdr ct n >>= λ tag. ok (ct, tag))
  unfolding encrypt_message header_state tag_of crypt
  encrypt_lem iv hdr msg n h =
      let s = flush (absorb hdr (message_start c iv)) in
      let ct = (crypt_loop c (length msg) msg s).0 in
      rw (init_ok iv h) (
        ap (λ r. r >>= λ tag. ok (ct, tag))
          (compute_tag-Same c (length hdr) (length ct) n _ _
            (flush-Same _ _ (absorb-Same ct _ _ (crypt_loop-Same c (length msg) msg s)))))

  -- What DecryptMessage makes of the tag that it computes.
  answer : List ℕ → List ℕ → List ℕ → List ℕ → List ℕ → Result Panic (Option (List ℕ))
  answer iv hdr ct tag want = ok (
      if same_bytes want tag
      then some (crypt c ct (flush (absorb ct (header_state iv hdr)))).0
      else none)

  decrypt_lem :
      (iv hdr ct tag : List ℕ)
      → 11 ≤ length iv
      → decrypt_message c iv hdr ct tag ≡ (tag_of iv hdr ct (length tag) >>= answer iv hdr ct tag)
  unfolding decrypt_message header_state tag_of answer
  decrypt_lem iv hdr ct tag h = rw (init_ok iv h) refl

  decrypt_short :
      (iv hdr ct tag : List ℕ) → length iv < 11 → decrypt_message c iv hdr ct tag ≡ err out_of_range
  unfolding decrypt_message init_message
  decrypt_short iv hdr ct tag h = rw (lt→ltb (length iv) 11 h) refl

  -- The two runs of crypt start from the same counter.
  crypt_cancel :
      (iv hdr l m : List ℕ)
      → (crypt c (crypt c l (header_state iv hdr)).0 (flush (absorb m (header_state iv hdr)))).0 ≡ l
  unfolding crypt
  crypt_cancel iv hdr l m =
      let s = header_state iv hdr in
      ap (λ n. (crypt_loop c n (crypt_loop c (length l) l s).0 (flush (absorb m s))).0)
        (length-crypt_loop c (length l) l s (omega arith))
      ∙ crypt_loop_cancel c (length l) l s (flush (absorb m s)) (omega arith)
          (sym (flush-absorb_ctr m s))

  crypt_cancel_back :
      (iv hdr l m : List ℕ)
      → (crypt c (crypt c l (flush (absorb m (header_state iv hdr)))).0 (header_state iv hdr)).0 ≡ l
  unfolding crypt
  crypt_cancel_back iv hdr l m =
      let s = header_state iv hdr in
      let s' = flush (absorb m s) in
      ap (λ n. (crypt_loop c n (crypt_loop c (length l) l s').0 s).0)
        (length-crypt_loop c (length l) l s' (omega arith))
      ∙ crypt_loop_cancel c (length l) l s' s (omega arith) (flush-absorb_ctr m s)

accepted :
    (b : Bool) (x y : List ℕ)
    → ◌≡◌ {A = Result Panic (Option (List ℕ))} (ok (if b then some x else none)) (ok (some y))
    → (b ≡ true) × (x ≡ y)
accepted true x y h = (refl, cc)
accepted false x y h = cc

iv-cases : (n : ℕ) → (n < 11) ⊎ (11 ≤ n)
iv-cases n = omega arith

-- For every key schedule, header and message, every iv of at least 11 bytes and every length of the
-- tag of at most 16, EncryptMessage does not panic: it gives a ciphertext as long as the message and a
-- tag of this length, from which DecryptMessage gives back the message.
pub decrypt_message-encrypt_message :
    (c : Context) (iv hdr msg : List ℕ) (tag_len : ℕ)
    → 11 ≤ length iv
    → tag_len ≤ 16
    → (ct : List ℕ) × (tag : List ℕ) × (encrypt_message c iv hdr msg tag_len ≡ ok (ct, tag))
      × (length ct ≡ length msg)
      × (length tag ≡ tag_len)
      × (decrypt_message c iv hdr ct tag ≡ ok (some msg))
unfolding crypt tag_of answer
decrypt_message-encrypt_message c iv hdr msg n h k =
    let s = header_state c iv hdr in
    let ct = (crypt c msg s).0 in
    let (tag, e, size) = length-compute_tag c (length hdr) (length ct) n (flush (absorb ct s)) k in
    let again : tag_of c iv hdr ct (length tag) ≡ ok tag = ap (tag_of c iv hdr ct) size ∙ e in
    (
      ct,
      tag,
      encrypt_lem c iv hdr msg n h ∙ ap (λ r. r >>= λ t. ok (ct, t)) e,
      length-crypt_loop c (length msg) msg s (omega arith),
      size,
      decrypt_lem c iv hdr ct tag h
          ∙ ap (λ r. r >>= answer c iv hdr ct tag) again
          ∙ (rw (same_bytes_refl tag) (ap (λ m. ok (some m)) (crypt_cancel c iv hdr msg ct))),
    )

-- DecryptMessage accepts nothing else: a ciphertext and a tag that it decrypts to a message are what
-- EncryptMessage gives for this message, with a tag of this length.
pub encrypt_message-decrypt_message :
    (c : Context) (iv hdr ct tag msg : List ℕ)
    → decrypt_message c iv hdr ct tag ≡ ok (some msg)
    → encrypt_message c iv hdr msg (length tag) ≡ ok (ct, tag)
unfolding answer
encrypt_message-decrypt_message c iv hdr ct tag msg h = elim (iv-cases (length iv)) [
  | inl few ↦ absurd (cc (decrypt_short c iv hdr ct tag few))
  | inr enough ↦
      let opened = sym (decrypt_lem c iv hdr ct tag enough) ∙ h in
      elim (Result-cases (tag_of c iv hdr ct (length tag))) [
        | inl (p, e) ↦
            let failed = ap (λ r. r >>= answer c iv hdr ct tag) (sym e) ∙ opened in absurd (cc)
        | inr (want, e) ↦
            let (same, plain) =
              accepted (same_bytes want tag) _ msg
                (ap (λ r. r >>= answer c iv hdr ct tag) (sym e) ∙ opened) in
            let again : (crypt c msg (header_state c iv hdr)).0 ≡ ct =
              ap (λ m. (crypt c m (header_state c iv hdr)).0) (sym plain)
              ∙ crypt_cancel_back c iv hdr ct ct in
            encrypt_lem c iv hdr msg (length tag) enough
            ∙ ap (λ m. tag_of c iv hdr m (length tag) >>= λ t. ok (m, t)) again
            ∙ ap (λ r. r >>= λ t. ok (ct, t)) (e ∙ ap ok (same_bytes_sound want tag same))
      ]
]
