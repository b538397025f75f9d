-- ===== src/Crypto/Frpg/Sealing.antt =====
-- internal/crypto/frpgcipher: what one end seals the other opens, and nothing else is opened.
use dso.Base.{
  ℕ, ◌+◌, ◌≤◌, ◌≡◌, refl, sym, ap, ◌∙◌, arith, ltb, ◌==◌, if◌then◌else◌, Bool, true, false, Option,
  none, some, List, ◌++◌, length, take, drop, length-append, length-take, length-drop,
  take-append-drop,
}
use dso.Base.Result.{Result, ok, err}
use dso.Crypto.Cwc.Context.{Context, Panic, encrypt_message, decrypt_message}
use dso.Crypto.Cwc.RoundTrip.{decrypt_message-encrypt_message, encrypt_message-decrypt_message}
use dso.Crypto.Frpg.Stream.{too_short, verified, tcp_encrypt, tcp_decrypt}
use dso.Crypto.Frpg.Layout.{take-append, drop-append, drop-drop}

tcp_decrypt-parts :
    (c : Context) (iv tag ct : List ℕ)
    → length iv ≡ 11
    → length tag ≡ 16
    → tcp_decrypt c (iv ++ (tag ++ ct)) ≡ (
        if ltb (27 + length ct) 28
        then err too_short
        else verified (decrypt_message c iv iv ct tag))
unfolding tcp_decrypt
tcp_decrypt-parts c iv tag ct e f =
    let d = iv ++ (tag ++ ct) in
    let size : length d ≡ 27 + length ct =
      omega (arith, length-append iv (tag ++ ct), length-append tag ct) in
    let behind : drop 11 d ≡ tag ++ ct = drop-append 11 iv (tag ++ ct) e in
    let mid : take 16 (drop 11 d) ≡ tag = ap (take 16) behind ∙ take-append 16 tag ct f in
    let last : drop 27 d ≡ ct = drop-drop 11 16 d ∙ ap (drop 16) behind ∙ drop-append 16 tag ct f in
    rw (size, mid, last, take-append 11 iv (tag ++ ct) e) refl

-- What a sealed packet is made of.
pub tcp_encrypt-parts :
    (c : Context) (iv pt ct tag : List ℕ)
    → encrypt_message c iv iv pt 16 ≡ ok (ct, tag)
    → tcp_encrypt c (some iv) pt ≡ ok (iv ++ (tag ++ ct))
unfolding tcp_encrypt
tcp_encrypt-parts c iv pt ct tag e = rw (e, tcp_encrypt) refl

-- For every key schedule and 11 random bytes, Encrypt gives a packet for every plaintext, and it is 27
-- bytes longer. Decrypt gives back a plaintext that is not empty, and refuses the packet of the empty
-- plaintext as too short.
pub tcp_decrypt-encrypt :
    (c : Context) (iv pt : List ℕ)
    → length iv ≡ 11
    → (d : List ℕ) × (tcp_encrypt c (some iv) pt ≡ ok d)
      × (length d ≡ 27 + length pt)
      × (tcp_decrypt c d ≡ (if length pt == 0 then err too_short else ok pt))
tcp_decrypt-encrypt c iv pt e =
    let (ct, tag, sealed, m, n, opened) =
      decrypt_message-encrypt_message c iv iv pt 16 (omega arith) (omega arith) in
    let back : verified (decrypt_message c iv iv ct tag) ≡ ok pt =
      ap verified opened ∙ (unfold verified in refl) in
    (
      iv ++ (tag ++ ct),
      tcp_encrypt-parts c iv pt ct tag sealed,
      omega (arith, length-append iv (tag ++ ct), length-append tag ct),
      tcp_decrypt-parts c iv tag ct e n ∙ rw (back, m) (ground arith),
    )

-- The first 11 bytes, the 16 behind them and the rest.
pub three_parts : (n m : ℕ) (d : List ℕ) → d ≡ take n d ++ (take m (drop n d) ++ drop (n + m) d)
three_parts n m d =
    sym (take-append-drop n d)
    ∙ ap (λ r. take n d ++ r)
        (sym (take-append-drop m (drop n d))
          ∙ ap (λ r. take m (drop n d) ++ r) (sym (drop-drop n m d)))

guarded :
    (short : Bool) (o : Result Panic (Option (List ℕ))) (pt : List ℕ)
    → (if short then err too_short else verified o) ≡ ok pt
    → (short ≡ false) × (o ≡ ok (some pt))
unfolding verified
guarded true o pt h = cc
guarded false (err p) pt h = cc
guarded false (ok none) pt h = cc
guarded false (ok (some x)) pt h = (refl, cc)

-- Decrypt accepts nothing else: a packet that it decrypts is at least 28 bytes long and is the one
-- that Encrypt makes of the plaintext from the packet's own first 11 bytes.
pub tcp_encrypt-decrypt :
    (c : Context) (d pt : List ℕ)
    → tcp_decrypt c d ≡ ok pt
    → (28 ≤ length d) × (tcp_encrypt c (some (take 11 d)) pt ≡ ok d)
unfolding tcp_decrypt
tcp_encrypt-decrypt c d pt h =
    let iv = take 11 d in
    let tag = take 16 (drop 11 d) in
    let (long, plain) = guarded (ltb (length d) 28) _ pt h in
    let size : 28 ≤ length d = ground arith in
    let tag_size : length tag ≡ 16 = omega (arith, length-take 16 (drop 11 d), length-drop 11 d) in
    let again : encrypt_message c iv iv pt 16 ≡ ok (drop 27 d, tag) =
      ap (encrypt_message c iv iv pt) (sym tag_size)
      ∙ encrypt_message-decrypt_message c iv iv (drop 27 d) tag pt plain in
    (size, tcp_encrypt-parts c iv pt (drop 27 d) tag again ∙ ap ok (sym (three_parts 11 16 d)))
