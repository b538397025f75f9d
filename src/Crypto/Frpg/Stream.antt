-- ===== src/Crypto/Frpg/Stream.antt =====
-- internal/crypto/frpgcipher/cwc_tcp.go: the cipher of the auth stream.
--
-- crypto/rand is a parameter: the bytes that rand.Read puts into the iv, or none when it fails.
use dso.Base.{ℕ, ◌+◌, ltb, if◌then◌else◌, Option, none, some, List, ◌++◌, length, take, drop}
use dso.Base.Result.{Result, ok, err}
use dso.Crypto.Cwc.Context.{Context, Panic, encrypt_message, decrypt_message}

-- `panicked` is no error value: it stands for a panic of the operations of cwc.
pub data CipherError : Type 0 where
  no_random too_short bad_tag panicked : CipherError

abbrev pub tcp_iv_len : ℕ
tcp_iv_len = 11

abbrev pub tcp_tag_len : ℕ
tcp_tag_len = 16

-- What the callers make of `pt, ok`.
unfoldable pub verified : Result Panic (Option (List ℕ)) → Result CipherError (List ℕ)
verified (err p) = err panicked
verified (ok none) = err bad_tag
verified (ok (some pt)) = ok pt

unfoldable pub tcp_encrypt : Context → Option (List ℕ) → List ℕ → Result CipherError (List ℕ)
tcp_encrypt c none pt = err no_random
tcp_encrypt c (some iv) pt = elim (encrypt_message c iv iv pt tcp_tag_len) [
  | err p ↦ err panicked
  | ok (ct, tag) ↦ ok (iv ++ (tag ++ ct))
]

unfoldable pub tcp_decrypt : Context → List ℕ → Result CipherError (List ℕ)
tcp_decrypt c input =
    let iv = take tcp_iv_len input in
    let tag = take tcp_tag_len (drop tcp_iv_len input) in
    let ct = drop (tcp_iv_len + tcp_tag_len) input in
    if ltb (length input) (tcp_iv_len + tcp_tag_len + 1)
    then err too_short
    else verified (decrypt_message c iv iv ct tag)
