-- ===== src/Crypto/Frpg/Tokens.antt =====
-- internal/crypto/frpgcipher/cwc_udp.go: datagrams with a token, from the client to the server.
use dso.Base.{
  ℕ, ◌+◌, ◌≤◌, ◌<◌, ◌≡◌, refl, sym, ap, ◌∙◌, arith, ltb, ◌==◌, if◌then◌else◌, Bool, true, false,
  not, inl, inr, Option, none, some, List, [], ◌∷◌, ◌++◌, length, take, drop, length-append,
  length-take, length-drop, take-append-drop,
}
use dso.Base.Words.{at}
use dso.Base.Result.{Result, ok, err, Result-cases}
use dso.Crypto.Cwc.Context.{Context, Panic, encrypt_message, decrypt_message}
use dso.Crypto.Cwc.RoundTrip.{decrypt_message-encrypt_message, encrypt_message-decrypt_message}
use dso.Crypto.Frpg.Stream.{CipherError, too_short, verified, tcp_encrypt, tcp_decrypt}
use dso.Crypto.Frpg.Datagram.{
  ClientUdpCipher, Opened, verified_with, seal_server_to_client, open_server_to_client, client_seal,
  open_client_to_server, token_from_datagram,
}
use dso.Crypto.Frpg.Layout.{take-append, drop-append, drop-drop, at-drop, at_head}
use dso.Crypto.Frpg.Sealing.{three_parts}

-- The datagram of the four parts in front of the ciphertext.
abbrev pub token_datagram : List ℕ → List ℕ → List ℕ → ℕ → List ℕ → List ℕ
token_datagram token iv tag ptype ct = token ++ (iv ++ (tag ++ ptype ∷ ct))

module _ (token iv tag : List ℕ) (ptype : ℕ) (ct : List ℕ) where
  open_parts :
      (c : Context)
      → length token ≡ 8
      → length iv ≡ 11
      → length tag ≡ 16
      → open_client_to_server c (token_datagram token iv tag ptype ct) ≡ (
          if ltb (36 + length ct) 37
          then err too_short
          else verified_with
              (not (ptype == 0))
              (decrypt_message c iv (iv ++ (token ++ ptype ∷ [])) ct tag))
  unfolding open_client_to_server
  open_parts c e f g =
      let d = token_datagram token iv tag ptype ct in
      let size : length d ≡ 36 + length ct = omega (
        arith,
        length-append token (iv ++ (tag ++ ptype ∷ ct)),
        length-append iv (tag ++ ptype ∷ ct),
        length-append tag (ptype ∷ ct),
      ) in
      let after_token : drop 8 d ≡ iv ++ (tag ++ ptype ∷ ct) = drop-append 8 token _ e in
      let after_iv : drop 19 d ≡ tag ++ ptype ∷ ct =
        drop-drop 8 11 d ∙ ap (drop 11) after_token ∙ drop-append 11 iv _ f in
      let after_tag : drop 35 d ≡ ptype ∷ ct =
        drop-drop 19 16 d ∙ ap (drop 16) after_iv ∙ drop-append 16 tag _ g in
      let kind : at d 35 ≡ ptype = at-drop 35 d ∙ ap (λ r. at r 0) after_tag in
      let body : drop 36 d ≡ ct = drop-drop 35 1 d ∙ ap (drop 1) after_tag in
      let iv_is : take 11 (drop 8 d) ≡ iv = ap (take 11) after_token ∙ take-append 11 iv _ f in
      let tag_is : take 16 (drop 19 d) ≡ tag = ap (take 16) after_iv ∙ take-append 16 tag _ g in
      rw (size, kind, body, iv_is, tag_is, take-append 8 token (iv ++ (tag ++ ptype ∷ ct)) e) refl

client_seal-parts :
    (k : ClientUdpCipher) (iv pt ct tag : List ℕ) (prefix : Bool) (ptype : ℕ)
    → (if prefix then 1 else 0) ≡ ptype
    → encrypt_message k.ctx iv (iv ++ (k.token ++ ptype ∷ [])) pt 16 ≡ ok (ct, tag)
    → client_seal k (some iv) pt prefix ≡ ok (token_datagram k.token iv tag ptype ct)
unfolding client_seal
client_seal-parts k iv pt ct tag prefix ptype e h =
    rw (e, client_seal, h) (ap (λ t. ok (token_datagram k.token iv tag t ct)) e)

ptype_flag : (prefix : Bool) → not ((if prefix then 1 else 0) == 0) ≡ prefix
ptype_flag true = refl
ptype_flag false = refl

token_in_front :
    (token rest : List ℕ) → length token ≡ 8 → token_from_datagram (token ++ rest) ≡ some token
unfolding token_from_datagram
token_in_front token rest e =
    let size = length-append token rest in rw (take-append 8 token rest e) (ground arith)

-- Let the client's token have 8 bytes and rand.Read give 11. For every plaintext and either value of
-- the connection prefix, Seal gives a datagram that is 36 bytes longer and from which
-- TokenFromDatagram reads the client's token. If the plaintext is not empty, a server with the same
-- key opens it to the plaintext and the prefix; the datagram of the empty one it refuses as too short.
pub open_client_to_server-client_seal :
    (k : ClientUdpCipher) (iv pt : List ℕ) (prefix : Bool)
    → length k.token ≡ 8
    → length iv ≡ 11
    → (d : List ℕ) × (client_seal k (some iv) pt prefix ≡ ok d)
      × (length d ≡ 36 + length pt)
      × (token_from_datagram d ≡ some k.token)
      × (open_client_to_server k.ctx d
          ≡ (if length pt == 0 then err too_short else ok (pt, prefix)))
open_client_to_server-client_seal k iv pt prefix e f =
    let ptype : ℕ = if prefix then 1 else 0 in
    let aad = iv ++ (k.token ++ ptype ∷ []) in
    let (ct, tag, sealed, m, n, opened) =
      decrypt_message-encrypt_message k.ctx iv aad pt 16 (omega arith) (omega arith) in
    let back : verified_with (not (ptype == 0)) (decrypt_message k.ctx iv aad ct tag)
        ≡ ok (pt, prefix) =
      ap (verified_with (not (ptype == 0))) opened
      ∙ (unfold verified_with in ap (λ b. ok (pt, b)) (ptype_flag prefix)) in
    (
      token_datagram k.token iv tag ptype ct,
      client_seal-parts k iv pt ct tag prefix ptype refl sealed,
      omega (
        arith,
        length-append k.token (iv ++ (tag ++ ptype ∷ ct)),
        length-append iv (tag ++ ptype ∷ ct),
        length-append tag (ptype ∷ ct),
      ),
      token_in_front k.token (iv ++ (tag ++ ptype ∷ ct)) e,
      open_parts k.token iv tag ptype ct k.ctx e f n ∙ rw (back, m) (ground arith),
    )

guarded_with :
    (short kind : Bool) (o : Result Panic (Option (List ℕ))) (pt : List ℕ) (prefix : Bool)
    → (if short then err too_short else verified_with kind o) ≡ ok (pt, prefix)
    → (short ≡ false) × (o ≡ ok (some pt)) × (kind ≡ prefix)
unfolding verified_with
guarded_with true kind o pt prefix h = cc
guarded_with false kind (err p) pt prefix h = cc
guarded_with false kind (ok none) pt prefix h = cc
guarded_with false kind (ok (some x)) pt prefix h = (refl, cc, cc)

-- The parts of a datagram that is long enough.
four_parts :
    (d : List ℕ)
    → 37 ≤ length d
    → d ≡ token_datagram (take 8 d) (take 11 (drop 8 d)) (take 16 (drop 19 d)) (at d 35) (drop 36 d)
four_parts d h =
    let kind : at d 35 ∷ drop 36 d ≡ drop 35 d =
      rw (at-drop 35 d, drop-drop 35 1 d) (at_head (drop 35 d) (omega (arith, length-drop 35 d))) in
    sym (take-append-drop 8 d)
    ∙ ap (λ r. take 8 d ++ r) (three_parts 11 16 (drop 8 d))
    ∙ ap (λ r. take 8 d ++ (take 11 (drop 8 d) ++ (take 16 r ++ drop 27 (drop 8 d))))
        (sym (drop-drop 8 11 d))
    ∙ ap (λ r. take 8 d ++ (take 11 (drop 8 d) ++ (take 16 (drop 19 d) ++ r)))
        (sym (drop-drop 8 27 d) ∙ sym kind)

flag_ptype : (ptype : ℕ) → ptype < 2 → (if not (ptype == 0) then 1 else 0) ≡ ptype
flag_ptype ptype h = ground arith

-- A server opens nothing else: let it open a datagram whose byte 35 is 0 or 1. Then the datagram is at
-- least 37 bytes long, its first 8 bytes are the token of TokenFromDatagram, the prefix is byte 35,
-- and a client with this token and the server's key seals the plaintext to exactly this datagram when
-- rand.Read gives the 11 bytes behind the token.
pub client_seal-open_client_to_server :
    (c : Context) (d pt : List ℕ) (prefix : Bool)
    → open_client_to_server c d ≡ ok (pt, prefix)
    → at d 35 < 2
    → let token = take 8 d in
      (37 ≤ length d)
      × (token_from_datagram d ≡ some token)
      × ((if prefix then 1 else 0) ≡ at d 35)
      × (client_seal (record { ctx = c; token = token }) (some (take 11 (drop 8 d))) pt prefix
          ≡ ok d)
unfolding open_client_to_server token_from_datagram
client_seal-open_client_to_server c d pt prefix h bit =
    let token = take 8 d in
    let iv = take 11 (drop 8 d) in
    let tag = take 16 (drop 19 d) in
    let aad : ℕ → List ℕ = λ t. iv ++ (token ++ t ∷ []) in
    let (long, plain, flag) = guarded_with (ltb (length d) 37) (not (at d 35 == 0)) _ pt prefix h in
    let size : 37 ≤ length d = ground arith in
    let tag_size : length tag ≡ 16 = omega (arith, length-take 16 (drop 19 d), length-drop 19 d) in
    let ptype : (if prefix then 1 else 0) ≡ at d 35 =
      ap (λ b. if b then 1 else 0) (sym flag) ∙ flag_ptype (at d 35) bit in
    let again : encrypt_message c iv (aad (at d 35)) pt 16 ≡ ok (drop 36 d, tag) =
      ap (encrypt_message c iv (aad (at d 35)) pt) (sym tag_size)
      ∙ encrypt_message-decrypt_message c iv (aad (at d 35)) (drop 36 d) tag pt plain in
    (
      size,
      ground arith,
      ptype,
      client_seal-parts (record { ctx = c; token = token }) iv pt (drop 36 d) tag prefix (at d 35)
            ptype again
          ∙ ap ok (sym (four_parts d size)),
    )

-- The datagrams from the server to the client have the layout of the stream's packets and no prefix.
pub seal_server_to_client-tcp :
    (c : Context) (random : Option (List ℕ)) (pt : List ℕ)
    → seal_server_to_client c random pt ≡ tcp_encrypt c random pt
unfolding seal_server_to_client tcp_encrypt
seal_server_to_client-tcp c none pt = refl
seal_server_to_client-tcp c (some iv) pt = elim (Result-cases (encrypt_message c iv iv pt 16)) [
  | inl (p, e) ↦ rw (e, seal_server_to_client, tcp_encrypt) refl
  | inr (r, e) ↦ rw (e, seal_server_to_client, tcp_encrypt) refl
]

abbrev pub with_no_prefix : Result CipherError (List ℕ) → Opened
with_no_prefix (ok pt) = ok (pt, false)
with_no_prefix (err e) = err e

same_guard :
    (short : Bool) (o : Result Panic (Option (List ℕ)))
    → (if short then err too_short else verified_with false o)
      ≡ with_no_prefix (if short then err too_short else verified o)
unfolding verified verified_with
same_guard true o = refl
same_guard false (err p) = refl
same_guard false (ok none) = refl
same_guard false (ok (some x)) = refl

pub open_server_to_client-tcp :
    (c : Context) (d : List ℕ) → open_server_to_client c d ≡ with_no_prefix (tcp_decrypt c d)
unfolding open_server_to_client tcp_decrypt
open_server_to_client-tcp c d = same_guard _ _
