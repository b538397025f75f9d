-- ===== src/Crypto/Frpg/Datagram.antt =====
-- internal/crypto/frpgcipher/cwc_udp.go: the datagrams of the game server, in both directions.
--
-- As in Stream, the bytes of rand.Read are a parameter. A cipher is its context, and for the client
-- the token too, so that the methods are functions of these.
use dso.Base.{
  ℕ, ◌+◌, ltb, ◌==◌, if◌then◌else◌, Bool, false, not, Option, none, some, List, [], ◌∷◌, ◌++◌,
  length, take, drop,
}
use dso.Base.Words.{at}
use dso.Base.Result.{Result, ok, err}
use dso.Crypto.Cwc.Context.{Context, Panic, encrypt_message, decrypt_message}
use dso.Crypto.Frpg.Stream.{CipherError, no_random, too_short, bad_tag, panicked}

abbrev pub udp_iv_len : ℕ
udp_iv_len = 11

abbrev pub udp_tag_len : ℕ
udp_tag_len = 16

abbrev pub udp_token_len : ℕ
udp_token_len = 8

pub record ClientUdpCipher : Type 0 where
  pub ctx : Context
  pub token : List ℕ

abbrev pub Opened : Type 0
Opened = Result CipherError (List ℕ × Bool)

unfoldable pub verified_with : Bool → Result Panic (Option (List ℕ)) → Opened
verified_with prefix (err p) = err panicked
verified_with prefix (ok none) = err bad_tag
verified_with prefix (ok (some pt)) = ok (pt, prefix)

-- [IV(11)|tag(16)|ct]
unfoldable pub seal_server_to_client :
    Context → Option (List ℕ) → List ℕ → Result CipherError (List ℕ)
seal_server_to_client c none pt = err no_random
seal_server_to_client c (some iv) pt = elim (encrypt_message c iv iv pt udp_tag_len) [
  | err p ↦ err panicked
  | ok (ct, tag) ↦ ok (iv ++ (tag ++ ct))
]

unfoldable pub open_server_to_client : Context → List ℕ → Opened
open_server_to_client c input =
    let iv = take udp_iv_len input in
    let tag = take udp_tag_len (drop udp_iv_len input) in
    let ct = drop (udp_iv_len + udp_tag_len) input in
    if ltb (length input) (udp_iv_len + udp_tag_len + 1)
    then err too_short
    else verified_with false (decrypt_message c iv iv ct tag)

-- [token(8)|IV(11)|tag(16)|ptype(1)|ct], with the header iv, token, ptype.
unfoldable pub client_seal :
    ClientUdpCipher → Option (List ℕ) → List ℕ → Bool → Result CipherError (List ℕ)
client_seal k none pt prefix = err no_random
client_seal k (some iv) pt prefix =
    let ptype : ℕ = if prefix then 1 else 0 in
    let aad = iv ++ (k.token ++ ptype ∷ []) in
    elim (encrypt_message k.ctx iv aad pt udp_tag_len) [
      | err p ↦ err panicked
      | ok (ct, tag) ↦ ok (k.token ++ (iv ++ (tag ++ ptype ∷ ct)))
    ]

unfoldable pub open_client_to_server : Context → List ℕ → Opened
open_client_to_server c input =
    let token = take udp_token_len input in
    let iv = take udp_iv_len (drop udp_token_len input) in
    let tag = take udp_tag_len (drop (udp_token_len + udp_iv_len) input) in
    let ptype = at input (udp_token_len + udp_iv_len + udp_tag_len) in
    let ct = drop (udp_token_len + udp_iv_len + udp_tag_len + 1) input in
    let aad = iv ++ (token ++ ptype ∷ []) in
    if ltb (length input) (udp_token_len + udp_iv_len + udp_tag_len + 1 + 1)
    then err too_short
    else verified_with (not (ptype == 0)) (decrypt_message c iv aad ct tag)

unfoldable pub token_from_datagram : List ℕ → Option (List ℕ)
token_from_datagram input =
    if ltb (length input) udp_token_len then none else some (take udp_token_len input)
