-- ===== src/Crypto/Frpg/Messages.antt =====
-- internal/crypto/frpgcipher/cwc_tcp.go as the cipher of internal/frpg/message: messages of the auth
-- service behind the handshake.
use dso.Base.{
  ℕ, ◌+◌, ◌<◌, ◌≡◌, sym, ap, ◌∙◌, arith, false, List, [], ◌++◌, ◌≤◌, length, Option, none, some,
}
use mathlib.Core.Option.{some_inj}
use dso.Base.Words.{u16}
use dso.Base.Result.{Result, ok, err}
use dso.Tcp.Framing.{frame}
use dso.Tcp.Messaging.{Cipher, Message, Stream, seal, message_bytes, send, recv}
use dso.Tcp.MessagingLaws.{IsMessage, Fits, FitsOption, send_written, recv-send}
use dso.Crypto.Cwc.Context.{Context}
use dso.Crypto.Frpg.Stream.{CipherError, tcp_encrypt, tcp_decrypt}
use dso.Crypto.Frpg.Sealing.{tcp_decrypt-encrypt}

-- The messages pass the errors of a cipher on; none of them looks at the kind.
unfoldable pub succeeded : Result CipherError (List ℕ) → Option (List ℕ)
succeeded (ok b) = some b
succeeded (err e) = none

-- One direction's cipher, with the bytes that rand.Read gives it for the next message.
unfoldable pub new_cwc_tcp : Context → Option (List ℕ) → Cipher
new_cwc_tcp c random = record {
  encrypt = λ p. succeeded (tcp_encrypt c random p);
  decrypt = λ b. succeeded (tcp_decrypt c b);
}

-- The two ends' ciphers of one key fit at a payload that is not empty.
new_cwc_tcp-Fits :
    (c : Context) (iv p : List ℕ) (random : Option (List ℕ))
    → length iv ≡ 11
    → 0 < length p
    → Fits (new_cwc_tcp c (some iv)) (new_cwc_tcp c random) p
unfolding new_cwc_tcp succeeded
new_cwc_tcp-Fits c iv p random e h =
    let (d, enc, size, dec) = tcp_decrypt-encrypt c iv p e in
    let back : succeeded (tcp_decrypt c d) ≡ some p = ap succeeded dec ∙ ground arith in
    let same : (b : List ℕ) → succeeded (tcp_encrypt c (some iv) p) ≡ some b → d ≡ b =
      λ b k. some_inj.0 (sym (ap succeeded enc) ∙ k) in
    record {
      decrypts = λ b k. ap (λ x. succeeded (tcp_decrypt c x)) (sym (same b k)) ∙ back;
      not_empty = λ b k. omega (arith, ap length (same b k), size);
    }

length-message_bytes :
    (msg : Message) (body : List ℕ) → length (message_bytes msg body) ≤ 28 + length body
unfolding message_bytes
length-message_bytes msg body = ground arith

-- Let both ends hold one key, rand.Read give 11 bytes to the sender, and a message have a 32-bit type
-- and index and between 1 and 65468 bytes of payload. If the stream takes what it is given, Send
-- succeeds, and a receiver whose stream goes on with the bytes of Send gets exactly this message from
-- Recv, with the bytes behind it left in the stream.
pub recv-send_cwc :
    (c : Context) (iv rest : List ℕ) (random : Option (List ℕ)) (msg : Message) (s r : Stream)
    → length iv ≡ 11
    → IsMessage msg
    → 0 < length msg.payload
    → length msg.payload < 65469
    → s.enc ≡ some (new_cwc_tcp c (some iv))
    → r.dec ≡ some (new_cwc_tcp c random)
    → s.pkt.output ≡ []
    → ((out : List ℕ) → s.pkt.write_fails out ≡ false)
    → r.pkt.input ≡ (send msg s).0.pkt.output ++ rest
    → ((send msg s).1 ≡ ok tt)
      × (recv r ≡ (record r { pkt = record r.pkt { input = rest } }, ok msg))
recv-send_cwc c iv rest random msg s r e v nonempty short enc dec fresh fine arrives =
    let (d, sealed, size, _) = tcp_decrypt-encrypt c iv msg.payload e in
    let body : seal s.enc msg.payload ≡ some d =
      ap (λ k. seal k msg.payload) enc
      ∙ (unfold seal new_cwc_tcp succeeded in ap succeeded sealed) in
    let fits : FitsOption s.enc r.dec msg.payload =
      rw (enc, dec) (new_cwc_tcp-Fits c iv msg.payload random e nonempty) in
    let small : length (message_bytes msg d) < 65524 =
      omega (arith, length-message_bytes msg d, size) in
    let bytes = frame (u16 (s.pkt.sent + 1)) (message_bytes msg d) in
    let (answer, output) = send_written msg d s body small (fine bytes) in
    let input : r.pkt.input ≡ bytes ++ rest =
      arrives ∙ ap (λ o. o ++ rest) (output ∙ ap (λ o. o ++ bytes) fresh) in
    let (_, _, got) = recv-send msg d rest s r v fits body small (fine bytes) input in (answer, got)
