-- ===== src/Tcp/MessagingLaws.antt =====
-- internal/frpg/message/message.go: what Recv makes of what Send wrote.
use dso.Base.{
  ℕ, ◌+◌, ◌<◌, ◌≡◌, refl, sym, ap, ◌∙◌, arith, false, ◌==◌, List, ◌++◌, length, Option, none, some,
  Bool-cases, inl, inr,
}
use dso.Base.Words.{u16, join_u32_be, join_u32_le}
use dso.Base.Result.{ok}
use dso.Tcp.Framing
use dso.Tcp.Framing.{max_packet_length, frame, read_packet, write_packet}
use dso.Tcp.FramingLaws.{read_packet-frame}
use dso.Tcp.Messaging.{
  Cipher, Message, Stream, reply, seal, unseal, message_bytes, written, send, opened, decode, recv,
}

pub record IsMessage (m : Message) : Type 0 where
  pub type_ok : m.msg_type < 4294967296
  pub index_ok : m.index < 4294967296

decode-message_bytes :
    (m : Message) (body : List ℕ) (dec : Option Cipher)
    → IsMessage m
    → decode dec (message_bytes m body) ≡ opened m.msg_type m.index (unseal dec body)
unfolding decode message_bytes
decode-message_bytes m body dec v = elim (Bool-cases (m.msg_type == reply)) [
  | inl is_reply ↦
      rw (is_reply, join_u32_be m.msg_type v.type_ok, join_u32_le m.index v.index_ok) (ground arith)
  | inr other ↦
      rw (other, join_u32_be m.msg_type v.type_ok, join_u32_le m.index v.index_ok) (ground arith)
]

-- The ciphers of the two ends fit at a payload: what one encrypts it to is not empty, and the other
-- decrypts this to the payload.
pub record Fits (enc dec : Cipher) (p : List ℕ) : Type 0 where
  pub decrypts : (b : List ℕ) → enc.encrypt p ≡ some b → dec.decrypt b ≡ some p
  pub not_empty : (b : List ℕ) → enc.encrypt p ≡ some b → 0 < length b

abbrev pub FitsOption : Option Cipher → Option Cipher → List ℕ → Type 0
FitsOption none none p = Unit
FitsOption none (some d) p = ⊥
FitsOption (some e) none p = ⊥
FitsOption (some e) (some d) p = Fits e d p

unseal-seal :
    (enc dec : Option Cipher) (p b : List ℕ)
    → FitsOption enc dec p
    → seal enc p ≡ some b
    → unseal dec b ≡ some p
unfolding seal unseal
unseal-seal none none p b f e = sym e
unseal-seal none (some d) p b f e = absurd f
unseal-seal (some c) none p b f e = absurd f
unseal-seal (some c) (some d) p b f e = ground (arith, f.decrypts b e, f.not_empty b e)

pub send_written :
    (msg : Message) (body : List ℕ) (s : Stream)
    → let bytes = frame (u16 (s.pkt.sent + 1)) (message_bytes msg body) in
      seal s.enc msg.payload ≡ some body
      → length (message_bytes msg body) < 65524
      → s.pkt.write_fails bytes ≡ false
      → ((send msg s).1 ≡ ok tt) × ((send msg s).0.pkt.output ≡ s.pkt.output ++ bytes)
unfolding send write_packet written
send_written msg body s e small fine = (ground arith, ground arith)

recv_decoded :
    (r : Stream) (q : Framing.Stream) (p : List ℕ)
    → read_packet r.pkt ≡ (q, ok p)
    → recv r ≡ (record r { pkt = q }, decode r.dec p)
unfolding recv
recv_decoded r q p e = ground arith

-- Let a message have a 32-bit type and index, and let the sender's cipher give a body for its payload
-- that keeps the packet's payload below 65524 bytes. If the Write succeeds, so does Send, and it
-- writes one packet. A receiver whose stream goes on with these bytes and whose cipher fits the
-- sender's at this payload gets exactly this message from Recv, and the bytes behind it stay in the stream.
pub recv-send :
    (msg : Message) (body rest : List ℕ) (s r : Stream)
    → let bytes = frame (u16 (s.pkt.sent + 1)) (message_bytes msg body) in
      IsMessage msg
      → FitsOption s.enc r.dec msg.payload
      → seal s.enc msg.payload ≡ some body
      → length (message_bytes msg body) < 65524
      → s.pkt.write_fails bytes ≡ false
      → r.pkt.input ≡ bytes ++ rest
      → ((send msg s).1 ≡ ok tt)
        × ((send msg s).0.pkt.output ≡ s.pkt.output ++ bytes)
        × (recv r ≡ (record r { pkt = record r.pkt { input = rest } }, ok msg))
recv-send msg body rest s r v fits e small fine arrives =
    let bytes = message_bytes msg body in
    let (answer, output) = send_written msg body s e small fine in
    let read = read_packet-frame (u16 (s.pkt.sent + 1)) bytes rest r.pkt small arrives in
    let decoded : decode r.dec bytes ≡ ok msg =
      decode-message_bytes msg body r.dec v
      ∙ ap (opened msg.msg_type msg.index) (unseal-seal s.enc r.dec msg.payload body fits e)
      ∙ (unfold opened in refl) in
    (
      answer,
      output,
      recv_decoded r (record r.pkt { input = rest }) bytes read
          ∙ ap (λ a. (record r { pkt = record r.pkt { input = rest } }, a)) decoded,
    )
