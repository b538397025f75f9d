-- ===== src/Tcp/Messaging.antt =====
-- internal/frpg/message/message.go: the messages of the login and auth services. The ciphers are
-- those of the interface Cipher: functions that may fail, of which nothing else is known here.
use dso.Base.{ℕ, ◌+◌, ltb, ◌==◌, if◌then◌else◌, List, ◌++◌, length, drop, Option, none, some}
use dso.Base.Words.{put_u32_be, put_u32_le, u32_be_at, u32_le_at}
use dso.Base.Result.{Result, ok, err}
use dso.Tcp.Framing
use dso.Tcp.Framing.{frame, read_packet, write_packet}

abbrev pub reply : ℕ
reply = 0x0

abbrev pub msg_header_size : ℕ
msg_header_size = 12

abbrev pub resp_header_size : ℕ
resp_header_size = 16

pub record Cipher : Type 0 where
  pub encrypt : List ℕ → Option (List ℕ)
  pub decrypt : List ℕ → Option (List ℕ)

pub record Message : Type 0 where
  pub msg_type : ℕ
  pub index : ℕ
  pub payload : List ℕ

-- A nil cipher is `none`: the body goes in the clear.
pub record Stream : Type 0 where
  pub pkt : Framing.Stream
  pub enc : Option Cipher
  pub dec : Option Cipher

pub data MessageError : Type 0 where
  packet : Framing.PacketError → MessageError
  encrypt_failed decrypt_failed short_message short_reply : MessageError

unfoldable pub set_ciphers : Option Cipher → Option Cipher → Stream → Stream
set_ciphers enc dec s = record s { enc = enc; dec = dec }

unfoldable pub seal : Option Cipher → List ℕ → Option (List ℕ)
seal none payload = some payload
seal (some c) payload = c.encrypt payload

-- An empty body is not decrypted.
unfoldable pub unseal : Option Cipher → List ℕ → Option (List ℕ)
unseal none body = some body
unseal (some c) body = if ltb 0 (length body) then c.decrypt body else some body

-- The response header {0, 1, 0, 0}, big-endian.
unfoldable pub response_header : List ℕ
response_header = put_u32_be 0 ++ put_u32_be 1 ++ put_u32_be 0 ++ put_u32_be 0

-- The payload of the packet that carries a message with an encrypted body.
unfoldable pub message_bytes : Message → List ℕ → List ℕ
unfolding response_header
message_bytes msg body =
    put_u32_be msg_header_size
    ++ (put_u32_be msg.msg_type
        ++ (put_u32_le msg.index
            ++ (if msg.msg_type == reply then response_header ++ body else body)))

abbrev pub Sent : Type 0
Sent = Result MessageError (Unit {0})

-- The error of a Write, if any, is the one of Send.
unfoldable pub written : Result Framing.PacketError (Unit {0}) → Sent
written (ok u) = ok u
written (err e) = err (packet e)

unfoldable pub send : Message → Stream → Stream × Sent
send msg s = elim (seal s.enc msg.payload) [
  | none ↦ (s, err encrypt_failed)
  | some body ↦
      (let (pkt, result) = write_packet (message_bytes msg body) s.pkt in
        (record s { pkt = pkt }, written result))
]

unfoldable pub opened : ℕ → ℕ → Option (List ℕ) → Result MessageError Message
opened msg_type index none = err decrypt_failed
opened msg_type index (some body) =
    ok (record { msg_type = msg_type; index = index; payload = body })

-- What Recv makes of a packet's payload.
unfoldable pub decode : Option Cipher → List ℕ → Result MessageError Message
decode dec payload =
    let msg_type = u32_be_at payload 4 in
    let off = if msg_type == reply then msg_header_size + resp_header_size else msg_header_size in
    if ltb (length payload) msg_header_size
    then err short_message
    else if ltb (length payload) off
    then err short_reply
    else opened msg_type (u32_le_at payload 8) (unseal dec (drop off payload))

unfoldable pub recv : Stream → Stream × Result MessageError Message
recv s =
    let (pkt, got) = read_packet s.pkt in
    (
      record s { pkt = pkt },
      elim got [ err e ↦ err (packet e) | ok payload ↦ decode s.dec payload ],
    )
