-- ===== src/Rudp/Message.antt =====
-- internal/frpg/rudp/message.go: the message layer, encodeMessage and decodeMessage.
use dso.Base.{
  ℕ, ◌+◌, ◌<◌, ◌≡◌, arith, Bool, ltb, ◌==◌, if◌then◌else◌, List, ◌++◌, length, drop, Bool-cases,
  inl, inr,
}
use dso.Base.Words.{put_u32_be, put_u32_le, u32_be_at, u32_le_at, join_u32_be, join_u32_le}
use dso.Base.Result.{Result, ok, err}

abbrev pub msg_reply : ℕ
msg_reply = 0x0000

abbrev pub msg_push : ℕ
msg_push = 0x0320

abbrev pub push_index : ℕ
push_index = 0xFFFFFFFF

abbrev pub msg_header_size : ℕ
msg_header_size = 12

abbrev pub msg_resp_header_size : ℕ
msg_resp_header_size = 16

pub record Message : Type 0 where
  pub msg_type : ℕ
  pub index : ℕ
  pub is_reply : Bool
  pub payload : List ℕ
  pub ack_seq : ℕ

-- The response header {0, 1, 0, 0}, little-endian.
response_header : List ℕ
response_header = put_u32_le 0 ++ put_u32_le 1 ++ put_u32_le 0 ++ put_u32_le 0

unfoldable pub encode_message : Message → List ℕ
unfolding response_header
encode_message m =
    let body = if m.is_reply then response_header ++ m.payload else m.payload in
    put_u32_be msg_header_size ++ (put_u32_be m.msg_type ++ (put_u32_le m.index ++ body))

pub data MessageError : Type 0 where
  short_message short_reply : MessageError

unfoldable pub decode_message : List ℕ → ℕ → Result MessageError Message
decode_message b ack_seq =
    let msg_type = u32_be_at b 4 in
    let is_reply = msg_type == msg_reply in
    let off = if is_reply then msg_header_size + msg_resp_header_size else msg_header_size in
    if ltb (length b) msg_header_size
    then err short_message
    else if ltb (length b) off
    then err short_reply
    else ok (record {
      msg_type = msg_type;
      index = u32_le_at b 8;
      is_reply = is_reply;
      payload = drop off b;
      ack_seq = ack_seq;
    })

-- Both numbers are 32-bit, and exactly the messages of type 0 are replies.
pub record IsMessage (m : Message) : Type 0 where
  pub type_ok : m.msg_type < 4294967296
  pub index_ok : m.index < 4294967296
  pub reply_ok : m.is_reply ≡ (m.msg_type == msg_reply)

-- decodeMessage gives back what encodeMessage wrote, of every message whose numbers are 32-bit and
-- which is a reply exactly if its type is 0; the sequence to acknowledge is the one handed in.
pub decode_message-encode_message :
    (m : Message) (seq : ℕ)
    → IsMessage m
    → decode_message (encode_message m) seq ≡ ok (record m { ack_seq = seq })
unfolding decode_message encode_message
decode_message-encode_message m seq v = elim (Bool-cases m.is_reply) [
  | inl reply ↦ ground (arith, join_u32_be m.msg_type v.type_ok, join_u32_le m.index v.index_ok)
  | inr other ↦ ground (arith, join_u32_be m.msg_type v.type_ok, join_u32_le m.index v.index_ok)
]
