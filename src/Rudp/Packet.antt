-- ===== src/Rudp/Packet.antt =====
-- internal/frpg/rudp/packet.go: the wire packet of the transport and the connection prefix.
pub mod RoundTrip
use Prim.Native.Nat.{bit_and, bit_or}
use dso.Base.{
  ℕ, ◌+◌, ◌*◌, ◌/◌, ◌%◌, ◌<◌, ◌≡◌, ◌≢◌, refl, arith, Bool, true, false, not, ◌&&◌, ◌||◌, ltb, ◌==◌,
  if◌then◌else◌, Option, none, some, List, [], ◌∷◌, ◌++◌, length, take, drop, replicate, All,
}
use dso.Base.Words.{IsByte, u8, at}

-- The constants of the Go type OpCode, a uint8; `other` stands for the bytes that have none.
pub data OpCode : Type 0 where
  unset syn rack dat hbt fin rst ptdatfrag ack synack datack finack ptdatfrgack : OpCode
  other : ℕ → OpCode

unfoldable pub to_byte : OpCode → ℕ
to_byte unset = 0x00
to_byte syn = 0x02
to_byte rack = 0x03
to_byte dat = 0x04
to_byte hbt = 0x05
to_byte fin = 0x06
to_byte rst = 0x07
to_byte ptdatfrag = 0x08
to_byte ack = 0x31
to_byte synack = 0x32
to_byte datack = 0x34
to_byte finack = 0x36
to_byte ptdatfrgack = 0x38
to_byte (other n) = n

unfoldable pub of_byte : ℕ → OpCode
of_byte n =
    if n == 0x00
    then unset
    else if n == 0x02
    then syn
    else if n == 0x03
    then rack
    else if n == 0x04
    then dat
    else if n == 0x05
    then hbt
    else if n == 0x06
    then fin
    else if n == 0x07
    then rst
    else if n == 0x08
    then ptdatfrag
    else if n == 0x31
    then ack
    else if n == 0x32
    then synack
    else if n == 0x34
    then datack
    else if n == 0x36
    then finack
    else if n == 0x38
    then ptdatfrgack
    else other n

unfoldable pub is_sequenced : OpCode → Bool
is_sequenced dat = true
is_sequenced datack = true
is_sequenced finack = true
is_sequenced _ = false

abbrev pub header_size : ℕ
header_size = 7

abbrev pub initial_data_size : ℕ
initial_data_size = 35

pub record Packet : Type 0 where
  pub opcode : OpCode
  pub local : ℕ
  pub remote : ℕ
  pub payload : List ℕ

abbrev pub syn_payload : List ℕ
syn_payload = 0x12 ∷ 0x10 ∷ 0x20 ∷ 0x20 ∷ 0x00 ∷ 0x00 ∷ 0xA0 ∷ 0x00 ∷ []

abbrev pub syn_ack_payload : List ℕ
syn_ack_payload = 0x12 ∷ 0x10 ∷ 0x20 ∷ 0x20 ∷ 0x00 ∷ 0x01 ∷ 0x00 ∷ 0x00 ∷ []

-- On a uint32, `& 0xFF` is `% 256`, `& 0xF` is `% 16`, and a shift right by 8 is `/ 256`.
unfoldable pub encode : Packet → List ℕ
unfolding to_byte
encode p =
    0xF5
    ∷ 0x02
    ∷ u8 (p.local % 256)
    ∷ bit_or (u8 (p.local / 256 % 16 * 16)) (u8 (p.remote / 256 % 16))
    ∷ u8 (p.remote % 256)
    ∷ to_byte p.opcode
    ∷ 0xFF
    ∷ p.payload

-- The errors of `decodePacket`.
pub data PacketError : Type 0 where
  short_packet bad_magic : PacketError

pub data Decoded : Type 0 where
  packet : Packet → Decoded
  failed : PacketError → Decoded

unfoldable pub decode_packet : List ℕ → Decoded
unfolding of_byte
decode_packet b =
    if ltb (length b) header_size
    then failed short_packet
    else if not (at b 0 == 0xF5) || not (at b 1 == 0x02)
    then failed bad_magic
    else packet (record {
      opcode = of_byte (at b 5);
      local = bit_or (at b 2) (bit_and (at b 3) 0xF0 / 16 * 256);
      remote = bit_or (at b 4) (bit_and (at b 3) 0x0F * 256);
      payload = drop header_size b;
    })

-- `copy(b[0:17], id)` into zeroed memory: the first 17 bytes of the id, zeros behind it.
unfoldable pub copied_id : List ℕ → List ℕ
copied_id id = take 17 (id ++ replicate 17 0)

unfoldable pub initial_data : List ℕ → List ℕ
unfolding copied_id
initial_data id = copied_id id ++ 0 ∷ copied_id id

unfoldable pub looks_like_initial_data : List ℕ → Bool
looks_like_initial_data b =
    ltb initial_data_size (length b) && (not (at b 0 == 0xF5) && not (at b 0 == 0x25))

-- `other` names only the bytes that have no constant.
abbrev pub IsOpCode : OpCode → Type 0
IsOpCode o = IsByte (to_byte o) × (of_byte (to_byte o) ≡ o)

pub record IsPacket (p : Packet) : Type 0 where
  pub opcode_ok : IsOpCode p.opcode
  pub local_ok : p.local < 4096
  pub remote_ok : p.remote < 4096
