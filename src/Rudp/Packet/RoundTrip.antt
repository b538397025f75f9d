-- ===== src/Rudp/Packet/RoundTrip.antt =====
-- internal/frpg/rudp/packet.go: encode against decodePacket, and the connection prefix.
use Prim.Native.Nat.{bit_and, bit_or}
use dso.Base.{
  ℕ, ◌+◌, ◌*◌, ◌/◌, ◌%◌, ◌≤◌, ◌<◌, ◌≡◌, ◌≢◌, ◌↔◌, ◌⊎◌, inl, inr, zero, suc, lt→ltb, refl, ap, ◌∙◌,
  arith, true, false, List, [], ◌∷◌, ◌++◌, length, take, drop, replicate, All, length-append,
  drop-append_length, length-take,
}
use dso.Base.Bits.{high_nibble, low_nibble, or_nibbles, or_twelve}
use dso.Base.Words.{IsByte, u8, at}
use dso.Rudp.Packet.{
  to_byte, of_byte, Packet, IsPacket, IsOpCode, encode, decode_packet, Decoded, PacketError, packet,
  failed, header_size, initial_data, copied_id, looks_like_initial_data, initial_data_size,
}

-- Every byte is the byte of the opcode that it decodes to.
pub to_byte-of_byte : (n : ℕ) → to_byte (of_byte n) ≡ n
unfolding to_byte of_byte
to_byte-of_byte n = ground arith

pub of_byte-IsOpCode : (n : ℕ) → IsByte n → IsOpCode (of_byte n)
of_byte-IsOpCode n h = let e = to_byte-of_byte n in (rw e h, ap of_byte e)

-- The third header byte holds the two high nibbles.
nibbles :
    (l r : ℕ)
    → l < 4096
    → r < 4096
    → bit_or (u8 (l / 256 % 16 * 16)) (u8 (r / 256 % 16)) ≡ l / 256 * 16 + r / 256
nibbles l r hl hr =
    let a : u8 (l / 256 % 16 * 16) ≡ l / 256 * 16 = omega arith in
    let b : u8 (r / 256 % 16) ≡ r / 256 = omega arith in
    rw (a, b) (or_nibbles (l / 256) (r / 256) (omega arith) (omega arith))

local_back :
    (l r : ℕ)
    → l < 4096
    → r < 4096
    → bit_or (u8 (l % 256)) (bit_and (l / 256 * 16 + r / 256) 0xF0 / 16 * 256) ≡ l
local_back l r hl hr =
    let n : (l / 256 * 16 + r / 256) / 16 ≡ l / 256 = omega arith in
    let m : u8 (l % 256) ≡ l % 256 = omega arith in
    rw
      (
        high_nibble (l / 256 * 16 + r / 256) (omega arith),
        n,
        m,
        or_twelve (l % 256) (l / 256) (omega arith) (omega arith),
      )
      (omega arith)

remote_back :
    (l r : ℕ)
    → l < 4096
    → r < 4096
    → bit_or (u8 (r % 256)) (bit_and (l / 256 * 16 + r / 256) 0x0F * 256) ≡ r
remote_back l r hl hr =
    let n : (l / 256 * 16 + r / 256) % 16 ≡ r / 256 = omega arith in
    let m : u8 (r % 256) ≡ r % 256 = omega arith in
    rw
      (
        low_nibble (l / 256 * 16 + r / 256) (omega arith),
        n,
        m,
        or_twelve (r % 256) (r / 256) (omega arith) (omega arith),
      )
      (omega arith)

-- decodePacket gives back every packet whose counters are 12-bit and whose opcode is canonical,
-- whatever its payload.
pub decode_packet-encode : (p : Packet) → IsPacket p → decode_packet (encode p) ≡ packet p
unfolding decode_packet encode
decode_packet-encode p v =
    rw
      (
        nibbles p.local p.remote v.local_ok v.remote_ok,
        local_back p.local p.remote v.local_ok v.remote_ok,
        remote_back p.local p.remote v.local_ok v.remote_ok,
      )
      (rw (v.opcode_ok.1) (ground arith))

-- The header byte 3 and the two counters, written back from what was read.
nibbles_back :
    (c d e : ℕ)
    → IsByte c
    → IsByte d
    → IsByte e
    → let l = bit_or c (bit_and d 0xF0 / 16 * 256) in
      let r = bit_or e (bit_and d 0x0F * 256) in (l ≡ c + d / 16 * 256) × (r ≡ e + d % 16 * 256)
nibbles_back c d e hc hd he = (
  rw (high_nibble d hd) (or_twelve c (d / 16) hc (omega arith)),
  rw (low_nibble d hd) (or_twelve e (d % 16) he (omega arith)),
)

encode_header :
    (c d e f g : ℕ) (r : List ℕ)
    → IsByte c
    → IsByte d
    → IsByte e
    → (l m : ℕ) → l ≡ c + d / 16 * 256
    → m ≡ e + d % 16 * 256
    → encode (record { opcode = of_byte f; local = l; remote = m; payload = r })
      ≡ 0xF5 ∷ 0x02 ∷ c ∷ d ∷ e ∷ f ∷ 0xFF ∷ r
unfolding encode
encode_header c d e f g r hc hd he l m hl hm =
    let el : u8 (l % 256) ≡ c = omega arith in
    let em : u8 (m % 256) ≡ e = omega arith in
    let back : bit_or (u8 (l / 256 % 16 * 16)) (u8 (m / 256 % 16)) ≡ d =
      nibbles l m (omega arith) (omega arith) ∙ omega arith in
    rw (el, em, back, to_byte-of_byte f)

decode_packet_magic :
    (x y c d e f g : ℕ) (r : List ℕ) (p : Packet)
    → decode_packet (x ∷ y ∷ c ∷ d ∷ e ∷ f ∷ g ∷ r) ≡ packet p
    → (x ≡ 0xF5)
      × (y ≡ 0x02)
      × (record {
        opcode = of_byte f;
        local = bit_or c (bit_and d 0xF0 / 16 * 256);
        remote = bit_or e (bit_and d 0x0F * 256);
        payload = r;
      }
          ≡ p)
unfolding decode_packet
decode_packet_magic x y c d e f g r p h = ground arith

-- Encoding what was decoded from a datagram of bytes gives the datagram back, but for byte 6, which
-- is not read and is written as 0xFF.
pub encode-decode_packet :
    (b : List ℕ) (p : Packet)
    → All IsByte b
    → decode_packet b ≡ packet p
    → encode p ≡ take 6 b ++ 0xFF ∷ drop 7 b
unfolding decode_packet
encode-decode_packet (x ∷ y ∷ c ∷ d ∷ e ∷ f ∷ g ∷ r) p bytes h =
    let (ex, ey, ep) = decode_packet_magic x y c d e f g r p h in
    let (el, em) = nibbles_back c d e bytes.1.1.0 bytes.1.1.1.0 bytes.1.1.1.1.0 in
    rw (← ep, ex, ey)
      (encode_header c d e f g r bytes.1.1.0 bytes.1.1.1.0 bytes.1.1.1.1.0 _ _ el em)
encode-decode_packet b p bytes h = ground arith

abbrev packet_read : List ℕ → Packet
packet_read b = record {
  opcode = of_byte (at b 5);
  local = bit_or (at b 2) (bit_and (at b 3) 0xF0 / 16 * 256);
  remote = bit_or (at b 4) (bit_and (at b 3) 0x0F * 256);
  payload = drop header_size b;
}

-- decodePacket accepts exactly the datagrams of 7 bytes or more that begin with the magic bytes.
pub decode_packet_accepts :
    (b : List ℕ)
    → ((p : Packet) × (decode_packet b ≡ packet p))
      ↔ ((header_size ≤ length b) × (at b 0 ≡ 0xF5) × (at b 1 ≡ 0x02))
unfolding decode_packet
decode_packet_accepts b =
    (λ (p, e). (ground arith, ground arith, ground arith), λ h. (packet_read b, ground arith))

length-copied_id : (id : List ℕ) → length (copied_id id) ≡ 17
unfolding copied_id
length-copied_id id =
    omega (arith, length-take 17 (id ++ replicate 17 0), length-append id (replicate 17 0))

length-initial_data : (id : List ℕ) → length (initial_data id) ≡ initial_data_size
unfolding initial_data
length-initial_data id =
    omega (arith, length-append (copied_id id) (0 ∷ copied_id id), length-copied_id id)

first_of_initial_data : (id b : List ℕ) → at (initial_data id ++ b) 0 ≡ at id 0
unfolding initial_data copied_id
first_of_initial_data [] b = refl
first_of_initial_data (x ∷ id) b = refl

length-encode : (p : Packet) → length (encode p) ≡ header_size + length p.payload
unfolding encode
length-encode p = omega arith

-- The prefix on a SYN datagram is recognised, and stripping 35 bytes leaves the encoded packet,
-- whenever the player's id does not begin with byte 0xF5 or 0x25.
pub initial_data_strips :
    (id : List ℕ) (p : Packet)
    → at id 0 ≢ 0xF5
    → at id 0 ≢ 0x25
    → (looks_like_initial_data (initial_data id ++ encode p) ≡ true)
      × (drop initial_data_size (initial_data id ++ encode p) ≡ encode p)
unfolding looks_like_initial_data
initial_data_strips id p h k =
    let long : initial_data_size < length (initial_data id ++ encode p) = omega (
      arith,
      length-append (initial_data id) (encode p),
      length-initial_data id,
      length-encode p,
    ) in
    (
      rw (first_of_initial_data id (encode p), lt→ltb _ _ long) (ground arith),
      rw (length-initial_data id) at (drop-append_length (initial_data id) (encode p)),
    )

-- An encoded packet with no prefix is never taken for a prefixed one.
pub encode_not_stripped : (p : Packet) → looks_like_initial_data (encode p) ≡ false
unfolding looks_like_initial_data encode
encode_not_stripped p = ground arith

pub Decoded-cases :
    (d : Decoded) → ((e : PacketError) × (d ≡ failed e)) ⊎ ((p : Packet) × (d ≡ packet p))
Decoded-cases (failed e) = inl (e, refl)
Decoded-cases (packet p) = inr (p, refl)

pub All-drop : (n : ℕ) (b : List ℕ) → All IsByte b → All IsByte (drop n b)
All-drop zero b h = h
All-drop (suc n) [] h = h
All-drop (suc n) (x ∷ b) h = All-drop n b h.1

-- What decodePacket reads from bytes has 12-bit counters and a canonical opcode.
pub decode_packet-IsPacket :
    (b : List ℕ) (p : Packet) → All IsByte b → decode_packet b ≡ packet p → IsPacket p
unfolding decode_packet
decode_packet-IsPacket (x ∷ y ∷ c ∷ d ∷ e ∷ f ∷ g ∷ r) p bytes h =
    let (ex, ey, ep) = decode_packet_magic x y c d e f g r p h in
    let (el, em) = nibbles_back c d e bytes.1.1.0 bytes.1.1.1.0 bytes.1.1.1.1.0 in
    let local_fits : bit_or c (bit_and d 0xF0 / 16 * 256) < 4096 =
      omega (arith, el, bytes.1.1.0, bytes.1.1.1.0) in
    let remote_fits : bit_or e (bit_and d 0x0F * 256) < 4096 = omega (arith, em, bytes.1.1.1.1.0) in
    rw (← ep) (record {
      opcode_ok = of_byte-IsOpCode f bytes.1.1.1.1.1.0;
      local_ok = local_fits;
      remote_ok = remote_fits;
    })
decode_packet-IsPacket b p bytes h = ground arith
