-- ===== src/Tcp/FramingLaws.antt =====
-- internal/frpg/packet/packet.go: what ReadPacket makes of what WritePacket wrote.
use dso.Base.{
  ℕ, ◌+◌, ◌≤◌, ◌<◌, ◌≡◌, ◌≢◌, ◌⊎◌, inl, inr, refl, ap, ◌∙◌, arith, false, List, [], ◌∷◌, ◌++◌,
  length, drop, some, le→ltb_false, length-append, take-append_length, drop-append_length, All,
}
use dso.Base.Words.{IsByte, u16, u32, put_u16_be, put_u32_be, u16_be_at, join_u32_be}
use dso.Base.Result.{ok, err}
use dso.Tcp.Framing.{
  max_packet_length, header_size, Stream, zero_length, too_long, read_full, unwrap, read_body,
  read_packet, frame, write_packet,
}

-- The header and the payload behind the length prefix.
abbrev body : ℕ → List ℕ → List ℕ
body sent payload =
    put_u16_be sent
    ++ (0
        ∷ 0
        ∷ (put_u32_be (u32 (length payload))
            ++ (0 ∷ 0 ∷ (put_u16_be (u16 (length payload)) ++ payload))))

read_full-append :
    (n : ℕ) (xs rest : List ℕ) → length xs ≡ n → read_full n (xs ++ rest) ≡ (rest, some xs)
unfolding read_full
read_full-append n xs rest e = rw (
  ← e,
  le→ltb_false (length (xs ++ rest)) (length xs) (omega (arith, length-append xs rest)),
  take-append_length xs rest,
  drop-append_length xs rest,
)

unwrap-body :
    (sent : ℕ) (payload : List ℕ)
    → length payload < 65524
    → unwrap (header_size + length payload) (body sent payload) ≡ ok payload
unfolding unwrap
unwrap-body sent payload h =
    let small : u32 (length payload) ≡ length payload = omega arith in
    rw (small, join_u32_be (length payload) (omega arith)) (ground arith)

prefix_length : (n : ℕ) → n < 65536 → u16_be_at (put_u16_be (u16 n)) 0 ≡ n
prefix_length n h = omega arith

read_body_whole :
    (n : ℕ) (rest rest' buf : List ℕ)
    → header_size ≤ n
    → n ≤ max_packet_length
    → read_full n rest ≡ (rest', some buf)
    → read_body n rest ≡ (rest', unwrap n buf)
unfolding read_body
read_body_whole n rest rest' buf lo hi e = ground arith

read_packet_prefixed :
    (s : Stream) (rest len_buf : List ℕ)
    → read_full 2 s.input ≡ (rest, some len_buf)
    → read_packet s ≡ (
      record s { input = (read_body (u16_be_at len_buf 0) rest).0 },
      (read_body (u16_be_at len_buf 0) rest).1,
    )
unfolding read_packet
read_packet_prefixed s rest len_buf e = ground arith

-- ReadPacket on a frame goes on with what stands behind its length prefix.
read_packet_framed :
    (sent : ℕ) (payload rest : List ℕ) (s : Stream)
    → s.input ≡ frame sent payload ++ rest
    → let n = u16_be_at (put_u16_be (u16 (header_size + length payload))) 0 in
      read_packet s ≡ (
        record s { input = (read_body n (body sent payload ++ rest)).0 },
        (read_body n (body sent payload ++ rest)).1,
      )
unfolding frame
read_packet_framed sent payload rest s e =
    let prefix = put_u16_be (u16 (header_size + length payload)) in
    read_packet_prefixed s (body sent payload ++ rest) prefix
      (ap (read_full 2) e ∙ read_full-append 2 prefix (body sent payload ++ rest) refl)

-- A packet whose payload is shorter than 65524 bytes is read back whole, whatever the send counter
-- was and whatever follows it, and exactly its bytes are taken from the stream.
pub read_packet-frame :
    (sent : ℕ) (payload rest : List ℕ) (s : Stream)
    → length payload < 65524
    → s.input ≡ frame sent payload ++ rest
    → read_packet s ≡ (record s { input = rest }, ok payload)
read_packet-frame sent payload rest s h e =
    let n : ℕ = header_size + length payload in
    let whole : read_body n (body sent payload ++ rest) ≡ (rest, ok payload) =
      read_body_whole n (body sent payload ++ rest) rest (body sent payload) (omega arith)
        (omega arith) (read_full-append n (body sent payload) rest (omega arith))
      ∙ ap (λ a. (rest, a)) (unwrap-body sent payload h) in
    read_packet_framed sent payload rest s e ∙ rw (prefix_length n (omega arith), whole)

write_packet_sent :
    (payload : List ℕ) (s : Stream)
    → length payload ≤ 65524
    → ((out : List ℕ) → s.write_fails out ≡ false)
    → let (s', written) = write_packet payload s in
      (written ≡ ok tt) × (s'.output ≡ s.output ++ frame (u16 (s.sent + 1)) payload)
unfolding write_packet
write_packet_sent payload s h fine =
    let taken = fine (frame (u16 (s.sent + 1)) payload) in (ground arith, ground arith)

length-frame : (sent : ℕ) (payload : List ℕ) → length (frame sent payload) ≡ 14 + length payload
unfolding frame
length-frame sent payload = omega arith

-- On a stream that takes what it is given and has no output yet, WritePacket succeeds with a payload
-- of exactly 65524 bytes, and the output has 65538 bytes then. ReadPacket refuses what starts with
-- these bytes as a packet of length 0, and takes only the first two of them, so that the header and
-- the payload are left in the stream.
pub read_packet-write_packet_longest :
    (payload rest : List ℕ) (s r : Stream)
    → length payload ≡ 65524
    → ((out : List ℕ) → s.write_fails out ≡ false)
    → s.output ≡ []
    → r.input ≡ (write_packet payload s).0.output ++ rest
    → ((write_packet payload s).1 ≡ ok tt)
      × (length (write_packet payload s).0.output ≡ 65538)
      × (read_packet r ≡ (record r { input = drop 2 r.input }, err zero_length))
read_packet-write_packet_longest payload rest s r h fine fresh arrives =
    let sent : ℕ = u16 (s.sent + 1) in
    let (written, output) = write_packet_sent payload s (omega arith) fine in
    let bytes : (write_packet payload s).0.output ≡ frame sent payload =
      output ∙ ap (λ o. o ++ frame sent payload) fresh in
    let input : r.input ≡ frame sent payload ++ rest = arrives ∙ ap (λ o. o ++ rest) bytes in
    let wraps : u16_be_at (put_u16_be (u16 (header_size + length payload))) 0 ≡ 0 = omega arith in
    let left : drop 2 r.input ≡ body sent payload ++ rest =
      ap (drop 2) input ∙ (unfold frame in refl) in
    (
      written,
      ap length bytes ∙ omega (arith, length-frame sent payload),
      rw (read_packet_framed sent payload rest r input, wraps, left) (unfold read_body in refl),
    )

read_body-ne-too_long :
    (n : ℕ) (rest : List ℕ) → n ≤ max_packet_length → (read_body n rest).1 ≢ err too_long
unfolding read_body unwrap
read_body-ne-too_long n rest h e = ground arith

too_short : (s : Stream) → length s.input < 2 → (read_packet s).1 ≢ err too_long
unfolding read_packet read_full
too_short s h e = ground arith

first_bytes :
    (l : List ℕ)
    → All IsByte l
    → (length l < 2)
      ⊎ ((b : List ℕ) × (r : List ℕ) × (l ≡ b ++ r) × (length b ≡ 2) × (u16_be_at b 0 < 65536))
first_bytes [] h = inl (omega arith)
first_bytes (x ∷ []) h = inl (omega arith)
first_bytes (x ∷ y ∷ r) h = inr (x ∷ y ∷ [], r, refl, refl, omega (arith, h.0, h.1.0))

-- On bytes, ReadPacket never reports a length above the maximum: that check cannot fail.
pub read_packet-ne-too_long : (s : Stream) → All IsByte s.input → (read_packet s).1 ≢ err too_long
read_packet-ne-too_long s h = elim (first_bytes s.input h) [
  | inl few ↦ too_short s few
  | inr (b, r, e, two, small) ↦
      rw (read_packet_prefixed s r b (ap (read_full 2) e ∙ read_full-append 2 b r two))
        (read_body-ne-too_long (u16_be_at b 0) r (omega arith))
]
