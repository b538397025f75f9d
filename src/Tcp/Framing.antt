-- ===== src/Tcp/Framing.antt =====
-- internal/frpg/packet/packet.go: the outer packets of a TCP stream.
--
-- The connection is not of this repository: `input` holds the bytes that will still arrive before its
-- end, `output` those written, and `write_fails` says whether a Write of some bytes fails. What a
-- failed Write leaves on the wire is not modelled.
use dso.Base.{
  ℕ, ◌+◌, ◌-◌, ◌*◌, Bool, not, ltb, ◌==◌, if◌then◌else◌, List, [], ◌∷◌, ◌++◌, length, take, drop,
  Option, none, some,
}
use dso.Base.Words.{u16, u32, put_u16_be, put_u32_be, u16_be_at, u32_be_at}
use dso.Base.Result.{Result, ok, err}

abbrev pub max_packet_length : ℕ
max_packet_length = 64 * 1024

abbrev pub header_size : ℕ
header_size = 12

pub record Stream : Type 0 where
  pub input : List ℕ
  pub output : List ℕ
  pub sent : ℕ
  pub write_fails : List ℕ → Bool

pub data PacketError : Type 0 where
  read_failed zero_length too_long too_small wrong_length too_large write_failed : PacketError

-- io.ReadFull: n bytes, or all that is left and an error.
unfoldable pub read_full : ℕ → List ℕ → List ℕ × Option (List ℕ)
read_full n input = if ltb (length input) n then ([], none) else (drop n input, some (take n input))

-- What ReadPacket makes of a buffer of the announced length.
unfoldable pub unwrap : ℕ → List ℕ → Result PacketError (List ℕ)
unwrap outer_len buf =
    if not (u32_be_at buf 4 == outer_len - header_size)
    then err wrong_length
    else ok (drop header_size buf)

unfoldable pub read_body : ℕ → List ℕ → List ℕ × Result PacketError (List ℕ)
read_body outer_len rest =
    if outer_len == 0
    then (rest, err zero_length)
    else if ltb max_packet_length outer_len
    then (rest, err too_long)
    else if ltb outer_len header_size
    then (rest, err too_small)
    else (let (rest', got) = read_full outer_len rest in
        elim got [ none ↦ (rest', err read_failed) | some buf ↦ (rest', unwrap outer_len buf) ])

unfoldable pub read_packet : Stream → Stream × Result PacketError (List ℕ)
read_packet s =
    let (rest, got) = read_full 2 s.input in
    elim got [
      | none ↦ (record s { input = rest }, err read_failed)
      | some len_buf ↦
          (let (rest', answer) = read_body (u16_be_at len_buf 0) rest in
            (record s { input = rest' }, answer))
    ]

-- The bytes of a packet with a value of the send counter.
unfoldable pub frame : ℕ → List ℕ → List ℕ
frame sent payload =
    put_u16_be (u16 (header_size + length payload))
    ++ (put_u16_be sent
        ++ (0
            ∷ 0
            ∷ (put_u32_be (u32 (length payload))
                ++ (0 ∷ 0 ∷ (put_u16_be (u16 (length payload)) ++ payload)))))

unfoldable pub write_packet : List ℕ → Stream → Stream × Result PacketError (Unit {0})
write_packet payload s =
    if ltb (max_packet_length - header_size) (length payload)
    then (s, err too_large)
    else let s' = record s { sent = u16 (s.sent + 1) } in
      let out = frame s'.sent payload in
      if s.write_fails out
      then (s', err write_failed)
      else (record s' { output = s.output ++ out }, ok tt)
