-- ===== src/Tcp/Tests.antt =====
-- The framing and the messages of the TCP services at concrete inputs.
use dso.Base.{
  ℕ, zero, suc, ◌<◌, ◌≡◌, sym, ◌≢◌, refl, arith, Bool, false, Option, none, some, List, [], ◌∷◌,
  ◌++◌, length, drop, All,
}
use mathlib.Core.Option.{some_inj}
use dso.Base.{ap}
use dso.Base.Words.{IsByte}
use dso.Base.Result.{ok, err}
use dso.Tcp.Framing
use dso.Tcp.Framing.{PacketError, zero_length, too_long, frame, read_packet, write_packet}
use dso.Tcp.FramingLaws.{read_packet-write_packet_longest, read_packet-ne-too_long}
use dso.Tcp.Messaging.{Message, Stream, Cipher, reply, message_bytes, seal, send, recv}
use dso.Tcp.MessagingLaws.{Fits, recv-send}

abbrev never : List ℕ → Bool
never out = false

abbrev socket : List ℕ → Framing.Stream
socket input = record { input = input; output = []; sent = 65535; write_fails = never }

abbrev wire : List ℕ
wire = frame 65535 (1 ∷ 2 ∷ 3 ∷ []) ++ 4 ∷ []

wire_bytes : wire ≡ 0 ∷ 15 ∷ 255 ∷ 255 ∷ 0 ∷ 0 ∷ 0 ∷ 0 ∷ 0 ∷ 3 ∷ 0 ∷ 0 ∷ 0 ∷ 3 ∷ 1 ∷ 2 ∷ 3 ∷ 4 ∷ []
unfolding frame
wire_bytes = refl

repeat : ℕ → List ℕ
repeat zero = []
repeat (suc n) = 7 ∷ repeat n

length-repeat : (n : ℕ) → length (repeat n) ≡ n
unfolding repeat
length-repeat zero = refl
length-repeat (suc n) = omega (arith, length-repeat n)

abbrev longest_wire : List ℕ
longest_wire = (write_packet (repeat 65524) (socket [])).0.output ++ 4 ∷ []

read_packet-write_packet_longest_example :
    ((write_packet (repeat 65524) (socket [])).1 ≡ ok tt)
    × (length (write_packet (repeat 65524) (socket [])).0.output ≡ 65538)
    × (read_packet (socket longest_wire)
        ≡ (record (socket longest_wire) { input = drop 2 longest_wire }, err zero_length))
read_packet-write_packet_longest_example =
    read_packet-write_packet_longest (repeat 65524) (4 ∷ []) (socket []) (socket longest_wire)
      (length-repeat 65524) (λ out. refl) refl refl

wire_IsByte : All IsByte wire
unfolding frame
wire_IsByte = omega arith

read_packet-ne-too_long_example : (read_packet (socket wire)).1 ≢ err too_long
read_packet-ne-too_long_example = read_packet-ne-too_long (socket wire) wire_IsByte

-- A cipher that puts one byte in front.
abbrev prefix_cipher : Cipher
prefix_cipher = record {
  encrypt = λ p. some (5 ∷ p);
  decrypt = λ b. elim b [ [] ↦ none | x ∷ xs ↦ some xs ];
}

prefix_cipher-Fits : (p : List ℕ) → Fits prefix_cipher prefix_cipher p
prefix_cipher-Fits p = record {
  decrypts = λ b e. ap {B = Option (List ℕ)} prefix_cipher.decrypt (sym (some_inj.0 e));
  not_empty = λ b e. rw (sym (some_inj.0 e)) (omega arith);
}

abbrev answer : Message
answer = record { msg_type = reply; index = 3; payload = 8 ∷ 9 ∷ [] }

abbrev stream : List ℕ → Stream
stream input = record { pkt = socket input; enc = some prefix_cipher; dec = some prefix_cipher }

abbrev answer_wire : List ℕ
answer_wire = frame 0 (message_bytes answer (5 ∷ 8 ∷ 9 ∷ []))

sealed : seal (some prefix_cipher) answer.payload ≡ some (5 ∷ 8 ∷ 9 ∷ [])
unfolding seal
sealed = refl

short : length (message_bytes answer (5 ∷ 8 ∷ 9 ∷ [])) < 65524
unfolding message_bytes
short = omega arith

recv-send_example :
    ((send answer (stream [])).1 ≡ ok tt)
    × ((send answer (stream [])).0.pkt.output ≡ answer_wire)
    × (recv (stream (answer_wire ++ 6 ∷ []))
        ≡ (record (stream (answer_wire ++ 6 ∷ [])) { pkt = socket (6 ∷ []) }, ok answer))
recv-send_example =
    recv-send answer (5 ∷ 8 ∷ 9 ∷ []) (6 ∷ []) (stream []) (stream (answer_wire ++ 6 ∷ []))
      (record { type_ok = omega arith; index_ok = omega arith }) (prefix_cipher-Fits answer.payload)
      sealed short refl refl
