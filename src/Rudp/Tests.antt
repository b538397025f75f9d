-- ===== src/Rudp/Tests.antt =====
-- Runs of the transport of internal/frpg/rudp, and its theorems at concrete inputs.
use Prim.Native.Nat.{max}
use dso.Base.{
  ℕ, ◌+◌, ◌%◌, ◌≤◌, ◌≡◌, ◌↔◌, refl, arith, Bool, true, false, List, [], ◌∷◌, ◌++◌, map, inl, inr,
  length, take, drop,
}
use dso.Base.Words.{at}
use dso.Rudp.Sequence.{max_ack_value}
use dso.Rudp.Packet.{
  Packet, IsPacket, dat, datack, encode, decode_packet, packet, header_size, to_byte, of_byte,
}
use dso.Rudp.Packet.RoundTrip.{decode_packet-encode, encode-decode_packet, decode_packet_accepts}
use dso.Rudp.Session.{Session, established, new_session, max_packets_per_pump}
use dso.Rudp.Session.Incoming.{handle_ack_like}
use dso.Rudp.Session.Outgoing.{trim, handle_outgoing}
use dso.Rudp.Session.Bounds.{IsValid}
use dso.Rudp.Session.Calls.{
  Call, clock, feed_bytes, pump_once, send_bytes, answer_bytes, abandon, run, run-IsValid,
}
use dso.Rudp.Session.Window.{sent_at, handle_outgoing_fifo}
use dso.Rudp.Session.Acks.{handle_ack_like-max, Numbered, unacked, trim-unacked}
use dso.Rudp.Delivery.{Arrival, items_after, feed_all, accepted}
use dso.Rudp.Delivery.Receiver.{IsReady}
use dso.Rudp.Delivery.Stream.{feed_all_in_order, feed_all_complete}

abbrev no_failure : ℕ → List ℕ → Bool → Bool
no_failure n b c = false

abbrev draw : ℕ → ℕ × ℕ
draw n = (0xFE, 0x0F)

-- A server session that the handshake has brought to number 4094 of the peer.
unfoldable pub server : Session
server = record (new_session no_failure draw 1000000000 false [] []) {
  state = established;
  remote_sequence_index = 4094;
  sequence_index_acked = 4090;
}

abbrev pub payloads : ℕ → List ℕ
payloads n = n % 256 ∷ []

abbrev pub plain : ℕ → Arrival
plain n = record { number = n; is_reply = false; acked = 0 }

-- 4096 overtakes 4095, and 4095 is repeated.
abbrev pub network : List Arrival
network = plain 4096 ∷ plain 4095 ∷ plain 4095 ∷ plain 4096 ∷ []

accepted_two : accepted 4094 network ≡ 2
unfolding accepted
accepted_two = refl

pub server-IsReady : IsReady server
unfolding server new_session
server-IsReady = record { is_open = refl; none_pending = refl }

feed_all_in_order_example :
    let s' = feed_all payloads network server in
    let m = accepted 4094 network in
    IsReady s'
    × (s'.remote_sequence_index ≡ (4094 + m) % max_ack_value)
    × (s'.received ≡ server.received ++ items_after payloads 4094 m)
unfolding server new_session
feed_all_in_order_example =
    feed_all_in_order payloads 4094 network server server-IsReady refl (omega arith)

feed_all_complete_example :
    (k : ℕ) × ((feed_all payloads network server).received
      ≡ server.received ++ items_after payloads 4094 (2 + k))
unfolding server new_session
feed_all_complete_example =
    feed_all_complete payloads 4094 2 network server server-IsReady refl (omega arith)
      (inr (inl (refl, inr (inl (refl, tt)))))

abbrev calls : List Call
calls =
    clock 2000000000
    ∷ feed_bytes (0xF5 ∷ 0x02 ∷ 0x03 ∷ 0x00 ∷ 0x00 ∷ 0x02 ∷ 0xFF ∷ [])
    ∷ send_bytes (1 ∷ 2 ∷ [])
    ∷ answer_bytes (3 ∷ []) 7
    ∷ pump_once
    ∷ abandon
    ∷ []

run-IsValid_example : IsValid (run calls (new_session no_failure draw 1000000000 false [] []))
run-IsValid_example = run-IsValid no_failure draw 1000000000 false [] calls (omega arith)

abbrev one : Packet
one = record { opcode = datack; local = 0x123; remote = 0xFED; payload = 9 ∷ 8 ∷ [] }

one_bytes : encode one ≡ 0xF5 ∷ 0x02 ∷ 0x23 ∷ 0x1F ∷ 0xED ∷ 0x34 ∷ 0xFF ∷ 9 ∷ 8 ∷ []
unfolding encode
one_bytes = refl

one-IsPacket : IsPacket one
unfolding to_byte of_byte
one-IsPacket = record {
  opcode_ok = (omega arith, refl);
  local_ok = omega arith;
  remote_ok = omega arith;
}

decode_packet-encode_example : decode_packet (encode one) ≡ packet one
decode_packet-encode_example = decode_packet-encode one one-IsPacket

abbrev one_read : List ℕ
one_read = 0xF5 ∷ 0x02 ∷ 0x23 ∷ 0x1F ∷ 0xED ∷ 0x34 ∷ 0x07 ∷ 9 ∷ 8 ∷ []

encode-decode_packet_example : encode one ≡ take 6 one_read ++ 0xFF ∷ drop 7 one_read
unfolding decode_packet
encode-decode_packet_example = encode-decode_packet one_read one (omega arith) refl

decode_packet_accepts_example :
    ((p : Packet) × (decode_packet one_read ≡ packet p))
    ↔ ((header_size ≤ length one_read) × (at one_read 0 ≡ 0xF5) × (at one_read 1 ≡ 0x02))
decode_packet_accepts_example = decode_packet_accepts one_read

handle_ack_like-max_example :
    (handle_ack_like (4101 % max_ack_value) server).sequence_index_acked
    ≡ max 4090 4101 % max_ack_value
unfolding server new_session
handle_ack_like-max_example = handle_ack_like-max 4090 4101 server (omega arith) (omega arith) refl

abbrev sent : ℕ → Numbered
sent n = record {
  number = n;
  out = record {
    pkt = record { opcode = dat; local = n % max_ack_value; remote = 0; payload = [] };
    send_time = 0;
    raw_send_time = 0;
  };
}

trim-unacked_example :
    trim (4096 % max_ack_value) (map Numbered.out (sent 4095 ∷ sent 4096 ∷ sent 4097 ∷ []))
    ≡ map Numbered.out (unacked 4096 (sent 4095 ∷ sent 4096 ∷ sent 4097 ∷ []))
trim-unacked_example = trim-unacked 4096 (sent 4095 ∷ sent 4096 ∷ sent 4097 ∷ []) (omega arith)

abbrev busy : Session
busy = record server { send_queue = map Numbered.out (sent 1 ∷ sent 2 ∷ []) }

handle_outgoing_fifo_example :
    let s' = handle_outgoing busy in
    (n : ℕ) × (n ≤ max_packets_per_pump)
    × (s'.send_queue ≡ drop n busy.send_queue)
    × (s'.retransmit_buf
        ≡ trim busy.sequence_index_acked busy.retransmit_buf
          ++ map (sent_at busy.now) (take n busy.send_queue))
    × (s'.is_retransmit ≡ true → n ≡ 0)
handle_outgoing_fifo_example = handle_outgoing_fifo busy
