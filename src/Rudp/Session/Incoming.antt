-- ===== src/Rudp/Session/Incoming.antt =====
-- internal/frpg/rudp/session.go: Feed and the handlers of incoming packets.
use dso.Base.{
  ℕ, zero, suc, ◌+◌, ◌-◌, ◌%◌, Bool, true, false, not, ◌||◌, ltb, ◌==◌, if◌then◌else◌, some, List,
  [], ◌∷◌, ◌++◌, length, drop,
}
use dso.Rudp.Sequence.{max_ack_value, seq_newer}
use dso.Rudp.Packet.{
  OpCode, unset, syn, rack, dat, hbt, fin, rst, ptdatfrag, ack, synack, datack, finack, ptdatfrgack,
  other, is_sequenced, Packet, decode_packet, packet, failed, looks_like_initial_data,
  initial_data_size, syn_ack_payload,
}
use dso.Rudp.Session.{
  listening, syn_received, established, closing, is_listening, is_established, is_syn_received,
  Session, bad_packet, min_time_between_resend_ack,
}
use dso.Rudp.Session.Sending.{
  send_raw, enqueue, send_hbt, reset, retransmit_hole, next_remote_sequence,
}

unfoldable pub send_ack : ℕ → Session → Session
send_ack remote s =
    record (enqueue (record { opcode = ack; local = 0; remote = remote; payload = [] }) s) {
      remote_sequence_index_acked = remote;
      last_ack_send = s.now;
    }

unfoldable pub send_synack : ℕ → Session → Session
send_synack remote s =
    let p : Packet = record {
      opcode = synack;
      local = s.sequence_index;
      remote = remote;
      payload = syn_ack_payload;
    } in
    let s' = enqueue p s in
    record s' {
      remote_sequence_index = remote;
      sequence_index = (s'.sequence_index + 1) % max_ack_value;
    }

unfoldable pub send_finack : ℕ → Session → Session
send_finack remote s =
    enqueue (record { opcode = finack; local = s.sequence_index; remote = remote; payload = [] }) s

unfoldable pub handle_syn : Packet → Session → Session
handle_syn p s = send_ack p.local (send_synack p.local (record s { state = syn_received }))

unfoldable pub handle_synack : Packet → Session → Session
handle_synack p s =
    let s' =
      send_ack p.local (record s { state = syn_received; remote_sequence_index = p.local }) in
    record s' { sequence_index = (s'.sequence_index + 1) % max_ack_value }

-- Appends a payload to those that `receive` hands out.
unfoldable pub deliver : Packet → Session → Session
deliver p s = record s {
  received = s.received ++ record { bytes = p.payload; ack_seq = p.local } ∷ [];
}

unfoldable pub handle_dat : Packet → Session → Session
handle_dat p s = send_ack p.local (deliver p s)

unfoldable pub handle_ack_like : ℕ → Session → Session
handle_ack_like in_remote_ack s =
    if seq_newer in_remote_ack s.sequence_index_acked
    then record s { sequence_index_acked = in_remote_ack }
    else s

unfoldable pub handle_rack : Packet → Session → Session
handle_rack p s =
    (retransmit_hole (handle_ack_like p.remote (record s { rack_count = s.rack_count + 1 }))).0

unfoldable pub handle_datack : Packet → Session → Session
handle_datack p s = deliver p (send_ack p.local (handle_ack_like p.remote s))

-- The switch of `processPacket`.
unfoldable pub dispatch : OpCode → Packet → Session → Session
dispatch syn p s = handle_syn p s
dispatch synack p s = handle_synack p s
dispatch dat p s = handle_dat p s
dispatch ptdatfrag p s = handle_dat p s
dispatch hbt p s =
    let s' = handle_ack_like p.remote s in if not s'.is_client then send_hbt s' else s'
dispatch fin p s = record (send_finack p.local s) { state = closing }
dispatch finack p s = record s { state = closing }
dispatch rst p s = reset (record s { state = listening })
dispatch ack p s =
    handle_ack_like p.remote
      (if is_syn_received s.state then record s { state = established } else s)
dispatch datack p s = handle_datack p s
dispatch ptdatfrgack p s = handle_datack p s
dispatch rack p s = handle_rack p s
dispatch unset p s = record s { unknown_opcodes = s.unknown_opcodes + 1 }
dispatch (other n) p s = record s { unknown_opcodes = s.unknown_opcodes + 1 }

unfoldable pub process_packet : Packet → Session → Session
process_packet p s = dispatch p.opcode p s

-- `indexByLocal(q, local) >= 0`
unfoldable pub has_local : ℕ → List Packet → Bool
has_local n [] = false
has_local n (p ∷ ps) = p.local == n || has_local n ps

unfoldable pub out_of_sequence : Packet → Session → Bool
unfolding has_local next_remote_sequence
out_of_sequence p s =
    not (is_established s.state)
    || (not (p.local == next_remote_sequence s) || has_local p.local s.pending_receive)

-- `s.now().Sub(s.lastAckSend) > minTimeBetweenResendAck`
unfoldable pub ack_due : Session → Bool
ack_due s = ltb min_time_between_resend_ack (s.now - s.last_ack_send)

-- A sequenced packet with no connection is answered by RST, at a limited rate.
unfoldable pub refuse : Session → Session
unfolding ack_due
refuse s =
    let p : Packet = record {
      opcode = rst;
      local = 0;
      remote = s.remote_sequence_index_acked;
      payload = [];
    } in
    if ack_due s then record (send_raw p s) { last_ack_send = s.now } else s

-- A sequenced packet out of order is answered by the last ACK again, at a limited rate.
unfoldable pub repeat_ack : Session → Session
repeat_ack s = if ack_due s then send_ack s.remote_sequence_index_acked s else s

unfoldable pub handle_sequenced : Packet → Session → Session
handle_sequenced p s =
    if is_listening s.state
    then refuse s
    else if out_of_sequence p s
    then repeat_ack s
    else record s { pending_receive = s.pending_receive ++ p ∷ [] }

unfoldable pub handle_incoming_packet : Packet → Session → Session
handle_incoming_packet p s =
    let s' = record s { last_packet_received = s.now } in
    if is_sequenced p.opcode then handle_sequenced p s' else process_packet p s'

-- One round processes the head of the pending packets and drops it.
unfoldable pub consume_head : Packet → Session → Session
consume_head next s =
    let s' = process_packet next s in
    record s' {
      pending_receive = drop 1 s'.pending_receive;
      remote_sequence_index = (s'.remote_sequence_index + 1) % max_ack_value;
    }

-- The loop of `consumeIncoming`, on fuel; each round takes one packet off.
unfoldable pub consume_loop : ℕ → Session → Session
consume_loop zero s = s
consume_loop (suc fuel) s = elim s.pending_receive [
  | [] ↦ s
  | next ∷ rest ↦ elim (next.local == next_remote_sequence s) [
    | true ↦ consume_loop fuel (consume_head next s)
    | false ↦ s
  ]
]

unfoldable pub consume_incoming : Session → Session
consume_incoming s = consume_loop (length s.pending_receive) s

-- `payload[initialDataSize:]` if the prefix is there.
unfoldable pub strip_prefix : List ℕ → List ℕ
strip_prefix payload =
    if looks_like_initial_data payload then drop initial_data_size payload else payload

unfoldable pub feed : List ℕ → Session → Session
feed payload s = elim (decode_packet (strip_prefix payload)) [
  | failed e ↦ record s { err_state = some (bad_packet e) }
  | packet p ↦ consume_incoming (handle_incoming_packet p s)
]
