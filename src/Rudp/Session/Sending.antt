-- ===== src/Rudp/Session/Sending.antt =====
-- internal/frpg/rudp/session.go: the send side of a connection, and the retransmission of a missing
-- packet.
use dso.Base.{
  ℕ, ◌+◌, ◌%◌, Bool, true, false, ◌||◌, ltb, ◌==◌, if◌then◌else◌, Option, none, some, List, [], ◌∷◌,
  ◌++◌,
}
use dso.Rudp.Sequence.{max_ack_value}
use dso.Rudp.Packet.{
  OpCode, unset, syn, dat, datack, hbt, rst, is_sequenced, Packet, encode, initial_data,
  syn_payload,
}
use dso.Rudp.Session.{
  connecting, is_closing, OutPacket, RecvItem, Session, send_failed, rand_sequence,
}

unfoldable pub receive : Session → Session × Option RecvItem
receive s = elim s.received [ [] ↦ (s, none) | p ∷ rest ↦ (record s { received = rest }, some p) ]

unfoldable pub next_remote_sequence : Session → ℕ
next_remote_sequence s = (s.remote_sequence_index + 1) % max_ack_value

abbrev is_syn : OpCode → Bool
is_syn syn = true
is_syn _ = false

abbrev is_unset : OpCode → Bool
is_unset unset = true
is_unset _ = false

-- The bytes handed to the callback: a SYN carries the connection prefix ahead of the packet.
unfoldable pub datagram : List ℕ → Packet → List ℕ
datagram psn_id p = if is_syn p.opcode then initial_data psn_id ++ encode p else encode p

transmit : Packet → Session → Session
transmit p s =
    let b = datagram s.psn_id p in
    if s.send s.attempts b (is_syn p.opcode)
    then record s { attempts = s.attempts + 1; err_state = some send_failed }
    else record s { attempts = s.attempts + 1; wire = s.wire ++ (b, is_syn p.opcode) ∷ [] }

-- Nothing is sent on a failed session.
unfoldable pub send_raw : Packet → Session → Session
unfolding transmit
send_raw p s = elim s.err_state [ none ↦ transmit p s | some e ↦ s ]

-- What an unset packet becomes: numbered, and a DAT_ACK if it acknowledges a sequence above 0.
stamp : Packet → Session → Packet
stamp p s = record p { opcode = if ltb 0 p.remote then datack else dat; local = s.sequence_index }

enqueue_unset : Packet → Session → Packet × Session
unfolding stamp
enqueue_unset p s =
    (stamp p s, if ltb 0 p.remote then record s { remote_sequence_index_acked = p.remote } else s)

enqueue_sequenced : Packet × Session → Session
enqueue_sequenced (p, s) = record s {
  sequence_index = (s.sequence_index + 1) % max_ack_value;
  send_queue = s.send_queue ++ record { pkt = p; send_time = s.now; raw_send_time = 0 } ∷ [];
}

unfoldable pub enqueue : Packet → Session → Session
unfolding enqueue_unset enqueue_sequenced is_sequenced
enqueue p s =
    if is_closing s.state
    then s
    else if is_sequenced p.opcode || is_unset p.opcode
    then enqueue_sequenced (if is_unset p.opcode then enqueue_unset p s else (p, s))
    else send_raw p s

unfoldable pub send_data : List ℕ → Session → Session
send_data payload s =
    enqueue (record { opcode = unset; local = 0; remote = 0; payload = payload }) s

unfoldable pub send_data_ack : List ℕ → ℕ → Session → Session
send_data_ack payload ack_remote s =
    enqueue (record { opcode = unset; local = 0; remote = ack_remote; payload = payload }) s

unfoldable pub send_syn : Session → Session
send_syn s =
    enqueue (record { opcode = syn; local = s.sequence_index; remote = 0; payload = syn_payload }) s

unfoldable pub connect : Session → Session
connect s = send_syn (record s { state = connecting; resend_syn_timer = s.now })

unfoldable pub send_hbt : Session → Session
send_hbt s =
    enqueue
      (record { opcode = hbt; local = 0; remote = s.remote_sequence_index_acked; payload = [] }) s

-- The error state is put aside, since `send_raw` sends nothing on a failed session, and put back.
unfoldable pub send_reset : Session → Session
send_reset s =
    let p : Packet = record {
      opcode = rst;
      local = 0;
      remote = s.remote_sequence_index_acked;
      payload = [];
    } in
    record (send_raw p (record s { err_state = none })) { err_state = s.err_state }

unfoldable pub reset : Session → Session
unfolding rand_sequence
reset s = record s {
  sequence_index = rand_sequence (s.random s.draws);
  draws = s.draws + 1;
  sequence_index_acked = 0;
  remote_sequence_index = 0;
  remote_sequence_index_acked = 0;
  pending_receive = [];
  received = [];
  send_queue = [];
  retransmit_buf = [];
}

unfoldable pub find_local : ℕ → List OutPacket → Option OutPacket
find_local want [] = none
find_local want (op ∷ ops) = if op.pkt.local == want then some op else find_local want ops

-- Sends a packet now and makes it the one that is retransmitted.
unfoldable pub start_retransmit : OutPacket → Session → Session
start_retransmit op s = record (send_raw op.pkt s) {
  is_retransmit = true;
  retransmit_index = op.pkt.local;
  retransmit_pkt = op.pkt;
  retransmit_tries = 0;
  retransmit_timer = s.now;
}

-- The packet after the last acknowledged one, if the retransmit buffer holds it.
unfoldable pub retransmit_hole : Session → Session × Bool
retransmit_hole s =
    elim (find_local ((s.sequence_index_acked + 1) % max_ack_value) s.retransmit_buf) [
      | some op ↦ (start_retransmit op s, true)
      | none ↦ (record s { hole_misses = s.hole_misses + 1 }, false)
    ]
