-- ===== src/Rudp/Session/Bounds.antt =====
-- internal/frpg/rudp/session.go: an invariant of the session and the lemmas that each handler of
-- datagrams keeps it.
use dso.Base.{ℕ, ◌≤◌, ◌<◌, ◌≡◌, ◌≢◌, arith, length, All, none}
use dso.Rudp.Sequence.{max_ack_value}
use dso.Rudp.Packet.{
  OpCode, Packet, syn, rack, dat, hbt, fin, rst, ptdatfrag, ack, synack, datack, ptdatfrgack,
}
use dso.Rudp.Session.{
  Session, OutPacket, rand_sequence, retransmit_max_attempts, max_packets_in_flight,
}
use dso.Rudp.Session.Sending.{enqueue, send_raw, send_hbt, reset, retransmit_hole, start_retransmit}
use dso.Rudp.Session.Incoming.{
  send_ack, send_synack, send_finack, handle_syn, handle_synack, handle_dat, handle_datack,
  handle_rack, handle_ack_like, deliver, dispatch,
}

-- The counters of a packet are 12-bit.
abbrev pub IsTwelveBit : Packet → Type 0
IsTwelveBit p = (p.local < max_ack_value) × (p.remote < max_ack_value)

-- The four counters and those of the pending packets are 12-bit, at most 32 packets are unacknowledged, a session that has used its
-- attempts up has failed, and the close timer is never started.
pub record IsValid (s : Session) : Type 0 where
  pub own : s.sequence_index < max_ack_value
  pub own_acked : s.sequence_index_acked < max_ack_value
  pub peer : s.remote_sequence_index < max_ack_value
  pub peer_acked : s.remote_sequence_index_acked < max_ack_value
  pub in_flight : length s.retransmit_buf ≤ max_packets_in_flight
  pub budget : retransmit_max_attempts < s.retransmit_tries → s.err_state ≢ none
  pub pending_ok : All IsTwelveBit s.pending_receive
  pub no_timer : s.close_timer ≡ 0

pub rand_sequence-lt : (b : ℕ × ℕ) → rand_sequence b < max_ack_value
unfolding rand_sequence
rand_sequence-lt b = omega arith

pub send_raw-IsValid : (p : Packet) (s : Session) → IsValid s → IsValid (send_raw p s)
unfolding send_raw
send_raw-IsValid p s v = ground arith

pub enqueue-IsValid :
    (p : Packet) (s : Session) → p.remote < max_ack_value → IsValid s → IsValid (enqueue p s)
unfolding enqueue
enqueue-IsValid p s h v = ground (arith, send_raw-IsValid p s)

pub send_ack-IsValid :
    (n : ℕ) (s : Session) → n < max_ack_value → IsValid s → IsValid (send_ack n s)
unfolding send_ack
send_ack-IsValid n s h v = grind (arith, enqueue-IsValid)

send_synack-IsValid :
    (n : ℕ) (s : Session) → n < max_ack_value → IsValid s → IsValid (send_synack n s)
unfolding send_synack
send_synack-IsValid n s h v = grind (arith, enqueue-IsValid)

handle_ack_like-IsValid :
    (n : ℕ) (s : Session) → n < max_ack_value → IsValid s → IsValid (handle_ack_like n s)
unfolding handle_ack_like
handle_ack_like-IsValid n s h v = ground arith

pub start_retransmit-IsValid :
    (op : OutPacket) (s : Session) → IsValid s → IsValid (start_retransmit op s)
unfolding start_retransmit
start_retransmit-IsValid op s v = grind (arith, send_raw-IsValid)

pub retransmit_hole-IsValid : (s : Session) → IsValid s → IsValid (retransmit_hole s).0
unfolding retransmit_hole
retransmit_hole-IsValid s v = grind (arith, start_retransmit-IsValid)

pub reset-IsValid : (s : Session) → IsValid s → IsValid (reset s)
unfolding reset
reset-IsValid s v = grind (arith, rand_sequence-lt)

module _ (p : Packet) (s : Session) (local_ok : p.local < max_ack_value)
    (remote_ok : p.remote < max_ack_value) (v : IsValid s) where
  handle_syn-IsValid : IsValid (handle_syn p s)
  unfolding handle_syn
  handle_syn-IsValid = grind (arith, send_ack-IsValid, send_synack-IsValid)

  handle_synack-IsValid : IsValid (handle_synack p s)
  unfolding handle_synack
  handle_synack-IsValid = grind (arith, send_ack-IsValid)

  handle_dat-IsValid : IsValid (handle_dat p s)
  unfolding handle_dat deliver
  handle_dat-IsValid = grind (arith, send_ack-IsValid)

  handle_datack-IsValid : IsValid (handle_datack p s)
  unfolding handle_datack deliver
  handle_datack-IsValid = grind (arith, send_ack-IsValid, handle_ack_like-IsValid)

  handle_rack-IsValid : IsValid (handle_rack p s)
  unfolding handle_rack
  handle_rack-IsValid = grind (arith, retransmit_hole-IsValid, handle_ack_like-IsValid)

  pub dispatch-IsValid : (o : OpCode) → IsValid (dispatch o p s)
  unfolding dispatch
  dispatch-IsValid syn = handle_syn-IsValid
  dispatch-IsValid synack = handle_synack-IsValid
  dispatch-IsValid dat = handle_dat-IsValid
  dispatch-IsValid ptdatfrag = handle_dat-IsValid
  dispatch-IsValid datack = handle_datack-IsValid
  dispatch-IsValid ptdatfrgack = handle_datack-IsValid
  dispatch-IsValid rack = handle_rack-IsValid
  dispatch-IsValid hbt = unfold send_hbt in grind (arith, enqueue-IsValid, handle_ack_like-IsValid)
  dispatch-IsValid fin = unfold send_finack in grind (arith, enqueue-IsValid)
  dispatch-IsValid rst = grind (arith, reset-IsValid)
  dispatch-IsValid ack = grind (arith, handle_ack_like-IsValid)
  dispatch-IsValid _ = ground arith
