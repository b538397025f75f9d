-- ===== src/Rudp/Session/Invariant.antt =====
-- internal/frpg/rudp/session.go: the invariant over Feed, Pump and the other methods, and over every
-- sequence of calls.
use dso.Base.{
  ℕ, zero, suc, ◌≤◌, ◌<◌, ◌≡◌, ◌⊎◌, arith, List, [], ◌∷◌, length, All, inl, inr, Bool-cases, not,
  drop, List-cases, ◌==◌, ltb, ◌&&◌, All-append, length-append,
}
use dso.Base.Words.{IsByte}
use dso.Rudp.Packet.{Packet, decode_packet, packet, failed, PacketError}
use dso.Rudp.Packet.RoundTrip.{All-drop, Decoded-cases, decode_packet-IsPacket}
use dso.Rudp.Session.{Session, OutPacket, max_packets_in_flight}
use dso.Rudp.Session.Sending.{next_remote_sequence, send_hbt, send_syn}
use dso.Rudp.Session.Incoming.{
  dispatch, process_packet, refuse, repeat_ack, handle_sequenced, handle_incoming_packet,
  consume_head, consume_loop, consume_incoming, strip_prefix, feed,
}
use dso.Rudp.Session.Outgoing.{
  trim, begin_retransmit, continue_retransmit, retransmit_step, flush_one, flush, handle_outgoing,
  close_if_drained, beat, resend_syn, pump_open, pump_live, pump,
}
use dso.Rudp.Session.Bounds.{
  IsValid, IsTwelveBit, send_raw-IsValid, enqueue-IsValid, send_ack-IsValid,
  start_retransmit-IsValid, retransmit_hole-IsValid, reset-IsValid, dispatch-IsValid,
}

refuse-IsValid : (s : Session) → IsValid s → IsValid (refuse s)
unfolding refuse
refuse-IsValid s v = grind (arith, send_raw-IsValid)

repeat_ack-IsValid : (s : Session) → IsValid s → IsValid (repeat_ack s)
unfolding repeat_ack
repeat_ack-IsValid s v = grind (arith, send_ack-IsValid)

handle_incoming_packet-IsValid :
    (p : Packet) (s : Session) → IsTwelveBit p → IsValid s → IsValid (handle_incoming_packet p s)
unfolding handle_incoming_packet handle_sequenced process_packet
handle_incoming_packet-IsValid p s h v = grind (
  arith,
  refuse-IsValid,
  repeat_ack-IsValid,
  dispatch-IsValid,
  All-append IsTwelveBit s.pending_receive (p ∷ []),
)

All-drop_one : (ps : List Packet) → All IsTwelveBit ps → All IsTwelveBit (drop 1 ps)
All-drop_one [] h = h
All-drop_one (p ∷ ps) h = h.1

consume_head-IsValid :
    (p : Packet) (s : Session) → IsTwelveBit p → IsValid s → IsValid (consume_head p s)
unfolding consume_head process_packet
consume_head-IsValid p s h v =
    let w = dispatch-IsValid p s h.0 h.1 v p.opcode in
    ground (arith, w, All-drop_one (dispatch p.opcode p s).pending_receive w.pending_ok)

consume_loop-IsValid : (fuel : ℕ) (s : Session) → IsValid s → IsValid (consume_loop fuel s)
unfolding consume_loop
consume_loop-IsValid zero s v = v
consume_loop-IsValid (suc fuel) s v = elim (List-cases s.pending_receive) [
  | inl e ↦ rw (e, consume_loop) v
  | inr (next, rest, e) ↦
      rw (e, consume_loop)
        (elim (Bool-cases (next.local == next_remote_sequence s)) [
          | inl hit ↦ rw hit (
              consume_loop-IsValid fuel (consume_head next s)
                (consume_head-IsValid next s (rw e at v.pending_ok).0 v))
          | inr miss ↦ rw miss v
        ])
]

strip_prefix-IsByte : (b : List ℕ) → All IsByte b → All IsByte (strip_prefix b)
unfolding strip_prefix
strip_prefix-IsByte b h = ground (arith, All-drop 35 b h)

decode_cases :
    (b : List ℕ)
    → ((e : PacketError) × (decode_packet b ≡ failed e))
      ⊎ ((p : Packet) × (decode_packet b ≡ packet p))
decode_cases b = Decoded-cases (decode_packet b)

-- Feeding a datagram of bytes keeps the invariant, whatever the datagram holds.
pub feed-IsValid : (b : List ℕ) (s : Session) → All IsByte b → IsValid s → IsValid (feed b s)
unfolding feed consume_incoming
feed-IsValid b s h v = elim (decode_cases (strip_prefix b)) [
  | inl (e, failure) ↦ rw (failure, feed) (ground arith)
  | inr (p, e) ↦
      let q = decode_packet-IsPacket (strip_prefix b) p (strip_prefix-IsByte b h) e in
      let w = handle_incoming_packet-IsValid p s (q.local_ok, q.remote_ok) v in
      rw (e, feed) (consume_loop-IsValid _ _ w)
]

pub length-trim : (acked : ℕ) (ops : List OutPacket) → length (trim acked ops) ≤ length ops
unfolding trim
length-trim acked [] = omega arith
length-trim acked (op ∷ ops) = ground (arith, length-trim acked ops)

retransmit_step-IsValid : (s : Session) → IsValid s → IsValid (retransmit_step s).0
unfolding retransmit_step begin_retransmit continue_retransmit
retransmit_step-IsValid s v =
    grind (arith, start_retransmit-IsValid, retransmit_hole-IsValid, send_raw-IsValid)

flush_one-IsValid :
    (op : OutPacket) (rest : List OutPacket) (s : Session)
    → length s.retransmit_buf < max_packets_in_flight
    → IsValid s
    → IsValid (flush_one op rest s)
unfolding flush_one
flush_one-IsValid op rest s h v = grind (
  arith,
  send_raw-IsValid,
  length-append s.retransmit_buf (record op { raw_send_time = s.now } ∷ []),
)

flush-IsValid : (left : ℕ) (s : Session) → IsValid s → IsValid (flush left s)
unfolding flush
flush-IsValid zero s v = v
flush-IsValid (suc left) s v = elim (List-cases s.send_queue) [
  | inl e ↦ rw (e, flush) v
  | inr (op, rest, e) ↦
      rw (e, flush)
        (elim (Bool-cases
          (not s.is_retransmit && ltb (length s.retransmit_buf) max_packets_in_flight)) [
            | inl open_window ↦ rw open_window (
                flush-IsValid left (flush_one op rest s)
                  (flush_one-IsValid op rest s (ground arith) v))
            | inr shut ↦ rw shut v
          ])
]

pub handle_outgoing-IsValid : (s : Session) → IsValid s → IsValid (handle_outgoing s)
unfolding handle_outgoing
handle_outgoing-IsValid s v = grind (
  arith,
  flush-IsValid,
  retransmit_step-IsValid,
  length-trim s.sequence_index_acked s.retransmit_buf,
)

pub send_syn-IsValid : (s : Session) → IsValid s → IsValid (send_syn s)
unfolding send_syn
send_syn-IsValid s v = grind (arith, enqueue-IsValid)

close_if_drained-IsValid : (s : Session) → IsValid s → IsValid (close_if_drained s)
unfolding close_if_drained
close_if_drained-IsValid s v = ground arith

beat-IsValid : (s : Session) → IsValid s → IsValid (beat s)
unfolding beat send_hbt
beat-IsValid s v = grind (arith, enqueue-IsValid)

resend_syn-IsValid : (s : Session) → IsValid s → IsValid (resend_syn s)
unfolding resend_syn
resend_syn-IsValid s v = grind (arith, send_syn-IsValid)

pump_open-IsValid : (s : Session) → IsValid s → IsValid (pump_open s).0
unfolding pump_open
pump_open-IsValid s v = grind (arith, handle_outgoing-IsValid)

pub pump-IsValid : (s : Session) → IsValid s → IsValid (pump s).0
unfolding pump pump_live
pump-IsValid s v = ground (
  arith,
  reset-IsValid (close_if_drained s) (close_if_drained-IsValid s v),
  pump_open-IsValid (resend_syn (beat (close_if_drained s)))
      (resend_syn-IsValid _ (beat-IsValid _ (close_if_drained-IsValid s v))),
)
