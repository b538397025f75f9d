-- ===== src/Rudp/Delivery/Receiver.antt =====
-- internal/frpg/rudp/session.go: what one data packet does to the receiving side of a session.
use dso.Base.{◌⊎◌, ℕ, ◌≡◌, ◌≢◌, ◌∙◌, arith, [], ◌∷◌, ◌++◌, inl, inr, eq→==}
use dso.Rudp.Packet.{OpCode, dat, datack, ack, Packet, IsPacket, encode, is_sequenced}
use dso.Rudp.Packet.RoundTrip.{decode_packet-encode, encode_not_stripped}
use dso.Rudp.Session.{Session, established}
use dso.Rudp.Session.Sending.{enqueue, send_raw, next_remote_sequence}
use dso.Rudp.Session.Incoming.{
  send_ack, deliver, handle_dat, handle_datack, handle_ack_like, dispatch, process_packet,
  repeat_ack, out_of_sequence, has_local, handle_sequenced, handle_incoming_packet, consume_head,
  consume_loop, consume_incoming, strip_prefix, feed,
}

-- The receiving side is unchanged.
pub record Keeps (s s' : Session) : Type 0 where
  pub state_kept : s'.state ≡ s.state
  pub items_kept : s'.received ≡ s.received
  pub taken_kept : s'.remote_sequence_index ≡ s.remote_sequence_index
  pub pending_kept : s'.pending_receive ≡ s.pending_receive

send_raw-Keeps : (p : Packet) (s : Session) → Keeps s (send_raw p s)
unfolding send_raw
send_raw-Keeps p s = ground arith

send_ack-Keeps : (n : ℕ) (s : Session) → Keeps s (send_ack n s)
unfolding send_ack enqueue
send_ack-Keeps n s =
    ground (arith, send_raw-Keeps (record { opcode = ack; local = 0; remote = n; payload = [] }) s)

handle_ack_like-Keeps : (n : ℕ) (s : Session) → Keeps s (handle_ack_like n s)
unfolding handle_ack_like
handle_ack_like-Keeps n s = ground arith

repeat_ack-Keeps : (s : Session) → Keeps s (repeat_ack s)
unfolding repeat_ack
repeat_ack-Keeps s = ground (arith, send_ack-Keeps s.remote_sequence_index_acked s)

-- A DAT or DAT_ACK.
abbrev pub IsData : OpCode → Type 0
IsData o = (o ≡ dat) ⊎ (o ≡ datack)

strip_prefix-encode : (p : Packet) → strip_prefix (encode p) ≡ encode p
unfolding strip_prefix
strip_prefix-encode p = rw (encode_not_stripped p)

pub feed-encode :
    (p : Packet) (s : Session)
    → IsPacket p
    → feed (encode p) s ≡ consume_incoming (handle_incoming_packet p s)
unfolding feed
feed-encode p s v = rw (strip_prefix-encode p, decode_packet-encode p v, feed)

-- Processing a data packet appends its payload and keeps the rest of the receiving side.
process_packet-received :
    (p : Packet) (s : Session)
    → IsData p.opcode
    → let s' = process_packet p s in
      (s'.state ≡ s.state)
      × (s'.pending_receive ≡ s.pending_receive)
      × (s'.remote_sequence_index ≡ s.remote_sequence_index)
      × (s'.received ≡ s.received ++ record { bytes = p.payload; ack_seq = p.local } ∷ [])
unfolding process_packet dispatch handle_dat handle_datack deliver
process_packet-received p s (inl e) = rw e (grind (arith, send_ack-Keeps))
process_packet-received p s (inr e) = rw e (grind (arith, send_ack-Keeps, handle_ack_like-Keeps))

abbrev queued : Packet → Session → Session
queued p s = record s { last_packet_received = s.now; pending_receive = p ∷ [] }

-- An established session with nothing pending.
pub record IsReady (s : Session) : Type 0 where
  pub is_open : s.state ≡ established
  pub none_pending : s.pending_receive ≡ []

consume_incoming-nil : (s : Session) → s.pending_receive ≡ [] → consume_incoming s ≡ s
unfolding consume_incoming consume_loop
consume_incoming-nil s e = rw (e, consume_loop)

module _ (p : Packet) (s : Session) (kind : IsData p.opcode) (ready : IsReady s) where
  queue_in_order : p.local ≡ next_remote_sequence s → handle_incoming_packet p s ≡ queued p s
  unfolding handle_incoming_packet handle_sequenced is_sequenced out_of_sequence has_local
      next_remote_sequence
  queue_in_order e = ground arith

  consume_queued :
      p.local ≡ next_remote_sequence s → consume_incoming (queued p s) ≡ consume_head p (queued p s)
  unfolding consume_incoming consume_loop next_remote_sequence
  consume_queued e = rw (eq→== _ _ e, consume_loop)

  repeat_out_of_order :
      p.local ≢ next_remote_sequence s
      → handle_incoming_packet p s ≡ repeat_ack (record s { last_packet_received = s.now })
  unfolding handle_incoming_packet handle_sequenced is_sequenced out_of_sequence
      next_remote_sequence
  repeat_out_of_order e = ground arith

  -- In order: the packet is taken at once, and nothing stays pending.
  pub feed_in_order :
      IsPacket p
      → p.local ≡ next_remote_sequence s
      → let s' = feed (encode p) s in
        IsReady s'
        × (s'.remote_sequence_index ≡ next_remote_sequence s)
        × (s'.received ≡ s.received ++ record { bytes = p.payload; ack_seq = p.local } ∷ [])
  unfolding consume_head next_remote_sequence
  feed_in_order v e =
      rw (feed-encode p s v, queue_in_order e, consume_queued e)
        (ground (arith, process_packet-received p (queued p s) kind))

  -- Out of order: nothing is taken, nothing stays pending.
  pub feed_out_of_order :
      IsPacket p
      → p.local ≢ next_remote_sequence s
      → let s' = feed (encode p) s in
        IsReady s'
        × (s'.remote_sequence_index ≡ s.remote_sequence_index)
        × (s'.received ≡ s.received)
  feed_out_of_order v e =
      let stamped : Session = record s { last_packet_received = s.now } in
      let keeps = repeat_ack-Keeps stamped in
      rw
        (
          feed-encode p s v,
          repeat_out_of_order e,
          consume_incoming-nil (repeat_ack stamped) (keeps.pending_kept ∙ ready.none_pending),
        )
        (ground (arith, keeps))
