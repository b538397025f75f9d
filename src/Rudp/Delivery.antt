-- ===== src/Rudp/Delivery.antt =====
-- internal/frpg/rudp/session.go: the receiving side against its specification. The peer numbers its
-- data packets by an unbounded counter and puts the counter modulo 4096 on the wire; the network may
-- lose, repeat and reorder them.
pub mod Receiver
pub mod Stream
use dso.Base.{
  ℕ, zero, suc, ◌+◌, ◌-◌, ◌%◌, ◌≤◌, ◌<◌, ◌≡◌, ◌≢◌, refl, sym, ap, ◌∙◌, arith, Bool, true, false,
  not, ◌||◌, List, [], ◌∷◌, ◌++◌, length, inl, inr, Bool-cases, none, some, drop, ◌==◌,
  if◌then◌else◌, append_assoc, append-nil, ==_refl,
}
use dso.Rudp.Sequence.{max_ack_value}
use dso.Rudp.Packet.{
  OpCode, dat, datack, ack, Packet, IsPacket, encode, decode_packet, packet, is_sequenced,
}
use dso.Rudp.Packet.RoundTrip.{decode_packet-encode, encode_not_stripped}
use dso.Rudp.Session.{Session, RecvItem, State, established}
use dso.Rudp.Session.Sending.{enqueue, send_raw, next_remote_sequence}
use dso.Rudp.Session.Incoming.{
  send_ack, deliver, handle_dat, handle_datack, handle_ack_like, dispatch, process_packet,
  repeat_ack, ack_due, out_of_sequence, has_local, handle_sequenced, handle_incoming_packet,
  consume_head, consume_loop, consume_incoming, strip_prefix, feed,
}

-- A data packet in flight: its number, and whether it is a DAT_ACK, with what it acknowledges.
pub record Arrival : Type 0 where
  pub number : ℕ
  pub is_reply : Bool
  pub acked : ℕ

module _ (stream : ℕ → List ℕ) where
  -- The packet that carries the payload of a number.
  unfoldable pub data_packet : Arrival → Packet
  data_packet a = record {
    opcode = if a.is_reply then datack else dat;
    local = a.number % max_ack_value;
    remote = a.acked;
    payload = stream a.number;
  }

  unfoldable pub item : ℕ → RecvItem
  item n = record { bytes = stream n; ack_seq = n % max_ack_value }

  -- The m items whose numbers follow `last`.
  unfoldable pub items_after : ℕ → ℕ → List RecvItem
  items_after last zero = []
  items_after last (suc m) = item (last + 1) ∷ items_after (last + 1) m

  -- The receiver of a session, one datagram after another.
  unfoldable pub feed_all : List Arrival → Session → Session
  feed_all [] s = s
  feed_all (a ∷ rest) s = feed_all rest (feed (encode (data_packet a)) s)

-- The specification: a packet is taken when its number is the next one; the count of those taken.
unfoldable pub accepted : ℕ → List Arrival → ℕ
accepted last [] = 0
accepted last (a ∷ rest) =
    let taken = suc (accepted (last + 1) rest) in
    let passed = accepted last rest in if a.number == last + 1 then taken else passed

-- Every packet that arrives is less than 4096 from the next number at that time, either way.
abbrev pub InWindow : ℕ → List Arrival → Type 0
InWindow last [] = Unit
InWindow last (a ∷ rest) =
    (a.number < last + 1 + max_ack_value)
    × (last + 1 < a.number + max_ack_value)
    × (a.acked < max_ack_value)
    × InWindow (if a.number == last + 1 then last + 1 else last) rest
