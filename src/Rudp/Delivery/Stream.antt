-- ===== src/Rudp/Delivery/Stream.antt =====
-- internal/frpg/rudp/session.go: the receiving side on a sequence of datagrams, over a network that
-- loses, repeats and reorders.
use dso.Base.{
  ◌⊎◌, ℕ, zero, suc, ◌+◌, ◌-◌, ◌%◌, ◌≤◌, ◌<◌, ◌≡◌, ◌≢◌, sym, ap, ◌∙◌, arith, List, [], ◌∷◌, ◌++◌,
  inl, inr, Bool-cases, ◌==◌, append_assoc, append-nil, ==_iff,
}
use dso.Rudp.Sequence.{max_ack_value}
use dso.Rudp.Packet.{to_byte, of_byte, IsPacket, encode}
use dso.Rudp.Session.{Session}
use dso.Rudp.Session.Sending.{next_remote_sequence}
use dso.Rudp.Session.Incoming.{feed}
use dso.Rudp.Delivery.{Arrival, data_packet, item, items_after, feed_all, accepted, InWindow}
use dso.Rudp.Delivery.Receiver.{IsReady, IsData, feed_in_order, feed_out_of_order}

module _ (stream : ℕ → List ℕ) where
  data_packet-IsPacket : (a : Arrival) → a.acked < max_ack_value → IsPacket (data_packet stream a)
  unfolding data_packet to_byte of_byte
  data_packet-IsPacket a h = ground arith

  data_packet-IsData : (a : Arrival) → IsData (data_packet stream a).opcode
  unfolding data_packet
  data_packet-IsData a = ground arith

  -- The next number and no other of the window has the next 12-bit number.
  next_in_window :
      (last n : ℕ)
      → n < last + 1 + max_ack_value
      → last + 1 < n + max_ack_value
      → n % max_ack_value ≡ (last % max_ack_value + 1) % max_ack_value
      → n ≡ last + 1
  next_in_window last n h k e = omega arith

  module _ (last : ℕ) (a : Arrival) (s : Session) (ready : IsReady s)
      (taken : s.remote_sequence_index ≡ last % max_ack_value)
      (ack_ok : a.acked < max_ack_value) where
    feed_next :
        a.number ≡ last + 1
        → let s' = feed (encode (data_packet stream a)) s in
          IsReady s'
          × (s'.remote_sequence_index ≡ (last + 1) % max_ack_value)
          × (s'.received ≡ s.received ++ item stream (last + 1) ∷ [])
    feed_next e =
        let p = data_packet stream a in
        let next : p.local ≡ next_remote_sequence s =
          unfold data_packet next_remote_sequence in omega arith in
        let (r, t, i) =
          feed_in_order p s (data_packet-IsData a) ready (data_packet-IsPacket a ack_ok) next in
        (r, t ∙ (unfold next_remote_sequence in omega arith), i ∙ (unfold data_packet item in rw e))

    feed_other :
        a.number < last + 1 + max_ack_value
        → last + 1 < a.number + max_ack_value
        → a.number ≢ last + 1
        → let s' = feed (encode (data_packet stream a)) s in
          IsReady s'
          × (s'.remote_sequence_index ≡ last % max_ack_value)
          × (s'.received ≡ s.received)
    feed_other h k e =
        let p = data_packet stream a in
        let other : p.local ≢ next_remote_sequence s =
          unfold data_packet next_remote_sequence in
          λ c. e (next_in_window last a.number h k (omega arith)) in
        let (r, t, i) =
          feed_out_of_order p s (data_packet-IsData a) ready (data_packet-IsPacket a ack_ok)
            other in
        (r, t ∙ taken, i)

  -- An established session that has taken the numbers up to `last` and has nothing pending, given
  -- any data packets of a stream, each less than 4096 numbers from the next one at its time: what it
  -- hands out grows by exactly the payloads that follow `last` in the stream, in order and once each,
  -- as many as the specification accepts; it ends with nothing pending.
  pub feed_all_in_order :
      (last : ℕ) (arrivals : List Arrival) (s : Session)
      → IsReady s
      → s.remote_sequence_index ≡ last % max_ack_value
      → InWindow last arrivals
      → let s' = feed_all stream arrivals s in
        let m = accepted last arrivals in
        IsReady s'
        × (s'.remote_sequence_index ≡ (last + m) % max_ack_value)
        × (s'.received ≡ s.received ++ items_after stream last m)
  unfolding feed_all accepted items_after
  feed_all_in_order last [] s ready taken w =
      (ready, rw taken (ap (λ n. n % max_ack_value) (omega arith)), sym (append-nil s.received))
  feed_all_in_order last (a ∷ rest) s ready taken w = elim (Bool-cases (a.number == last + 1)) [
    | inl hit ↦
        let (r, t, i) = feed_next last a s ready taken w.2 ((==_iff a.number (last + 1)).0 hit) in
        let s1 = feed (encode (data_packet stream a)) s in
        let (r2, t2, i2) = feed_all_in_order (last + 1) rest s1 r t (rw hit at w.3) in
        rw hit (
          r2,
          t2 ∙ ap (λ n. n % max_ack_value) (omega arith),
          i2 ∙ rw i (append_assoc s.received (item stream (last + 1) ∷ []) _),
        )
    | inr miss ↦
        let differ : a.number ≢ last + 1 = λ e. ground arith in
        let (r, t, i) = feed_other last a s ready taken w.2 w.0 w.1 differ in
        let s1 = feed (encode (data_packet stream a)) s in
        let (r2, t2, i2) = feed_all_in_order last rest s1 r t (rw miss at w.3) in
        rw miss (r2, t2, i2 ∙ rw i)
  ]

-- The arrivals contain, as a subsequence, one packet for each of the m numbers after `last` in turn.
abbrev pub Covers : ℕ → ℕ → List Arrival → Type 0
Covers last zero arrivals = Unit
Covers last (suc m) [] = ⊥
Covers last (suc m) (a ∷ rest) =
    ((a.number ≡ last + 1) × Covers (last + 1) m rest) ⊎ Covers last (suc m) rest

Covers-tail :
    (last m : ℕ) (arrivals : List Arrival)
    → Covers last (suc m) arrivals
    → Covers (last + 1) m arrivals
Covers-tail last zero arrivals c = tt
Covers-tail last (suc m) [] c = absurd c
Covers-tail last (suc m) (a ∷ rest) (inl c) = inr c.1
Covers-tail last (suc m) (a ∷ rest) (inr c) = inr (Covers-tail last (suc m) rest c)

le-accepted :
    (last m : ℕ) (arrivals : List Arrival) → Covers last m arrivals → m ≤ accepted last arrivals
unfolding accepted
le-accepted last zero arrivals c = omega arith
le-accepted last (suc m) [] c = absurd c
le-accepted last (suc m) (a ∷ rest) (inl c) = ground (arith, le-accepted (last + 1) m rest c.1)
le-accepted last (suc m) (a ∷ rest) (inr c) = ground (
  arith,
  le-accepted last (suc m) rest c,
  le-accepted (last + 1) m rest (Covers-tail last m rest c),
)

-- Under the same conditions, if each of the m numbers after `last` gets through at least once, in
-- this order, whatever arrives in between, then at least those m payloads are handed out, in order.
pub feed_all_complete :
    (stream : ℕ → List ℕ) (last m : ℕ) (arrivals : List Arrival) (s : Session)
    → IsReady s
    → s.remote_sequence_index ≡ last % max_ack_value
    → InWindow last arrivals
    → Covers last m arrivals
    → (k : ℕ) × ((feed_all stream arrivals s).received
        ≡ s.received ++ items_after stream last (m + k))
feed_all_complete stream last m arrivals s ready taken w c =
    let n : ℕ = accepted last arrivals in
    let e : m + (n - m) ≡ n = omega (arith, le-accepted last m arrivals c) in
    (n - m, rw e ((feed_all_in_order stream last arrivals s ready taken w).2))
