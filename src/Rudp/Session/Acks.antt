-- ===== src/Rudp/Session/Acks.antt =====
-- internal/frpg/rudp/session.go: acknowledgements against unbounded counters.
use Prim.Native.Nat.{max}
use dso.Base.{ℕ, ◌+◌, ◌%◌, ◌<◌, ◌≡◌, refl, arith, if◌then◌else◌, List, [], ◌∷◌, map, ltb, All}
use dso.Rudp.Sequence.{max_ack_value, seq_order_window}
use dso.Rudp.Session.{Session, OutPacket}
use dso.Rudp.Session.Incoming.{handle_ack_like}
use dso.Rudp.Session.Outgoing.{trim}

-- If the highest number acknowledged so far is a and an acknowledgement of n arrives less than 2048
-- numbers away, in either direction, the highest number acknowledged is then the larger of the two:
-- it never goes back, and a wrap of the 12-bit number does not hold it up.
pub handle_ack_like-max :
    (a n : ℕ) (s : Session)
    → a < n + 2048
    → n < a + 2048
    → s.sequence_index_acked ≡ a % max_ack_value
    → (handle_ack_like (n % max_ack_value) s).sequence_index_acked ≡ max a n % max_ack_value
unfolding handle_ack_like
handle_ack_like-max a n s h k e = let order = seq_order_window n a k h in ground (arith, order)

-- A packet with the unbounded number that its 12-bit one stands for.
pub record Numbered : Type 0 where
  pub number : ℕ
  pub out : OutPacket

abbrev pub IsNumbered : ℕ → Numbered → Type 0
IsNumbered a x =
    (x.out.pkt.local ≡ x.number % max_ack_value) × (x.number < a + 2048) × (a < x.number + 2048)

-- The packets above the highest acknowledged number.
unfoldable pub unacked : ℕ → List Numbered → List Numbered
unacked a [] = []
unacked a (x ∷ xs) = let rest = unacked a xs in if ltb a x.number then x ∷ rest else rest

-- For packets numbered less than 2048 away from the highest acknowledged number a, the trimming of
-- the retransmit buffer keeps exactly those above a, in order.
pub trim-unacked :
    (a : ℕ) (xs : List Numbered)
    → All (IsNumbered a) xs
    → trim (a % max_ack_value) (map Numbered.out xs) ≡ map Numbered.out (unacked a xs)
unfolding trim unacked
trim-unacked a [] h = refl
trim-unacked a (x ∷ xs) h =
    let order = seq_order_window x.number a h.0.1 h.0.2 in
    rw (h.0.0) (ground (arith, order.1, trim-unacked a xs h.1))
