-- ===== src/Rudp/Transport.antt =====
-- internal/frpg/rudp, end to end: the message layer over the receiving side of a session.
use dso.Base.{
  ℕ, zero, suc, ◌+◌, ◌-◌, ◌%◌, ◌<◌, ◌≡◌, refl, ap, ◌∙◌, arith, false, List, [], ◌∷◌, ◌++◌, map,
  length, some, Option,
}
use dso.Base.Result.{ok}
use dso.Rudp.Sequence.{max_ack_value}
use dso.Rudp.Session.{RecvItem}
use dso.Rudp.Message.{Message, IsMessage, encode_message}
use dso.Rudp.Fragments.{encode_fragments, fragment_count, fragments_from}
use dso.Rudp.Connection.{MessageConn, recv}
use dso.Rudp.Connection.Receiving.{last_ack, recv-encode_fragments}
use dso.Rudp.Delivery.{Arrival, item, items_after, feed_all, InWindow}
use dso.Rudp.Delivery.Receiver.{IsReady}
use dso.Rudp.Delivery.Stream.{Covers, feed_all_complete}

module _ (stream : ℕ → List ℕ) where
  items_after-append :
      (m k last : ℕ)
      → items_after stream last (m + k)
        ≡ items_after stream last m ++ items_after stream (last + m) k
  unfolding items_after
  items_after-append zero k last =
      ap (λ n. items_after stream last n) (omega arith)
      ∙ ap (λ n. items_after stream n k) (omega arith)
  items_after-append (suc m) k last =
      ap (λ n. items_after stream last n) {y = suc (m + k)} (omega arith)
      ∙ ap (λ r. item stream (last + 1) ∷ r) (items_after-append m k (last + 1))
      ∙ ap (λ n. items_after stream last (suc m) ++ items_after stream n k) (omega arith)

  last_ack-items_after :
      (m last : ℕ) → last_ack (items_after stream last (suc m)) ≡ (last + suc m) % max_ack_value
  unfolding items_after item
  last_ack-items_after zero last = refl
  last_ack-items_after (suc m) last =
      last_ack-items_after m (last + 1) ∙ ap (λ k. k % max_ack_value) (omega arith)

fragment_count-pos : (b : List ℕ) → fragment_count b ≡ suc (fragment_count b - 1)
unfolding fragment_count
fragment_count-pos b = ground arith

length-fragments_from :
    (left i : ℕ) (b : List ℕ) (c : ℕ) → length (fragments_from left i b c) ≡ left
unfolding fragments_from
length-fragments_from zero i b c = refl
length-fragments_from (suc left) i b c = ap suc (length-fragments_from left (i + 1) b c)

last_ack-fragments :
    (stream : ℕ → List ℕ) (m : Message) (counter last : ℕ)
    → let n = length (encode_fragments (encode_message m) counter) in
      last_ack (items_after stream last n) ≡ (last + n) % max_ack_value
last_ack-fragments stream m counter last =
    let b = encode_message m in
    let count : length (encode_fragments b counter) ≡ suc (fragment_count b - 1) =
      unfold encode_fragments in
      length-fragments_from (fragment_count b) 0 b counter ∙ fragment_count-pos b in
    rw count (last_ack-items_after stream (fragment_count b - 1) last)

-- Let a peer's numbered stream carry, after number `last`, the fragments of a message that is 32-bit,
-- a reply exactly if its type is 0, and shorter than 65536 bytes when encoded. Let the network lose,
-- repeat and reorder its packets, each arriving less than 4096 from the next number, so that each of
-- these fragments gets through at least once, in turn. Then a connection whose established session
-- had taken the numbers up to `last`, with nothing to hand out and no message half received, returns
-- this very message on the next Recv, with the number of its last fragment to acknowledge.
pub recv-feed_all :
    (inflate : List ℕ → Option (List ℕ)) (stream : ℕ → List ℕ) (last : ℕ) (arrivals : List Arrival)
    (mc : MessageConn) (m : Message) (counter : ℕ)
    → let frags = encode_fragments (encode_message m) counter in
      IsMessage m
      → length (encode_message m) < 65536
      → IsReady mc.sess
      → mc.sess.remote_sequence_index ≡ last % max_ack_value
      → mc.sess.received ≡ []
      → mc.reasm.active ≡ false
      → map RecvItem.bytes (items_after stream last (length frags)) ≡ frags
      → InWindow last arrivals
      → Covers last (length frags) arrivals
      → (recv inflate (record mc { sess = feed_all stream arrivals mc.sess })).1
        ≡ ok (some (record m { ack_seq = (last + length frags) % max_ack_value }))
recv-feed_all inflate stream last arrivals mc m counter v fits ready taken empty quiet carried
      window covers =
    let frags = encode_fragments (encode_message m) counter in
    let (k, delivered) =
      feed_all_complete stream last (length frags) arrivals mc.sess ready taken window covers in
    let after : MessageConn = record mc { sess = feed_all stream arrivals mc.sess } in
    let items = items_after stream last (length frags) in
    let split : after.sess.received ≡ items ++ items_after stream (last + length frags) k =
      delivered
      ∙ ap (λ r. r ++ items_after stream last (length frags + k)) empty
      ∙ (items_after-append stream (length frags) k last) in
    let got = recv-encode_fragments inflate m counter items _ after v fits split carried quiet in
    got.0
    ∙ ap (λ n. ok (some (record m { ack_seq = n }))) (last_ack-fragments stream m counter last)
