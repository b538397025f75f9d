-- ===== src/Rudp/Connection/Receiving.antt =====
-- internal/frpg/rudp/message.go: what Recv of MessageConn returns, and when it stops.
use dso.Base.{
  ℕ, zero, suc, ◌-◌, ◌≤◌, ◌<◌, ◌≡◌, refl, ap, ◌∙◌, arith, inl, inr, false, Option, none, some,
  Option-cases, List-cases, List, [], ◌∷◌, ◌++◌, map, length, length-append,
}
use dso.Base.Result.{Result, ok, err, Result-cases}
use dso.Rudp.Session.{RecvItem}
use dso.Rudp.Session.Sending.{receive}
use dso.Rudp.Message.{
  Message, MessageError, IsMessage, encode_message, decode_message, decode_message-encode_message,
}
use dso.Rudp.Fragments.{
  FragmentError, Reassembler, Answer, idle, encode_fragments, fragment_count, push, push_all,
}
use dso.Rudp.Fragments.RoundTrip.{answers, push_all-encode_fragments}
use dso.Rudp.Connection.{MessageConn, Incoming, bad_fragment, finish, recv_loop, recv}

-- The sequence number of the last item.
abbrev pub last_ack : List RecvItem → ℕ
last_ack [] = 0
last_ack (x ∷ []) = x.ack_seq
last_ack (x ∷ y ∷ xs) = last_ack (y ∷ xs)

module _ (inflate : List ℕ → Option (List ℕ)) where
  recv_loop_nil :
      (fuel : ℕ) (mc : MessageConn)
      → mc.sess.received ≡ []
      → recv_loop inflate (suc fuel) mc ≡ (mc, ok none)
  unfolding recv_loop
  recv_loop_nil fuel mc e = ground arith

  abbrev after : RecvItem → MessageConn → MessageConn
  after item mc = record mc {
    sess = (receive mc.sess).0;
    reasm = (push inflate item.bytes mc.reasm).0;
  }

  module _ (fuel : ℕ) (mc : MessageConn) (item : RecvItem) (rest : List RecvItem)
      (e : mc.sess.received ≡ item ∷ rest) where
    received-after : (after item mc).sess.received ≡ rest
    unfolding receive
    received-after = ground arith

    recv_loop-none :
        (push inflate item.bytes mc.reasm).1 ≡ ok none
        → recv_loop inflate (suc fuel) mc ≡ recv_loop inflate fuel (after item mc)
    unfolding recv_loop
    recv_loop-none h = ground arith

    recv_loop-some :
        (payload : List ℕ)
        → (push inflate item.bytes mc.reasm).1 ≡ ok (some payload)
        → recv_loop inflate (suc fuel) mc
          ≡ (after item mc, finish (decode_message payload item.ack_seq))
    unfolding recv_loop
    recv_loop-some payload h = ground arith

    recv_loop_err :
        (x : FragmentError)
        → (push inflate item.bytes mc.reasm).1 ≡ err x
        → (recv_loop inflate (suc fuel) mc).1 ≡ err (bad_fragment x)
    unfolding recv_loop
    recv_loop_err x h = ground arith

  finish-ne-none : (r : Result MessageError Message) → finish r ≡ ok none → ⊥
  finish-ne-none (ok m) e = cc
  finish-ne-none (err x) e = cc

  push_all_uncons :
      (frag : List ℕ) (frags : List (List ℕ)) (r : Reassembler) {z : Reassembler} {a : Answer}
      {more : List Answer}
      → push_all inflate (frag ∷ frags) r ≡ (z, a ∷ more)
      → ((push inflate frag r).1 ≡ a) × (push_all inflate frags (push inflate frag r).0 ≡ (z, more))
  unfolding push_all
  push_all_uncons frag frags r e = (cc (ap (λ t. t.1) e), ground arith)

  push_all_short :
      (r : Reassembler) {z : Reassembler} {a : Answer} {more : List Answer}
      → push_all inflate [] r ≡ (z, a ∷ more)
      → ⊥
  unfolding push_all
  push_all_short r e = cc (ap {B = List Answer} (λ t. t.1) e)

  push_all_long :
      (frag : List ℕ) (frags : List (List ℕ)) (r : Reassembler) {z : Reassembler}
      → push_all inflate (frag ∷ frags) r ≡ (z, [])
      → ⊥
  unfolding push_all
  push_all_long frag frags r e = cc (ap {B = List Answer} (λ t. t.1) e)

  -- What the session holds is used up to the last fragment, and the message is decoded.
  record Complete (payload : List ℕ) (ack_seq : ℕ) (rest : List RecvItem)
      (out : MessageConn × Incoming) : Type 0 where
    answer : out.1 ≡ finish (decode_message payload ack_seq)
    left : out.0.sess.received ≡ rest
    fresh : out.0.reasm ≡ idle

  last_ack_tail :
      (payload : List ℕ) (k : ℕ) (x : RecvItem) (xs : List RecvItem) (r : Reassembler)
      {z : Reassembler}
      → push_all inflate (map RecvItem.bytes xs) r ≡ (z, answers payload k)
      → last_ack (x ∷ xs) ≡ last_ack xs
  last_ack_tail payload zero x [] r p = absurd (push_all_short r p)
  last_ack_tail payload (suc k) x [] r p = absurd (push_all_short r p)
  last_ack_tail payload k x (y ∷ ys) r p = refl

  recv_loop-fragments :
      (payload : List ℕ) (k : ℕ) (items rest : List RecvItem) (fuel : ℕ) (mc : MessageConn)
      → mc.sess.received ≡ items ++ rest
      → length items ≤ fuel
      → push_all inflate (map RecvItem.bytes items) mc.reasm ≡ (idle, answers payload k)
      → Complete payload (last_ack items) rest (recv_loop inflate fuel mc)
  recv_loop-fragments payload zero [] rest fuel mc e enough p = absurd (push_all_short mc.reasm p)
  recv_loop-fragments payload (suc k) [] rest fuel mc e enough p =
      absurd (push_all_short mc.reasm p)
  recv_loop-fragments payload k (x ∷ xs) rest zero mc e enough p = absurd (omega arith)
  recv_loop-fragments payload zero (x ∷ []) rest (suc fuel) mc e enough p =
      let (now, later) = push_all_uncons x.bytes [] mc.reasm p in
      rw (recv_loop-some fuel mc x rest e payload now) (record {
        answer = refl;
        left = received-after fuel mc x rest e;
        fresh = unfold push_all in ap (λ t. t.0) later;
      })
  recv_loop-fragments payload zero (x ∷ y ∷ xs) rest (suc fuel) mc e enough p =
      absurd
        (push_all_long y.bytes (map RecvItem.bytes xs) _ ((push_all_uncons x.bytes _ mc.reasm p).1))
  recv_loop-fragments payload (suc k) (x ∷ xs) rest (suc fuel) mc e enough p =
      let (now, later) = push_all_uncons x.bytes (map RecvItem.bytes xs) mc.reasm p in
      rw (recv_loop-none fuel mc x (xs ++ rest) e now, last_ack_tail payload k x xs _ later)
        (recv_loop-fragments payload k xs rest fuel (after x mc)
          (received-after fuel mc x (xs ++ rest) e) (omega arith) later)

  -- If the session hands out first, in order, the fragments of a message that is 32-bit, a reply
  -- exactly if its type is 0 and shorter than 65536 bytes when encoded, and the reassembler is not in
  -- the middle of another, then Recv returns this message, with the sequence number of the last
  -- fragment to acknowledge; it leaves what follows with the session, and the reassembler as new.
  pub recv-encode_fragments :
      (m : Message) (counter : ℕ) (items rest : List RecvItem) (mc : MessageConn)
      → IsMessage m
      → length (encode_message m) < 65536
      → mc.sess.received ≡ items ++ rest
      → map RecvItem.bytes items ≡ encode_fragments (encode_message m) counter
      → mc.reasm.active ≡ false
      → let (mc', answer) = recv inflate mc in
        (answer ≡ ok (some (record m { ack_seq = last_ack items })))
        × (mc'.sess.received ≡ rest)
        × (mc'.reasm ≡ idle)
  unfolding recv
  recv-encode_fragments m counter items rest mc v fits e frags quiet =
      let bytes = encode_message m in
      let pushed : push_all inflate (map RecvItem.bytes items) mc.reasm
          ≡ (idle, answers bytes (fragment_count bytes - 1)) =
        rw frags (push_all-encode_fragments inflate bytes counter fits mc.reasm quiet) in
      let enough : length items ≤ suc (length mc.sess.received) =
        omega (arith, ap {B = ℕ} length e, length-append items rest) in
      let c = recv_loop-fragments bytes _ items rest _ mc e enough pushed in
      (c.answer ∙ ap finish (decode_message-encode_message m (last_ack items) v), c.left, c.fresh)

  recv_loop_drained :
      (fuel : ℕ) (mc : MessageConn)
      → length mc.sess.received < fuel
      → (recv_loop inflate fuel mc).1 ≡ ok none
      → (recv_loop inflate fuel mc).0.sess.received ≡ []
  recv_loop_drained zero mc h e = absurd (omega arith)
  recv_loop_drained (suc fuel) mc h e = elim (List-cases mc.sess.received) [
    | inl nil ↦ rw (recv_loop_nil fuel mc nil) nil
    | inr (item, rest, cons) ↦ elim (Result-cases (push inflate item.bytes mc.reasm).1) [
      | inl (x, bad) ↦ cc (e, recv_loop_err fuel mc item rest cons x bad)
      | inr (answer, good) ↦ elim (Option-cases answer) [
        | inl none_yet ↦
            let step = recv_loop-none fuel mc item rest cons (good ∙ ap ok none_yet) in
            let shorter : length (after item mc).sess.received < fuel = omega (
              arith,
              ap {B = ℕ} length cons,
              ap {B = ℕ} length (received-after fuel mc item rest cons),
            ) in
            rw step (recv_loop_drained fuel (after item mc) shorter (rw step at e))
        | inr (payload, whole) ↦
            let step = recv_loop-some fuel mc item rest cons payload (good ∙ ap ok whole) in
            absurd (finish-ne-none (decode_message payload item.ack_seq) (rw step at e))
      ]
    ]
  ]

  -- Recv says that no message is ready only when it has taken every payload that the session holds:
  -- the loop never stops early, and always ends.
  pub recv-none_drained :
      (mc : MessageConn) → (recv inflate mc).1 ≡ ok none → (recv inflate mc).0.sess.received ≡ []
  unfolding recv
  recv-none_drained mc e = recv_loop_drained _ mc (omega arith) e
