-- ===== src/Rudp/Connection/Sending.antt =====
-- internal/frpg/rudp/message.go over session.go: the packets that sending a message queues.
use dso.Base.{
  ℕ, suc, ◌+◌, ◌%◌, ◌≡◌, sym, ap, ◌∙◌, arith, Bool, true, false, List, [], ◌∷◌, ◌++◌, map, length,
  append_assoc, append-nil, if◌then◌else◌, ltb, map-append,
}
use dso.Rudp.Sequence.{max_ack_value}
use dso.Rudp.Packet.{Packet, dat, datack}
use dso.Rudp.Session.{Session, OutPacket, is_closing}
use dso.Rudp.Session.Sending.{enqueue, send_data, send_data_ack}
use dso.Rudp.Message.{Message, encode_message}
use dso.Rudp.Fragments.{encode_fragments}
use dso.Rudp.Connection.{MessageConn, send_plain, send_fragments, send_message}

-- DAT packets with the numbers from n on.
unfoldable pub numbered : ℕ → List (List ℕ) → List Packet
numbered n [] = []
numbered n (f ∷ fs) =
    record { opcode = dat; local = n % max_ack_value; remote = 0; payload = f }
    ∷ numbered (n + 1) fs

-- The packets of a message: the first of a reply to a sequence above 0 is a DAT_ACK of it.
unfoldable pub packets : Bool → ℕ → ℕ → List (List ℕ) → List Packet
packets reply ack_seq n [] = []
packets reply ack_seq n (f ∷ fs) =
    (if reply
      then record {
        opcode = if ltb 0 ack_seq then datack else dat;
        local = n % max_ack_value;
        remote = ack_seq;
        payload = f;
      }
      else record { opcode = dat; local = n % max_ack_value; remote = 0; payload = f })
    ∷ numbered (n + 1) fs

-- The packets of a queue, without the times.
abbrev pub queued : Session → List Packet
queued s = map OutPacket.pkt s.send_queue

-- The state goes on to number n, and has queued some more packets.
pub record Queued (n : ℕ) (more : List Packet) (s s' : Session) : Type 0 where
  pub appended : queued s' ≡ queued s ++ more
  pub next_number : s'.sequence_index ≡ n % max_ack_value
  pub still_open : is_closing s'.state ≡ false

-- What `enqueue` makes of an unset packet.
stamped : List ℕ → ℕ → ℕ → Packet
stamped f ack_seq n = record {
  opcode = if ltb 0 ack_seq then datack else dat;
  local = n;
  remote = ack_seq;
  payload = f;
}

enqueue_unset_lem :
    (f : List ℕ) (ack_seq : ℕ) (s : Session)
    → is_closing s.state ≡ false
    → let s' = send_data_ack f ack_seq s in
      (s'.state ≡ s.state)
      × (s'.sequence_index ≡ (s.sequence_index + 1) % max_ack_value)
      × (s'.send_queue
          ≡ s.send_queue
            ++ record {
              pkt = stamped f ack_seq s.sequence_index;
              send_time = s.now;
              raw_send_time = 0;
            }
              ∷ [])
unfolding send_data_ack enqueue stamped
enqueue_unset_lem f ack_seq s h = ground arith

module _ (n : ℕ) (s : Session) (is_open : is_closing s.state ≡ false)
    (number : s.sequence_index ≡ n % max_ack_value) where
  send_data_ack-Queued :
      (f : List ℕ) (ack_seq : ℕ)
      → Queued (n + 1) (stamped f ack_seq (n % max_ack_value) ∷ []) s (send_data_ack f ack_seq s)
  send_data_ack-Queued f ack_seq =
      let (state_same, index, queue) = enqueue_unset_lem f ack_seq s is_open in
      record {
        appended = ap (map OutPacket.pkt) queue ∙ rw (map-append, number);
        next_number = index ∙ (rw number (omega arith));
        still_open = rw state_same is_open;
      }

  send_data-Queued :
      (f : List ℕ)
      → Queued
          (n + 1)
          (record { opcode = dat; local = n % max_ack_value; remote = 0; payload = f } ∷ [])
          s
          (send_data f s)
  unfolding send_data stamped
  send_data-Queued f = unfold send_data_ack in send_data_ack-Queued f 0

Queued-trans :
    (n m : ℕ) (xs ys : List Packet) (s t u : Session)
    → Queued n xs s t
    → Queued m ys t u
    → Queued m (xs ++ ys) s u
Queued-trans n m xs ys s t u p q = record {
  appended = q.appended ∙ ap (λ r. r ++ ys) p.appended ∙ append_assoc (queued s) xs ys;
  next_number = q.next_number;
  still_open = q.still_open;
}

send_plain-Queued :
    (fs : List (List ℕ)) (n : ℕ) (s : Session)
    → is_closing s.state ≡ false
    → s.sequence_index ≡ n % max_ack_value
    → Queued (n + length fs) (numbered n fs) s (send_plain fs s)
unfolding send_plain numbered
send_plain-Queued [] n s h e = record {
  appended = sym (append-nil (queued s));
  next_number = e ∙ ap (λ k. k % max_ack_value) (omega arith);
  still_open = h;
}
send_plain-Queued (f ∷ fs) n s h e =
    let one = send_data-Queued n s h e f in
    let more = send_plain-Queued fs (n + 1) (send_data f s) one.still_open one.next_number in
    let count : n + 1 + length fs ≡ n + suc (length fs) = omega arith in
    rw count at (Queued-trans _ _ _ _ s (send_data f s) _ one more)

-- One packet and then those of `send_plain`.
Queued-plain :
    (p : Packet) (fs : List (List ℕ)) (n : ℕ) (s t : Session)
    → Queued (n + 1) (p ∷ []) s t
    → Queued (n + suc (length fs)) (p ∷ numbered (n + 1) fs) s (send_plain fs t)
Queued-plain p fs n s t one =
    let more = send_plain-Queued fs (n + 1) t one.still_open one.next_number in
    let count : n + 1 + length fs ≡ n + suc (length fs) = omega arith in
    rw count at (Queued-trans _ _ _ _ s t _ one more)

send_fragments-Queued :
    (reply : Bool) (ack_seq : ℕ) (fs : List (List ℕ)) (n : ℕ) (s : Session)
    → is_closing s.state ≡ false
    → s.sequence_index ≡ n % max_ack_value
    → Queued (n + length fs) (packets reply ack_seq n fs) s (send_fragments reply ack_seq fs s)
unfolding send_fragments packets
send_fragments-Queued reply ack_seq [] n s h e = record {
  appended = sym (append-nil (queued s));
  next_number = e ∙ ap (λ k. k % max_ack_value) (omega arith);
  still_open = h;
}
send_fragments-Queued true ack_seq (f ∷ fs) n s h e =
    Queued-plain _ fs n s (send_data_ack f ack_seq s)
      (unfold stamped in send_data_ack-Queued n s h e f ack_seq)
send_fragments-Queued false ack_seq (f ∷ fs) n s h e =
    Queued-plain _ fs n s (send_data f s) (send_data-Queued n s h e f)

-- Sending a message on a session that is not closing, whose next number is n modulo 4096, appends
-- one packet for each fragment to the queue, in order and numbered from n on; the first packet of a
-- reply to a sequence number above 0 is a DAT_ACK of it, and all others are plain DAT packets. The
-- next number is then n plus the number of fragments, and the session is not closing.
pub send_message-Queued :
    (m : Message) (reply : Bool) (ack_seq n : ℕ) (mc : MessageConn)
    → is_closing mc.sess.state ≡ false
    → mc.sess.sequence_index ≡ n % max_ack_value
    → let frags = encode_fragments (encode_message m) mc.counter in
      Queued
        (n + length frags)
        (packets reply ack_seq n frags)
        mc.sess
        (send_message m reply ack_seq mc).sess
unfolding send_message
send_message-Queued m reply ack_seq n mc h e =
    send_fragments-Queued reply ack_seq (encode_fragments (encode_message m) mc.counter) n mc.sess h
      e
