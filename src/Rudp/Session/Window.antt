-- ===== src/Rudp/Session/Window.antt =====
-- internal/frpg/rudp/session.go: what one run of handleOutgoing takes from the queue, and what
-- acknowledgements take from the retransmit buffer.
use Prim.Native.Nat.{min}
use dso.Base.{
  ℕ, zero, suc, ◌-◌, ◌≤◌, ◌≡◌, refl, sym, ap, ◌∙◌, arith, true, false, not, if◌then◌else◌, ◌&&◌,
  List, [], ◌∷◌, ◌++◌, length, take, drop, map, inl, inr, Bool-cases, List-cases, append_assoc,
  append-nil, length-append, ltb,
}
use dso.Rudp.Packet.{Packet}
use dso.Rudp.Session.{Session, OutPacket, max_packets_in_flight, max_packets_per_pump}
use dso.Rudp.Session.Sending.{send_raw, start_retransmit, retransmit_hole}
use dso.Rudp.Session.Outgoing.{
  trim, begin_retransmit, continue_retransmit, retransmit_step, flush_one, flush, handle_outgoing,
}

-- How many packets leave: none during a retransmission, else as many as there are, as the window has
-- room for, and as the pump may send.
quota : ℕ → Session → ℕ
quota left s =
    if s.is_retransmit
    then 0
    else min left (min (max_packets_in_flight - length s.retransmit_buf) (length s.send_queue))

abbrev pub sent_at : ℕ → OutPacket → OutPacket
sent_at now op = record op { raw_send_time = now }

-- `send_raw` touches neither the queue nor what decides how much of it leaves.
record Undisturbed (s s' : Session) : Type 0 where
  queue_kept : s'.send_queue ≡ s.send_queue
  buf_kept : s'.retransmit_buf ≡ s.retransmit_buf
  mode_kept : s'.is_retransmit ≡ s.is_retransmit
  now_kept : s'.now ≡ s.now

send_raw-Undisturbed : (p : Packet) (s : Session) → Undisturbed s (send_raw p s)
unfolding send_raw
send_raw-Undisturbed p s = ground arith

flush_one_lem :
    (op : OutPacket) (rest : List OutPacket) (s : Session)
    → let s' = flush_one op rest s in
      (s'.send_queue ≡ rest)
      × (s'.retransmit_buf ≡ s.retransmit_buf ++ sent_at s.now op ∷ [])
      × (s'.is_retransmit ≡ s.is_retransmit)
      × (s'.now ≡ s.now)
unfolding flush_one
flush_one_lem op rest s = grind (arith, send_raw-Undisturbed)

pub record Flushed (n : ℕ) (s s' : Session) : Type 0 where
  pub queue_left : s'.send_queue ≡ drop n s.send_queue
  pub buffered : s'.retransmit_buf ≡ s.retransmit_buf ++ map (sent_at s.now) (take n s.send_queue)
  pub mode_left : s'.is_retransmit ≡ s.is_retransmit

flush_none : (s : Session) (t : Session) → t ≡ s → Flushed 0 s t
flush_none s t e =
    rw e
      (record { queue_left = refl; buffered = sym (append-nil s.retransmit_buf); mode_left = refl })

-- One packet leaves, and then n more.
flush_more :
    (op : OutPacket) (rest : List OutPacket) (n : ℕ) (s t : Session)
    → s.send_queue ≡ op ∷ rest
    → Flushed n (flush_one op rest s) t
    → Flushed (suc n) s t
flush_more op rest n s t e f =
    let (q, b, m, w) = flush_one_lem op rest s in
    rw e (record {
      queue_left = f.queue_left ∙ ap (drop n) q;
      buffered =
          f.buffered ∙ rw (q, b, w) (append_assoc s.retransmit_buf (sent_at s.now op ∷ []) _);
      mode_left = f.mode_left ∙ m;
    })

module _ (left : ℕ) (s : Session) where
  flush-nil : s.send_queue ≡ [] → flush (suc left) s ≡ s
  unfolding flush
  flush-nil e = ground arith

  flush-shut :
      (not s.is_retransmit && ltb (length s.retransmit_buf) max_packets_in_flight) ≡ false
      → flush (suc left) s ≡ s
  unfolding flush
  flush-shut e = ground arith

  flush-open :
      (op : OutPacket) (rest : List OutPacket)
      → s.send_queue ≡ op ∷ rest
      → (not s.is_retransmit && ltb (length s.retransmit_buf) max_packets_in_flight) ≡ true
      → flush (suc left) s ≡ flush left (flush_one op rest s)
  unfolding flush
  flush-open op rest e ready = ground arith

quota_more :
    (left : ℕ) (s : Session) (op : OutPacket) (rest : List OutPacket)
    → s.send_queue ≡ op ∷ rest
    → (not s.is_retransmit && ltb (length s.retransmit_buf) max_packets_in_flight) ≡ true
    → suc (quota left (flush_one op rest s)) ≡ quota (suc left) s
unfolding quota
quota_more left s op rest e ready =
    let f = flush_one_lem op rest s in
    ground (
      arith,
      f,
      ap {B = ℕ} length f.0,
      ap {B = ℕ} length f.1,
      ap {B = ℕ} length e,
      length-append s.retransmit_buf (sent_at s.now op ∷ []),
    )

-- `flush` moves the first packets of the queue behind the retransmit buffer, `quota` of them.
flush-Flushed : (left : ℕ) (s : Session) → (n : ℕ) × (n ≡ quota left s) × Flushed n s (flush left s)
unfolding quota
flush-Flushed zero s = (0, ground arith, flush_none s _ (unfold flush in refl))
flush-Flushed (suc left) s = elim (List-cases s.send_queue) [
  | inl e ↦ (0, rw e (ground arith), flush_none s _ (flush-nil left s e))
  | inr (op, rest, e) ↦
      elim (Bool-cases
        (not s.is_retransmit && ltb (length s.retransmit_buf) max_packets_in_flight)) [
          | inl ready ↦
              let (n, exact, f) = flush-Flushed left (flush_one op rest s) in
              (
                suc n,
                ap suc exact ∙ quota_more left s op rest e ready,
                rw (flush-open left s op rest e ready) (flush_more op rest n s _ e f),
              )
          | inr shut ↦ (0, ground arith, flush_none s _ (flush-shut left s shut))
        ]
]

start_retransmit_kept :
    (op : OutPacket) (s : Session)
    → let s' = start_retransmit op s in
      (s'.send_queue ≡ s.send_queue) × (s'.retransmit_buf ≡ s.retransmit_buf) × (s'.now ≡ s.now)
unfolding start_retransmit
start_retransmit_kept op s = grind (arith, send_raw-Undisturbed)

retransmit_step_kept :
    (s : Session)
    → let s' = (retransmit_step s).0 in
      (s'.send_queue ≡ s.send_queue) × (s'.retransmit_buf ≡ s.retransmit_buf) × (s'.now ≡ s.now)
unfolding retransmit_step begin_retransmit continue_retransmit retransmit_hole
retransmit_step_kept s = grind (arith, start_retransmit_kept, send_raw-Undisturbed)

-- One run of handleOutgoing drops the acknowledged packets from the retransmit buffer and moves the
-- first n packets of the queue behind what is left, in order and stamped with the time, for some n
-- of at most 8; nothing else is lost or added. If a retransmission is going on at the end, n is 0.
pub handle_outgoing_fifo :
    (s : Session)
    → let s' = handle_outgoing s in
      (n : ℕ) × (n ≤ max_packets_per_pump)
      × (s'.send_queue ≡ drop n s.send_queue)
      × (s'.retransmit_buf
          ≡ trim s.sequence_index_acked s.retransmit_buf
            ++ map (sent_at s.now) (take n s.send_queue))
      × (s'.is_retransmit ≡ true → n ≡ 0)
unfolding handle_outgoing quota
handle_outgoing_fifo s = elim (Bool-cases (retransmit_step trimmed).1) [
  | inl returned ↦ rw returned (0, omega arith, k.0, k.1 ∙ sym (append-nil _), λ _. refl)
  | inr goes_on ↦
      let (n, exact, f) = flush-Flushed max_packets_per_pump (retransmit_step trimmed).0 in
      rw goes_on (
        n,
        ground (arith, exact),
        f.queue_left ∙ ap (drop n) k.0,
        f.buffered ∙ rw (k.0, k.1, k.2),
        λ busy. ground (arith, exact, f.mode_left),
      )
]
  where
    trimmed : Session
    trimmed = record s { retransmit_buf = trim s.sequence_index_acked s.retransmit_buf }

    k :
        let s' = (retransmit_step trimmed).0 in
        (s'.send_queue ≡ trimmed.send_queue)
        × (s'.retransmit_buf ≡ trimmed.retransmit_buf)
        × (s'.now ≡ trimmed.now)
    k = retransmit_step_kept trimmed
