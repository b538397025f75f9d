-- ===== src/Rudp/Session/Calls.antt =====
-- internal/frpg/rudp/session.go: a session under any sequence of calls of its methods, by an owner
-- who lets the clock run, feeds it any datagrams of bytes, and sends and receives.
use dso.Base.{ℕ, ◌<◌, arith, Bool, List, [], ◌∷◌, All}
use dso.Base.Words.{IsByte}
use dso.Rudp.Sequence.{max_ack_value}
use dso.Rudp.Session.{Session, new_session, with_now}
use dso.Rudp.Session.Sending.{send_raw, receive, send_data, send_data_ack, connect, send_reset}
use dso.Rudp.Session.Incoming.{feed}
use dso.Rudp.Session.Outgoing.{pump}
use dso.Rudp.Session.Bounds.{IsValid, rand_sequence-lt, enqueue-IsValid}
use dso.Rudp.Session.Invariant.{feed-IsValid, pump-IsValid, send_syn-IsValid}

-- One call of a method, or the clock moving to a reading.
pub data Call : Type 0 where
  clock : ℕ → Call
  feed_bytes : (b : List ℕ) → Call
  pump_once : Call
  send_bytes : List ℕ → Call
  answer_bytes : List ℕ → ℕ → Call
  open_connection : Call
  take_received : Call
  abandon : Call

unfoldable pub step : Call → Session → Session
unfolding with_now
step (clock t) s = with_now t s
step (feed_bytes b) s = feed b s
step pump_once s = (pump s).0
step (send_bytes b) s = send_data b s
step (answer_bytes b n) s = send_data_ack b n s
step open_connection s = connect s
step take_received s = (receive s).0
step abandon s = send_reset s

unfoldable pub run : List Call → Session → Session
run [] s = s
run (c ∷ cs) s = run cs (step c s)

-- A datagram holds bytes, and a reply acknowledges a sequence number.
abbrev pub IsCall : Call → Type 0
IsCall (feed_bytes b) = All IsByte b
IsCall (answer_bytes b n) = n < max_ack_value
IsCall _ = Unit

pub step-IsValid : (c : Call) (s : Session) → IsCall c → IsValid s → IsValid (step c s)
unfolding step
step-IsValid (clock t) s h v = ground arith
step-IsValid (feed_bytes b) s h v = feed-IsValid b s h v
step-IsValid pump_once s h v = pump-IsValid s v
step-IsValid (send_bytes b) s h v = unfold send_data in grind (arith, enqueue-IsValid)
step-IsValid (answer_bytes b n) s h v = unfold send_data_ack in grind (arith, enqueue-IsValid)
step-IsValid open_connection s h v = unfold connect in grind (arith, send_syn-IsValid)
step-IsValid take_received s h v = unfold receive in ground arith
step-IsValid abandon s h v = unfold send_reset send_raw in ground arith

run_from-IsValid : (cs : List Call) (s : Session) → All IsCall cs → IsValid s → IsValid (run cs s)
unfolding run
run_from-IsValid [] s h v = v
run_from-IsValid (c ∷ cs) s h v = run_from-IsValid cs (step c s) h.1 (step-IsValid c s h.0 v)

module _ (send : ℕ → List ℕ → Bool → Bool) (random : ℕ → ℕ × ℕ) (now : ℕ) where
  new_session-IsValid :
      (client : Bool) (id : List ℕ) → IsValid (new_session send random now client id [])
  unfolding new_session
  new_session-IsValid client id = grind (arith, rand_sequence-lt)

  -- Whatever a new session goes through (datagrams of any bytes, pumps, sends, replies that
  -- acknowledge a 12-bit number, resets, any clock, any failures of the callback): its four counters
  -- and the pending packets stay 12-bit, at most 32 packets are unacknowledged, more than 160
  -- attempts at one packet mean an error, and the close timer is never started.
  pub run-IsValid :
      (client : Bool) (id : List ℕ) (cs : List Call)
      → All IsCall cs
      → IsValid (run cs (new_session send random now client id []))
  run-IsValid client id cs h = run_from-IsValid cs _ h (new_session-IsValid client id)
