-- ===== src/Rudp/Session/Outgoing.antt =====
-- internal/frpg/rudp/session.go: Pump, which advances the timers, retransmits and flushes the queue,
-- and Diag.
use dso.Base.{
  ℕ, zero, suc, ◌+◌, ◌-◌, Bool, true, false, not, ◌&&◌, ltb, ◌==◌, if◌then◌else◌, Option, none,
  some, List, [], ◌∷◌, ◌++◌, length,
}
use dso.Rudp.Sequence.{seq_at_or_before}
use dso.Rudp.Session.{
  closed, is_closing, is_closed, is_established, is_connecting, Session, OutPacket, SessionError,
  died, max_packets_in_flight, max_packets_per_pump, retransmit_interval, retransmit_cycle_interval,
  retransmit_max_attempts, resend_syn_interval, heartbeat_interval, connection_close_timeout,
}
use dso.Rudp.Session.Sending.{
  send_raw, send_syn, send_hbt, reset, start_retransmit, retransmit_hole,
}

-- Drops the packets that are acknowledged.
unfoldable pub trim : ℕ → List OutPacket → List OutPacket
trim acked [] = []
trim acked (op ∷ ops) =
    let kept = trim acked ops in
    if not (seq_at_or_before op.pkt.local acked) then op ∷ kept else kept

-- With no retransmission going on: one starts when the oldest packet has waited too long.
unfoldable pub begin_retransmit : Session → Session
begin_retransmit s = elim s.retransmit_buf [
  | [] ↦ s
  | op ∷ rest ↦
      if ltb retransmit_interval (s.now - op.send_time)
      then (let (s', found) = retransmit_hole s in if not found then start_retransmit op s' else s')
      else s
]

-- With one going on: it ends, is repeated, or has used its attempts up. The flag says that
-- `handleOutgoing` returns at once.
unfoldable pub continue_retransmit : Session → Session × Bool
continue_retransmit s =
    if seq_at_or_before s.retransmit_index s.sequence_index_acked
    then (record s { is_retransmit = false }, false)
    else if not (ltb retransmit_cycle_interval (s.now - s.retransmit_timer))
    then (s, false)
    else let s' = record s {
      retransmit_timer = s.now;
      retransmit_tries = s.retransmit_tries + 1;
    } in
      if ltb retransmit_max_attempts s'.retransmit_tries
      then (record s' { err_state = some died }, true)
      else (send_raw s'.retransmit_pkt s', false)

unfoldable pub retransmit_step : Session → Session × Bool
retransmit_step s =
    if not s.is_retransmit then (begin_retransmit s, false) else continue_retransmit s

unfoldable pub flush_one : OutPacket → List OutPacket → Session → Session
flush_one op rest s = send_raw op.pkt (record s {
  send_queue = rest;
  retransmit_buf = s.retransmit_buf ++ record op { raw_send_time = s.now } ∷ [];
})

-- The send loop; the number is how many of the packets of this pump are left, 8 less `sent`.
unfoldable pub flush : ℕ → Session → Session
unfolding flush_one
flush zero s = s
flush (suc left) s = elim s.send_queue [
  | [] ↦ s
  | op ∷ rest ↦ elim (not s.is_retransmit && ltb (length s.retransmit_buf) max_packets_in_flight) [
    | true ↦ flush left (flush_one op rest s)
    | false ↦ s
  ]
]

unfoldable pub handle_outgoing : Session → Session
handle_outgoing s =
    let (s', returned) =
      retransmit_step
        (record s { retransmit_buf = trim s.sequence_index_acked s.retransmit_buf }) in
    if returned then s' else flush max_packets_per_pump s'

is_empty {ℓ} : {A : Type ℓ} → List A → Bool
is_empty [] = true
is_empty (x ∷ xs) = false

-- A closing session whose queue is empty is closed.
unfoldable pub close_if_drained : Session → Session
unfolding is_empty
close_if_drained s =
    if is_closing s.state && is_empty s.send_queue then record s { state = closed } else s

unfoldable pub beat : Session → Session
beat s =
    if (is_established s.state && s.is_client) && ltb heartbeat_interval (s.now - s.last_heartbeat)
    then record (send_hbt s) { last_heartbeat = s.now }
    else s

unfoldable pub resend_syn : Session → Session
resend_syn s =
    if is_connecting s.state && ltb resend_syn_interval (s.now - s.resend_syn_timer)
    then record (send_syn s) { resend_syn_timer = s.now }
    else s

unfoldable pub close_timed_out : Session → Bool
close_timed_out s =
    not (s.close_timer == 0)
    && (is_closing s.state && ltb connection_close_timeout (s.now - s.close_timer))

unfoldable pub pump_open : Session → Session × Option SessionError
pump_open s =
    if close_timed_out s
    then (record s { state = closed }, none)
    else (handle_outgoing s, (handle_outgoing s).err_state)

unfoldable pub pump_live : Session → Session × Option SessionError
pump_live s =
    let s' = close_if_drained s in
    if is_closed s'.state then (reset s', none) else pump_open (resend_syn (beat s'))

unfoldable pub pump : Session → Session × Option SessionError
pump s = elim s.err_state [ some e ↦ (s, some e) | none ↦ pump_live s ]

-- The snapshot of the transport for logging.
pub record Diag : Type 0 where
  pub retransmitting : Bool
  pub stuck_seq : ℕ
  pub tries : ℕ
  pub max_tries : ℕ
  pub acked : ℕ
  pub pending : ℕ
  pub racks : ℕ
  pub hole_misses : ℕ
  pub unknown_opcodes : ℕ

unfoldable pub diag : Session → Diag
diag s = record {
  retransmitting = s.is_retransmit;
  stuck_seq = s.retransmit_index;
  tries = s.retransmit_tries;
  max_tries = retransmit_max_attempts;
  acked = s.sequence_index_acked;
  pending = length s.retransmit_buf;
  racks = s.rack_count;
  hole_misses = s.hole_misses;
  unknown_opcodes = s.unknown_opcodes;
}
