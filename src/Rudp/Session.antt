-- ===== src/Rudp/Session.antt =====
-- internal/frpg/rudp/session.go: the state of a connection, and its construction.
-- `Session/Sending` has the send side, `Session/Incoming` the handlers, `Session/Outgoing` the pump.
--
-- A time is a number of nanoseconds since Go's zero time, so `t.IsZero()` is `t == 0`; a duration that
-- would be negative is 0, which no interval is below. The field `now` is the reading of the clock
-- during an operation. The callback `send` and crypto/rand are not of this repository: `send n b c`
-- says whether the n-th call fails, on these bytes and this flag, and `random n` is what the n-th
-- draw reads; `attempts` and `draws` count the calls, and `wire` holds what was sent without error.
pub mod Sending
pub mod Incoming
pub mod Outgoing
pub mod Bounds
pub mod Invariant
pub mod Calls
pub mod Window
pub mod Acks
use Prim.Native.Nat.{bit_or}
use dso.Base.{
  ℕ, ◌+◌, ◌-◌, ◌*◌, ◌/◌, ◌%◌, ◌<◌, ◌≡◌, arith, Bool, true, false, not, ◌&&◌, ◌||◌, ltb, ◌==◌,
  if◌then◌else◌, Option, none, some, List, [], ◌∷◌, ◌++◌, length,
}
use mathlib.Core.List.{foldl}
use dso.Rudp.Sequence.{max_ack_value}
use dso.Rudp.Packet.{
  OpCode, unset, syn, dat, ack, datack, finack, hbt, rst, is_sequenced, Packet, encode, PacketError,
  initial_data, syn_payload,
}

pub data State : Type 0 where
  listening syn_received established closing closed connecting : State

abbrev pub is_listening : State → Bool
is_listening listening = true
is_listening _ = false

abbrev pub is_syn_received : State → Bool
is_syn_received syn_received = true
is_syn_received _ = false

abbrev pub is_established : State → Bool
is_established established = true
is_established _ = false

abbrev pub is_closing : State → Bool
is_closing closing = true
is_closing _ = false

abbrev pub is_closed : State → Bool
is_closed closed = true
is_closed _ = false

abbrev pub is_connecting : State → Bool
is_connecting connecting = true
is_connecting _ = false

abbrev pub max_packets_in_flight : ℕ
max_packets_in_flight = 32

abbrev pub max_packets_per_pump : ℕ
max_packets_per_pump = 8

-- time.Millisecond
abbrev pub millisecond : ℕ
millisecond = 1000000

abbrev pub retransmit_interval : ℕ
retransmit_interval = 1000 * millisecond

abbrev pub retransmit_cycle_interval : ℕ
retransmit_cycle_interval = 200 * millisecond

abbrev pub retransmit_max_attempts : ℕ
retransmit_max_attempts = 160

abbrev pub resend_syn_interval : ℕ
resend_syn_interval = 500 * millisecond

abbrev pub min_time_between_resend_ack : ℕ
min_time_between_resend_ack = 150 * millisecond

abbrev pub heartbeat_interval : ℕ
heartbeat_interval = 5000 * millisecond

abbrev pub connection_close_timeout : ℕ
connection_close_timeout = 5000 * millisecond

pub record OutPacket : Type 0 where
  pub pkt : Packet
  pub send_time : ℕ
  pub raw_send_time : ℕ

-- A delivered payload with the sequence number that a reply acknowledges.
pub record RecvItem : Type 0 where
  pub bytes : List ℕ
  pub ack_seq : ℕ

pub data SessionError : Type 0 where
  bad_packet : PacketError → SessionError
  send_failed died : SessionError

pub record Session : Type 0 where
  pub is_client : Bool
  pub psn_id : List ℕ
  pub send : ℕ → List ℕ → Bool → Bool
  pub random : ℕ → ℕ × ℕ
  pub now : ℕ
  pub attempts : ℕ
  pub draws : ℕ
  pub wire : List (List ℕ × Bool)
  pub state : State
  pub sequence_index : ℕ
  pub sequence_index_acked : ℕ
  pub remote_sequence_index : ℕ
  pub remote_sequence_index_acked : ℕ
  pub pending_receive : List Packet
  pub received : List RecvItem
  pub send_queue : List OutPacket
  pub retransmit_buf : List OutPacket
  pub is_retransmit : Bool
  pub retransmit_index : ℕ
  pub retransmit_timer : ℕ
  pub retransmit_tries : ℕ
  pub rack_count : ℕ
  pub hole_misses : ℕ
  pub unknown_opcodes : ℕ
  pub retransmit_pkt : Packet
  pub last_packet_received : ℕ
  pub last_ack_send : ℕ
  pub last_heartbeat : ℕ
  pub resend_syn_timer : ℕ
  pub close_timer : ℕ
  pub err_state : Option SessionError

abbrev zero_packet : Packet
zero_packet = record { opcode = unset; local = 0; remote = 0; payload = [] }

-- The two random bytes, low byte first.
unfoldable pub rand_sequence : ℕ × ℕ → ℕ
rand_sequence (b0, b1) = bit_or b0 (b1 * 256) % max_ack_value

unfoldable pub with_initial_sequence : ℕ → Session → Session
with_initial_sequence v s = record s { sequence_index = v % max_ack_value }

unfoldable pub with_now : ℕ → Session → Session
with_now t s = record s { now = t }

module _ (send : ℕ → List ℕ → Bool → Bool) (random : ℕ → ℕ × ℕ) (now : ℕ) where
  -- The options are applied in turn to the zero state with a random initial sequence.
  unfoldable pub new_session : Bool → List ℕ → List (Session → Session) → Session
  unfolding rand_sequence
  new_session is_client psn_id opts =
      foldl (λ s o. o s)
        (record {
          is_client = is_client;
          psn_id = psn_id;
          send = send;
          random = random;
          now = now;
          attempts = 0;
          draws = 1;
          wire = [];
          state = listening;
          sequence_index = rand_sequence (random 0);
          sequence_index_acked = 0;
          remote_sequence_index = 0;
          remote_sequence_index_acked = 0;
          pending_receive = [];
          received = [];
          send_queue = [];
          retransmit_buf = [];
          is_retransmit = false;
          retransmit_index = 0;
          retransmit_timer = 0;
          retransmit_tries = 0;
          rack_count = 0;
          hole_misses = 0;
          unknown_opcodes = 0;
          retransmit_pkt = zero_packet;
          last_packet_received = 0;
          last_ack_send = 0;
          last_heartbeat = 0;
          resend_syn_timer = 0;
          close_timer = 0;
          err_state = none;
        })
        opts

  unfoldable pub new_server_session : List (Session → Session) → Session
  unfolding new_session
  new_server_session opts = new_session false [] opts

  unfoldable pub new_client_session : List ℕ → List (Session → Session) → Session
  unfolding new_session
  new_client_session psn_id opts = new_session true psn_id opts
