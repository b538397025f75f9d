-- ===== src/BreakIn/State.antt =====
-- internal/server/game/breakin.go: the sessions, the requests and what is sent.
use dso.Base.{ℕ, Bool, Option, List}
use dso.Base.Result.{Result}
use dso.Matchmaking.Status.{MatchingParameter}
use dso.Matchmaking.Profile.{MatchProfile}

abbrev pub min_sin_for_blue_orb : ℕ
min_sin_for_blue_orb = 10

-- The enum BreakInType. A value of an enum or another int32 is written as the 32 bits of its two's
-- complement.
abbrev pub blue_eye_orb : ℕ
blue_eye_orb = 2

abbrev pub debug_phantom_target_id : ℕ
debug_phantom_target_id = 1

abbrev pub break_in_push_base : ℕ
break_in_push_base = 0x03B9

abbrev pub break_in_role_target : ℕ
break_in_role_target = 0

abbrev pub break_in_role_reject : ℕ
break_in_role_reject = 1

pub record PlayerSession : Type 0 where
  pub key : ℕ
  pub player_id : ℕ
  pub account_id : List ℕ
  pub area_id : ℕ
  pub profile : MatchProfile
  pub break_in_type : ℕ

pub record TargetData : Type 0 where
  pub player_id : ℕ
  pub psn_id : List ℕ

pub record TargetPush : Type 0 where
  pub push_message_id : ℕ
  pub player_id : ℕ
  pub psn_id : List ℕ
  pub break_in_type : ℕ
  pub online_area_id : ℕ
  pub cell_id : ℕ

-- It carries two zero fields too.
pub record RejectionPush : Type 0 where
  pub push_message_id : ℕ
  pub player_id : ℕ
  pub psn_id : List ℕ

pub data Marshalled : Type 0 where
  target_push : TargetPush → Marshalled
  rejection_push : RejectionPush → Marshalled
  target_list : ℕ → ℕ → List TargetData → Marshalled
  no_fields_response : Marshalled

pub data Failure : Type 0 where
  parse_failed build_failed marshal_failed : Failure

-- The configuration and the state that the handlers read and write. The override is an int of the
-- configuration, written as the 64 bits of its two's complement.
pub record World : Type 0 where
  pub filtering : Bool
  pub force_reject : Bool
  pub reject_push_override : ℕ
  pub sessions : List PlayerSession
  pub sent : List (ℕ × List ℕ)

abbrev pub Reply : Type 0
Reply = World × Result Failure (List ℕ)

pub record TargetListRequest : Type 0 where
  pub online_area_id : ℕ
  pub cell_id : ℕ
  pub max_targets : ℕ
  pub matching_parameter : Option MatchingParameter
  pub break_in_type : ℕ

pub record TargetRequest : Type 0 where
  pub online_area_id : ℕ
  pub cell_id : ℕ
  pub player_id : ℕ
  pub break_in_type : ℕ
