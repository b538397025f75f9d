-- ===== src/Signs/Service.antt =====
-- internal/server/game/sign.go and internal/server/game/mirrorknight.go: the state of the two sign
-- systems, what they send, and the pushes to those who saw a sign.
--
-- A request that Unmarshal refuses is `none`. proto.Marshal is a parameter, which may fail; the bytes
-- pushed to a player's connection are kept in the order of the calls, and log lines are left out.
use dso.Base.{ℕ, ◌==◌, if◌then◌else◌, Option, none, some, List, [], ◌∷◌, ◌++◌}
use dso.Base.Result.{Result, ok, err}
use dso.Matchmaking.Status.{MatchingParameter}
use dso.QuickMatch.Handlers.{ClientSession, session_for_player, Sent}
use dso.Signs.Store.{Sign, SignStore, mark_sign_aware}

-- The enum SummonErrorId; other values can arrive in a rejection.
abbrev pub sign_already_used : ℕ
sign_already_used = 1

abbrev pub sign_has_disappeared : ℕ
sign_has_disappeared = 2

pub record SignInfo : Type 0 where
  pub player_id : ℕ
  pub sign_id : ℕ

-- The sign type is an enum, an int32: as everywhere, it is written as the 32 bits of its two's
-- complement, to which the conversion from uint32 cuts a number.
pub record SignData : Type 0 where
  pub sign_info : SignInfo
  pub online_area_id : ℕ
  pub matching_parameter : Option MatchingParameter
  pub player_struct : List ℕ
  pub player_psn_id : List ℕ
  pub cell_id : ℕ
  pub sign_type : ℕ

pub record SummonPush : Type 0 where
  pub push_message_id : ℕ
  pub player_id : ℕ
  pub sign_id : ℕ
  pub player_struct : List ℕ
  pub player_psn_id : List ℕ

pub record RejectPush : Type 0 where
  pub push_message_id : ℕ
  pub sign_info : SignInfo
  pub error : ℕ
  pub player_psn_id : List ℕ

pub record RemovePush : Type 0 where
  pub push_message_id : ℕ
  pub player_id : ℕ
  pub sign_id : ℕ
  pub player_psn_id : List ℕ

-- What is marshalled, with a constructor for each message type of the two systems. The responses
-- without fields differ in their type only, which is not sent.
pub data Outgoing : Type 0 where
  push_summon : SummonPush → Outgoing
  push_reject : RejectPush → Outgoing
  push_removal : RemovePush → Outgoing
  push_mirror_summon : SummonPush → Outgoing
  push_mirror_reject : RejectPush → Outgoing
  push_mirror_removal : RemovePush → Outgoing
  created_response : ℕ → Outgoing
  mirror_knight_created_response : ℕ → Outgoing
  list_response : List SignInfo → List SignData → Outgoing
  mirror_knight_list_response : List SignData → Outgoing
  empty_response : Outgoing

pub data HandlerError : Type 0 where
  parse_failed build_failed marshal_failed : HandlerError

-- The part of the game service that the two systems read and write.
pub record Service : Type 0 where
  pub signs : SignStore
  pub mirror_knight : SignStore
  pub sessions : List ClientSession
  pub sent : List Sent

abbrev pub Answer : Type 0
Answer = Service × Result HandlerError (List ℕ)

-- The fields of the requests. The rejections carry a 64-bit sign id, cut to 32 bits where it is used.
pub record CreateRequest : Type 0 where
  pub online_area_id : ℕ
  pub cell_id : ℕ
  pub sign_type : ℕ
  pub matching_parameter : Option MatchingParameter
  pub player_struct : List ℕ

pub record SignCellInfo : Type 0 where
  pub cell_id : ℕ
  pub local_signs : List ℕ

pub record ListRequest : Type 0 where
  pub online_area_id : ℕ
  pub search_areas : List SignCellInfo
  pub max_signs : ℕ

pub record SummonRequest : Type 0 where
  pub sign_id : ℕ
  pub player_struct : List ℕ

pub record RejectRequest : Type 0 where
  pub sign_id : ℕ
  pub error : ℕ

unfoldable pub push_to : ClientSession → List ℕ → Service → Service
push_to target body s = record s { sent = s.sent ++ (target.player_id, body) ∷ [] }

-- A round of the loop over the players who saw a sign.
unfoldable pub tell_one : ℕ → List ℕ → ℕ → Service → Service
tell_one own body id s =
    if id == own
    then s
    else elim (session_for_player id s.sessions) [ none ↦ s | some target ↦ push_to target body s ]

unfoldable pub tell_aware : ℕ → List ℕ → List ℕ → Service → Service
tell_aware own body [] s = s
tell_aware own body (id ∷ ids) s = tell_aware own body ids (tell_one own body id s)

unfoldable pub respond : (Outgoing → Option (List ℕ)) → Outgoing → Service → Answer
respond marshal response s =
    (s, elim (marshal response) [ none ↦ err marshal_failed | some bytes ↦ ok bytes ])

-- The listing marks the viewer at each sign found.
unfoldable pub mark_found : ℕ → List Sign → SignStore → SignStore
mark_found viewer [] store = store
mark_found viewer (sg ∷ found) store = mark_found viewer found (mark_sign_aware sg.id viewer store)
