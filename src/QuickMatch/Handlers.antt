-- ===== src/QuickMatch/Handlers.antt =====
-- internal/server/game/quickmatch.go: the request handlers. A request that Unmarshal refuses is
-- `none`. proto.Marshal is a parameter, which may fail; the bytes pushed to a player's connection are
-- kept in the order of the calls, and the log lines are left out.
use dso.Base.{ℕ, Bool, ◌==◌, if◌then◌else◌, Option, none, some, List, [], ◌∷◌, ◌++◌, map}
use dso.Base.Words.{u32}
use dso.Base.Result.{Result, ok, err}
use dso.Matchmaking.Status.{MatchingParameter}
use dso.QuickMatch.Store.{
  QuickMatch, quick_match_push_id_for, role_join, role_reject, role_remove, put, remove, mark_aware,
  search,
}

-- A session, with the remote address that is its key; the fields that the matching of players reads.
pub record ClientSession : Type 0 where
  pub key : ℕ
  pub player_id : ℕ
  pub account_id : List ℕ
  pub area_id : ℕ

-- The fields that the three pushes have in common.
pub record Push : Type 0 where
  pub push_message_id : ℕ
  pub player_id : ℕ
  pub player_psn_id : List ℕ
  pub online_area_id : ℕ
  pub cell_id : ℕ
  pub mode : ℕ

pub record QuickMatchData : Type 0 where
  pub player_id : ℕ
  pub online_area_id : ℕ
  pub cell_id : ℕ
  pub matching_parameter : Option MatchingParameter
  pub player_psn_id : List ℕ
  pub mode : ℕ

-- What is marshalled: the pushes and the responses. A rejection carries unknown_7 = 0 too.
pub data Outgoing : Type 0 where
  push_join push_reject push_remove : Push → Outgoing
  register_response unregister_response update_response join_response reject_response : Outgoing
  search_response : List QuickMatchData → Outgoing

-- The fields of the requests; player_id is a 64-bit field, cut to 32 bits where it is used.
pub record Request : Type 0 where
  pub online_area_id : ℕ
  pub cell_id : ℕ
  pub mode : ℕ
  pub matching_parameter : Option MatchingParameter
  pub max_results : ℕ
  pub player_id : ℕ

pub data HandlerError : Type 0 where
  parse_failed build_failed marshal_failed : HandlerError

-- A push: the player whose connection it goes to, and the bytes.
abbrev pub Sent : Type 0
Sent = ℕ × List ℕ

pub record Service : Type 0 where
  pub quick_match : List QuickMatch
  pub sessions : List ClientSession
  pub auto_pairs : Bool
  pub sent : List Sent

unfoldable pub to_proto : QuickMatch → QuickMatchData
to_proto m = record {
  player_id = m.player_id;
  online_area_id = m.area_id;
  cell_id = m.cell_id;
  matching_parameter = m.matching;
  player_psn_id = m.psn_id;
  mode = m.mode;
}

unfoldable pub session_for_player : ℕ → List ClientSession → Option ClientSession
session_for_player id [] = none
session_for_player id (cs ∷ rest) =
    let later = session_for_player id rest in if cs.player_id == id then some cs else later

unfoldable pub send_push : ClientSession → List ℕ → Service → Service
send_push target body s = record s { sent = s.sent ++ (target.player_id, body) ∷ [] }

-- The registration that a request makes.
unfoldable pub registration : ClientSession → Request → QuickMatch
registration cs req = record {
  player_id = cs.player_id;
  psn_id = cs.account_id;
  area_id = req.online_area_id;
  cell_id = req.cell_id;
  mode = req.mode;
  matching = req.matching_parameter;
  aware_of = [];
}

unfoldable pub join_push : ClientSession → ℕ → ℕ → ℕ → Push
join_push joiner area cell mode = record {
  push_message_id = quick_match_push_id_for mode role_join;
  player_id = joiner.player_id;
  player_psn_id = joiner.account_id;
  online_area_id = area;
  cell_id = cell;
  mode = mode;
}

-- A round of the loop over the players who saw a registration.
unfoldable pub push_to_one : ℕ → List ℕ → ℕ → Service → Service
push_to_one own body id s = if id == own then s else elim (session_for_player id s.sessions) [
  | none ↦ s
  | some target ↦ send_push target body s
]

unfoldable pub push_to_aware : ℕ → List ℕ → List ℕ → Service → Service
push_to_aware own body [] s = s
push_to_aware own body (id ∷ ids) s = push_to_aware own body ids (push_to_one own body id s)

unfoldable pub mark_all : List QuickMatch → ℕ → List QuickMatch → List QuickMatch
mark_all [] viewer store = store
mark_all (m ∷ found) viewer store = mark_all found viewer (mark_aware m.player_id viewer store)

module _ (order : List QuickMatch → List QuickMatch) (marshal : Outgoing → Option (List ℕ)) where
  unfoldable pub respond : Outgoing → Service → Service × Result HandlerError (List ℕ)
  respond response s =
      (s, elim (marshal response) [ none ↦ err marshal_failed | some bytes ↦ ok bytes ])

  unfoldable pub push_quick_match_rejected : ClientSession → ℕ → ℕ → ℕ → ℕ → Service → Service
  push_quick_match_rejected joiner host area cell mode s =
      let push : Push = record {
        push_message_id = quick_match_push_id_for mode role_reject;
        player_id = host;
        player_psn_id = joiner.account_id;
        online_area_id = area;
        cell_id = cell;
        mode = mode;
      } in
      elim (marshal (push_reject push)) [ none ↦ s | some body ↦ send_push joiner body s ]

  unfoldable pub removal_push : QuickMatch → Push
  removal_push m = record {
    push_message_id = quick_match_push_id_for m.mode role_remove;
    player_id = m.player_id;
    player_psn_id = m.psn_id;
    online_area_id = m.area_id;
    cell_id = m.cell_id;
    mode = m.mode;
  }

  unfoldable pub push_quick_match_removed : QuickMatch → Service → Service
  push_quick_match_removed m s = elim (marshal (push_remove (removal_push m))) [
    | none ↦ s
    | some body ↦ push_to_aware m.player_id body m.aware_of s
  ]

  -- Remove a registration, if there is one, and tell those who saw it.
  unfoldable pub drop_quick_match_for_player : ℕ → Service → Service
  drop_quick_match_for_player id s =
      let (store, removed) = remove id s.quick_match in
      let s' = record s { quick_match = store } in
      elim removed [ none ↦ s' | some m ↦ push_quick_match_removed m s' ]

  unfoldable pub auto_pair : ClientSession → ℕ → ℕ → ℕ → Service → Service
  auto_pair joiner area cell mode s =
      elim (search order area cell mode joiner.player_id 1 s.quick_match) [
        | [] ↦ s
        | waiting ∷ more ↦ elim (session_for_player waiting.player_id s.sessions) [
          | none ↦ s
          | some host ↦ elim (marshal (push_join (join_push joiner area cell mode))) [
            | none ↦ s
            | some body ↦ send_push host body s
          ]
        ]
      ]

  unfoldable pub handle_register_quick_match :
      ClientSession → Option Request → Service → Service × Result HandlerError (List ℕ)
  handle_register_quick_match cs none s = (s, err parse_failed)
  handle_register_quick_match cs (some req) s =
      let s' = record s { quick_match = put (registration cs req) s.quick_match } in
      respond register_response
        (if s'.auto_pairs then auto_pair cs req.online_area_id req.cell_id req.mode s' else s')

  unfoldable pub handle_unregister_quick_match :
      ClientSession → Option Request → Service → Service × Result HandlerError (List ℕ)
  handle_unregister_quick_match cs none s = (s, err parse_failed)
  handle_unregister_quick_match cs (some req) s =
      respond unregister_response (drop_quick_match_for_player cs.player_id s)

  unfoldable pub handle_update_quick_match :
      ClientSession → Option Request → Service → Service × Result HandlerError (List ℕ)
  handle_update_quick_match cs none s = (s, err parse_failed)
  handle_update_quick_match cs (some req) s = respond update_response s

  unfoldable pub handle_search_quick_match :
      ClientSession → Option Request → Service → Service × Result HandlerError (List ℕ)
  handle_search_quick_match cs none s = (s, err parse_failed)
  handle_search_quick_match cs (some req) s =
      let store = put (registration cs req) s.quick_match in
      let found =
        search order req.online_area_id req.cell_id req.mode cs.player_id req.max_results store in
      respond (search_response (map to_proto found))
        (record s { quick_match = mark_all found cs.player_id store })

  unfoldable pub handle_join_quick_match :
      ClientSession → Option Request → Service → Service × Result HandlerError (List ℕ)
  handle_join_quick_match cs none s = (s, err parse_failed)
  handle_join_quick_match cs (some req) s =
      let host_id = u32 req.player_id in
      elim (session_for_player host_id s.sessions) [
        | none ↦
            respond join_response
              (push_quick_match_rejected cs host_id req.online_area_id req.cell_id req.mode s)
        | some host ↦
            elim (marshal (push_join (join_push cs req.online_area_id req.cell_id req.mode))) [
              | none ↦ (s, err build_failed)
              | some body ↦ respond join_response (send_push host body s)
            ]
      ]

  unfoldable pub handle_reject_quick_match :
      ClientSession → Option Request → Service → Service × Result HandlerError (List ℕ)
  handle_reject_quick_match cs none s = (s, err parse_failed)
  handle_reject_quick_match cs (some req) s =
      respond reject_response (elim (session_for_player (u32 req.player_id) s.sessions) [
        | none ↦ s
        | some joiner ↦
            push_quick_match_rejected joiner cs.player_id req.online_area_id req.cell_id req.mode s
      ])
