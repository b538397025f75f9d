-- ===== src/Signs/Handlers.antt =====
-- internal/server/game/sign.go: the request handlers of the summon signs.
use dso.Base.{ℕ, Bool, not, ◌==◌, if◌then◌else◌, Option, none, some, List, [], ◌∷◌, ◌++◌, map}
use dso.Base.Words.{u32}
use dso.Base.Result.{err}
use dso.QuickMatch.Store.{contains}
use dso.QuickMatch.Handlers.{ClientSession, session_for_player}
use dso.Signs.Store.{
  Sign, add_sign, get_sign, remove_sign, claim, release, in_cells, remove_owned_by,
}
use dso.Signs.Service.{
  SignInfo, SignData, SummonPush, RejectPush, RemovePush, Outgoing, push_summon, push_reject,
  push_removal, created_response, list_response, empty_response, parse_failed, build_failed,
  Service, Answer, CreateRequest, SignCellInfo, ListRequest, SummonRequest, RejectRequest, push_to,
  tell_aware, respond, mark_found, sign_already_used, sign_has_disappeared,
}

unfoldable pub sign_info : Sign → SignInfo
sign_info sg = record { player_id = sg.owner_id; sign_id = sg.id }

unfoldable pub sign_data : Sign → SignData
unfolding sign_info
sign_data sg = record {
  sign_info = sign_info sg;
  online_area_id = sg.area_id;
  matching_parameter = sg.matching;
  player_struct = sg.player;
  player_psn_id = sg.psn_id;
  cell_id = sg.cell_id;
  sign_type = u32 sg.sign_type;
}

-- The sign that a request places; add gives it its id.
unfoldable pub placed_sign : ClientSession → CreateRequest → Sign
placed_sign cs req = record {
  id = 0;
  owner_id = cs.player_id;
  area_id = req.online_area_id;
  cell_id = req.cell_id;
  sign_type = req.sign_type;
  matching = req.matching_parameter;
  player = req.player_struct;
  psn_id = cs.account_id;
  summoned_by = 0;
  aware_of = [];
}

-- `cs.areaID = …` on the session with this key.
unfoldable pub set_area : ℕ → ℕ → List ClientSession → List ClientSession
set_area key area [] = []
set_area key area (cs ∷ rest) =
    let others = set_area key area rest in
    if cs.key == key then record cs { area_id = area } ∷ others else cs ∷ others

unfoldable pub search_cells : List SignCellInfo → List ℕ
search_cells areas = map SignCellInfo.cell_id areas

unfoldable pub known_signs : List SignCellInfo → List ℕ
known_signs [] = []
known_signs (a ∷ areas) = a.local_signs ++ known_signs areas

-- The signs that the client holds go as SignInfo, the others as SignData.
unfoldable pub split_known : List ℕ → List Sign → List SignInfo × List SignData
split_known known [] = ([], [])
split_known known (sg ∷ found) =
    let (infos, datas) = split_known known found in
    if contains sg.id known then (sign_info sg ∷ infos, datas) else (infos, sign_data sg ∷ datas)

unfoldable pub removal_of : Sign → RemovePush
removal_of sg = record {
  push_message_id = 925;
  player_id = sg.owner_id;
  sign_id = sg.id;
  player_psn_id = sg.psn_id;
}

unfoldable pub rejection_for : ClientSession → ℕ → ℕ → ℕ → RejectPush
rejection_for target owner sign reason = record {
  push_message_id = 924;
  sign_info = record { player_id = owner; sign_id = sign };
  error = reason;
  player_psn_id = target.account_id;
}

unfoldable pub summon_for : ClientSession → SummonRequest → SummonPush
summon_for cs req = record {
  push_message_id = 923;
  player_id = cs.player_id;
  sign_id = req.sign_id;
  player_struct = req.player_struct;
  player_psn_id = cs.account_id;
}

module _ (order : List Sign → List Sign) (marshal : Outgoing → Option (List ℕ)) where
  unfoldable pub push_reject_to : ClientSession → ℕ → ℕ → ℕ → Service → Service
  push_reject_to target owner sign reason s =
      elim (marshal (push_reject (rejection_for target owner sign reason))) [
        | none ↦ s
        | some body ↦ push_to target body s
      ]

  unfoldable pub push_sign_removed : Sign → Service → Service
  push_sign_removed sg s = elim (marshal (push_removal (removal_of sg))) [
    | none ↦ s
    | some body ↦ tell_aware sg.owner_id body sg.aware_of s
  ]

  unfoldable pub push_all_removed : List Sign → Service → Service
  push_all_removed [] s = s
  push_all_removed (sg ∷ sgs) s = push_all_removed sgs (push_sign_removed sg s)

  unfoldable pub drop_signs_for_player : ℕ → Service → Service
  drop_signs_for_player player s =
      let (store, removed) = remove_owned_by order player s.signs in
      push_all_removed removed (record s { signs = store })

  unfoldable pub handle_create_sign : ClientSession → Option CreateRequest → Service → Answer
  handle_create_sign cs none s = (s, err parse_failed)
  handle_create_sign cs (some req) s =
      let (store, id) = add_sign (placed_sign cs req) s.signs in
      respond marshal (created_response id) (record s { signs = store })

  unfoldable pub handle_update_sign : ClientSession → Option ℕ → Service → Answer
  handle_update_sign cs none s = (s, err parse_failed)
  handle_update_sign cs (some sign) s = respond marshal empty_response s

  unfoldable pub handle_remove_sign : ClientSession → Option ℕ → Service → Answer
  handle_remove_sign cs none s = (s, err parse_failed)
  handle_remove_sign cs (some sign) s =
      let (store, removed) = remove_sign sign s.signs in
      let s' = record s { signs = store } in
      respond marshal empty_response
        (elim removed [ none ↦ s' | some sg ↦ push_sign_removed sg s' ])

  unfoldable pub handle_get_sign_list : ClientSession → Option ListRequest → Service → Answer
  handle_get_sign_list cs none s = (s, err parse_failed)
  handle_get_sign_list cs (some req) s =
      let found =
        in_cells order req.online_area_id (search_cells req.search_areas) cs.player_id req.max_signs
          s.signs in
      let (infos, datas) = split_known (known_signs req.search_areas) found in
      respond marshal (list_response infos datas) (record s {
        sessions = set_area cs.key req.online_area_id s.sessions;
        signs = mark_found cs.player_id found s.signs;
      })

  -- What handleSummonSign does with the answer of claim.
  unfoldable pub summon_claimed :
      ClientSession → SummonRequest → Option Sign × Bool → Service → Answer
  summon_claimed cs req (none, claimed) s =
      respond marshal empty_response (push_reject_to cs 0 req.sign_id sign_has_disappeared s)
  summon_claimed cs req (some sg, claimed) s =
      if not claimed
      then respond marshal empty_response
          (push_reject_to cs sg.owner_id req.sign_id sign_already_used s)
      else elim (session_for_player sg.owner_id s.sessions) [
        | none ↦ respond marshal empty_response (
            push_reject_to cs sg.owner_id req.sign_id sign_has_disappeared
              (record s { signs = release req.sign_id s.signs }))
        | some host ↦ elim (marshal (push_summon (summon_for cs req))) [
          | none ↦ (s, err build_failed)
          | some body ↦ respond marshal empty_response (push_to host body s)
        ]
      ]

  unfoldable pub handle_summon_sign : ClientSession → Option SummonRequest → Service → Answer
  handle_summon_sign cs none s = (s, err parse_failed)
  handle_summon_sign cs (some req) s =
      let (store, answer) = claim req.sign_id cs.player_id s.signs in
      summon_claimed cs req answer (record s { signs = store })

  unfoldable pub relay_rejection : Sign → ℕ → ℕ → Service → Service
  relay_rejection sg sign reason s =
      if sg.summoned_by == 0 then s else elim (session_for_player sg.summoned_by s.sessions) [
        | none ↦ s
        | some target ↦ push_reject_to target sg.owner_id sign reason s
      ]

  unfoldable pub handle_reject_sign : ClientSession → Option RejectRequest → Service → Answer
  handle_reject_sign cs none s = (s, err parse_failed)
  handle_reject_sign cs (some req) s =
      let sign = u32 req.sign_id in
      elim (get_sign sign s.signs) [
        | none ↦ respond marshal empty_response s
        | some sg ↦
            respond marshal empty_response
              (relay_rejection sg sign req.error (record s { signs = release sign s.signs }))
      ]
