-- ===== src/Signs/MirrorKnight.antt =====
-- internal/server/game/mirrorknight.go: the request handlers of the arena signs, which have no place
-- and are listed without SignInfo. handleNotifyMirrorKnight only logs and is left out.
use dso.Base.{ℕ, not, ◌==◌, if◌then◌else◌, Bool, Option, none, some, List, [], ◌∷◌, map}
use dso.Base.Words.{u32}
use dso.Base.Result.{err}
use dso.Matchmaking.Status.{MatchingParameter}
use dso.QuickMatch.Handlers.{ClientSession, session_for_player}
use dso.Signs.Store.{
  Sign, add_sign, get_sign, remove_sign, claim, release, all_signs, remove_owned_by,
}
use dso.Signs.Service.{
  SignData, SummonPush, RejectPush, RemovePush, Outgoing, push_mirror_summon, push_mirror_reject,
  push_mirror_removal, mirror_knight_created_response, mirror_knight_list_response, empty_response,
  parse_failed, build_failed, Service, Answer, SummonRequest, RejectRequest, push_to, tell_aware,
  respond, mark_found, sign_already_used, sign_has_disappeared,
}

-- `character` is the field data of the request.
pub record ArenaRequest : Type 0 where
  pub matching_parameter : Option MatchingParameter
  pub character : List ℕ

unfoldable pub mirror_knight_data : Sign → SignData
mirror_knight_data sg = record {
  sign_info = record { player_id = sg.owner_id; sign_id = sg.id };
  online_area_id = 0;
  matching_parameter = sg.matching;
  player_struct = sg.player;
  player_psn_id = sg.psn_id;
  cell_id = 0;
  sign_type = u32 sg.sign_type;
}

unfoldable pub arena_sign : ClientSession → ArenaRequest → Sign
arena_sign cs req = record {
  id = 0;
  owner_id = cs.player_id;
  area_id = 0;
  cell_id = 0;
  sign_type = 0;
  matching = req.matching_parameter;
  player = req.character;
  psn_id = cs.account_id;
  summoned_by = 0;
  aware_of = [];
}

unfoldable pub mirror_removal : Sign → RemovePush
mirror_removal sg = record {
  push_message_id = 935;
  player_id = sg.owner_id;
  sign_id = sg.id;
  player_psn_id = sg.psn_id;
}

unfoldable pub mirror_rejection : ClientSession → ℕ → ℕ → ℕ → RejectPush
mirror_rejection target owner sign reason = record {
  push_message_id = 934;
  sign_info = record { player_id = owner; sign_id = sign };
  error = reason;
  player_psn_id = target.account_id;
}

unfoldable pub mirror_summon : ClientSession → SummonRequest → SummonPush
mirror_summon cs req = record {
  push_message_id = 933;
  player_id = cs.player_id;
  sign_id = req.sign_id;
  player_struct = req.player_struct;
  player_psn_id = cs.account_id;
}

module _ (order : List Sign → List Sign) (marshal : Outgoing → Option (List ℕ)) where
  unfoldable pub push_mirror_knight_reject : ClientSession → ℕ → ℕ → ℕ → Service → Service
  push_mirror_knight_reject target owner sign reason s =
      elim (marshal (push_mirror_reject (mirror_rejection target owner sign reason))) [
        | none ↦ s
        | some body ↦ push_to target body s
      ]

  unfoldable pub push_mirror_knight_sign_removed : Sign → Service → Service
  push_mirror_knight_sign_removed sg s = elim (marshal (push_mirror_removal (mirror_removal sg))) [
    | none ↦ s
    | some body ↦ tell_aware sg.owner_id body sg.aware_of s
  ]

  unfoldable pub push_all_mirror_removed : List Sign → Service → Service
  push_all_mirror_removed [] s = s
  push_all_mirror_removed (sg ∷ sgs) s =
      push_all_mirror_removed sgs (push_mirror_knight_sign_removed sg s)

  unfoldable pub drop_mirror_knight_signs_for_player : ℕ → Service → Service
  drop_mirror_knight_signs_for_player player s =
      let (store, removed) = remove_owned_by order player s.mirror_knight in
      push_all_mirror_removed removed (record s { mirror_knight = store })

  unfoldable pub handle_create_mirror_knight_sign :
      ClientSession → Option ArenaRequest → Service → Answer
  handle_create_mirror_knight_sign cs none s = (s, err parse_failed)
  handle_create_mirror_knight_sign cs (some req) s =
      let (store, id) = add_sign (arena_sign cs req) s.mirror_knight in
      respond marshal (mirror_knight_created_response id) (record s { mirror_knight = store })

  unfoldable pub handle_update_mirror_knight_sign : ClientSession → Option ℕ → Service → Answer
  handle_update_mirror_knight_sign cs none s = (s, err parse_failed)
  handle_update_mirror_knight_sign cs (some sign) s = respond marshal empty_response s

  unfoldable pub handle_remove_mirror_knight_sign : ClientSession → Option ℕ → Service → Answer
  handle_remove_mirror_knight_sign cs none s = (s, err parse_failed)
  handle_remove_mirror_knight_sign cs (some sign) s =
      let (store, removed) = remove_sign (u32 sign) s.mirror_knight in
      let s' = record s { mirror_knight = store } in
      respond marshal empty_response
        (elim removed [ none ↦ s' | some sg ↦ push_mirror_knight_sign_removed sg s' ])

  -- The request is the number of signs wanted.
  unfoldable pub handle_get_mirror_knight_sign_list : ClientSession → Option ℕ → Service → Answer
  handle_get_mirror_knight_sign_list cs none s = (s, err parse_failed)
  handle_get_mirror_knight_sign_list cs (some max_signs) s =
      let found = all_signs order cs.player_id max_signs s.mirror_knight in
      respond marshal (mirror_knight_list_response (map mirror_knight_data found))
        (record s { mirror_knight = mark_found cs.player_id found s.mirror_knight })

  unfoldable pub mirror_summon_claimed :
      ClientSession → SummonRequest → Option Sign × Bool → Service → Answer
  mirror_summon_claimed cs req (none, claimed) s =
      respond marshal empty_response
        (push_mirror_knight_reject cs 0 req.sign_id sign_has_disappeared s)
  mirror_summon_claimed cs req (some sg, claimed) s =
      if not claimed
      then respond marshal empty_response
          (push_mirror_knight_reject cs sg.owner_id req.sign_id sign_already_used s)
      else elim (session_for_player sg.owner_id s.sessions) [
        | none ↦ respond marshal empty_response (
            push_mirror_knight_reject cs sg.owner_id req.sign_id sign_has_disappeared
              (record s { mirror_knight = release req.sign_id s.mirror_knight }))
        | some host ↦ elim (marshal (push_mirror_summon (mirror_summon cs req))) [
          | none ↦ (s, err build_failed)
          | some body ↦ respond marshal empty_response (push_to host body s)
        ]
      ]

  unfoldable pub handle_summon_mirror_knight_sign :
      ClientSession → Option SummonRequest → Service → Answer
  handle_summon_mirror_knight_sign cs none s = (s, err parse_failed)
  handle_summon_mirror_knight_sign cs (some req) s =
      let (store, answer) = claim req.sign_id cs.player_id s.mirror_knight in
      mirror_summon_claimed cs req answer (record s { mirror_knight = store })

  unfoldable pub relay_mirror_rejection : Sign → ℕ → ℕ → Service → Service
  relay_mirror_rejection sg sign reason s =
      if sg.summoned_by == 0 then s else elim (session_for_player sg.summoned_by s.sessions) [
        | none ↦ s
        | some target ↦ push_mirror_knight_reject target sg.owner_id sign reason s
      ]

  unfoldable pub handle_reject_mirror_knight_sign :
      ClientSession → Option RejectRequest → Service → Answer
  handle_reject_mirror_knight_sign cs none s = (s, err parse_failed)
  handle_reject_mirror_knight_sign cs (some req) s =
      let sign = u32 req.sign_id in
      elim (get_sign sign s.mirror_knight) [
        | none ↦ respond marshal empty_response s
        | some sg ↦ respond marshal empty_response (
            relay_mirror_rejection sg sign req.error
              (record s { mirror_knight = release sign s.mirror_knight }))
      ]
