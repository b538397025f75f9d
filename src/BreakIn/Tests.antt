-- ===== src/BreakIn/Tests.antt =====
-- Invasions at concrete inputs.
use dso.Base.{false, ℕ, ◌≡◌, refl, Option, none, some, List, [], ◌∷◌, Elem}
use dso.Matchmaking.Profile.{empty_profile}
use dso.BreakIn.State.{
  PlayerSession, TargetListRequest, TargetRequest, TargetData, Marshalled, target_list, World,
}
use dso.BreakIn.Handlers.{answer_with, handle_get_break_in_target_list}
use dso.BreakIn.Targets.{IsTarget, target_list_sound}

abbrev same_order : List PlayerSession → List PlayerSession
same_order xs = xs

abbrev marshal : Marshalled → Option (List ℕ)
marshal m = some (7 ∷ [])

abbrev invader : PlayerSession
invader = record {
  key = 101;
  player_id = 1;
  account_id = 10 ∷ [];
  area_id = 0;
  profile = empty_profile;
  break_in_type = 0;
}

abbrev host : PlayerSession
host = record invader { key = 102; player_id = 2; account_id = 20 ∷ [] }

abbrev world : World
world = record {
  filtering = false;
  force_reject = false;
  reject_push_override = 0;
  sessions = invader ∷ host ∷ [];
  sent = [];
}

abbrev blue_orb_attempt : TargetRequest
blue_orb_attempt = record { online_area_id = 1016; cell_id = 4; player_id = 2; break_in_type = 2 }

abbrev search_request : TargetListRequest
search_request = record {
  online_area_id = 1016;
  cell_id = 4;
  max_targets = 3;
  matching_parameter = none;
  break_in_type = 2;
}

target_list_sound_example :
    let r =
      handle_get_break_in_target_list same_order marshal invader (some search_request) world in
    (ts : List TargetData) × (r.1
      ≡ (answer_with same_order marshal (target_list 1016 4 ts) world).1)
    × ((t : TargetData)
        → Elem t ts
        → (x : PlayerSession) × Elem x r.0.sessions
          × (x.player_id ≡ t.player_id)
          × (x.account_id ≡ t.psn_id)
          × IsTarget false invader search_request x)
target_list_sound_example =
    target_list_sound same_order marshal (λ x xs. (λ h. h, λ h. h)) invader search_request world
      refl
