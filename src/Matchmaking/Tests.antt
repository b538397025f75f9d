-- ===== src/Matchmaking/Tests.antt =====
-- Matchmaking at concrete inputs.
use dso.Base.{◌≡◌, ◌≢◌, ◌↔◌, refl, arith, true, false, none, some}
use dso.Matchmaking.Status.{AllStatus, PlayerStatus}
use dso.Matchmaking.Profile.{MatchProfile, empty_profile, merge_status, effective_covenant}
use dso.Matchmaking.Merging.{later_status, matching_view}
use dso.Matchmaking.Merging.View.{merge_status-later}
use dso.Matchmaking.Pools.{nowhere, bell_keepers, visitor_pool_for, is_invadable, is_invadable_iff}
use dso.Matchmaking.Moving.{pool_at, visitor_pool_for-merge_status}
use dso.Matchmaking.Tiers.{
  TierWindow, soul_memory_tier, soul_memory_tiers, tier_from, soul_memory_matches,
}

abbrev no_player : PlayerStatus
no_player = record {
  soul_memory = none;
  soul_level = none;
  covenant = none;
  sitting_at_bonfire = none;
  human_effigy_burnt = none;
  disable_cross_region_play = none;
  archetype = none;
  unknown_4 = none;
  unknown_5 = none;
  unknown_6 = none;
  unknown_13 = none;
  unknown_14 = none;
  unknown_16 = none;
  unknown_17 = none;
  unknown_20 = none;
  phantom_leave_at = none;
}

abbrev first : AllStatus
first = record {
  player_status = some (record no_player { soul_memory = some 120000; covenant = some 6 });
  player_location = none;
  stats_info = none;
  item_using_info = none;
}

abbrev second : AllStatus
second = record {
  player_status = some (record no_player { covenant = some 5 });
  player_location =
      some
        (record { online_area_id = none; online_activity_area_id = some 101640; cell_id = none });
  stats_info = none;
  item_using_info = none;
}

merge_status-later_example :
    matching_view (merge_status second (merge_status first empty_profile))
    ≡ matching_view (merge_status (later_status first second) empty_profile)
merge_status-later_example = merge_status-later first second empty_profile

abbrev keeper : MatchProfile
keeper = record empty_profile {
  received = true;
  online_activity_area = 101640;
  bell_keepers_seal = true;
  covenant = some 6;
}

keeper_pool : visitor_pool_for keeper ≡ bell_keepers
unfolding visitor_pool_for effective_covenant
keeper_pool = refl

keeper_in_a_pool : visitor_pool_for keeper ≢ nowhere
keeper_in_a_pool = rw keeper_pool (λ e. ground arith)

-- The keeper walks to another area.
abbrev walk : AllStatus
walk = record {
  player_status = some (record no_player { soul_memory = some 130000 });
  player_location =
      some
        (record { online_area_id = none; online_activity_area_id = some 100410; cell_id = none });
  stats_info = none;
  item_using_info = none;
}

visitor_pool_for-merge_status_example :
    visitor_pool_for (merge_status walk keeper) ≡ pool_at 100410 (visitor_pool_for keeper)
visitor_pool_for-merge_status_example =
    visitor_pool_for-merge_status walk keeper refl tt keeper_in_a_pool

is_invadable_iff_example : (is_invadable keeper ≡ true) ↔ (
    (keeper.received ≡ true)
    × (keeper.sitting_at_bonfire ≡ false)
    × (keeper.human_effigy_burnt ≡ false)
    × (keeper.online_activity_area ≢ 0))
is_invadable_iff_example = is_invadable_iff keeper

abbrev narrow : TierWindow
narrow = record { below = 0; above = 1 }

abbrev wide : TierWindow
wide = record { below = 3; above = 2 }

narrow_matches : soul_memory_matches 120000 140000 narrow ≡ true
unfolding soul_memory_matches soul_memory_tier soul_memory_tiers tier_from
narrow_matches = refl
