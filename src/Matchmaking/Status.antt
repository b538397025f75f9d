-- ===== src/Matchmaking/Status.antt =====
-- The part of the protobuf message AllStatus that internal/server/game/matchmaking.go reads. Every
-- scalar and every sub-message is optional, and `none` means that the update says nothing of it.
use dso.Base.{ℕ, Option}

pub record PlayerStatus : Type 0 where
  pub soul_memory : Option ℕ
  pub soul_level : Option ℕ
  pub covenant : Option ℕ
  pub sitting_at_bonfire : Option ℕ
  pub human_effigy_burnt : Option ℕ
  pub disable_cross_region_play : Option ℕ
  pub archetype : Option ℕ
  pub unknown_4 : Option ℕ
  pub unknown_5 : Option ℕ
  pub unknown_6 : Option ℕ
  pub unknown_13 : Option ℕ
  pub unknown_14 : Option ℕ
  pub unknown_16 : Option ℕ
  pub unknown_17 : Option ℕ
  pub unknown_20 : Option ℕ
  pub phantom_leave_at : Option (Unit {0})

pub record PlayerLocation : Type 0 where
  pub online_area_id : Option ℕ
  pub online_activity_area_id : Option ℕ
  pub cell_id : Option ℕ

pub record StatsInfo : Type 0 where
  pub sinner_points : Option ℕ
  pub unknown_1 : Option ℕ
  pub unknown_2 : Option ℕ
  pub unknown_5 : Option ℕ
  pub unknown_10 : Option ℕ
  pub unknown_12 : Option ℕ
  pub unknown_13 : Option ℕ
  pub unknown_14 : Option ℕ

pub record ItemUsingInfo : Type 0 where
  pub named_ring_god : Option ℕ
  pub using_dried_fingers : Option ℕ
  pub unknown_3 : Option ℕ
  pub guardians_seal : Option ℕ
  pub bell_keepers_seal : Option ℕ
  pub crest_of_the_rat : Option ℕ
  pub unknown_7 : Option ℕ
  pub unknown_8 : Option ℕ

pub record AllStatus : Type 0 where
  pub player_status : Option PlayerStatus
  pub player_location : Option PlayerLocation
  pub stats_info : Option StatsInfo
  pub item_using_info : Option ItemUsingInfo

pub record MatchingParameter : Type 0 where
  pub soul_memory : ℕ
  pub covenant : ℕ
