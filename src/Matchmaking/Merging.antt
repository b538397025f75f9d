-- ===== src/Matchmaking/Merging.antt =====
-- internal/server/game/matchmaking.go: two updates of applyStatus as one, and the sub-messages.
use dso.Base.{
  ◌∙◌, ap, sym, ℕ, ◌≡◌, refl, arith, Bool, true, false, not, ◌==◌, Option, none, some, List, [],
  ◌∷◌,
}
use dso.Matchmaking.Status.{PlayerStatus, PlayerLocation, StatsInfo, ItemUsingInfo, AllStatus}
use dso.Matchmaking.Profile.{
  MatchProfile, no_fields, number_or, flag_or, covenant_or, seen_or, merge_player, merge_location,
  merge_stats, merge_items, merge_fields, merge_status,
}
pub mod View

-- What a client would have sent at once instead of two updates, of the fields that matching reads: a
-- field of the later one where it carries the field, else that of the earlier one.
abbrev pub later {ℓ} : {A : Type ℓ} → Option A → Option A → Option A
later old none = old
later old (some v) = some v

abbrev pub join {ℓ} : {A : Type ℓ} → (A → A → A) → Option A → Option A → Option A
join f none b = b
join f (some a) none = some a
join f (some a) (some b) = some (f a b)

unfoldable pub later_player : PlayerStatus → PlayerStatus → PlayerStatus
later_player a b = record b {
  soul_memory = later a.soul_memory b.soul_memory;
  soul_level = later a.soul_level b.soul_level;
  covenant = later a.covenant b.covenant;
  sitting_at_bonfire = later a.sitting_at_bonfire b.sitting_at_bonfire;
  human_effigy_burnt = later a.human_effigy_burnt b.human_effigy_burnt;
  disable_cross_region_play = later a.disable_cross_region_play b.disable_cross_region_play;
}

unfoldable pub later_location : PlayerLocation → PlayerLocation → PlayerLocation
later_location a b = record b {
  online_area_id = later a.online_area_id b.online_area_id;
  online_activity_area_id = later a.online_activity_area_id b.online_activity_area_id;
}

unfoldable pub later_stats : StatsInfo → StatsInfo → StatsInfo
later_stats a b = record b { sinner_points = later a.sinner_points b.sinner_points }

unfoldable pub later_items : ItemUsingInfo → ItemUsingInfo → ItemUsingInfo
later_items a b = record b {
  named_ring_god = later a.named_ring_god b.named_ring_god;
  guardians_seal = later a.guardians_seal b.guardians_seal;
  bell_keepers_seal = later a.bell_keepers_seal b.bell_keepers_seal;
  crest_of_the_rat = later a.crest_of_the_rat b.crest_of_the_rat;
}

unfoldable pub later_status : AllStatus → AllStatus → AllStatus
unfolding later_player later_location later_stats later_items
later_status a b = record {
  player_status = join later_player a.player_status b.player_status;
  player_location = join later_location a.player_location b.player_location;
  stats_info = join later_stats a.stats_info b.stats_info;
  item_using_info = join later_items a.item_using_info b.item_using_info;
}

-- The profile without the diagnostic map, which takes no part in matching.
abbrev pub matching_view : MatchProfile → MatchProfile
matching_view p = record p { status_fields = no_fields }

number_or-later : (a b : Option ℕ) (n : ℕ) → number_or b (number_or a n) ≡ number_or (later a b) n
number_or-later a none n = refl
number_or-later a (some v) n = refl

flag_or-later : (a b : Option ℕ) (f : Bool) → flag_or b (flag_or a f) ≡ flag_or (later a b) f
flag_or-later a none f = refl
flag_or-later a (some v) f = refl

covenant_or-later : (a b c : Option ℕ) → covenant_or b (covenant_or a c) ≡ covenant_or (later a b) c
covenant_or-later a none c = refl
covenant_or-later a (some v) c = refl

seen_or-later : (a b : Option ℕ) (f : Bool) → seen_or b (seen_or a f) ≡ seen_or (later a b) f
seen_or-later a none f = refl
seen_or-later a (some v) f = refl

pub merge_player-later :
    (a b : Option PlayerStatus) (p : MatchProfile)
    → merge_player b (merge_player a p) ≡ merge_player (join later_player a b) p
unfolding merge_player later_player
merge_player-later none b p = refl
merge_player-later (some a) none p = refl
merge_player-later (some a) (some b) p = simp (number_or-later, flag_or-later, covenant_or-later)

pub merge_location-later :
    (a b : Option PlayerLocation) (p : MatchProfile)
    → merge_location b (merge_location a p) ≡ merge_location (join later_location a b) p
unfolding merge_location later_location
merge_location-later none b p = refl
merge_location-later (some a) none p = refl
merge_location-later (some a) (some b) p = simp number_or-later

pub merge_stats-later :
    (a b : Option StatsInfo) (p : MatchProfile)
    → merge_stats b (merge_stats a p) ≡ merge_stats (join later_stats a b) p
unfolding merge_stats later_stats
merge_stats-later none b p = refl
merge_stats-later (some a) none p = refl
merge_stats-later (some a) (some b) p = simp (number_or-later, seen_or-later)

pub merge_items-later :
    (a b : Option ItemUsingInfo) (p : MatchProfile)
    → merge_items b (merge_items a p) ≡ merge_items (join later_items a b) p
unfolding merge_items later_items
merge_items-later none b p = refl
merge_items-later (some a) none p = refl
merge_items-later (some a) (some b) p = simp (number_or-later, flag_or-later)
