-- ===== src/Matchmaking/Merging/View.antt =====
-- internal/server/game/matchmaking.go: two updates merged by applyStatus, one after the other.
use dso.Base.{◌∙◌, ap, sym, ◌≡◌, refl, Bool, true, Option, none, some}
use dso.Matchmaking.Status.{PlayerStatus, PlayerLocation, StatsInfo, ItemUsingInfo, AllStatus}
use dso.Matchmaking.Profile.{
  MatchProfile, no_fields, merge_player, merge_location, merge_stats, merge_items, merge_fields,
  merge_status,
}
use dso.Matchmaking.Merging.{
  later_status, matching_view, merge_player-later, merge_location-later, merge_stats-later,
  merge_items-later,
}

-- The fields of the sub-messages, without the diagnostic sweep.
unfoldable core : AllStatus → MatchProfile → MatchProfile
core st p = merge_items st.item_using_info (
    merge_stats st.stats_info (merge_location st.player_location (merge_player st.player_status p)))

abbrev start : MatchProfile → MatchProfile
start p = record p { received = true; status_fields = no_fields }

location-player :
    (b : Option PlayerStatus) (a : Option PlayerLocation) (p : MatchProfile)
    → merge_player b (merge_location a p) ≡ merge_location a (merge_player b p)
unfolding merge_player merge_location
location-player none a p = refl
location-player (some b) none p = refl
location-player (some b) (some a) p = refl

stats-player :
    (b : Option PlayerStatus) (a : Option StatsInfo) (p : MatchProfile)
    → merge_player b (merge_stats a p) ≡ merge_stats a (merge_player b p)
unfolding merge_player merge_stats
stats-player none a p = refl
stats-player (some b) none p = refl
stats-player (some b) (some a) p = refl

items-player :
    (b : Option PlayerStatus) (a : Option ItemUsingInfo) (p : MatchProfile)
    → merge_player b (merge_items a p) ≡ merge_items a (merge_player b p)
unfolding merge_player merge_items
items-player none a p = refl
items-player (some b) none p = refl
items-player (some b) (some a) p = refl

stats-location :
    (b : Option PlayerLocation) (a : Option StatsInfo) (p : MatchProfile)
    → merge_location b (merge_stats a p) ≡ merge_stats a (merge_location b p)
unfolding merge_location merge_stats
stats-location none a p = refl
stats-location (some b) none p = refl
stats-location (some b) (some a) p = refl

items-location :
    (b : Option PlayerLocation) (a : Option ItemUsingInfo) (p : MatchProfile)
    → merge_location b (merge_items a p) ≡ merge_items a (merge_location b p)
unfolding merge_location merge_items
items-location none a p = refl
items-location (some b) none p = refl
items-location (some b) (some a) p = refl

items-stats :
    (b : Option StatsInfo) (a : Option ItemUsingInfo) (p : MatchProfile)
    → merge_stats b (merge_items a p) ≡ merge_items a (merge_stats b p)
unfolding merge_stats merge_items
items-stats none a p = refl
items-stats (some b) none p = refl
items-stats (some b) (some a) p = refl

core-later : (a b : AllStatus) (p : MatchProfile) → core b (core a p) ≡ core (later_status a b) p
unfolding core later_status
core-later a b p = simp (
  items-player, stats-player, location-player, items-location, stats-location, items-stats,
  merge_player-later, merge_location-later, merge_stats-later, merge_items-later,
)

-- What the sweep writes and the flag received pass through the sub-messages.
merge_player-start :
    (o : Option PlayerStatus) (p : MatchProfile)
    → start (merge_player o p) ≡ merge_player o (start p)
unfolding merge_player
merge_player-start none p = refl
merge_player-start (some st) p = refl

merge_location-start :
    (o : Option PlayerLocation) (p : MatchProfile)
    → start (merge_location o p) ≡ merge_location o (start p)
unfolding merge_location
merge_location-start none p = refl
merge_location-start (some st) p = refl

merge_stats-start :
    (o : Option StatsInfo) (p : MatchProfile) → start (merge_stats o p) ≡ merge_stats o (start p)
unfolding merge_stats
merge_stats-start none p = refl
merge_stats-start (some st) p = refl

merge_items-start :
    (o : Option ItemUsingInfo) (p : MatchProfile)
    → start (merge_items o p) ≡ merge_items o (start p)
unfolding merge_items
merge_items-start none p = refl
merge_items-start (some st) p = refl

merge_fields-start : (st : AllStatus) (p : MatchProfile) → start (merge_fields st p) ≡ start p
unfolding merge_fields
merge_fields-start st p = refl

merge_status-start :
    (st : AllStatus) (p : MatchProfile) → start (merge_status st p) ≡ core st (start p)
unfolding merge_status core
merge_status-start st p = simp (
  merge_items-start, merge_fields-start, merge_stats-start, merge_location-start,
  merge_player-start,
)

merge_player_received :
    (o : Option PlayerStatus) (p : MatchProfile) → (merge_player o p).received ≡ p.received
unfolding merge_player
merge_player_received none p = refl
merge_player_received (some st) p = refl

merge_location_received :
    (o : Option PlayerLocation) (p : MatchProfile) → (merge_location o p).received ≡ p.received
unfolding merge_location
merge_location_received none p = refl
merge_location_received (some st) p = refl

merge_stats_received :
    (o : Option StatsInfo) (p : MatchProfile) → (merge_stats o p).received ≡ p.received
unfolding merge_stats
merge_stats_received none p = refl
merge_stats_received (some st) p = refl

merge_items_received :
    (o : Option ItemUsingInfo) (p : MatchProfile) → (merge_items o p).received ≡ p.received
unfolding merge_items
merge_items_received none p = refl
merge_items_received (some st) p = refl

merge_fields_received :
    (st : AllStatus) (p : MatchProfile) → (merge_fields st p).received ≡ p.received
unfolding merge_fields
merge_fields_received st p = refl

pub merge_status_received :
    (st : AllStatus) (p : MatchProfile) → (merge_status st p).received ≡ true
unfolding merge_status
merge_status_received st p = simp (
  merge_items_received, merge_fields_received, merge_stats_received, merge_location_received,
  merge_player_received,
)

matching_view-merge_status :
    (st : AllStatus) (p : MatchProfile) → matching_view (merge_status st p) ≡ core st (start p)
matching_view-merge_status st p =
    ap (λ (r : Bool). record (start (merge_status st p)) { received = r })
      (merge_status_received st p)
    ∙ merge_status-start st p

-- Two partial updates, one after the other, leave the same matching view as the one update that
-- carries each field as last sent: no update blanks a field that it does not carry.
pub merge_status-later :
    (a b : AllStatus) (p : MatchProfile)
    → matching_view (merge_status b (merge_status a p))
      ≡ matching_view (merge_status (later_status a b) p)
merge_status-later a b p =
    matching_view-merge_status b (merge_status a p)
    ∙ ap (core b) (merge_status-start a p)
    ∙ core-later a b (start p)
    ∙ sym (matching_view-merge_status (later_status a b) p)
