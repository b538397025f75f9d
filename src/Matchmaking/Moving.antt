-- ===== src/Matchmaking/Moving.antt =====
-- internal/server/game/matchmaking.go: a player who moves, by applyStatus and visitorPoolFor.
use dso.Base.{ℕ, ◌≡◌, ◌≢◌, refl, ap, ◌∙◌, arith, true, ◌==◌, if◌then◌else◌, Option, none, some}
use dso.Matchmaking.Status.{PlayerStatus, PlayerLocation, StatsInfo, ItemUsingInfo, AllStatus}
use dso.Matchmaking.Profile.{
  MatchProfile, number_or, merge_player, merge_location, merge_stats, merge_items, merge_fields,
  merge_status, effective_covenant,
}
use dso.Matchmaking.Merging.View.{merge_status_received}
use dso.Matchmaking.Pools.{
  VisitorType, nowhere, blue_sentinels, bell_keepers, rat, visitor_pool_for, rat_cells,
}

-- The update says nothing of the covenant, and nothing of the two seals.
abbrev pub NoCovenant : Option PlayerStatus → Type 0
NoCovenant none = Unit
NoCovenant (some st) = st.covenant ≡ none

abbrev pub NoSeals : Option ItemUsingInfo → Type 0
NoSeals none = Unit
NoSeals (some it) = (it.guardians_seal ≡ none) × (it.bell_keepers_seal ≡ none)

-- The online activity area that the update names.
abbrev pub named_area : Option PlayerLocation → Option ℕ
named_area none = none
named_area (some loc) = loc.online_activity_area_id

-- Where a member of a pool is after a move to an area: the covenants' members in their pool as long
-- as they are in some online activity area, the prey of the rats only in the rats' cells.
abbrev pub pool_at : ℕ → VisitorType → VisitorType
pool_at area nowhere = nowhere
pool_at area blue_sentinels = if area == 0 then nowhere else blue_sentinels
pool_at area bell_keepers = if area == 0 then nowhere else bell_keepers
pool_at area rat = if rat_cells area then rat else nowhere

-- What visitorPoolFor reads of a profile.
record SameMember (p q : MatchProfile) : Type 0 where
  same_covenant : q.covenant ≡ p.covenant
  same_parameter : q.mp_covenant ≡ p.mp_covenant
  same_guardians : q.guardians_seal ≡ p.guardians_seal
  same_bell_keepers : q.bell_keepers_seal ≡ p.bell_keepers_seal

SameMember-trans : {p q r : MatchProfile} → SameMember p q → SameMember q r → SameMember p r
SameMember-trans m n = record {
  same_covenant = n.same_covenant ∙ m.same_covenant;
  same_parameter = n.same_parameter ∙ m.same_parameter;
  same_guardians = n.same_guardians ∙ m.same_guardians;
  same_bell_keepers = n.same_bell_keepers ∙ m.same_bell_keepers;
}

merge_player-SameMember :
    (o : Option PlayerStatus) (p : MatchProfile) → NoCovenant o → SameMember p (merge_player o p)
unfolding merge_player
merge_player-SameMember none p c = ground arith
merge_player-SameMember (some st) p c = ground arith

merge_location-SameMember :
    (o : Option PlayerLocation) (p : MatchProfile) → SameMember p (merge_location o p)
unfolding merge_location
merge_location-SameMember none p = ground arith
merge_location-SameMember (some loc) p = ground arith

merge_stats-SameMember : (o : Option StatsInfo) (p : MatchProfile) → SameMember p (merge_stats o p)
unfolding merge_stats
merge_stats-SameMember none p = ground arith
merge_stats-SameMember (some st) p = ground arith

merge_items-SameMember :
    (o : Option ItemUsingInfo) (p : MatchProfile) → NoSeals o → SameMember p (merge_items o p)
unfolding merge_items
merge_items-SameMember none p s = ground arith
merge_items-SameMember (some it) p s = ground arith

start-SameMember : (p : MatchProfile) → SameMember p (record p { received = true })
start-SameMember p = ground arith

merge_fields-SameMember : (st : AllStatus) (p : MatchProfile) → SameMember p (merge_fields st p)
unfolding merge_fields
merge_fields-SameMember st p = ground arith

merge_status-SameMember :
    (st : AllStatus) (p : MatchProfile)
    → NoCovenant st.player_status
    → NoSeals st.item_using_info
    → SameMember p (merge_status st p)
unfolding merge_status
merge_status-SameMember st p c s = SameMember-trans (start-SameMember p) (
    SameMember-trans (merge_player-SameMember st.player_status _ c) (
      SameMember-trans (merge_location-SameMember st.player_location _) (
        SameMember-trans (merge_stats-SameMember st.stats_info _) (
          SameMember-trans (merge_fields-SameMember st _)
            (merge_items-SameMember st.item_using_info _ s)))))

-- Only the location writes the area.
merge_player_area :
    (o : Option PlayerStatus) (p : MatchProfile)
    → (merge_player o p).online_activity_area ≡ p.online_activity_area
unfolding merge_player
merge_player_area none p = refl
merge_player_area (some st) p = refl

merge_stats_area :
    (o : Option StatsInfo) (p : MatchProfile)
    → (merge_stats o p).online_activity_area ≡ p.online_activity_area
unfolding merge_stats
merge_stats_area none p = refl
merge_stats_area (some st) p = refl

merge_items_area :
    (o : Option ItemUsingInfo) (p : MatchProfile)
    → (merge_items o p).online_activity_area ≡ p.online_activity_area
unfolding merge_items
merge_items_area none p = refl
merge_items_area (some it) p = refl

merge_fields_area :
    (st : AllStatus) (p : MatchProfile)
    → (merge_fields st p).online_activity_area ≡ p.online_activity_area
unfolding merge_fields
merge_fields_area st p = refl

merge_location_area :
    (o : Option PlayerLocation) (p : MatchProfile)
    → (merge_location o p).online_activity_area ≡ number_or (named_area o) p.online_activity_area
unfolding merge_location
merge_location_area none p = refl
merge_location_area (some loc) p = refl

merge_status_area :
    (st : AllStatus) (p : MatchProfile)
    → (merge_status st p).online_activity_area
      ≡ number_or (named_area st.player_location) p.online_activity_area
unfolding merge_status
merge_status_area st p =
    simp (
      merge_items_area, merge_fields_area, merge_stats_area, merge_location_area, merge_player_area,
    )

pool_moved :
    (p q : MatchProfile)
    → SameMember p q
    → q.received ≡ true
    → visitor_pool_for p ≢ nowhere
    → visitor_pool_for q ≡ pool_at q.online_activity_area (visitor_pool_for p)
unfolding visitor_pool_for effective_covenant rat_cells
pool_moved p q m r n = ground arith

-- An update that says nothing of the covenant and of the two seals moves a player who is in some pool
-- as follows, by the area that it names, or the old one if it names none. A Blue Sentinel or a Bell
-- Keeper stays in the pool wherever the move leads, and leaves it only where there is no online
-- activity area; the prey of the rats stays in their pool in the rats' cells and leaves it elsewhere,
-- for no other one.
pub visitor_pool_for-merge_status :
    (st : AllStatus) (p : MatchProfile)
    → NoCovenant st.player_status
    → NoSeals st.item_using_info
    → visitor_pool_for p ≢ nowhere
    → visitor_pool_for (merge_status st p)
      ≡ pool_at
          (number_or (named_area st.player_location) p.online_activity_area)
          (visitor_pool_for p)
visitor_pool_for-merge_status st p c s n =
    pool_moved p (merge_status st p) (merge_status-SameMember st p c s) (merge_status_received st p)
      n
    ∙ ap (λ a. pool_at a (visitor_pool_for p)) (merge_status_area st p)
