-- ===== src/Matchmaking/Pools.antt =====
-- internal/server/game/matchmaking.go: who may be summoned or invaded.
use dso.Base.{ℕ, ◌≡◌, ◌≢◌, ◌↔◌, arith, Bool, true, false, not, ◌&&◌, ◌||◌, ◌==◌, if◌then◌else◌}
use dso.Matchmaking.Profile.{MatchProfile, effective_covenant}

abbrev pub covenant_blue_sentinels : ℕ
covenant_blue_sentinels = 2

abbrev pub covenant_rat_king : ℕ
covenant_rat_king = 5

abbrev pub covenant_bell_keepers : ℕ
covenant_bell_keepers = 6

-- The constants of the protobuf enum VisitorType that are used.
pub data VisitorType : Type 0 where
  nowhere blue_sentinels bell_keepers rat : VisitorType

unfoldable pub rat_cells : ℕ → Bool
rat_cells cell = cell == 103410 || cell == 103320

unfoldable pub visitor_pool_for : MatchProfile → VisitorType
visitor_pool_for p =
    let cov = effective_covenant p in
    if not p.received
    then nowhere
    else if p.online_activity_area == 0
    then nowhere
    else if p.guardians_seal && cov == covenant_blue_sentinels
    then blue_sentinels
    else if p.bell_keepers_seal && cov == covenant_bell_keepers
    then bell_keepers
    else if not (cov == covenant_rat_king) && rat_cells p.online_activity_area
    then rat
    else nowhere

unfoldable pub is_invadable : MatchProfile → Bool
is_invadable p =
    if not p.received
    then false
    else not p.sitting_at_bonfire && (not p.human_effigy_burnt && not (p.online_activity_area == 0))

-- A player can be invaded exactly if a status has arrived, the player does not sit at a bonfire, has
-- burnt no effigy, and is in an online activity area.
pub is_invadable_iff :
    (p : MatchProfile)
    → (is_invadable p ≡ true) ↔ (
        (p.received ≡ true)
        × (p.sitting_at_bonfire ≡ false)
        × (p.human_effigy_burnt ≡ false)
        × (p.online_activity_area ≢ 0))
unfolding is_invadable
is_invadable_iff p = (λ h. ground arith, λ h. ground arith)
