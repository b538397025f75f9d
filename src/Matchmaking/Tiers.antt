-- ===== src/Matchmaking/Tiers.antt =====
-- internal/server/game/matchmaking.go: the bands of soul memory and the windows over them.
use Prim.Native.Nat.{min}
use dso.Base.{
  ◌∙◌, ℕ, suc, ◌+◌, ◌-◌, ◌≤◌, ◌<◌, ◌≡◌, ◌↔◌, ◌⊎◌, refl, arith, Bool, true, ◌&&◌, ltb, leb,
  if◌then◌else◌, List, [], ◌∷◌, length, All,
}
use dso.Matchmaking.Pools.{VisitorType, nowhere, blue_sentinels, bell_keepers, rat}

unfoldable pub soul_memory_tiers : List ℕ
soul_memory_tiers =
    9999 ∷ 19999 ∷ 29999 ∷ 39999 ∷ 49999 ∷ 69999 ∷ 89999 ∷ 109999 ∷ 129999 ∷ 149999 ∷ 179999
    ∷ 209999 ∷ 239999 ∷ 269999 ∷ 299999 ∷ 349999 ∷ 399999 ∷ 449999 ∷ 499999 ∷ 599999 ∷ 699999
    ∷ 799999 ∷ 899999 ∷ 999999 ∷ 1099999 ∷ 1199999 ∷ 1299999 ∷ 1399999 ∷ 1499999 ∷ 1749999 ∷ 1999999
    ∷ 2249999 ∷ 2499999 ∷ 2749999 ∷ 2999999 ∷ 4999999 ∷ 6999999 ∷ 8999999 ∷ 11999999 ∷ 14999999
    ∷ 19999999 ∷ 29999999 ∷ 44999999 ∷ 359999999 ∷ 999999999 ∷ []

-- The loop over the bands from index i on; past the last band it is the index of the last.
unfoldable pub tier_from : ℕ → List ℕ → ℕ → ℕ
tier_from i [] sm = length soul_memory_tiers - 1
tier_from i (end ∷ ends) sm = let rest = tier_from (i + 1) ends sm in if leb sm end then i else rest

unfoldable pub soul_memory_tier : ℕ → ℕ
soul_memory_tier sm = tier_from 0 soul_memory_tiers sm

pub record TierWindow : Type 0 where
  pub below : ℕ
  pub above : ℕ

abbrev pub break_in_tier_window : TierWindow
break_in_tier_window = record { below = 0; above = 4 }

-- A type that is not in the map has the zero window.
unfoldable pub visitor_tier_windows : VisitorType → TierWindow
visitor_tier_windows rat = record { below = 1; above = 3 }
visitor_tier_windows bell_keepers = record { below = 1; above = 3 }
visitor_tier_windows blue_sentinels = record { below = 5; above = 4 }
visitor_tier_windows nowhere = record { below = 0; above = 0 }

-- `cand >= user - w.below` on signed integers is `user ≤ cand + w.below`.
unfoldable pub soul_memory_matches : ℕ → ℕ → TierWindow → Bool
soul_memory_matches item_user_sm candidate_sm w =
    let user = soul_memory_tier item_user_sm in
    let cand = soul_memory_tier candidate_sm in
    leb user (cand + w.below) && leb cand (user + w.above)

tier_from_le :
    (i : ℕ) (ends : List ℕ) (sm : ℕ)
    → i + length ends ≡ length soul_memory_tiers
    → tier_from i ends sm < length soul_memory_tiers
unfolding tier_from
tier_from_le i [] sm h = unfold soul_memory_tiers in omega arith
tier_from_le i (end ∷ ends) sm h = ground (arith, tier_from_le (i + 1) ends sm)

tier_from_ge :
    (i : ℕ) (ends : List ℕ) (sm : ℕ)
    → i + length ends ≡ length soul_memory_tiers
    → 0 < length ends
    → i ≤ tier_from i ends sm
unfolding tier_from
tier_from_ge i [] sm h k = absurd (omega arith)
tier_from_ge i (end ∷ []) sm h k = unfold soul_memory_tiers in ground arith
tier_from_ge i (end ∷ e ∷ ends) sm h k = ground (arith, tier_from_ge (i + 1) (e ∷ ends) sm)

tier_from_mono :
    (i : ℕ) (ends : List ℕ) (sm sm' : ℕ)
    → i + length ends ≡ length soul_memory_tiers
    → sm ≤ sm'
    → tier_from i ends sm ≤ tier_from i ends sm'
unfolding tier_from
tier_from_mono i [] sm sm' h k = omega arith
tier_from_mono i (end ∷ []) sm sm' h k = unfold soul_memory_tiers in ground arith
tier_from_mono i (end ∷ e ∷ ends) sm sm' h k =
    ground (arith, tier_from_mono (i + 1) (e ∷ ends) sm sm', tier_from_ge (i + 1) (e ∷ ends) sm')

-- The band of any soul memory is one of the 45, and more soul memory is never in a lower band.
pub soul_memory_tier_mono :
    (sm sm' : ℕ)
    → sm ≤ sm'
    → (soul_memory_tier sm ≤ soul_memory_tier sm') × (soul_memory_tier sm' < 45)
unfolding soul_memory_tier soul_memory_tiers
soul_memory_tier_mono sm sm' h =
    (tier_from_mono 0 soul_memory_tiers sm sm' refl h, tier_from_le 0 soul_memory_tiers sm' refl)

-- How many bands end below a value.
unfoldable pub bands_below : ℕ → List ℕ → ℕ
bands_below sm [] = 0
bands_below sm (end ∷ ends) =
    let rest = bands_below sm ends in if ltb end sm then suc rest else rest

abbrev Ascending : List ℕ → Type 0
Ascending [] = Unit
Ascending (x ∷ xs) = All (λ y. x < y) xs × Ascending xs

none_below :
    (sm end : ℕ) (ends : List ℕ) → sm ≤ end → All (λ y. end < y) ends → bands_below sm ends ≡ 0
unfolding bands_below
none_below sm end [] h a = refl
none_below sm end (e ∷ ends) h a = ground (arith, none_below sm end ends h a.1)

tier_from-bands_below :
    (i : ℕ) (ends : List ℕ) (sm : ℕ)
    → i + length ends ≡ length soul_memory_tiers
    → Ascending ends
    → tier_from i ends sm ≡ min (length soul_memory_tiers - 1) (i + bands_below sm ends)
unfolding tier_from bands_below
tier_from-bands_below i [] sm h a = omega arith
tier_from-bands_below i (end ∷ ends) sm h a =
    ground (arith, tier_from-bands_below (i + 1) ends sm (omega arith) a.1, none_below sm end ends)

-- The band of a value is the number of bands that end below it, and at most the last one, 44: the
-- table is ascending, so the first band that reaches the value is the one.
pub soul_memory_tier-bands_below :
    (sm : ℕ) → soul_memory_tier sm ≡ min 44 (bands_below sm soul_memory_tiers)
unfolding soul_memory_tier soul_memory_tiers
soul_memory_tier-bands_below sm =
    tier_from-bands_below 0 soul_memory_tiers sm refl (omega arith) ∙ omega arith

-- An invader is never matched with a host of a lower band: if the invasion window admits a candidate,
-- the candidate's band is from the invader's own up to four above it. The converse holds too.
pub break_in_reaches_up :
    (invader host : ℕ)
    → (soul_memory_matches invader host break_in_tier_window ≡ true) ↔ (
        (soul_memory_tier invader ≤ soul_memory_tier host)
        × (soul_memory_tier host ≤ soul_memory_tier invader + 4))
unfolding soul_memory_matches
break_in_reaches_up invader host = (λ h. ground arith, λ h. ground arith)

-- Widening a window on either side loses no match, and two players of one band match in every window.
pub soul_memory_matches_widen :
    (user cand : ℕ) (w w' : TierWindow)
    → w.below ≤ w'.below
    → w.above ≤ w'.above
    → (soul_memory_matches user cand w ≡ true) ⊎ (soul_memory_tier user ≡ soul_memory_tier cand)
    → soul_memory_matches user cand w' ≡ true
unfolding soul_memory_matches
soul_memory_matches_widen user cand w w' b a h = ground arith
