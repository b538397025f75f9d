-- ===== src/QuickMatch/Aliases.antt =====
-- internal/server/game/quickmatch.go: the push ids of the roles at the two venues.
use dso.Base.{ℕ, ◌<◌, ◌≤◌, ◌≡◌, arith}
use dso.QuickMatch.Store.{quick_match_push_id_for}

-- The push ids of the four roles at the two venues lie between 0x3E0 and 0x3E7, and no two of these
-- eight pairs of a venue and a role have the same id.
pub quick_match_push_id_for_inj :
    (mode mode' role role' : ℕ)
    → mode < 2
    → mode' < 2
    → role < 4
    → role' < 4
    → (0x3E0 ≤ quick_match_push_id_for mode role)
      × (quick_match_push_id_for mode role ≤ 0x3E7)
      × (quick_match_push_id_for mode role ≡ quick_match_push_id_for mode' role'
          → (mode ≡ mode') × (role ≡ role'))
unfolding quick_match_push_id_for
quick_match_push_id_for_inj mode mode' role role' m m' r r' = ground arith
