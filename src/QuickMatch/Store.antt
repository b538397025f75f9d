-- ===== src/QuickMatch/Store.antt =====
-- internal/server/game/quickmatch.go: the arena registrations, quickMatchStore.
--
-- The map byPlayer is the list of its entries. Go ranges over a map in no fixed order: `order` stands
-- for the order of one range. The 64-bit ids are only compared, so they are numbers here.
use dso.Base.{
  ℕ, ◌+◌, ◌*◌, Bool, false, not, ◌&&◌, ◌||◌, ltb, ◌==◌, if◌then◌else◌, Option, none, some, List, [],
  ◌∷◌, ◌++◌, length, take,
}
use dso.Matchmaking.Status.{MatchingParameter}

-- The enum QuickMatchGameMode: Blue is 0, Brotherhood is 1, and other values can arrive.
abbrev pub brotherhood : ℕ
brotherhood = 1

abbrev pub quick_match_push_base : ℕ
quick_match_push_base = 0x03E0

abbrev pub role_join : ℕ
role_join = 0

abbrev pub role_reject : ℕ
role_reject = 1

abbrev pub role_remove : ℕ
role_remove = 3

unfoldable pub quick_match_push_id_for : ℕ → ℕ → ℕ
quick_match_push_id_for mode role =
    let parity = if mode == brotherhood then 0 else 1 in quick_match_push_base + 2 * role + parity

pub record QuickMatch : Type 0 where
  pub player_id : ℕ
  pub psn_id : List ℕ
  pub area_id : ℕ
  pub cell_id : ℕ
  pub mode : ℕ
  pub matching : Option MatchingParameter
  pub aware_of : List ℕ

unfoldable pub contains : ℕ → List ℕ → Bool
contains id [] = false
contains id (x ∷ xs) = id == x || contains id xs

unfoldable pub get : ℕ → List QuickMatch → Option QuickMatch
get id [] = none
get id (m ∷ ms) = let rest = get id ms in if m.player_id == id then some m else rest

-- `delete(q.byPlayer, playerID)`.
unfoldable pub delete : ℕ → List QuickMatch → List QuickMatch
delete id [] = []
delete id (m ∷ ms) = let rest = delete id ms in if m.player_id == id then rest else m ∷ rest

unfoldable pub audience : Option QuickMatch → List ℕ
audience none = []
audience (some existing) = existing.aware_of

unfoldable pub put : QuickMatch → List QuickMatch → List QuickMatch
unfolding audience
put m store = record m { aware_of = audience (get m.player_id store) } ∷ delete m.player_id store

unfoldable pub remove : ℕ → List QuickMatch → List QuickMatch × Option QuickMatch
remove id store = (delete id store, get id store)

unfoldable pub add_viewer : ℕ → List ℕ → List ℕ
add_viewer viewer ids = if contains viewer ids then ids else viewer ∷ ids

unfoldable pub mark_aware : ℕ → ℕ → List QuickMatch → List QuickMatch
mark_aware id viewer [] = []
mark_aware id viewer (m ∷ ms) =
    let rest = mark_aware id viewer ms in
    if m.player_id == id
    then record m { aware_of = add_viewer viewer m.aware_of } ∷ rest
    else m ∷ rest

-- Whether the loop of search skips an entry.
unfoldable pub skips : ℕ → ℕ → ℕ → QuickMatch → Bool
skips area mode exclude m =
    m.player_id == exclude || (not (m.area_id == area) || not (m.mode == mode))

-- The loop: the entries at the cell asked for, and those at other cells.
unfoldable pub split_by_cell : ℕ → ℕ → ℕ → ℕ → List QuickMatch → List QuickMatch × List QuickMatch
unfolding skips
split_by_cell area cell mode exclude [] = ([], [])
split_by_cell area cell mode exclude (m ∷ ms) =
    let (same, other) = split_by_cell area cell mode exclude ms in
    if skips area mode exclude m
    then (same, other)
    else if m.cell_id == cell
    then (m ∷ same, other)
    else (same, m ∷ other)

-- A limit of at most 0 is no limit; a negative one is written 0 here.
unfoldable pub limited : ℕ → List QuickMatch → List QuickMatch
limited limit out = if ltb 0 limit && ltb limit (length out) then take limit out else out

module _ (order : List QuickMatch → List QuickMatch) where
  unfoldable pub search : ℕ → ℕ → ℕ → ℕ → ℕ → List QuickMatch → List QuickMatch
  search area cell mode exclude limit store =
      let (same, other) = split_by_cell area cell mode exclude (order store) in
      limited limit (same ++ other)
