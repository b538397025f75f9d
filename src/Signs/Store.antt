-- ===== src/Signs/Store.antt =====
-- internal/server/game/sign.go: the live signs, signStore.
--
-- The map byID is the list of its entries, and `order` stands for the order in which one range goes
-- through them. A sign's pointer to its owner's session is never read and is left out.
use dso.Base.{
  ℕ, ◌+◌, Bool, true, false, not, ◌&&◌, ◌||◌, ltb, leb, ◌==◌, if◌then◌else◌, Option, none, some,
  List, [], ◌∷◌, length,
}
use dso.Base.Words.{u32}
use dso.Matchmaking.Status.{MatchingParameter}
use dso.QuickMatch.Store.{contains, add_viewer}

abbrev pub first_sign_id : ℕ
first_sign_id = 100000

abbrev pub first_mirror_knight_sign_id : ℕ
first_mirror_knight_sign_id = 500000

pub record Sign : Type 0 where
  pub id : ℕ
  pub owner_id : ℕ
  pub area_id : ℕ
  pub cell_id : ℕ
  pub sign_type : ℕ
  pub matching : Option MatchingParameter
  pub player : List ℕ
  pub psn_id : List ℕ
  pub summoned_by : ℕ
  pub aware_of : List ℕ

pub record SignStore : Type 0 where
  pub next_id : ℕ
  pub by_id : List Sign

-- `firstID - 1` in 32 bits.
unfoldable pub new_sign_store_from : ℕ → SignStore
new_sign_store_from first_id = record { next_id = u32 (first_id + 4294967295); by_id = [] }

unfoldable pub find_sign : ℕ → List Sign → Option Sign
find_sign id [] = none
find_sign id (sg ∷ sgs) = let rest = find_sign id sgs in if sg.id == id then some sg else rest

-- `delete(s.byID, id)`.
unfoldable pub delete_sign : ℕ → List Sign → List Sign
delete_sign id [] = []
delete_sign id (sg ∷ sgs) = let rest = delete_sign id sgs in if sg.id == id then rest else sg ∷ rest

-- A write through the pointer that byID holds for an id.
unfoldable pub change_sign : ℕ → (Sign → Sign) → List Sign → List Sign
change_sign id f [] = []
change_sign id f (sg ∷ sgs) =
    let rest = change_sign id f sgs in if sg.id == id then f sg ∷ rest else sg ∷ rest

unfoldable pub add_sign : Sign → SignStore → SignStore × ℕ
add_sign sg s =
    let id = u32 (s.next_id + 1) in
    (
      record {
        next_id = id;
        by_id = record sg { id = id; aware_of = [] } ∷ delete_sign id s.by_id;
      },
      id,
    )

unfoldable pub get_sign : ℕ → SignStore → Option Sign
get_sign id s = find_sign id s.by_id

unfoldable pub remove_sign : ℕ → SignStore → SignStore × Option Sign
remove_sign id s = (record s { by_id = delete_sign id s.by_id }, find_sign id s.by_id)

-- The loop of removeOwnedBy: the signs of the player, and the others.
unfoldable pub split_owned : ℕ → List Sign → List Sign × List Sign
split_owned player [] = ([], [])
split_owned player (sg ∷ sgs) =
    let (owned, other) = split_owned player sgs in
    if sg.owner_id == player then (sg ∷ owned, other) else (owned, sg ∷ other)

unfoldable pub mark_sign_aware : ℕ → ℕ → SignStore → SignStore
mark_sign_aware id player s = record s {
  by_id = change_sign id (λ sg. record sg { aware_of = add_viewer player sg.aware_of }) s.by_id;
}

unfoldable pub set_summoned_by : ℕ → ℕ → SignStore → SignStore
set_summoned_by id player s = record s {
  by_id = change_sign id (λ sg. record sg { summoned_by = player }) s.by_id;
}

-- Whether somebody else has the claim.
unfoldable pub claimed_by_other : ℕ → Sign → Bool
claimed_by_other player sg = not (sg.summoned_by == 0) && not (sg.summoned_by == player)

-- The sign, if there is one, and whether the claim is the caller's now.
unfoldable pub claim : ℕ → ℕ → SignStore → SignStore × (Option Sign × Bool)
claim id player s = elim (find_sign id s.by_id) [
  | none ↦ (s, (none, false))
  | some sg ↦
      (if claimed_by_other player sg
        then (s, (some sg, false))
        else (set_summoned_by id player s, (some (record sg { summoned_by = player }), true)))
]

unfoldable pub release : ℕ → SignStore → SignStore
release id s = set_summoned_by id 0 s

-- The loop of a listing: `n` signs are in the result so far. A limit of at most 0 is no limit; a
-- negative one is written 0 here.
unfoldable pub gather : (Sign → Bool) → ℕ → ℕ → List Sign → List Sign
gather skip limit n [] = []
gather skip limit n (sg ∷ sgs) =
    let more = gather skip limit (n + 1) sgs in
    let rest = gather skip limit n sgs in
    if skip sg then rest else sg ∷ (if ltb 0 limit && leb limit (n + 1) then [] else more)

unfoldable pub out_of_cells : ℕ → List ℕ → ℕ → Sign → Bool
out_of_cells area cells exclude sg =
    (not (sg.area_id == area) || sg.owner_id == exclude)
    || (ltb 0 (length cells) && not (contains sg.cell_id cells))

unfoldable pub own_sign : ℕ → Sign → Bool
own_sign exclude sg = sg.owner_id == exclude

module _ (order : List Sign → List Sign) where
  unfoldable pub all_signs : ℕ → ℕ → SignStore → List Sign
  all_signs exclude limit s = gather (own_sign exclude) limit 0 (order s.by_id)

  unfoldable pub in_cells : ℕ → List ℕ → ℕ → ℕ → SignStore → List Sign
  in_cells area cells exclude limit s =
      gather (out_of_cells area cells exclude) limit 0 (order s.by_id)

  unfoldable pub remove_owned_by : ℕ → SignStore → SignStore × List Sign
  remove_owned_by player s =
      (record s { by_id = (split_owned player s.by_id).1 }, (split_owned player (order s.by_id)).0)
