-- ===== src/Signs/Entries.antt =====
-- internal/server/game/sign.go: what the operations of the store do to the ids.
use dso.Base.{ℕ, ◌+◌, ◌≤◌, ◌<◌, ◌≡◌, refl, arith, none, List, [], ◌∷◌, ◌⊎◌, inl, inr}
use dso.Base.Words.{u32}
use dso.QuickMatch.Store.{add_viewer}
use dso.Signs.Store.{
  Sign, SignStore, find_sign, delete_sign, change_sign, add_sign, split_owned, mark_sign_aware,
  set_summoned_by, claim, release, remove_owned_by,
}
use dso.Signs.Service.{mark_found}

-- Every id is between two bounds.
abbrev pub InRange : ℕ → ℕ → List Sign → Type 0
InRange lo hi [] = Unit
InRange lo hi (sg ∷ sgs) = (lo ≤ sg.id) × (sg.id ≤ hi) × InRange lo hi sgs

-- No two signs have one id.
abbrev pub Distinct : List Sign → Type 0
Distinct [] = Unit
Distinct (sg ∷ sgs) = (find_sign sg.id sgs ≡ none) × Distinct sgs

-- The ids of a store were given out from `first` up to its next_id.
pub record IsSignStore (first : ℕ) (s : SignStore) : Type 0 where
  pub started : first ≤ s.next_id + 1
  pub in_range : InRange first s.next_id s.by_id
  pub distinct : Distinct s.by_id

find-delete :
    (id k : ℕ) (sgs : List Sign) → find_sign id sgs ≡ none → find_sign id (delete_sign k sgs) ≡ none
unfolding find_sign delete_sign
find-delete id k [] h = refl
find-delete id k (sg ∷ sgs) h = grind (arith, find-delete id k sgs)

InRange-delete :
    (lo hi k : ℕ) (sgs : List Sign) → InRange lo hi sgs → InRange lo hi (delete_sign k sgs)
unfolding delete_sign
InRange-delete lo hi k [] h = h
InRange-delete lo hi k (sg ∷ sgs) h = grind (arith, InRange-delete lo hi k sgs)

Distinct-delete : (k : ℕ) (sgs : List Sign) → Distinct sgs → Distinct (delete_sign k sgs)
unfolding delete_sign
Distinct-delete k [] h = h
Distinct-delete k (sg ∷ sgs) h = grind (arith, Distinct-delete k sgs, find-delete)

pub InRange-widen :
    (lo hi hi2 : ℕ) (sgs : List Sign) → hi ≤ hi2 → InRange lo hi sgs → InRange lo hi2 sgs
InRange-widen lo hi hi2 [] e h = h
InRange-widen lo hi hi2 (sg ∷ sgs) e (a, b, c) = (a, omega arith, InRange-widen lo hi hi2 sgs e c)

-- An id above the range is not there.
find-above :
    (lo hi id : ℕ) (sgs : List Sign) → hi < id → InRange lo hi sgs → find_sign id sgs ≡ none
unfolding find_sign
find-above lo hi id [] e h = refl
find-above lo hi id (sg ∷ sgs) e (a, b, c) = grind (arith, find-above lo hi id sgs)

module _ (f : Sign → Sign) (keeps : (sg : Sign) → (f sg).id ≡ sg.id) where
  find-change :
      (id k : ℕ) (sgs : List Sign)
      → find_sign id sgs ≡ none
      → find_sign id (change_sign k f sgs) ≡ none
  unfolding find_sign change_sign
  find-change id k [] h = refl
  find-change id k (sg ∷ sgs) h = grind (arith, find-change id k sgs, keeps sg)

  InRange-change :
      (lo hi k : ℕ) (sgs : List Sign) → InRange lo hi sgs → InRange lo hi (change_sign k f sgs)
  unfolding change_sign
  InRange-change lo hi k [] h = h
  InRange-change lo hi k (sg ∷ sgs) h = grind (arith, InRange-change lo hi k sgs, keeps sg)

  Distinct-change : (k : ℕ) (sgs : List Sign) → Distinct sgs → Distinct (change_sign k f sgs)
  unfolding change_sign
  Distinct-change k [] h = h
  Distinct-change k (sg ∷ sgs) h = grind (arith, Distinct-change k sgs, find-change, keeps sg)

  change-IsSignStore :
      (first k : ℕ) (s : SignStore)
      → IsSignStore first s
      → IsSignStore first (record s { by_id = change_sign k f s.by_id })
  change-IsSignStore first k s v = record {
    started = v.started;
    in_range = InRange-change first s.next_id k s.by_id v.in_range;
    distinct = Distinct-change k s.by_id v.distinct;
  }

pub delete-IsSignStore :
    (first k : ℕ) (s : SignStore)
    → IsSignStore first s
    → IsSignStore first (record s { by_id = delete_sign k s.by_id })
delete-IsSignStore first k s v = record {
  started = v.started;
  in_range = InRange-delete first s.next_id k s.by_id v.in_range;
  distinct = Distinct-delete k s.by_id v.distinct;
}

pub add_sign-IsSignStore :
    (first : ℕ) (sg : Sign) (s : SignStore)
    → s.next_id + 1 < 4294967296
    → IsSignStore first s
    → IsSignStore first (add_sign sg s).0
      × ((add_sign sg s).0.next_id ≡ s.next_id + 1)
      × ((add_sign sg s).1 ≡ s.next_id + 1)
      × (find_sign (s.next_id + 1) s.by_id ≡ none)
unfolding add_sign
add_sign-IsSignStore first sg s small v =
    let same : u32 (s.next_id + 1) ≡ s.next_id + 1 = omega arith in
    let unused = find-above first s.next_id (s.next_id + 1) s.by_id (omega arith) v.in_range in
    (
      rw same (record {
        started = omega (arith, v.started);
        in_range = (
          v.started,
          omega arith,
          InRange-widen first s.next_id (s.next_id + 1) _ (omega arith)
              (InRange-delete first s.next_id (s.next_id + 1) s.by_id v.in_range),
        );
        distinct = (
          find-delete (s.next_id + 1) (s.next_id + 1) s.by_id unused,
          Distinct-delete (s.next_id + 1) s.by_id v.distinct,
        );
      }),
      same,
      same,
      unused,
    )

find-split_owned :
    (id player : ℕ) (sgs : List Sign)
    → find_sign id sgs ≡ none
    → find_sign id (split_owned player sgs).1 ≡ none
unfolding find_sign split_owned
find-split_owned id player [] h = refl
find-split_owned id player (sg ∷ sgs) h = grind (arith, find-split_owned id player sgs)

InRange-split_owned :
    (lo hi player : ℕ) (sgs : List Sign)
    → InRange lo hi sgs
    → InRange lo hi (split_owned player sgs).1
unfolding split_owned
InRange-split_owned lo hi player [] h = h
InRange-split_owned lo hi player (sg ∷ sgs) h = grind (arith, InRange-split_owned lo hi player sgs)

Distinct-split_owned :
    (player : ℕ) (sgs : List Sign) → Distinct sgs → Distinct (split_owned player sgs).1
unfolding split_owned
Distinct-split_owned player [] h = h
Distinct-split_owned player (sg ∷ sgs) h =
    grind (arith, Distinct-split_owned player sgs, find-split_owned)

pub remove_owned_by-IsSignStore :
    (order : List Sign → List Sign) (first player : ℕ) (s : SignStore)
    → IsSignStore first s
    → IsSignStore first (remove_owned_by order player s).0
unfolding remove_owned_by
remove_owned_by-IsSignStore order first player s v = record {
  started = v.started;
  in_range = InRange-split_owned first s.next_id player s.by_id v.in_range;
  distinct = Distinct-split_owned player s.by_id v.distinct;
}

pub set_summoned_by-IsSignStore :
    (first id player : ℕ) (s : SignStore)
    → IsSignStore first s
    → IsSignStore first (set_summoned_by id player s)
unfolding set_summoned_by
set_summoned_by-IsSignStore first id player s v =
    change-IsSignStore (λ sg. record sg { summoned_by = player }) (λ sg. refl) first id s v

pub release-IsSignStore :
    (first id : ℕ) (s : SignStore) → IsSignStore first s → IsSignStore first (release id s)
unfolding release
release-IsSignStore first id s v = set_summoned_by-IsSignStore first id 0 s v

-- A claim changes the store by set_summoned_by or not at all.
pub claim_store :
    (id player : ℕ) (s : SignStore)
    → ((claim id player s).0 ≡ s) ⊎ ((claim id player s).0 ≡ set_summoned_by id player s)
unfolding claim
claim_store id player s = ground arith

pub claim-IsSignStore :
    (first id player : ℕ) (s : SignStore)
    → IsSignStore first s
    → IsSignStore first (claim id player s).0
claim-IsSignStore first id player s v = elim (claim_store id player s) [
  | inl e ↦ rw e v
  | inr e ↦ rw e (set_summoned_by-IsSignStore first id player s v)
]

pub mark_found-IsSignStore :
    (first viewer : ℕ) (found : List Sign) (s : SignStore)
    → IsSignStore first s
    → IsSignStore first (mark_found viewer found s)
unfolding mark_found mark_sign_aware
mark_found-IsSignStore first viewer [] s v = v
mark_found-IsSignStore first viewer (sg ∷ found) s v = mark_found-IsSignStore first viewer found _ (
    change-IsSignStore (λ x. record x { aware_of = add_viewer viewer x.aware_of }) (λ x. refl) first
      sg.id s v)

-- A store whose ids were given out from `first` up to at most n.
pub record StoreAt (first n : ℕ) (s : SignStore) : Type 0 where
  pub is_store : IsSignStore first s
  pub bound : s.next_id ≤ n

pub claim-next_id : (id player : ℕ) (s : SignStore) → (claim id player s).0.next_id ≡ s.next_id
unfolding claim set_summoned_by
claim-next_id id player s = ground arith

pub mark_found-next_id :
    (viewer : ℕ) (found : List Sign) (s : SignStore)
    → (mark_found viewer found s).next_id ≡ s.next_id
unfolding mark_found mark_sign_aware
mark_found-next_id viewer [] s = refl
mark_found-next_id viewer (sg ∷ found) s = mark_found-next_id viewer found _
