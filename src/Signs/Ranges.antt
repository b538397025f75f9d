-- ===== src/Signs/Ranges.antt =====
-- internal/server/game/sign.go and internal/server/game/mirrorknight.go: the ranges of the ids of both
-- stores.
use dso.Base.{ℕ, ◌+◌, ◌≤◌, ◌<◌, arith, Option, none, some, List}
use dso.Signs.Store.{
  Sign, SignStore, first_sign_id, first_mirror_knight_sign_id, add_sign, remove_sign, claim,
  release, remove_owned_by, set_summoned_by,
}
use dso.Signs.Service.{Service, Answer, mark_found}
use dso.Signs.Entries.{
  StoreAt, delete-IsSignStore, add_sign-IsSignStore, remove_owned_by-IsSignStore,
  release-IsSignStore, claim-IsSignStore, claim-next_id, mark_found-IsSignStore, mark_found-next_id,
}
use dso.Signs.Pushes.{Pushed}

-- The two stores, of which the ids end at a and at b at most.
pub record IsService (a b : ℕ) (s : Service) : Type 0 where
  pub signs_at : StoreAt first_sign_id a s.signs
  pub mirror_at : StoreAt first_mirror_knight_sign_id b s.mirror_knight

pub StoreAt-widen : (first n : ℕ) (s : SignStore) → StoreAt first n s → StoreAt first (n + 1) s
StoreAt-widen first n s v = record { is_store = v.is_store; bound = omega (arith, v.bound) }

pub add_sign-StoreAt :
    (first n : ℕ) (sg : Sign) (s : SignStore)
    → n + 1 < 4294967296
    → StoreAt first n s
    → StoreAt first (n + 1) (add_sign sg s).0
add_sign-StoreAt first n sg s small v =
    let (is_store, next, _, _) =
      add_sign-IsSignStore first sg s (omega (arith, v.bound)) v.is_store in
    record { is_store = is_store; bound = omega (arith, next, v.bound) }

pub delete-StoreAt :
    (first n k : ℕ) (s : SignStore) → StoreAt first n s → StoreAt first n (remove_sign k s).0
unfolding remove_sign
delete-StoreAt first n k s v = record {
  is_store = delete-IsSignStore first k s v.is_store;
  bound = v.bound;
}

pub claim-StoreAt :
    (first n id player : ℕ) (s : SignStore)
    → StoreAt first n s
    → StoreAt first n (claim id player s).0
claim-StoreAt first n id player s v = record {
  is_store = claim-IsSignStore first id player s v.is_store;
  bound = rw (claim-next_id id player s) v.bound;
}

pub release-StoreAt :
    (first n id : ℕ) (s : SignStore) → StoreAt first n s → StoreAt first n (release id s)
release-StoreAt first n id s v = record {
  is_store = release-IsSignStore first id s v.is_store;
  bound = unfold release set_summoned_by in v.bound;
}

pub mark_found-StoreAt :
    (first n viewer : ℕ) (found : List Sign) (s : SignStore)
    → StoreAt first n s
    → StoreAt first n (mark_found viewer found s)
mark_found-StoreAt first n viewer found s v = record {
  is_store = mark_found-IsSignStore first viewer found s v.is_store;
  bound = rw (mark_found-next_id viewer found s) v.bound;
}

pub Pushed-IsService : (a b : ℕ) (s t : Service) → Pushed s t → IsService a b s → IsService a b t
Pushed-IsService a b s t p v = record {
  signs_at = rw p.signs_same v.signs_at;
  mirror_at = rw p.mirror_same v.mirror_at;
}

pub IsService-mono : (a b c d : ℕ) (s : Service) → a ≤ c → b ≤ d → IsService a b s → IsService c d s
IsService-mono a b c d s h k v = record {
  signs_at = record { is_store = v.signs_at.is_store; bound = omega (arith, v.signs_at.bound) };
  mirror_at = record { is_store = v.mirror_at.is_store; bound = omega (arith, v.mirror_at.bound) };
}

pub IsService-widen : (a b : ℕ) (s : Service) → IsService a b s → IsService (a + 1) (b + 1) s
IsService-widen a b s v = IsService-mono a b (a + 1) (b + 1) s (omega arith) (omega arith) v

pub remove_owned_by-StoreAt :
    (order : List Sign → List Sign) (first n player : ℕ) (s : SignStore)
    → StoreAt first n s
    → StoreAt first n (remove_owned_by order player s).0
remove_owned_by-StoreAt order first n player s v = record {
  is_store = remove_owned_by-IsSignStore order first player s v.is_store;
  bound = unfold remove_owned_by in v.bound;
}

-- The answer of a handler that ends in one of two ways.
pub Option-IsService :
    {A : Type 0} (a b : ℕ) (o : Option A) (x : Answer) (k : A → Answer)
    → IsService a b x.0
    → ((y : A) → IsService a b (k y).0)
    → IsService a b (elim o as (λ q. Answer) [ none ↦ x | some y ↦ k y ]).0
Option-IsService a b none x k h g = h
Option-IsService a b (some y) x k h g = g y
