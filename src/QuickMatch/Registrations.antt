-- ===== src/QuickMatch/Registrations.antt =====
-- internal/server/game/quickmatch.go: the entries of the players in the store.
use dso.Base.{
  ◌∙◌, ap, sym, ℕ, ◌≡◌, ◌≢◌, refl, arith, none, some, List, [], ◌∷◌, inl, inr, eq→==, ne→==_false,
  ◌⊎◌,
}
use mathlib.Core.Option.{some_inj, some-ne-none}
use dso.QuickMatch.Store.{QuickMatch, get, delete, audience, put, mark_aware, add_viewer}

id-cases : (a b : ℕ) → (a ≡ b) ⊎ (a ≢ b)
id-cases a b = ground arith

pub get_nil : (id : ℕ) → get id [] ≡ none
unfolding get
get_nil id = refl

pub get_hit :
    (id : ℕ) (m : QuickMatch) (ms : List QuickMatch) → m.player_id ≡ id → get id (m ∷ ms) ≡ some m
unfolding get
get_hit id m ms e = rw (eq→== m.player_id id e) refl

pub get_miss :
    (id : ℕ) (m : QuickMatch) (ms : List QuickMatch)
    → m.player_id ≢ id
    → get id (m ∷ ms) ≡ get id ms
unfolding get
get_miss id m ms e = rw (ne→==_false m.player_id id e) refl

delete_hit :
    (id : ℕ) (m : QuickMatch) (ms : List QuickMatch)
    → m.player_id ≡ id
    → delete id (m ∷ ms) ≡ delete id ms
unfolding delete
delete_hit id m ms e = rw (eq→== m.player_id id e) refl

delete_miss :
    (id : ℕ) (m : QuickMatch) (ms : List QuickMatch)
    → m.player_id ≢ id
    → delete id (m ∷ ms) ≡ m ∷ delete id ms
unfolding delete
delete_miss id m ms e = rw (ne→==_false m.player_id id e) refl

pub get-delete_same : (id : ℕ) (ms : List QuickMatch) → get id (delete id ms) ≡ none
get-delete_same id [] = unfold get in unfold delete in refl
get-delete_same id (m ∷ ms) = elim (id-cases m.player_id id) [
  | inl e ↦ rw (delete_hit id m ms e) (get-delete_same id ms)
  | inr n ↦ rw (delete_miss id m ms n, get_miss id m (delete id ms) n) (get-delete_same id ms)
]

pub get-delete_other :
    (id other : ℕ) (ms : List QuickMatch) → id ≢ other → get id (delete other ms) ≡ get id ms
get-delete_other id other [] n = unfold delete in refl
get-delete_other id other (m ∷ ms) n = elim (id-cases m.player_id other) [
  | inl e ↦
      rw (delete_hit other m ms e, get_miss id m ms (λ k. ground arith))
        (get-delete_other id other ms n)
  | inr k ↦ elim (id-cases m.player_id id) [
    | inl e ↦
        rw (delete_miss other m ms k, get_hit id m ms e, get_hit id m (delete other ms) e) refl
    | inr j ↦
        rw (delete_miss other m ms k, get_miss id m ms j, get_miss id m (delete other ms) j)
          (get-delete_other id other ms n)
  ]
]

-- Registering replaces a player's registration, keeps those who had seen the old one as the audience
-- of the new one, and leaves every other player's registration alone.
pub get-put :
    (m : QuickMatch) (store : List QuickMatch) (other : ℕ)
    → (get m.player_id (put m store)
        ≡ some (record m { aware_of = audience (get m.player_id store) }))
      × (other ≢ m.player_id → get other (put m store) ≡ get other store)
unfolding put
get-put m store other = (
  get_hit m.player_id _ _ refl,
  λ n.
      rw
        (get_miss other (record m { aware_of = audience (get m.player_id store) })
          (delete m.player_id store) (λ e. ground arith))
        (get-delete_other other m.player_id store n),
)

-- Marking changes the audience of one registration only.
abbrev pub seen_by : ℕ → QuickMatch → QuickMatch
seen_by viewer m = record m { aware_of = add_viewer viewer m.aware_of }

mark_hit :
    (id viewer : ℕ) (m : QuickMatch) (ms : List QuickMatch)
    → m.player_id ≡ id
    → mark_aware id viewer (m ∷ ms) ≡ seen_by viewer m ∷ mark_aware id viewer ms
unfolding mark_aware
mark_hit id viewer m ms e = rw (eq→== m.player_id id e) refl

mark_miss :
    (id viewer : ℕ) (m : QuickMatch) (ms : List QuickMatch)
    → m.player_id ≢ id
    → mark_aware id viewer (m ∷ ms) ≡ m ∷ mark_aware id viewer ms
unfolding mark_aware
mark_miss id viewer m ms e = rw (ne→==_false m.player_id id e) refl

pub get-mark_aware_same :
    (id viewer : ℕ) (ms : List QuickMatch) (m : QuickMatch)
    → get id ms ≡ some m
    → get id (mark_aware id viewer ms) ≡ some (seen_by viewer m)
get-mark_aware_same id viewer [] m e = absurd (some-ne-none _ (sym e ∙ get_nil id))
get-mark_aware_same id viewer (x ∷ ms) m e = elim (id-cases x.player_id id) [
  | inl h ↦ rw (mark_hit id viewer x ms h) (
      get_hit id (seen_by viewer x) _ h
      ∙ ap (λ q. some (seen_by viewer q)) (some_inj.0 (sym (get_hit id x ms h) ∙ e)))
  | inr n ↦
      rw (mark_miss id viewer x ms n, get_miss id x (mark_aware id viewer ms) n)
        (get-mark_aware_same id viewer ms m (rw (get_miss id x ms n) at e))
]

pub get-mark_aware_other :
    (id other viewer : ℕ) (ms : List QuickMatch)
    → id ≢ other
    → get id (mark_aware other viewer ms) ≡ get id ms
get-mark_aware_other id other viewer [] n = unfold mark_aware in refl
get-mark_aware_other id other viewer (x ∷ ms) n = elim (id-cases x.player_id other) [
  | inl h ↦
      rw
        (
          mark_hit other viewer x ms h,
          get_miss id x ms (λ k. ground arith),
          get_miss id (seen_by viewer x) (mark_aware other viewer ms) (λ k. ground arith),
        )
        (get-mark_aware_other id other viewer ms n)
  | inr m ↦ elim (id-cases x.player_id id) [
    | inl e ↦
        rw
          (
            mark_miss other viewer x ms m,
            get_hit id x ms e,
            get_hit id x (mark_aware other viewer ms) e,
          )
          refl
    | inr j ↦
        rw
          (
            mark_miss other viewer x ms m,
            get_miss id x ms j,
            get_miss id x (mark_aware other viewer ms) j,
          )
          (get-mark_aware_other id other viewer ms n)
  ]
]

pub mark_aware-none :
    (id other viewer : ℕ) (ms : List QuickMatch)
    → get id ms ≡ none
    → get id (mark_aware other viewer ms) ≡ none
mark_aware-none id other viewer [] e = unfold mark_aware in e
mark_aware-none id other viewer (x ∷ ms) e = elim (id-cases x.player_id id) [
  | inl h ↦ absurd (some-ne-none x (sym (get_hit id x ms h) ∙ e))
  | inr n ↦ elim (id-cases x.player_id other) [
    | inl h ↦
        rw
          (
            mark_hit other viewer x ms h,
            get_miss id (seen_by viewer x) (mark_aware other viewer ms) n,
          )
          (mark_aware-none id other viewer ms (rw (get_miss id x ms n) at e))
    | inr k ↦
        rw (mark_miss other viewer x ms k, get_miss id x (mark_aware other viewer ms) n)
          (mark_aware-none id other viewer ms (rw (get_miss id x ms n) at e))
  ]
]
