-- ===== src/Signs/Removal.antt =====
-- internal/server/game/sign.go: who is told that a sign is gone.
use dso.Base.{
  true, ◌==◌, eq→==, ne→==_false, ℕ, ◌≡◌, ◌≢◌, ap, sym, ◌∙◌, arith, some, List, [], ◌∷◌, Elem,
  Elem-append_right, inl, inr, ◌⊎◌, Bool-cases,
}
use dso.QuickMatch.Store.{contains, add_viewer}
use dso.QuickMatch.Handlers.{ClientSession, session_for_player}
use dso.QuickMatch.Viewers.{
  contains-add_viewer, contains-add_other, contains_nil, contains_tail, session_for_player_id,
}
use dso.Signs.Store.{Sign, SignStore, change_sign, mark_sign_aware}
use dso.Signs.Service.{Service, push_to, tell_one, tell_aware, mark_found}
use dso.Signs.Pushes.{tell_one-Pushed, tell_aware-Pushed}

-- A sign that is there, with what a removal push says of it; and one that a viewer has seen.
abbrev pub Present : Sign → List Sign → Type 0
Present sg sgs = (x : Sign) × Elem x sgs × (x.id ≡ sg.id) × (x.owner_id ≡ sg.owner_id)

abbrev pub Seen : ℕ → Sign → List Sign → Type 0
Seen viewer sg sgs =
    (x : Sign) × Elem x sgs
    × (x.id ≡ sg.id)
    × (x.owner_id ≡ sg.owner_id)
    × (contains viewer x.aware_of ≡ true)

abbrev seen_by : ℕ → Sign → Sign
seen_by viewer sg = record sg { aware_of = add_viewer viewer sg.aware_of }

id-cases : (a b : ℕ) → (a ≡ b) ⊎ (a ≢ b)
id-cases a b = ground arith

-- A write through a pointer reaches a sign or leaves it as it is.
Elem-change :
    (id : ℕ) (f : Sign → Sign) (sgs : List Sign) (x : Sign)
    → Elem x sgs
    → ((x.id ≡ id) × Elem (f x) (change_sign id f sgs))
      ⊎ ((x.id ≢ id) × Elem x (change_sign id f sgs))
unfolding change_sign
Elem-change id f [] x h = absurd h
Elem-change id f (y ∷ sgs) x (inl e) = elim (id-cases y.id id) [
  | inl k ↦ inl (ap Sign.id e ∙ k, rw (eq→== y.id id k) (inl (ap f e)))
  | inr n ↦ inr (λ k. n (sym (ap Sign.id e) ∙ k), rw (ne→==_false y.id id n) (inl e))
]
Elem-change id f (y ∷ sgs) x (inr h) = elim (Bool-cases (y.id == id)) [
  | inl e ↦
      rw e (elim (Elem-change id f sgs x h) [
        | inl a ↦ inl (a.0, inr a.1)
        | inr b ↦ inr (b.0, inr b.1)
      ])
  | inr e ↦
      rw e (elim (Elem-change id f sgs x h) [
        | inl a ↦ inl (a.0, inr a.1)
        | inr b ↦ inr (b.0, inr b.1)
      ])
]

mark_sign_aware-Present :
    (sg : Sign) (id viewer : ℕ) (sgs : List Sign)
    → Present sg sgs
    → Present sg (change_sign id (seen_by viewer) sgs)
mark_sign_aware-Present sg id viewer sgs (x, h, a, b) =
    elim (Elem-change id (seen_by viewer) sgs x h) [
      | inl k ↦ (seen_by viewer x, k.1, a, b)
      | inr k ↦ (x, k.1, a, b)
    ]

mark_sign_aware-Seen :
    (v : ℕ) (sg : Sign) (id viewer : ℕ) (sgs : List Sign)
    → Seen v sg sgs
    → Seen v sg (change_sign id (seen_by viewer) sgs)
mark_sign_aware-Seen v sg id viewer sgs (x, h, a, b, c) =
    elim (Elem-change id (seen_by viewer) sgs x h) [
      | inl k ↦ (seen_by viewer x, k.1, a, b, contains-add_other viewer v x.aware_of c)
      | inr k ↦ (x, k.1, a, b, c)
    ]

mark_sign_aware_sees :
    (sg : Sign) (viewer : ℕ) (sgs : List Sign)
    → Present sg sgs
    → Seen viewer sg (change_sign sg.id (seen_by viewer) sgs)
mark_sign_aware_sees sg viewer sgs (x, h, a, b) =
    elim (Elem-change sg.id (seen_by viewer) sgs x h) [
      | inl k ↦ (seen_by viewer x, k.1, a, b, contains-add_viewer viewer x.aware_of)
      | inr k ↦ absurd (k.0 a)
    ]

mark_found-Seen :
    (v : ℕ) (sg : Sign) (viewer : ℕ) (found : List Sign) (s : SignStore)
    → Seen v sg s.by_id
    → Seen v sg (mark_found viewer found s).by_id
unfolding mark_found mark_sign_aware
mark_found-Seen v sg viewer [] s h = h
mark_found-Seen v sg viewer (x ∷ found) s h =
    mark_found-Seen v sg viewer found _ (mark_sign_aware-Seen v sg x.id viewer s.by_id h)

pub mark_found_sees :
    (sg : Sign) (viewer : ℕ) (found : List Sign) (s : SignStore)
    → Elem sg found
    → Present sg s.by_id
    → Seen viewer sg (mark_found viewer found s).by_id
unfolding mark_found mark_sign_aware
mark_found_sees sg viewer [] s h p = absurd h
mark_found_sees sg viewer (x ∷ found) s (inl e) p =
    mark_found-Seen viewer sg viewer found _
      (rw (ap Sign.id (sym e)) (mark_sign_aware_sees sg viewer s.by_id p))
mark_found_sees sg viewer (x ∷ found) s (inr k) p =
    mark_found_sees sg viewer found _ k (mark_sign_aware-Present sg x.id viewer s.by_id p)

-- The players who saw a sign are told, those who are connected and not its owner.
tell_one_target :
    (own : ℕ) (body : List ℕ) (id : ℕ) (s : Service) (cs : ClientSession)
    → id ≢ own
    → session_for_player id s.sessions ≡ some cs
    → Elem (id, body) (tell_one own body id s).sent
unfolding tell_one push_to
tell_one_target own body id s cs n e =
    rw (ne→==_false id own n, e)
      (Elem-append_right (id, body) s.sent _
        (inl (ap (λ i. (i, body)) (sym (session_for_player_id id s.sessions cs e)))))

pub tell_aware_target :
    (own : ℕ) (body ids : List ℕ) (id : ℕ) (s : Service) (cs : ClientSession)
    → id ≢ own
    → session_for_player id s.sessions ≡ some cs
    → contains id ids ≡ true
    → Elem (id, body) (tell_aware own body ids s).sent
unfolding tell_aware
tell_aware_target own body [] id s cs n e c = absurd (contains_nil id c)
tell_aware_target own body (x ∷ ids) id s cs n e c = elim (id-cases id x) [
  | inl h ↦
      (tell_aware-Pushed own body ids _).sent_more (id, body)
        (rw (sym h) (tell_one_target own body id s cs n e))
  | inr k ↦
      tell_aware_target own body ids id _ cs n
        (ap (session_for_player id) (tell_one-Pushed own body x s).sessions_same ∙ e)
        (contains_tail id x ids k c)
]
