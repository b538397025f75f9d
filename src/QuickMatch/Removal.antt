-- ===== src/QuickMatch/Removal.antt =====
-- internal/server/game/quickmatch.go: who is told that a registration is gone.
use dso.Base.{
  ne→==_false, ◌∙◌, sym, ap, ℕ, ◌≡◌, ◌≢◌, ◌↔◌, ◌⊎◌, arith, true, Option, some, List, [], ◌∷◌, Elem,
  Elem-append_left, Elem-append_right, inl, inr,
}
use dso.QuickMatch.Store.{QuickMatch, get, put, delete, remove, contains, mark_aware, search}
use dso.QuickMatch.Handlers.{
  ClientSession, Request, Service, Outgoing, Push, Sent, push_remove, mark_all, respond, send_push,
  push_to_one, push_to_aware, push_quick_match_removed, removal_push, drop_quick_match_for_player,
  handle_search_quick_match, session_for_player, registration,
}
use dso.QuickMatch.Viewers.{
  contains-add_viewer, contains-add_other, contains_nil, contains_tail, session_for_player_id,
}
use dso.QuickMatch.Searching.{search_sound}
use dso.QuickMatch.Registrations.{
  get_hit, get_miss, get-mark_aware_same, get-mark_aware_other, seen_by,
}

-- The player has a registration; and the viewer has seen it.
abbrev Registered : ℕ → List QuickMatch → Type 0
Registered id ms = (m : QuickMatch) × (get id ms ≡ some m)

abbrev SeenBy : ℕ → ℕ → List QuickMatch → Type 0
SeenBy viewer id ms = (m : QuickMatch) × (get id ms ≡ some m) × (contains viewer m.aware_of ≡ true)

id-cases : (a b : ℕ) → (a ≡ b) ⊎ (a ≢ b)
id-cases a b = ground arith

Elem-Registered : (m : QuickMatch) (ms : List QuickMatch) → Elem m ms → Registered m.player_id ms
Elem-Registered m [] h = absurd h
Elem-Registered m (x ∷ ms) h = elim (id-cases x.player_id m.player_id) [
  | inl e ↦ (x, get_hit m.player_id x ms e)
  | inr n ↦ elim h [
    | inl e ↦ absurd (n (ap QuickMatch.player_id (sym e)))
    | inr k ↦ let r = Elem-Registered m ms k in (r.0, get_miss m.player_id x ms n ∙ r.1)
  ]
]

mark_aware-Registered :
    (id other viewer : ℕ) (ms : List QuickMatch)
    → Registered id ms
    → Registered id (mark_aware other viewer ms)
mark_aware-Registered id other viewer ms (m, e) = elim (id-cases id other) [
  | inl h ↦ (
    seen_by viewer m,
    ap (λ o. get id (mark_aware o viewer ms)) (sym h) ∙ get-mark_aware_same id viewer ms m e,
  )
  | inr n ↦ (m, get-mark_aware_other id other viewer ms n ∙ e)
]

mark_aware-SeenBy :
    (v id other viewer : ℕ) (ms : List QuickMatch)
    → SeenBy v id ms
    → SeenBy v id (mark_aware other viewer ms)
mark_aware-SeenBy v id other viewer ms (m, e, c) = elim (id-cases id other) [
  | inl h ↦ (
    seen_by viewer m,
    ap (λ o. get id (mark_aware o viewer ms)) (sym h) ∙ get-mark_aware_same id viewer ms m e,
    contains-add_other viewer v m.aware_of c,
  )
  | inr n ↦ (m, get-mark_aware_other id other viewer ms n ∙ e, c)
]

mark_all-SeenBy :
    (found : List QuickMatch) (v id viewer : ℕ) (ms : List QuickMatch)
    → SeenBy v id ms
    → SeenBy v id (mark_all found viewer ms)
unfolding mark_all
mark_all-SeenBy [] v id viewer ms h = h
mark_all-SeenBy (x ∷ found) v id viewer ms h =
    mark_all-SeenBy found v id viewer _ (mark_aware-SeenBy v id x.player_id viewer ms h)

mark_all_seen :
    (found : List QuickMatch) (m : QuickMatch) (viewer : ℕ) (ms : List QuickMatch)
    → Elem m found
    → Registered m.player_id ms
    → SeenBy viewer m.player_id (mark_all found viewer ms)
unfolding mark_all
mark_all_seen [] m viewer ms h r = absurd h
mark_all_seen (x ∷ found) m viewer ms (inl e) (q, r) =
    mark_all-SeenBy found viewer m.player_id viewer _ (
      rw (ap QuickMatch.player_id (sym e)) (
        seen_by viewer q,
        get-mark_aware_same m.player_id viewer ms q r,
        contains-add_viewer viewer q.aware_of,
      ))
mark_all_seen (x ∷ found) m viewer ms (inr k) r =
    mark_all_seen found m viewer _ k (mark_aware-Registered m.player_id x.player_id viewer ms r)

push_to_one-sent :
    (own : ℕ) (body : List ℕ) (id : ℕ) (s : Service) (x : Sent)
    → Elem x s.sent
    → Elem x (push_to_one own body id s).sent
unfolding push_to_one send_push
push_to_one-sent own body id s x h = grind (arith, Elem-append_left)

push_to_one-sessions :
    (own : ℕ) (body : List ℕ) (id : ℕ) (s : Service)
    → (push_to_one own body id s).sessions ≡ s.sessions
unfolding push_to_one send_push
push_to_one-sessions own body id s = ground arith

push_to_aware-sent :
    (own : ℕ) (body ids : List ℕ) (s : Service) (x : Sent)
    → Elem x s.sent
    → Elem x (push_to_aware own body ids s).sent
unfolding push_to_aware
push_to_aware-sent own body [] s x h = h
push_to_aware-sent own body (id ∷ ids) s x h =
    push_to_aware-sent own body ids _ x (push_to_one-sent own body id s x h)

get_player_id :
    (id : ℕ) (ms : List QuickMatch) (m : QuickMatch) → get id ms ≡ some m → m.player_id ≡ id
unfolding get
get_player_id id [] m e = ground arith
get_player_id id (x ∷ ms) m e = grind (arith, get_player_id id ms m)

push_to_one_target :
    (own : ℕ) (body : List ℕ) (id : ℕ) (s : Service) (cs : ClientSession)
    → id ≢ own
    → session_for_player id s.sessions ≡ some cs
    → Elem (id, body) (push_to_one own body id s).sent
unfolding push_to_one send_push
push_to_one_target own body id s cs n e =
    rw (ne→==_false id own n, e)
      (Elem-append_right (id, body) s.sent _
        (inl (ap (λ i. (i, body)) (sym (session_for_player_id id s.sessions cs e)))))

push_to_aware_target :
    (own : ℕ) (body ids : List ℕ) (id : ℕ) (s : Service) (cs : ClientSession)
    → id ≢ own
    → session_for_player id s.sessions ≡ some cs
    → contains id ids ≡ true
    → Elem (id, body) (push_to_aware own body ids s).sent
unfolding push_to_aware
push_to_aware_target own body [] id s cs n e c = absurd (contains_nil id c)
push_to_aware_target own body (x ∷ ids) id s cs n e c = elim (id-cases id x) [
  | inl h ↦
      push_to_aware-sent own body ids _ (id, body)
        (rw (sym h) (push_to_one_target own body id s cs n e))
  | inr k ↦
      push_to_aware_target own body ids id _ cs n (rw (push_to_one-sessions own body x s) e)
        (contains_tail id x ids k c)
]

module _ (order : List QuickMatch → List QuickMatch) (marshal : Outgoing → Option (List ℕ)) where
  drop_found :
      (id : ℕ) (s : Service) (m : QuickMatch) (body : List ℕ)
      → get id s.quick_match ≡ some m
      → marshal (push_remove (removal_push order marshal m)) ≡ some body
      → drop_quick_match_for_player order marshal id s
        ≡ push_to_aware m.player_id body m.aware_of
            (record s { quick_match = delete id s.quick_match })
  unfolding drop_quick_match_for_player push_quick_match_removed remove
  drop_found id s m body e b = ground arith

  -- The removal of a player whom a viewer has seen tells the viewer.
  drop_tells :
      (viewer id : ℕ) (s : Service) (cs : ClientSession)
      → viewer ≢ id
      → session_for_player viewer s.sessions ≡ some cs
      → ((p : Push) → (body : List ℕ) × (marshal (push_remove p) ≡ some body))
      → SeenBy viewer id s.quick_match
      → (p : Push) × (body : List ℕ) × (marshal (push_remove p) ≡ some body)
        × (p.player_id ≡ id)
        × Elem (viewer, body) (drop_quick_match_for_player order marshal id s).sent
  drop_tells viewer id s cs n live total (m, e, c) =
      let p = removal_push order marshal m in
      let body = (total p).0 in
      let same = get_player_id id s.quick_match m e in
      (
        p,
        body,
        (total p).1,
        (unfold removal_push in same),
        rw (drop_found id s m body e (total p).1) (
            push_to_aware_target m.player_id body m.aware_of viewer
              (record s { quick_match = delete id s.quick_match }) cs (λ k. n (k ∙ same)) live c),
      )

  -- Let a search, in whatever order it ranges over the registrations, return a registration, and let
  -- that player's registration be dropped next, because the player withdraws it or leaves. If the
  -- searcher is still connected then and removal pushes can be marshalled, the searcher is sent one
  -- that names this player.
  pub search-tells :
      ((m : QuickMatch) (ms : List QuickMatch) → Elem m (order ms) ↔ Elem m ms)
      → (cs target : ClientSession) (req : Request) (m : QuickMatch) (s : Service)
      → Elem m (
          search order req.online_area_id req.cell_id req.mode cs.player_id req.max_results
            (put (registration cs req) s.quick_match))
      → session_for_player cs.player_id s.sessions ≡ some target
      → ((p : Push) → (body : List ℕ) × (marshal (push_remove p) ≡ some body))
      → let s' = (handle_search_quick_match order marshal cs (some req) s).0 in
        (p : Push) × (body : List ℕ) × (marshal (push_remove p) ≡ some body)
        × (p.player_id ≡ m.player_id)
        × Elem (cs.player_id, body) (drop_quick_match_for_player order marshal m.player_id s').sent
  unfolding handle_search_quick_match respond
  search-tells reorders cs target req m s found live total =
      let store = put (registration cs req) s.quick_match in
      let all =
        search order req.online_area_id req.cell_id req.mode cs.player_id req.max_results store in
      let sound =
        (search_sound req.online_area_id req.cell_id req.mode cs.player_id order reorders
            req.max_results store).0
          m found in
      let seen = mark_all_seen all m cs.player_id store found (Elem-Registered m store sound.0) in
      drop_tells cs.player_id m.player_id
        (record s { quick_match = mark_all all cs.player_id store }) target
        (λ e. sound.1.other_player (sym e)) live total seen
