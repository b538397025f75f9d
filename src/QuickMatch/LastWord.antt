-- ===== src/QuickMatch/LastWord.antt =====
-- internal/server/game/quickmatch.go: the service as one registration for each player, the last that
-- the player made.
use dso.Base.{
  ℕ, ◌≡◌, ◌≢◌, refl, sym, ap, ◌∙◌, arith, ◌==◌, if◌then◌else◌, Option, none, some, List, [], ◌∷◌,
  eq→==, ne→==_false, ◌⊎◌, inl, inr,
}
use dso.Matchmaking.Status.{MatchingParameter}
use dso.QuickMatch.Store.{QuickMatch, get, put, delete, mark_aware}
use dso.QuickMatch.Handlers.{
  ClientSession, Request, Service, Outgoing, mark_all, registration, respond,
  handle_register_quick_match, handle_unregister_quick_match, handle_update_quick_match,
  handle_search_quick_match, handle_join_quick_match, handle_reject_quick_match,
}
use dso.QuickMatch.Registrations.{
  get-delete_same, get-delete_other, get-put, get-mark_aware_same, get-mark_aware_other,
  mark_aware-none,
}
use dso.QuickMatch.Requests.{
  Event, register, unregister, update, look, join, reject, depart, connected, step, run,
  register-quick_match, join-quick_match, reject-quick_match, drop-quick_match,
}

-- What a registration says: the account, the area, the cell, the mode and the matching parameter.
abbrev pub Registration : Type 0
Registration = List ℕ × ℕ × ℕ × ℕ × Option MatchingParameter

abbrev pub entry : Option QuickMatch → Option Registration
entry none = none
entry (some m) = some (m.psn_id, m.area_id, m.cell_id, m.mode, m.matching)

-- The entry that a player's request makes.
abbrev pub asked : ClientSession → Request → Option Registration
asked cs req =
    some (cs.account_id, req.online_area_id, req.cell_id, req.mode, req.matching_parameter)

-- What an event makes of the entry of one player. Registering and searching set it, unregistering and
-- leaving clear it, for the player who does it only, and nothing else changes it.
unfoldable pub last_word : ℕ → Event → Option Registration → Option Registration
last_word id (register cs (some req)) e = if cs.player_id == id then asked cs req else e
last_word id (look cs (some req)) e = if cs.player_id == id then asked cs req else e
last_word id (unregister cs (some req)) e = if cs.player_id == id then none else e
last_word id (depart player) e = if player == id then none else e
last_word id (register cs none) e = e
last_word id (look cs none) e = e
last_word id (unregister cs none) e = e
last_word id (update cs req) e = e
last_word id (join cs req) e = e
last_word id (reject cs req) e = e
last_word id (connected sessions) e = e

unfoldable pub last_words : ℕ → List Event → Option Registration → Option Registration
last_words id [] e = e
last_words id (x ∷ xs) e = last_words id xs (last_word id x e)

id-cases : (a b : ℕ) → (a ≡ b) ⊎ (a ≢ b)
id-cases a b = ground arith

get-cases : (o : Option QuickMatch) → ((m : QuickMatch) × (o ≡ some m)) ⊎ (o ≡ none)
get-cases none = inr refl
get-cases (some m) = inl (m, refl)

entry-delete :
    (id other : ℕ) (ms : List QuickMatch)
    → entry (get id (delete other ms)) ≡ (if other == id then none else entry (get id ms))
entry-delete id other ms = elim (id-cases other id) [
  | inl e ↦ rw (e, eq→== id id refl, get-delete_same id ms) refl
  | inr n ↦ rw (ne→==_false other id n, get-delete_other id other ms (λ k. n (sym k))) refl
]

entry-put :
    (id : ℕ) (cs : ClientSession) (req : Request) (ms : List QuickMatch)
    → entry (get id (put (registration cs req) ms))
      ≡ (if cs.player_id == id then asked cs req else entry (get id ms))
unfolding registration
entry-put id cs req ms = elim (id-cases cs.player_id id) [
  | inl e ↦ rw (eq→== cs.player_id id e) (
      ap (λ i. entry (get i (put (registration cs req) ms))) (sym e)
      ∙ ap entry (get-put (registration cs req) ms id).0)
  | inr n ↦
      rw (ne→==_false cs.player_id id n)
        (ap entry ((get-put (registration cs req) ms id).1 (λ k. n (sym k))))
]

entry-mark_aware :
    (id other viewer : ℕ) (ms : List QuickMatch)
    → entry (get id (mark_aware other viewer ms)) ≡ entry (get id ms)
entry-mark_aware id other viewer ms = elim (id-cases id other) [
  | inr n ↦ ap entry (get-mark_aware_other id other viewer ms n)
  | inl e ↦ elim (get-cases (get id ms)) [
    | inl (m, h) ↦ rw (sym e, get-mark_aware_same id viewer ms m h, h) refl
    | inr h ↦ rw (mark_aware-none id other viewer ms h, h) refl
  ]
]

entry-mark_all :
    (found : List QuickMatch) (id viewer : ℕ) (ms : List QuickMatch)
    → entry (get id (mark_all found viewer ms)) ≡ entry (get id ms)
unfolding mark_all
entry-mark_all [] id viewer ms = refl
entry-mark_all (m ∷ found) id viewer ms =
    entry-mark_all found id viewer _ ∙ entry-mark_aware id m.player_id viewer ms

module _ (order : List QuickMatch → List QuickMatch) (marshal : Outgoing → Option (List ℕ)) where
  entry-step :
      (e : Event) (id : ℕ) (s : Service)
      → entry (get id (step order marshal e s).quick_match)
        ≡ last_word id e (entry (get id s.quick_match))
  unfolding step last_word
  entry-step (register cs none) id s = unfold handle_register_quick_match in refl
  entry-step (register cs (some req)) id s =
      rw (register-quick_match order marshal cs req s) (entry-put id cs req s.quick_match)
  entry-step (unregister cs none) id s = unfold handle_unregister_quick_match in refl
  entry-step (unregister cs (some req)) id s =
      unfold handle_unregister_quick_match in
      unfold respond in
      rw (drop-quick_match order marshal cs.player_id s)
        (entry-delete id cs.player_id s.quick_match)
  entry-step (update cs none) id s = unfold handle_update_quick_match in refl
  entry-step (update cs (some req)) id s =
      unfold handle_update_quick_match in unfold respond in refl
  entry-step (look cs none) id s = unfold handle_search_quick_match in refl
  entry-step (look cs (some req)) id s =
      unfold handle_search_quick_match in
      unfold respond in entry-mark_all _ id cs.player_id _ ∙ entry-put id cs req s.quick_match
  entry-step (join cs none) id s = unfold handle_join_quick_match in refl
  entry-step (join cs (some req)) id s =
      ap (λ ms. entry (get id ms)) (join-quick_match order marshal cs req s)
  entry-step (reject cs none) id s = unfold handle_reject_quick_match in refl
  entry-step (reject cs (some req)) id s =
      ap (λ ms. entry (get id ms)) (reject-quick_match order marshal cs req s)
  entry-step (depart player) id s =
      rw (drop-quick_match order marshal player s) (entry-delete id player s.quick_match)
  entry-step (connected sessions) id s = refl

  -- After any sequence of requests, departures and changes of the sessions, in whatever order a search
  -- ranges over the registrations and whatever fails to be marshalled, each player's registration is
  -- the one of the player's own last event that bears on it: with the account of the session and the
  -- area, the cell, the mode and the parameter of the request after a registration or a search that
  -- parses, none after a departure or an unregistration that parses, and the old one if there was no
  -- such event. An update, a join, a rejection, a request that fails to parse and all that other
  -- players do leave it as it was.
  pub get-run :
      (es : List Event) (id : ℕ) (s : Service)
      → entry (get id (run order marshal es s).quick_match)
        ≡ last_words id es (entry (get id s.quick_match))
  unfolding run last_words
  get-run [] id s = refl
  get-run (e ∷ es) id s =
      get-run es id (step order marshal e s) ∙ ap (last_words id es) (entry-step e id s)
