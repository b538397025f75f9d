-- ===== src/QuickMatch/Requests.antt =====
-- internal/server/game/quickmatch.go: runs of the service, one request after another.
use dso.Base.{◌∙◌, ℕ, ◌≡◌, refl, arith, Option, some, List, [], ◌∷◌}
use dso.QuickMatch.Store.{QuickMatch, put, remove, delete}
use dso.QuickMatch.Handlers.{
  ClientSession, Request, Service, Outgoing, respond, send_push, push_to_one, push_to_aware,
  push_quick_match_rejected, push_quick_match_removed, auto_pair, drop_quick_match_for_player,
  handle_register_quick_match, handle_unregister_quick_match, handle_update_quick_match,
  handle_search_quick_match, handle_join_quick_match, handle_reject_quick_match, registration,
}

-- What can happen to the service: a request of a session, the end of a player's session, or a new
-- table of sessions.
pub data Event : Type 0 where
  register unregister update look join reject : ClientSession → Option Request → Event
  depart : ℕ → Event
  connected : List ClientSession → Event

push_to_one-quick_match :
    (own : ℕ) (body : List ℕ) (id : ℕ) (s : Service)
    → (push_to_one own body id s).quick_match ≡ s.quick_match
unfolding push_to_one send_push
push_to_one-quick_match own body id s = ground arith

push_to_aware-quick_match :
    (own : ℕ) (body ids : List ℕ) (s : Service)
    → (push_to_aware own body ids s).quick_match ≡ s.quick_match
unfolding push_to_aware
push_to_aware-quick_match own body [] s = refl
push_to_aware-quick_match own body (id ∷ ids) s =
    push_to_aware-quick_match own body ids (push_to_one own body id s)
    ∙ push_to_one-quick_match own body id s

module _ (order : List QuickMatch → List QuickMatch) (marshal : Outgoing → Option (List ℕ)) where
  unfoldable pub step : Event → Service → Service
  step (register cs req) s = (handle_register_quick_match order marshal cs req s).0
  step (unregister cs req) s = (handle_unregister_quick_match order marshal cs req s).0
  step (update cs req) s = (handle_update_quick_match order marshal cs req s).0
  step (look cs req) s = (handle_search_quick_match order marshal cs req s).0
  step (join cs req) s = (handle_join_quick_match order marshal cs req s).0
  step (reject cs req) s = (handle_reject_quick_match order marshal cs req s).0
  step (depart id) s = drop_quick_match_for_player order marshal id s
  step (connected sessions) s = record s { sessions = sessions }

  unfoldable pub run : List Event → Service → Service
  run [] s = s
  run (e ∷ es) s = run es (step e s)

  rejected-quick_match :
      (joiner : ClientSession) (host area cell mode : ℕ) (s : Service)
      → (push_quick_match_rejected order marshal joiner host area cell mode s).quick_match
        ≡ s.quick_match
  unfolding push_quick_match_rejected send_push
  rejected-quick_match joiner host area cell mode s = ground arith

  removed-quick_match :
      (m : QuickMatch) (s : Service)
      → (push_quick_match_removed order marshal m s).quick_match ≡ s.quick_match
  unfolding push_quick_match_removed
  removed-quick_match m s = grind (arith, push_to_aware-quick_match)

  pub drop-quick_match :
      (id : ℕ) (s : Service)
      → (drop_quick_match_for_player order marshal id s).quick_match ≡ delete id s.quick_match
  unfolding drop_quick_match_for_player remove
  drop-quick_match id s = grind (arith, removed-quick_match)

  auto_pair-quick_match :
      (joiner : ClientSession) (area cell mode : ℕ) (s : Service)
      → (auto_pair order marshal joiner area cell mode s).quick_match ≡ s.quick_match
  unfolding auto_pair send_push
  auto_pair-quick_match joiner area cell mode s = ground arith

  pub register-quick_match :
      (cs : ClientSession) (req : Request) (s : Service)
      → (handle_register_quick_match order marshal cs (some req) s).0.quick_match
        ≡ put (registration cs req) s.quick_match
  unfolding handle_register_quick_match respond
  register-quick_match cs req s = grind (arith, auto_pair-quick_match)

  pub join-quick_match :
      (cs : ClientSession) (req : Request) (s : Service)
      → (handle_join_quick_match order marshal cs (some req) s).0.quick_match ≡ s.quick_match
  unfolding handle_join_quick_match respond send_push
  join-quick_match cs req s = grind (arith, rejected-quick_match)

  pub reject-quick_match :
      (cs : ClientSession) (req : Request) (s : Service)
      → (handle_reject_quick_match order marshal cs (some req) s).0.quick_match ≡ s.quick_match
  unfolding handle_reject_quick_match respond
  reject-quick_match cs req s = grind (arith, rejected-quick_match)
