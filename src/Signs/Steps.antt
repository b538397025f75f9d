-- ===== src/Signs/Steps.antt =====
-- internal/server/game/sign.go and internal/server/game/mirrorknight.go: what each request does to the
-- ranges of the ids.
use dso.Base.{Bool, true, false, ℕ, Option, none, some, List}
use dso.Base.Words.{u32}
use dso.QuickMatch.Handlers.{ClientSession, session_for_player}
use dso.Signs.Store.{
  Sign, SignStore, first_sign_id, first_mirror_knight_sign_id, get_sign, remove_sign, claim,
  release, remove_owned_by,
}
use dso.Signs.Service.{
  Outgoing, push_summon, push_mirror_summon, Service, ListRequest, SummonRequest, RejectRequest,
  respond, sign_has_disappeared, sign_already_used,
}
use dso.Signs.Handlers.{
  push_sign_removed, push_all_removed, summon_for, drop_signs_for_player, handle_remove_sign,
  handle_get_sign_list, summon_claimed, handle_summon_sign, handle_reject_sign,
}
use dso.Signs.MirrorKnight.{
  push_mirror_knight_sign_removed, mirror_summon, drop_mirror_knight_signs_for_player,
  handle_remove_mirror_knight_sign, handle_get_mirror_knight_sign_list, mirror_summon_claimed,
  handle_summon_mirror_knight_sign, handle_reject_mirror_knight_sign,
}
use dso.Signs.Ranges.{
  remove_owned_by-StoreAt, IsService, delete-StoreAt, claim-StoreAt, release-StoreAt,
  mark_found-StoreAt, Pushed-IsService, Option-IsService,
}
use dso.Signs.Entries.{StoreAt}
use dso.Signs.Pushes.{
  Option-Pushed, push_to-Pushed, push_reject_to-Pushed, push_sign_removed-Pushed,
  push_all_removed-Pushed, relay_rejection-Pushed, push_mirror_knight_reject-Pushed,
  push_mirror_knight_sign_removed-Pushed, push_all_mirror_removed-Pushed,
  relay_mirror_rejection-Pushed,
}

module _ (order : List Sign → List Sign) (marshal : Outgoing → Option (List ℕ)) (a b : ℕ) where
  with_signs :
      (s : Service) (st : SignStore)
      → IsService a b s
      → StoreAt first_sign_id a st
      → IsService a b (record s { signs = st })
  with_signs s st v w = record { signs_at = w; mirror_at = v.mirror_at }

  with_mirror :
      (s : Service) (st : SignStore)
      → IsService a b s
      → StoreAt first_mirror_knight_sign_id b st
      → IsService a b (record s { mirror_knight = st })
  with_mirror s st v w = record { signs_at = v.signs_at; mirror_at = w }

  pub remove-IsService :
      (cs : ClientSession) (req : Option ℕ) (s : Service)
      → IsService a b s
      → IsService a b (handle_remove_sign order marshal cs req s).0
  unfolding handle_remove_sign respond
  remove-IsService cs none s v = v
  remove-IsService cs (some id) s v =
      let s' = record s { signs = (remove_sign id s.signs).0 } in
      Pushed-IsService a b s' _
        (Option-Pushed s' (remove_sign id s.signs).1 (λ sg. push_sign_removed order marshal sg s')
          (λ sg. push_sign_removed-Pushed order marshal sg s'))
        (with_signs s (remove_sign id s.signs).0 v
          (delete-StoreAt first_sign_id a id s.signs v.signs_at))

  pub arena_remove-IsService :
      (cs : ClientSession) (req : Option ℕ) (s : Service)
      → IsService a b s
      → IsService a b (handle_remove_mirror_knight_sign order marshal cs req s).0
  unfolding handle_remove_mirror_knight_sign respond
  arena_remove-IsService cs none s v = v
  arena_remove-IsService cs (some id) s v =
      let s' = record s { mirror_knight = (remove_sign (u32 id) s.mirror_knight).0 } in
      Pushed-IsService a b s' _
        (Option-Pushed s' (remove_sign (u32 id) s.mirror_knight).1
          (λ sg. push_mirror_knight_sign_removed order marshal sg s')
          (λ sg. push_mirror_knight_sign_removed-Pushed order marshal sg s'))
        (with_mirror s (remove_sign (u32 id) s.mirror_knight).0 v
          (delete-StoreAt first_mirror_knight_sign_id b (u32 id) s.mirror_knight v.mirror_at))

  pub look-IsService :
      (cs : ClientSession) (req : Option ListRequest) (s : Service)
      → IsService a b s
      → IsService a b (handle_get_sign_list order marshal cs req s).0
  unfolding handle_get_sign_list respond
  look-IsService cs none s v = v
  look-IsService cs (some req) s v = record {
    signs_at = mark_found-StoreAt first_sign_id a cs.player_id _ s.signs v.signs_at;
    mirror_at = v.mirror_at;
  }

  pub arena_look-IsService :
      (cs : ClientSession) (req : Option ℕ) (s : Service)
      → IsService a b s
      → IsService a b (handle_get_mirror_knight_sign_list order marshal cs req s).0
  unfolding handle_get_mirror_knight_sign_list respond
  arena_look-IsService cs none s v = v
  arena_look-IsService cs (some req) s v = record {
    signs_at = v.signs_at;
    mirror_at =
        mark_found-StoreAt first_mirror_knight_sign_id b cs.player_id _ s.mirror_knight v.mirror_at;
  }

  pub summon_claimed-IsService :
      (cs : ClientSession) (req : SummonRequest) (answer : Option Sign × Bool) (s : Service)
      → IsService a b s
      → IsService a b (summon_claimed order marshal cs req answer s).0
  unfolding summon_claimed respond
  summon_claimed-IsService cs req (none, claimed) s v =
      Pushed-IsService a b s _
        (push_reject_to-Pushed order marshal cs 0 req.sign_id sign_has_disappeared s) v
  summon_claimed-IsService cs req (some sg, false) s v =
      Pushed-IsService a b s _
        (push_reject_to-Pushed order marshal cs sg.owner_id req.sign_id sign_already_used s) v
  summon_claimed-IsService cs req (some sg, true) s v =
      let s' = record s { signs = release req.sign_id s.signs } in
      Option-IsService a b (session_for_player sg.owner_id s.sessions) _ _
        (Pushed-IsService a b s' _
          (push_reject_to-Pushed order marshal cs sg.owner_id req.sign_id sign_has_disappeared s')
          (with_signs s (release req.sign_id s.signs) v
            (release-StoreAt first_sign_id a req.sign_id s.signs v.signs_at)))
        (λ host.
          Option-IsService a b (marshal (push_summon (summon_for cs req))) _ _ v
            (λ body. Pushed-IsService a b s _ (push_to-Pushed host body s) v))

  pub mirror_summon_claimed-IsService :
      (cs : ClientSession) (req : SummonRequest) (answer : Option Sign × Bool) (s : Service)
      → IsService a b s
      → IsService a b (mirror_summon_claimed order marshal cs req answer s).0
  unfolding mirror_summon_claimed respond
  mirror_summon_claimed-IsService cs req (none, claimed) s v =
      Pushed-IsService a b s _
        (push_mirror_knight_reject-Pushed order marshal cs 0 req.sign_id sign_has_disappeared s) v
  mirror_summon_claimed-IsService cs req (some sg, false) s v =
      Pushed-IsService a b s _
        (push_mirror_knight_reject-Pushed order marshal cs sg.owner_id req.sign_id sign_already_used
          s)
        v
  mirror_summon_claimed-IsService cs req (some sg, true) s v =
      let store = release req.sign_id s.mirror_knight in
      let s' = record s { mirror_knight = store } in
      Option-IsService a b (session_for_player sg.owner_id s.sessions) _ _
        (Pushed-IsService a b s' _
          (push_mirror_knight_reject-Pushed order marshal cs sg.owner_id req.sign_id
            sign_has_disappeared s')
          (with_mirror s store v (
            release-StoreAt first_mirror_knight_sign_id b req.sign_id s.mirror_knight v.mirror_at)))
        (λ host.
          Option-IsService a b (marshal (push_mirror_summon (mirror_summon cs req))) _ _ v
            (λ body. Pushed-IsService a b s _ (push_to-Pushed host body s) v))

  pub summon-IsService :
      (cs : ClientSession) (req : Option SummonRequest) (s : Service)
      → IsService a b s
      → IsService a b (handle_summon_sign order marshal cs req s).0
  unfolding handle_summon_sign
  summon-IsService cs none s v = v
  summon-IsService cs (some req) s v =
      let (store, answer) = claim req.sign_id cs.player_id s.signs in
      summon_claimed-IsService cs req answer (record s { signs = store })
        (with_signs s store v
          (claim-StoreAt first_sign_id a req.sign_id cs.player_id s.signs v.signs_at))

  pub arena_summon-IsService :
      (cs : ClientSession) (req : Option SummonRequest) (s : Service)
      → IsService a b s
      → IsService a b (handle_summon_mirror_knight_sign order marshal cs req s).0
  unfolding handle_summon_mirror_knight_sign
  arena_summon-IsService cs none s v = v
  arena_summon-IsService cs (some req) s v =
      let (store, answer) = claim req.sign_id cs.player_id s.mirror_knight in
      mirror_summon_claimed-IsService cs req answer (record s { mirror_knight = store })
        (with_mirror s store v (
          claim-StoreAt first_mirror_knight_sign_id b req.sign_id cs.player_id s.mirror_knight
            v.mirror_at))

  pub reject-IsService :
      (cs : ClientSession) (req : Option RejectRequest) (s : Service)
      → IsService a b s
      → IsService a b (handle_reject_sign order marshal cs req s).0
  unfolding handle_reject_sign respond
  reject-IsService cs none s v = v
  reject-IsService cs (some req) s v =
      let sign = u32 req.sign_id in
      let s' = record s { signs = release sign s.signs } in
      Option-IsService a b (get_sign sign s.signs) _ _ v (λ sg.
        Pushed-IsService a b s' _ (relay_rejection-Pushed order marshal sg sign req.error s') (
          with_signs s (release sign s.signs) v
            (release-StoreAt first_sign_id a sign s.signs v.signs_at)))

  pub arena_reject-IsService :
      (cs : ClientSession) (req : Option RejectRequest) (s : Service)
      → IsService a b s
      → IsService a b (handle_reject_mirror_knight_sign order marshal cs req s).0
  unfolding handle_reject_mirror_knight_sign respond
  arena_reject-IsService cs none s v = v
  arena_reject-IsService cs (some req) s v =
      let sign = u32 req.sign_id in
      let store = release sign s.mirror_knight in
      let s' = record s { mirror_knight = store } in
      Option-IsService a b (get_sign sign s.mirror_knight) _ _ v (λ sg.
        Pushed-IsService a b s' _ (relay_mirror_rejection-Pushed order marshal sg sign req.error s')
          (with_mirror s store v
            (release-StoreAt first_mirror_knight_sign_id b sign s.mirror_knight v.mirror_at)))

  pub depart-IsService :
      (player : ℕ) (s : Service)
      → IsService a b s
      → IsService a b (
          drop_mirror_knight_signs_for_player order marshal player
            (drop_signs_for_player order marshal player s))
  unfolding drop_signs_for_player drop_mirror_knight_signs_for_player
  depart-IsService player s v =
      let (store, removed) = remove_owned_by order player s.signs in
      let s1 = record s { signs = store } in
      let s2 = push_all_removed order marshal removed s1 in
      let v2 : IsService a b s2 =
        Pushed-IsService a b s1 s2 (push_all_removed-Pushed order marshal removed s1) (
          with_signs s store v
            (remove_owned_by-StoreAt order first_sign_id a player s.signs v.signs_at)) in
      let (arena, gone) = remove_owned_by order player s2.mirror_knight in
      Pushed-IsService a b (record s2 { mirror_knight = arena }) _
        (push_all_mirror_removed-Pushed order marshal gone (record s2 { mirror_knight = arena }))
        (with_mirror s2 arena v2 (
          remove_owned_by-StoreAt order first_mirror_knight_sign_id b player s2.mirror_knight
            v2.mirror_at))
