-- ===== src/Signs/Requests.antt =====
-- internal/server/game/sign.go and internal/server/game/mirrorknight.go: runs of requests and
-- departures, and the ids that the two systems give out.
use dso.Base.{◌-◌, ℕ, ◌+◌, ◌<◌, ◌≡◌, arith, Option, none, some, List, [], ◌∷◌, length}
use dso.QuickMatch.Handlers.{ClientSession}
use dso.Signs.Store.{
  Sign, SignStore, new_sign_store_from, first_sign_id, first_mirror_knight_sign_id,
}
use dso.Signs.Service.{
  Outgoing, Service, CreateRequest, ListRequest, SummonRequest, RejectRequest, respond,
}
use dso.Signs.Handlers.{
  placed_sign, drop_signs_for_player, handle_create_sign, handle_update_sign, handle_remove_sign,
  handle_get_sign_list, handle_summon_sign, handle_reject_sign,
}
use dso.Signs.MirrorKnight.{
  ArenaRequest, arena_sign, drop_mirror_knight_signs_for_player, handle_create_mirror_knight_sign,
  handle_update_mirror_knight_sign, handle_remove_mirror_knight_sign,
  handle_get_mirror_knight_sign_list, handle_summon_mirror_knight_sign,
  handle_reject_mirror_knight_sign,
}
use dso.Signs.Ranges.{IsService-mono, IsService, StoreAt-widen, add_sign-StoreAt, IsService-widen}
use dso.Signs.Entries.{InRange-widen, InRange, Distinct, StoreAt}
use dso.Signs.Steps.{
  remove-IsService, arena_remove-IsService, look-IsService, arena_look-IsService, summon-IsService,
  arena_summon-IsService, reject-IsService, arena_reject-IsService, depart-IsService,
}

-- What changes the state: the requests, which may fail to parse, a player's departure, and sessions
-- that come and go.
pub data Event : Type 0 where
  create : ClientSession → Option CreateRequest → Event
  update remove : ClientSession → Option ℕ → Event
  look : ClientSession → Option ListRequest → Event
  summon : ClientSession → Option SummonRequest → Event
  reject : ClientSession → Option RejectRequest → Event
  arena_create : ClientSession → Option ArenaRequest → Event
  arena_update arena_remove arena_look : ClientSession → Option ℕ → Event
  arena_summon : ClientSession → Option SummonRequest → Event
  arena_reject : ClientSession → Option RejectRequest → Event
  depart : ℕ → Event
  connected : List ClientSession → Event

module _ (order : List Sign → List Sign) (marshal : Outgoing → Option (List ℕ)) where
  unfoldable pub step : Event → Service → Service
  step (create cs req) s = (handle_create_sign order marshal cs req s).0
  step (update cs req) s = (handle_update_sign order marshal cs req s).0
  step (remove cs req) s = (handle_remove_sign order marshal cs req s).0
  step (look cs req) s = (handle_get_sign_list order marshal cs req s).0
  step (summon cs req) s = (handle_summon_sign order marshal cs req s).0
  step (reject cs req) s = (handle_reject_sign order marshal cs req s).0
  step (arena_create cs req) s = (handle_create_mirror_knight_sign order marshal cs req s).0
  step (arena_update cs req) s = (handle_update_mirror_knight_sign order marshal cs req s).0
  step (arena_remove cs req) s = (handle_remove_mirror_knight_sign order marshal cs req s).0
  step (arena_look cs req) s = (handle_get_mirror_knight_sign_list order marshal cs req s).0
  step (arena_summon cs req) s = (handle_summon_mirror_knight_sign order marshal cs req s).0
  step (arena_reject cs req) s = (handle_reject_mirror_knight_sign order marshal cs req s).0
  step (depart player) s =
      drop_mirror_knight_signs_for_player order marshal player
        (drop_signs_for_player order marshal player s)
  step (connected sessions) s = record s { sessions = sessions }

  unfoldable pub run : List Event → Service → Service
  run [] s = s
  run (e ∷ es) s = run es (step e s)

  step-IsService :
      (a b : ℕ) (e : Event) (s : Service)
      → a + 1 < 4294967296
      → b + 1 < 4294967296
      → IsService a b s
      → IsService (a + 1) (b + 1) (step e s)
  unfolding step
  step-IsService a b (create cs none) s h k v = unfold handle_create_sign in IsService-widen a b s v
  step-IsService a b (create cs (some req)) s h k v =
      unfold handle_create_sign respond in
      record {
        signs_at = add_sign-StoreAt first_sign_id a (placed_sign cs req) s.signs h v.signs_at;
        mirror_at = StoreAt-widen first_mirror_knight_sign_id b s.mirror_knight v.mirror_at;
      }
  step-IsService a b (update cs none) s h k v = unfold handle_update_sign in IsService-widen a b s v
  step-IsService a b (update cs (some id)) s h k v =
      unfold handle_update_sign respond in IsService-widen a b s v
  step-IsService a b (remove cs req) s h k v =
      IsService-widen a b _ (remove-IsService order marshal a b cs req s v)
  step-IsService a b (look cs req) s h k v =
      IsService-widen a b _ (look-IsService order marshal a b cs req s v)
  step-IsService a b (summon cs req) s h k v =
      IsService-widen a b _ (summon-IsService order marshal a b cs req s v)
  step-IsService a b (reject cs req) s h k v =
      IsService-widen a b _ (reject-IsService order marshal a b cs req s v)
  step-IsService a b (arena_create cs none) s h k v =
      unfold handle_create_mirror_knight_sign in IsService-widen a b s v
  step-IsService a b (arena_create cs (some req)) s h k v =
      unfold handle_create_mirror_knight_sign respond in
      record {
        signs_at = StoreAt-widen first_sign_id a s.signs v.signs_at;
        mirror_at =
            add_sign-StoreAt first_mirror_knight_sign_id b (arena_sign cs req) s.mirror_knight k
              v.mirror_at;
      }
  step-IsService a b (arena_update cs none) s h k v =
      unfold handle_update_mirror_knight_sign in IsService-widen a b s v
  step-IsService a b (arena_update cs (some id)) s h k v =
      unfold handle_update_mirror_knight_sign respond in IsService-widen a b s v
  step-IsService a b (arena_remove cs req) s h k v =
      IsService-widen a b _ (arena_remove-IsService order marshal a b cs req s v)
  step-IsService a b (arena_look cs req) s h k v =
      IsService-widen a b _ (arena_look-IsService order marshal a b cs req s v)
  step-IsService a b (arena_summon cs req) s h k v =
      IsService-widen a b _ (arena_summon-IsService order marshal a b cs req s v)
  step-IsService a b (arena_reject cs req) s h k v =
      IsService-widen a b _ (arena_reject-IsService order marshal a b cs req s v)
  step-IsService a b (depart player) s h k v =
      IsService-widen a b _ (depart-IsService order marshal a b player s v)
  step-IsService a b (connected sessions) s h k v =
      let w = IsService-widen a b s v in record { signs_at = w.signs_at; mirror_at = w.mirror_at }

  run-IsService :
      (a b : ℕ) (es : List Event) (s : Service)
      → a + length es < 4294967296
      → b + length es < 4294967296
      → IsService a b s
      → IsService (a + length es) (b + length es) (run es s)
  unfolding run
  run-IsService a b [] s h k v = IsService-mono a b (a + 0) (b + 0) s (omega arith) (omega arith) v
  run-IsService a b (e ∷ es) s h k v =
      IsService-mono (a + 1 + length es) (b + 1 + length es) _ _ _ (omega arith) (omega arith) (
        run-IsService (a + 1) (b + 1) es (step e s) (omega arith) (omega arith)
          (step-IsService a b e s (omega arith) (omega arith) v))

  new-IsSignStore :
      (first : ℕ) (s : SignStore)
      → 0 < first
      → first < 4294967296
      → s ≡ new_sign_store_from first
      → StoreAt first (first - 1) s
  unfolding new_sign_store_from
  new-IsSignStore first s p q e = rw e (record {
    is_store = record { started = omega arith; in_range = tt; distinct = tt };
    bound = omega arith;
  })

  -- From two new stores, fewer than 400000 requests, departures and changes of the sessions, in any
  -- order and with requests that fail to parse among them, leave no two summon signs and no two arena
  -- signs with one id. The ids of the summon signs are from 100000 to 499999, and those of the arena
  -- signs are 500000 or more, so that no sign of one system has the id of a sign of the other.
  pub run-disjoint :
      (es : List Event) (s : Service)
      → s.signs ≡ new_sign_store_from first_sign_id
      → s.mirror_knight ≡ new_sign_store_from first_mirror_knight_sign_id
      → length es < 400000
      → let s' = run es s in
        Distinct s'.signs.by_id
        × Distinct s'.mirror_knight.by_id
        × InRange 100000 499999 s'.signs.by_id
        × InRange 500000 4294967295 s'.mirror_knight.by_id
  run-disjoint es s e f short =
      let start : IsService 99999 499999 s = record {
        signs_at = new-IsSignStore first_sign_id s.signs (omega arith) (omega arith) e;
        mirror_at =
            new-IsSignStore first_mirror_knight_sign_id s.mirror_knight (omega arith) (omega arith)
              f;
      } in
      let v = run-IsService 99999 499999 es s (omega arith) (omega arith) start in
      let signs = v.signs_at in
      let arena = v.mirror_at in
      (
        signs.is_store.distinct,
        arena.is_store.distinct,
        InRange-widen 100000 _ 499999 _ (omega (arith, signs.bound)) signs.is_store.in_range,
        InRange-widen 500000 _ 4294967295 _ (omega (arith, arena.bound)) arena.is_store.in_range,
      )
