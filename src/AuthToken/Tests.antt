-- ===== src/AuthToken/Tests.antt =====
-- The token registry at concrete inputs.
use dso.Base.{◌≡◌, refl, none, some, List, [], ◌∷◌}
use dso.AuthToken.Registry.{
  ttl_default, new_registry, find, discard, store, add, refresh, lookup, unexpired, prune,
}
use dso.AuthToken.Lifetime.{live}
use dso.AuthToken.Deadlines.{Event, added, looked_up, pruned, passed, step, run, spec_run, nothing}
use dso.AuthToken.Refinement.{key_of, lookup-run}

-- Token 5 is used 20 seconds after it was added, and is still there 40 seconds after that addition;
-- token 6 is gone by then.
abbrev events : List Event
events =
    added 5 (1 ∷ [])
    ∷ added 6 (2 ∷ [])
    ∷ passed 20000000000
    ∷ looked_up 5
    ∷ passed 20000000000
    ∷ pruned
    ∷ []

token_kept : (lookup 5 (run events (new_registry 100))).1 ≡ some (1 ∷ [])
unfolding lookup run step add prune unexpired refresh store discard find new_registry
token_kept = refl

token_gone : (lookup 6 (run events (new_registry 100))).1 ≡ none
unfolding lookup run step add prune unexpired refresh store discard find new_registry
token_gone = refl

lookup-run_example :
    let d = spec_run ttl_default 5 events (nothing 100) in
    (lookup 5 (run events (new_registry 100))).1 ≡ key_of (live d.clock d.entry)
lookup-run_example = lookup-run events 100 5
