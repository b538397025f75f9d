-- ===== src/AuthToken/Deadlines.antt =====
-- internal/server/authtoken/authtoken.go: runs of the registry, and one token's deadline beside them.
use dso.Base.{ℕ, ◌+◌, ◌≡◌, ltb, ◌==◌, Option, none, some, List, [], ◌∷◌, if◌then◌else◌}
use dso.AuthToken.Registry.{Entry, Registry, find, add, lookup, prune}
use dso.AuthToken.Lifetime.{IsRegistry, live}

-- What happens to a registry: a call, or time that passes.
pub data Event : Type 0 where
  added : ℕ → List ℕ → Event
  looked_up : ℕ → Event
  pruned : Event
  passed : ℕ → Event

unfoldable pub step : Event → Registry → Registry
step (added tok key) r = add tok key r
step (looked_up tok) r = (lookup tok r).0
step pruned r = prune r
step (passed n) r = record r { now = r.now + n }

unfoldable pub run : List Event → Registry → Registry
run [] r = r
run (e ∷ es) r = run es (step e r)

-- The specification keeps one entry of one token and the clock, and never removes it.
pub record Deadline : Type 0 where
  pub entry : Option Entry
  pub clock : ℕ

unfoldable pub renew : ℕ → Option Entry → ℕ → Option Entry
renew clock none ttl = none
renew clock (some e) ttl =
    if ltb e.expires clock then some e else some (record e { expires = clock + ttl })

unfoldable pub spec_step : ℕ → ℕ → Event → Deadline → Deadline
unfolding renew
spec_step ttl tok (added t key) d =
    if t == tok
    then record d { entry = some (record { token = t; key = key; expires = d.clock + ttl }) }
    else d
spec_step ttl tok (looked_up t) d =
    if t == tok then record d { entry = renew d.clock d.entry ttl } else d
spec_step ttl tok pruned d = d
spec_step ttl tok (passed n) d = record d { clock = d.clock + n }

unfoldable pub spec_run : ℕ → ℕ → List Event → Deadline → Deadline
spec_run ttl tok [] d = d
spec_run ttl tok (e ∷ es) d = spec_run ttl tok es (spec_step ttl tok e d)

-- The registry answers for a token as its deadline says.
pub record Agrees (ttl tok : ℕ) (r : Registry) (d : Deadline) : Type 0 where
  pub valid : IsRegistry r.entries
  pub same_clock : r.now ≡ d.clock
  pub same_ttl : r.ttl ≡ ttl
  pub same_entry : live r.now (find tok r.entries) ≡ live r.now d.entry

abbrev pub nothing : ℕ → Deadline
nothing now = record { entry = none; clock = now }
