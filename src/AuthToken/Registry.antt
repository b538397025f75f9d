-- ===== src/AuthToken/Registry.antt =====
-- internal/server/authtoken/authtoken.go: the game-server tokens and their keys.
--
-- A token, 8 bytes, is the number that they spell. Times are nanoseconds; `now` is what r.now() gives
-- during a call. The map is the list of its entries. The mutex makes each call one step, and the
-- janitor's goroutine only calls prune.
use dso.Base.{ℕ, ◌+◌, ◌*◌, ltb, ◌==◌, if◌then◌else◌, Option, none, some, List, [], ◌∷◌}

abbrev pub ttl_default : ℕ
ttl_default = 30 * 1000000000

pub record Entry : Type 0 where
  pub token : ℕ
  pub key : List ℕ
  pub expires : ℕ

pub record Registry : Type 0 where
  pub entries : List Entry
  pub now : ℕ
  pub ttl : ℕ

unfoldable pub new_registry : ℕ → Registry
new_registry now = record { entries = []; now = now; ttl = ttl_default }

unfoldable pub find : ℕ → List Entry → Option Entry
find tok [] = none
find tok (e ∷ es) = let rest = find tok es in if e.token == tok then some e else rest

unfoldable pub discard : ℕ → List Entry → List Entry
discard tok [] = []
discard tok (e ∷ es) = let rest = discard tok es in if e.token == tok then rest else e ∷ rest

-- An assignment to the map.
unfoldable pub store : Entry → List Entry → List Entry
store e es = e ∷ discard e.token es

unfoldable pub add : ℕ → List ℕ → Registry → Registry
add tok key r = record r {
  entries = store (record { token = tok; key = key; expires = r.now + r.ttl }) r.entries;
}

unfoldable pub refresh : Entry → Registry → Registry
refresh e r = record r { entries = store (record e { expires = r.now + r.ttl }) r.entries }

unfoldable pub lookup : ℕ → Registry → Registry × Option (List ℕ)
lookup tok r = elim (find tok r.entries) [
  | none ↦ (r, none)
  | some e ↦
      if ltb e.expires r.now
      then (record r { entries = discard tok r.entries }, none)
      else (refresh e r, some e.key)
]

unfoldable pub unexpired : ℕ → List Entry → List Entry
unexpired now [] = []
unexpired now (e ∷ es) = let rest = unexpired now es in if ltb e.expires now then rest else e ∷ rest

unfoldable pub prune : Registry → Registry
prune r = record r { entries = unexpired r.now r.entries }
