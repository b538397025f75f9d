-- ===== src/AuthToken/Lifetime.antt =====
-- internal/server/authtoken/authtoken.go: how long a token lives.
use dso.Base.{ℕ, ◌+◌, ◌≡◌, ◌≢◌, refl, arith, ltb, if◌then◌else◌, Option, none, some, List, [], ◌∷◌}
use dso.AuthToken.Registry.{Entry, find, discard, store, unexpired}

-- Each token has one entry at most.
abbrev pub IsRegistry : List Entry → Type 0
IsRegistry [] = Unit
IsRegistry (e ∷ es) = (find e.token es ≡ none) × IsRegistry es

pub find-discard_same : (tok : ℕ) (es : List Entry) → find tok (discard tok es) ≡ none
unfolding find discard
find-discard_same tok [] = refl
find-discard_same tok (e ∷ es) = ground (arith, find-discard_same tok es)

pub find-discard_other :
    (tok other : ℕ) (es : List Entry) → tok ≢ other → find tok (discard other es) ≡ find tok es
unfolding find discard
find-discard_other tok other [] n = refl
find-discard_other tok other (e ∷ es) n = ground (arith, find-discard_other tok other es n)

find-unexpired-none :
    (now tok : ℕ) (es : List Entry) → find tok es ≡ none → find tok (unexpired now es) ≡ none
unfolding find unexpired
find-unexpired-none now tok [] h = refl
find-unexpired-none now tok (e ∷ es) h = ground (arith, find-unexpired-none now tok es)

-- The entry of a token, if it has not expired.
abbrev pub live : ℕ → Option Entry → Option Entry
live now none = none
live now (some e) = if ltb e.expires now then none else some e

pub find-unexpired :
    (now tok : ℕ) (es : List Entry)
    → IsRegistry es
    → find tok (unexpired now es) ≡ live now (find tok es)
unfolding find unexpired
find-unexpired now tok [] v = refl
find-unexpired now tok (e ∷ es) v =
    ground (arith, find-unexpired now tok es v.1, find-unexpired-none now tok es)

find-discard-none :
    (tok other : ℕ) (es : List Entry) → find tok es ≡ none → find tok (discard other es) ≡ none
unfolding find discard
find-discard-none tok other [] h = refl
find-discard-none tok other (e ∷ es) h = ground (arith, find-discard-none tok other es)

pub discard-IsRegistry : (tok : ℕ) (es : List Entry) → IsRegistry es → IsRegistry (discard tok es)
unfolding discard
discard-IsRegistry tok [] v = v
discard-IsRegistry tok (e ∷ es) v =
    ground (arith, discard-IsRegistry tok es v.1, find-discard-none e.token tok es v.0)

pub unexpired-IsRegistry :
    (now : ℕ) (es : List Entry) → IsRegistry es → IsRegistry (unexpired now es)
unfolding unexpired
unexpired-IsRegistry now [] v = v
unexpired-IsRegistry now (e ∷ es) v =
    ground (arith, unexpired-IsRegistry now es v.1, find-unexpired-none now e.token es v.0)

pub store-IsRegistry : (e : Entry) (es : List Entry) → IsRegistry es → IsRegistry (store e es)
unfolding store
store-IsRegistry e es v = (find-discard_same e.token es, discard-IsRegistry e.token es v)

pub find-store_same : (e : Entry) (es : List Entry) → find e.token (store e es) ≡ some e
unfolding store find
find-store_same e es = ground arith

pub find-store_other :
    (tok : ℕ) (e : Entry) (es : List Entry) → tok ≢ e.token → find tok (store e es) ≡ find tok es
unfolding store find
find-store_other tok e es n = ground (arith, find-discard_other tok e.token es n)

pub find_token : (tok : ℕ) (es : List Entry) (e : Entry) → find tok es ≡ some e → e.token ≡ tok
unfolding find
find_token tok [] e h = ground arith
find_token tok (x ∷ es) e h = grind (arith, find_token tok es e)

pub live_later : (now n : ℕ) (o : Option Entry) → live (now + n) o ≡ live (now + n) (live now o)
live_later now n none = refl
live_later now n (some e) = ground arith
