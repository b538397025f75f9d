-- ===== src/QuickMatch/Viewers.antt =====
-- internal/server/game: the players who saw an entry, and the sessions they are looked up in.
use dso.Base.{ℕ, ◌≡◌, ◌≢◌, arith, true, some, List, [], ◌∷◌}
use dso.QuickMatch.Store.{contains, add_viewer}
use dso.QuickMatch.Handlers.{ClientSession, session_for_player}

pub contains-add_viewer :
    (viewer : ℕ) (ids : List ℕ) → contains viewer (add_viewer viewer ids) ≡ true
unfolding add_viewer contains
contains-add_viewer viewer ids = ground arith

pub contains-add_other :
    (viewer v : ℕ) (ids : List ℕ)
    → contains v ids ≡ true
    → contains v (add_viewer viewer ids) ≡ true
unfolding add_viewer contains
contains-add_other viewer v ids h = ground arith

pub contains_nil : (id : ℕ) → contains id [] ≢ true
unfolding contains
contains_nil id c = ground arith

pub contains_tail :
    (id x : ℕ) (ids : List ℕ) → id ≢ x → contains id (x ∷ ids) ≡ true → contains id ids ≡ true
unfolding contains
contains_tail id x ids n c = ground arith

pub session_for_player_id :
    (id : ℕ) (sessions : List ClientSession) (cs : ClientSession)
    → session_for_player id sessions ≡ some cs
    → cs.player_id ≡ id
unfolding session_for_player
session_for_player_id id [] cs e = ground arith
session_for_player_id id (c ∷ rest) cs e = grind (arith, session_for_player_id id rest cs)
