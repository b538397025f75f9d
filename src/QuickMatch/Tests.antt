-- ===== src/QuickMatch/Tests.antt =====
-- The arena registrations at concrete inputs.
use dso.Base.{
  ℕ, ◌<◌, ◌≤◌, ◌≡◌, ◌≢◌, ◌↔◌, refl, true, Option, none, some, List, [], ◌∷◌, ◌++◌, length, Elem,
  inl,
}
use dso.QuickMatch.Store.{
  QuickMatch, get, delete, put, audience, search, split_by_cell, limited, skips,
}
use dso.QuickMatch.Searching.{Found, search_sound, search_complete}
use dso.QuickMatch.LastWord.{entry, asked, last_word, last_words, get-run}
use dso.QuickMatch.Requests.{Event, register, look, join, unregister, depart, run}
use dso.QuickMatch.Removal.{search-tells}
use dso.QuickMatch.Handlers.{
  ClientSession, Request, Service, Outgoing, Push, push_remove, registration, session_for_player,
  handle_search_quick_match, drop_quick_match_for_player,
}

abbrev same_order : List QuickMatch → List QuickMatch
same_order ms = ms

same_order_reorders : (m : QuickMatch) (ms : List QuickMatch) → Elem m (same_order ms) ↔ Elem m ms
same_order_reorders m ms = (λ h. h, λ h. h)

abbrev marshal : Outgoing → Option (List ℕ)
marshal o = some (7 ∷ [])

abbrev host : ClientSession
host = record { key = 101; player_id = 1; account_id = 10 ∷ []; area_id = 0 }

abbrev guest : ClientSession
guest = record { key = 102; player_id = 2; account_id = 20 ∷ []; area_id = 0 }

abbrev at_cell : ℕ → Request
at_cell cell = record {
  online_area_id = 1016;
  cell_id = cell;
  mode = 0;
  matching_parameter = none;
  max_results = 5;
  player_id = 1;
}

abbrev waiting : QuickMatch
waiting = registration host (at_cell 3)

abbrev service : Service
service = record {
  quick_match = waiting ∷ [];
  sessions = host ∷ guest ∷ [];
  auto_pairs = true;
  sent = [];
}

abbrev events : List Event
events =
    register host (some (at_cell 4))
    ∷ look guest (some (at_cell 3))
    ∷ join guest (some (at_cell 3))
    ∷ unregister host none
    ∷ depart 1
    ∷ []

get-run_example :
    entry (get 2 (run same_order marshal events service).quick_match)
    ≡ last_words 2 events (entry (get 2 service.quick_match))
get-run_example = get-run same_order marshal events 2 service

-- The guest's search is the guest's last word, and the host has left.
last_words_here :
    (last_words 2 events none ≡ asked guest (at_cell 3))
    × (last_words 1 events (entry (some waiting)) ≡ none)
unfolding last_words last_word
last_words_here = (refl, refl)

search_sound_example :
    ((m : QuickMatch)
      → Elem m (search same_order 1016 3 0 2 5 service.quick_match)
      → Found 1016 3 0 2 m service.quick_match)
    × (0 < 5 → length (search same_order 1016 3 0 2 5 service.quick_match) ≤ 5)
search_sound_example = search_sound 1016 3 0 2 same_order same_order_reorders 5 service.quick_match

search_complete_example :
    (same : List QuickMatch) × (other : List QuickMatch) × (search same_order 1016 4 0 2 0
        service.quick_match
      ≡ same ++ other)
    × ((m : QuickMatch)
        → (Elem m same ↔ (Found 1016 4 0 2 m service.quick_match × (m.cell_id ≡ 4)))
          × (Elem m other ↔ (Found 1016 4 0 2 m service.quick_match × (m.cell_id ≢ 4))))
search_complete_example =
    search_complete 1016 4 0 2 same_order same_order_reorders service.quick_match

waiting_found :
    Elem waiting
      (search same_order 1016 3 0 2 5 (put (registration guest (at_cell 3)) service.quick_match))
unfolding search split_by_cell limited skips put delete registration get audience
waiting_found = inl refl

guest_live : session_for_player 2 service.sessions ≡ some guest
unfolding session_for_player
guest_live = refl

search-tells_example :
    let s' = (handle_search_quick_match same_order marshal guest (some (at_cell 3)) service).0 in
    (p : Push) × (body : List ℕ) × (marshal (push_remove p) ≡ some body)
    × (p.player_id ≡ waiting.player_id)
    × Elem (2, body) (drop_quick_match_for_player same_order marshal waiting.player_id s').sent
search-tells_example =
    search-tells same_order marshal same_order_reorders guest guest (at_cell 3) waiting service
      waiting_found guest_live (λ p. (7 ∷ [], refl))
