-- ===== src/Signs/Tests.antt =====
-- The signs at concrete inputs.
use dso.Base.{
  true, false, ℕ, ◌+◌, ◌≤◌, ◌≡◌, ◌≢◌, ◌↔◌, refl, arith, Option, none, some, List, [], ◌∷◌, ◌++◌,
  length, Elem, inl, ◌⊎◌,
}
use dso.QuickMatch.Store.{contains}
use dso.QuickMatch.Handlers.{ClientSession, session_for_player}
use dso.Signs.Store.{
  Sign, new_sign_store_from, first_sign_id, first_mirror_knight_sign_id, get_sign, find_sign,
  gather, out_of_cells, in_cells,
}
use dso.Signs.Service.{
  SignInfo, SignData, RemovePush, Outgoing, push_removal, list_response, Service, ListRequest,
  SummonRequest, RejectRequest, CreateRequest, respond,
}
use dso.Signs.Handlers.{
  sign_info, sign_data, search_cells, known_signs, set_area, handle_get_sign_list,
  handle_summon_sign, handle_reject_sign, drop_signs_for_player,
}
use dso.Signs.Entries.{InRange, Distinct}
use dso.Signs.Requests.{
  Event, create, look, summon, remove, depart, arena_create, run, run-disjoint,
}
use dso.Signs.Claims.{claimed, summon_twice}
use dso.Signs.Listing.{Wanted}
use dso.Signs.Answers.{list_sound}
use dso.Signs.Departure.{list_tells}

abbrev same_order : List Sign → List Sign
same_order sgs = sgs

same_order_reorders : (sg : Sign) (sgs : List Sign) → Elem sg (same_order sgs) ↔ Elem sg sgs
same_order_reorders sg sgs = (λ h. h, λ h. h)

abbrev marshal : Outgoing → Option (List ℕ)
marshal o = some (7 ∷ [])

abbrev host : ClientSession
host = record { key = 101; player_id = 1; account_id = 10 ∷ []; area_id = 0 }

abbrev guest : ClientSession
guest = record { key = 102; player_id = 2; account_id = 20 ∷ []; area_id = 0 }

abbrev rival : ClientSession
rival = record { key = 103; player_id = 3; account_id = 30 ∷ []; area_id = 0 }

abbrev placed : Sign
placed = record {
  id = 100000;
  owner_id = 1;
  area_id = 1016;
  cell_id = 4;
  sign_type = 6;
  matching = none;
  player = 9 ∷ [];
  psn_id = 10 ∷ [];
  summoned_by = 0;
  aware_of = [];
}

abbrev service : Service
service = record {
  signs = record { next_id = 100000; by_id = placed ∷ [] };
  mirror_knight = new_sign_store_from first_mirror_knight_sign_id;
  sessions = host ∷ guest ∷ rival ∷ [];
  sent = [];
}

abbrev through : SummonRequest
through = record { sign_id = 100000; player_struct = 5 ∷ [] }

abbrev decline : RejectRequest
decline = record { sign_id = 100000; error = 0 }

host_is_live : session_for_player 1 service.sessions ≡ some host
unfolding session_for_player
host_is_live = refl

is_there : get_sign 100000 service.signs ≡ some placed
unfolding get_sign find_sign
is_there = refl

summon_twice_example :
    let s1 = (handle_summon_sign same_order marshal guest (some through) service).0 in
    let s2 = (handle_summon_sign same_order marshal rival (some through) s1).0 in
    let s3 = (handle_reject_sign same_order marshal host (some decline) s2).0 in
    (s2.sent ≡ [] ++ ((1, 7 ∷ []) ∷ (3, 7 ∷ []) ∷ []))
    × (s2.signs ≡ s1.signs)
    × (get_sign 100000 s2.signs ≡ some (claimed 2 placed))
    × (get_sign 100000 s3.signs ≡ some (claimed 0 placed))
summon_twice_example =
    summon_twice same_order marshal guest rival host host through through decline placed (7 ∷ [])
      (7 ∷ []) service refl refl (omega arith) (omega arith) is_there refl host_is_live refl refl

abbrev at_cells : ListRequest
at_cells = record {
  online_area_id = 1016;
  search_areas = record { cell_id = 4; local_signs = 100000 ∷ [] } ∷ [];
  max_signs = 0;
}

list_sound_example :
    (infos : List SignInfo) × (datas : List SignData) × ((handle_get_sign_list same_order marshal
        guest
        (some at_cells)
        service).1
      ≡ (respond marshal (list_response infos datas) service).1)
    × ((at_cells.max_signs ≡ 0) ⊎ (length infos + length datas ≤ 0))
    × ((i : SignInfo)
        → Elem i infos
        → (sg : Sign) × Elem sg (placed ∷ [])
          × Wanted guest at_cells sg
          × (contains sg.id (known_signs at_cells.search_areas) ≡ true)
          × (i ≡ sign_info sg))
    × ((d : SignData)
        → Elem d datas
        → (sg : Sign) × Elem sg (placed ∷ [])
          × Wanted guest at_cells sg
          × (contains sg.id (known_signs at_cells.search_areas) ≡ false)
          × (d ≡ sign_data sg))
list_sound_example = list_sound same_order marshal same_order_reorders guest at_cells service

is_listed :
    Elem placed (in_cells same_order 1016 (search_cells at_cells.search_areas) 2 0 service.signs)
unfolding in_cells gather out_of_cells search_cells contains
is_listed = inl refl

abbrev after_listing : Service
after_listing = (handle_get_sign_list same_order marshal guest (some at_cells) service).0

guest_is_live : session_for_player 2 after_listing.sessions ≡ some (record guest { area_id = 1016 })
unfolding handle_get_sign_list respond set_area session_for_player
guest_is_live = refl

list_tells_example :
    let s2 = drop_signs_for_player same_order marshal 1 after_listing in
    (p : RemovePush) × (body : List ℕ) × (marshal (push_removal p) ≡ some body)
    × (p.player_id ≡ 1)
    × (p.sign_id ≡ 100000)
    × Elem (2, body) s2.sent
    × ((x : Sign) → Elem x s2.signs.by_id ↔ (Elem x after_listing.signs.by_id × (x.owner_id ≢ 1)))
list_tells_example =
    list_tells same_order marshal same_order_reorders guest (record guest { area_id = 1016 })
      at_cells placed service is_listed (λ p. (7 ∷ [], refl)) guest_is_live

abbrev empty_service : Service
empty_service = record {
  signs = new_sign_store_from first_sign_id;
  mirror_knight = new_sign_store_from first_mirror_knight_sign_id;
  sessions = host ∷ guest ∷ [];
  sent = [];
}

abbrev place : CreateRequest
place = record {
  online_area_id = 1016;
  cell_id = 4;
  sign_type = 6;
  matching_parameter = none;
  player_struct = 9 ∷ [];
}

abbrev busy_day : List Event
busy_day =
    create host (some place)
    ∷ create host none
    ∷ arena_create guest (some (record { matching_parameter = none; character = 8 ∷ [] }))
    ∷ create host (some place)
    ∷ look guest (some at_cells)
    ∷ summon guest (some through)
    ∷ remove host (some 100001)
    ∷ depart 1
    ∷ []

run-disjoint_example :
    let s' = run same_order marshal busy_day empty_service in
    Distinct s'.signs.by_id
    × Distinct s'.mirror_knight.by_id
    × InRange 100000 499999 s'.signs.by_id
    × InRange 500000 4294967295 s'.mirror_knight.by_id
run-disjoint_example =
    run-disjoint same_order marshal busy_day empty_service refl refl (omega arith)
