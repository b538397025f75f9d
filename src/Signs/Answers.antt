-- ===== src/Signs/Answers.antt =====
-- internal/server/game/sign.go: the answer of handleGetSignList.
use dso.Base.{
  true, false, ℕ, ◌+◌, ◌≤◌, ◌<◌, ◌≡◌, ◌↔◌, refl, arith, Option, some, List, length, Elem, inl, inr,
  ◌⊎◌,
}
use dso.QuickMatch.Store.{contains}
use dso.QuickMatch.Handlers.{ClientSession}
use dso.Signs.Store.{Sign, out_of_cells, in_cells}
use dso.Signs.Service.{SignInfo, SignData, Outgoing, list_response, Service, ListRequest, respond}
use dso.Signs.Handlers.{
  sign_info, sign_data, split_known, search_cells, known_signs, handle_get_sign_list,
}
use dso.Signs.Listing.{
  Wanted, gather_sound, gather_limit, gather_complete, skip-Wanted, Wanted-skip, split_known-length,
  split_known_infos, split_known_datas, split_known_all,
}

limit-cases : (n : ℕ) → (n ≡ 0) ⊎ (0 < n)
limit-cases n = omega arith

-- The signs that a listing finds.
abbrev pub listed : (List Sign → List Sign) → ClientSession → ListRequest → Service → List Sign
listed order cs req s =
    in_cells order req.online_area_id (search_cells req.search_areas) cs.player_id req.max_signs
      s.signs

module _ (order : List Sign → List Sign) (marshal : Outgoing → Option (List ℕ))
    (reorders : (sg : Sign) (sgs : List Sign) → Elem sg (order sgs) ↔ Elem sg sgs) where
  pub listed_sound :
      (cs : ClientSession) (req : ListRequest) (s : Service) (sg : Sign)
      → Elem sg (listed order cs req s)
      → Elem sg s.signs.by_id × Wanted cs req sg
  unfolding in_cells
  listed_sound cs req s sg h =
      let r =
        gather_sound (out_of_cells req.online_area_id (search_cells req.search_areas) cs.player_id)
          req.max_signs 0 (order s.signs.by_id) sg h in
      ((reorders sg s.signs.by_id).0 r.0, skip-Wanted cs req sg r.1)

  listed_limit :
      (cs : ClientSession) (req : ListRequest) (s : Service)
      → (req.max_signs ≡ 0) ⊎ (length (listed order cs req s) ≤ req.max_signs)
  unfolding in_cells
  listed_limit cs req s = elim (limit-cases req.max_signs) [
    | inl e ↦ inl e
    | inr k ↦
        let skip = out_of_cells req.online_area_id (search_cells req.search_areas) cs.player_id in
        inr (omega (arith, gather_limit skip req.max_signs 0 (order s.signs.by_id) k))
  ]

  -- In whatever order the listing ranges over the signs, its answer is the marshalling of two lists,
  -- which together hold no more signs than the request allows, where 0 allows any number. Each entry
  -- of both is of a live sign of another player in the area and, if the request names cells, in them;
  -- those in the first list are of signs that the client says it holds, with the owner and the id
  -- only, and those in the second are of signs that it does not hold, in full.
  pub list_sound :
      (cs : ClientSession) (req : ListRequest) (s : Service)
      → (infos : List SignInfo) × (datas : List SignData) × ((handle_get_sign_list order marshal cs
            (some req)
            s).1
          ≡ (respond marshal (list_response infos datas) s).1)
        × ((req.max_signs ≡ 0) ⊎ (length infos + length datas ≤ req.max_signs))
        × ((i : SignInfo)
            → Elem i infos
            → (sg : Sign) × Elem sg s.signs.by_id
              × Wanted cs req sg
              × (contains sg.id (known_signs req.search_areas) ≡ true)
              × (i ≡ sign_info sg))
        × ((d : SignData)
            → Elem d datas
            → (sg : Sign) × Elem sg s.signs.by_id
              × Wanted cs req sg
              × (contains sg.id (known_signs req.search_areas) ≡ false)
              × (d ≡ sign_data sg))
  unfolding handle_get_sign_list respond
  list_sound cs req s =
      let known = known_signs req.search_areas in
      let found = listed order cs req s in
      let (infos, datas) = split_known known found in
      let size = split_known-length known found in
      (
        infos,
        datas,
        refl,
        elim (listed_limit cs req s) [ inl e ↦ inl e | inr k ↦ inr (omega (arith, size)) ],
        λ i h.
            let r = split_known_infos known found i h in
            let v = listed_sound cs req s r.0 r.1 in (r.0, v.0, v.1, r.2, r.3),
        λ d h.
            let r = split_known_datas known found d h in
            let v = listed_sound cs req s r.0 r.1 in (r.0, v.0, v.1, r.2, r.3),
      )

  -- Without a limit, every live sign of another player in the area and the cells asked for is in one
  -- of the two lists that are marshalled.
  pub list_complete :
      (cs : ClientSession) (req : ListRequest) (s : Service)
      → req.max_signs ≡ 0
      → (infos : List SignInfo) × (datas : List SignData) × ((handle_get_sign_list order marshal cs
            (some req)
            s).1
          ≡ (respond marshal (list_response infos datas) s).1)
        × ((sg : Sign)
            → Elem sg s.signs.by_id
            → Wanted cs req sg
            → Elem (sign_info sg) infos ⊎ Elem (sign_data sg) datas)
  unfolding handle_get_sign_list respond in_cells
  list_complete cs req s e =
      let known = known_signs req.search_areas in
      let found = listed order cs req s in
      let skip = out_of_cells req.online_area_id (search_cells req.search_areas) cs.player_id in
      let (infos, datas) = split_known known found in
      (
        infos,
        datas,
        refl,
        λ sg h v. split_known_all known found sg (
            rw e (
              gather_complete skip 0 (order s.signs.by_id) sg ((reorders sg s.signs.by_id).1 h)
                (Wanted-skip cs req sg v))),
      )
