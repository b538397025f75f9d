-- ===== src/Signs/Departure.antt =====
-- internal/server/game/sign.go: a host leaves, and those who listed its signs are told.
use dso.Base.{
  Bool, true, false, ◌==◌, eq→==, ne→==_false, ℕ, ◌≡◌, ◌≢◌, ◌↔◌, refl, ap, sym, ◌∙◌, arith, Option,
  some, List, [], ◌∷◌, Elem, inl, inr, Bool-cases,
}
use dso.QuickMatch.Store.{contains}
use dso.QuickMatch.Handlers.{ClientSession, session_for_player}
use dso.Signs.Store.{Sign, split_owned, remove_owned_by}
use dso.Signs.Service.{Outgoing, push_removal, RemovePush, Service, ListRequest, respond}
use dso.Signs.Handlers.{
  removal_of, push_sign_removed, push_all_removed, drop_signs_for_player, handle_get_sign_list,
}
use dso.Signs.Pushes.{push_sign_removed-Pushed, push_all_removed-Pushed}
use dso.Signs.Answers.{listed, listed_sound}
use dso.Signs.Removal.{mark_found_sees, tell_aware_target}

clash : {b : Bool} → b ≡ true → b ≡ false → ⊥
clash p q = ground arith

split_owned_in :
    (player : ℕ) (sgs : List Sign) (sg : Sign)
    → Elem sg sgs
    → sg.owner_id ≡ player
    → Elem sg (split_owned player sgs).0
unfolding split_owned
split_owned_in player [] sg h e = absurd h
split_owned_in player (x ∷ sgs) sg (inl k) e =
    rw (eq→== x.owner_id player (sym (ap Sign.owner_id k) ∙ e)) (inl k)
split_owned_in player (x ∷ sgs) sg (inr k) e = elim (Bool-cases (x.owner_id == player)) [
  | inl c ↦ rw c (inr (split_owned_in player sgs sg k e))
  | inr c ↦ rw c (split_owned_in player sgs sg k e)
]

-- What stays are the signs of the others.
split_owned_out :
    (player : ℕ) (sgs : List Sign) (sg : Sign)
    → Elem sg (split_owned player sgs).1
    → Elem sg sgs × (sg.owner_id ≢ player)
unfolding split_owned
split_owned_out player [] sg h = absurd h
split_owned_out player (x ∷ sgs) sg h = elim (Bool-cases (x.owner_id == player)) [
  | inl c ↦ let r = split_owned_out player sgs sg (rw c at h) in (inr r.0, r.1)
  | inr c ↦ elim (rw c at h) [
    | inl k ↦ (inl k, λ e. clash (eq→== x.owner_id player (sym (ap Sign.owner_id k) ∙ e)) c)
    | inr k ↦ let r = split_owned_out player sgs sg k in (inr r.0, r.1)
  ]
]

split_owned_keeps :
    (player : ℕ) (sgs : List Sign) (sg : Sign)
    → Elem sg sgs
    → sg.owner_id ≢ player
    → Elem sg (split_owned player sgs).1
unfolding split_owned
split_owned_keeps player [] sg h n = absurd h
split_owned_keeps player (x ∷ sgs) sg (inl k) n =
    rw (ne→==_false x.owner_id player (λ e. n (ap Sign.owner_id k ∙ e))) (inl k)
split_owned_keeps player (x ∷ sgs) sg (inr k) n = elim (Bool-cases (x.owner_id == player)) [
  | inl c ↦ rw c (split_owned_keeps player sgs sg k n)
  | inr c ↦ rw c (inr (split_owned_keeps player sgs sg k n))
]

module _ (order : List Sign → List Sign) (marshal : Outgoing → Option (List ℕ)) where
  push_sign_removed_tells :
      (viewer : ℕ) (sg : Sign) (body : List ℕ) (s : Service) (cs : ClientSession)
      → marshal (push_removal (removal_of sg)) ≡ some body
      → viewer ≢ sg.owner_id
      → session_for_player viewer s.sessions ≡ some cs
      → contains viewer sg.aware_of ≡ true
      → Elem (viewer, body) (push_sign_removed order marshal sg s).sent
  unfolding push_sign_removed
  push_sign_removed_tells viewer sg body s cs b n live c =
      rw (push_sign_removed, b)
        (tell_aware_target sg.owner_id body sg.aware_of viewer s cs n live c)

  push_all_removed_tells :
      (viewer : ℕ) (sgs : List Sign) (sg : Sign) (body : List ℕ) (s : Service) (cs : ClientSession)
      → Elem sg sgs
      → marshal (push_removal (removal_of sg)) ≡ some body
      → viewer ≢ sg.owner_id
      → session_for_player viewer s.sessions ≡ some cs
      → contains viewer sg.aware_of ≡ true
      → Elem (viewer, body) (push_all_removed order marshal sgs s).sent
  unfolding push_all_removed
  push_all_removed_tells viewer [] sg body s cs h b n live c = absurd h
  push_all_removed_tells viewer (x ∷ sgs) sg body s cs (inl e) b n live c =
      (push_all_removed-Pushed order marshal sgs _).sent_more (viewer, body)
        (rw (sym e) (push_sign_removed_tells viewer sg body s cs b n live c))
  push_all_removed_tells viewer (x ∷ sgs) sg body s cs (inr k) b n live c =
      push_all_removed_tells viewer sgs sg body _ cs k b n
        (ap (session_for_player viewer) (push_sign_removed-Pushed order marshal x s).sessions_same
          ∙ live)
        c

  -- Let a listing, in whatever order it ranges over the signs, find a sign, and let the sign's owner
  -- leave next. If the player who asked is connected then and removal pushes can be marshalled, this
  -- player is sent one that names the owner and the sign. All signs of the owner are gone, and those
  -- of the others are as the listing left them.
  pub list_tells :
      ((sg : Sign) (sgs : List Sign) → Elem sg (order sgs) ↔ Elem sg sgs)
      → (cs target : ClientSession) (req : ListRequest) (sg : Sign) (s : Service)
      → Elem sg (listed order cs req s)
      → ((p : RemovePush) → (body : List ℕ) × (marshal (push_removal p) ≡ some body))
      → let s1 = (handle_get_sign_list order marshal cs (some req) s).0 in
        session_for_player cs.player_id s1.sessions ≡ some target
        → let s1 = (handle_get_sign_list order marshal cs (some req) s).0 in
          let s2 = drop_signs_for_player order marshal sg.owner_id s1 in
          (p : RemovePush) × (body : List ℕ) × (marshal (push_removal p) ≡ some body)
          × (p.player_id ≡ sg.owner_id)
          × (p.sign_id ≡ sg.id)
          × Elem (cs.player_id, body) s2.sent
          × ((x : Sign)
              → Elem x s2.signs.by_id ↔ (Elem x s1.signs.by_id × (x.owner_id ≢ sg.owner_id)))
  unfolding handle_get_sign_list respond drop_signs_for_player remove_owned_by removal_of
  list_tells reorders cs target req sg s found total live =
      let s1 = (handle_get_sign_list order marshal cs (some req) s).0 in
      let owner = sg.owner_id in
      let (here, wanted) = listed_sound order marshal reorders cs req s sg found in
      let (x, in_store, same_id, same_owner, aware) =
        mark_found_sees sg cs.player_id (listed order cs req s) s.signs found
          (sg, here, refl, refl) in
      let gone = (split_owned owner (order s1.signs.by_id)).0 in
      let left = record s1 {
        signs = record s1.signs { by_id = (split_owned owner s1.signs.by_id).1 };
      } in
      let (body, marshalled) = total (removal_of x) in
      let stays : (drop_signs_for_player order marshal owner s1).signs ≡ left.signs =
        (push_all_removed-Pushed order marshal gone left).signs_same in
      (
        removal_of x,
        body,
        marshalled,
        same_owner,
        same_id,
        push_all_removed_tells cs.player_id gone x body left target
            (split_owned_in owner (order s1.signs.by_id) x ((reorders x s1.signs.by_id).1 in_store)
              same_owner)
            marshalled (λ e. wanted.other_owner (sym same_owner ∙ sym e)) live aware,
        λ y. (
          λ h. split_owned_out owner s1.signs.by_id y (rw stays at h),
          λ h. rw stays (split_owned_keeps owner s1.signs.by_id y h.0 h.1),
        ),
      )
