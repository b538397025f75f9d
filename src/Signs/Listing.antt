-- ===== src/Signs/Listing.antt =====
-- internal/server/game/sign.go: what a listing answers.
use dso.Base.{
  Bool, true, false, ◌&&◌, ltb, leb, if◌then◌else◌, ℕ, ◌+◌, ◌≤◌, ◌<◌, ◌≡◌, ◌≢◌, refl, ap, sym, ◌∙◌,
  arith, List, [], ◌∷◌, length, Elem, inl, inr, ◌⊎◌, Bool-cases, List-cases,
}
use dso.QuickMatch.Store.{contains}
use dso.QuickMatch.Handlers.{ClientSession}
use dso.Signs.Store.{Sign, gather, out_of_cells}
use dso.Signs.Service.{SignInfo, SignData, ListRequest}
use dso.Signs.Handlers.{sign_info, sign_data, split_known, search_cells}

unless_stopped :
    (stop : Bool) (sg : Sign) (more : List Sign)
    → Elem sg (if stop then [] else more)
    → Elem sg more
unless_stopped true sg more h = absurd h
unless_stopped false sg more h = h

module _ (skip : Sign → Bool) where
  pub gather_sound :
      (limit n : ℕ) (sgs : List Sign) (sg : Sign)
      → Elem sg (gather skip limit n sgs)
      → Elem sg sgs × (skip sg ≡ false)
  unfolding gather
  gather_sound limit n [] sg h = absurd h
  gather_sound limit n (x ∷ sgs) sg h = elim (Bool-cases (skip x)) [
    | inl e ↦ let r = gather_sound limit n sgs sg (rw e at h) in (inr r.0, r.1)
    | inr e ↦ elim (rw e at h) [
      | inl k ↦ (inl k, ap skip k ∙ e)
      | inr k ↦
          let r =
            gather_sound limit (n + 1) sgs sg
              (unless_stopped (ltb 0 limit && leb limit (n + 1)) sg _ k) in
          (inr r.0, r.1)
    ]
  ]

  pub gather_limit :
      (limit n : ℕ) (sgs : List Sign) → n < limit → n + length (gather skip limit n sgs) ≤ limit
  unfolding gather
  gather_limit limit n [] h = omega arith
  gather_limit limit n (x ∷ sgs) h =
      grind (arith, gather_limit limit n sgs, gather_limit limit (n + 1) sgs)

  pub gather_complete :
      (n : ℕ) (sgs : List Sign) (sg : Sign)
      → Elem sg sgs
      → skip sg ≡ false
      → Elem sg (gather skip 0 n sgs)
  unfolding gather
  gather_complete n [] sg h e = absurd h
  gather_complete n (x ∷ sgs) sg (inl k) e = rw (ap skip (sym k) ∙ e) (inl k)
  gather_complete n (x ∷ sgs) sg (inr k) e = elim (Bool-cases (skip x)) [
    | inl f ↦ rw f (gather_complete n sgs sg k e)
    | inr f ↦ rw f (inr (gather_complete (n + 1) sgs sg k e))
  ]

-- The signs that a request is for: those of other players in the area and, if it names cells, in them.
pub record Wanted (cs : ClientSession) (req : ListRequest) (sg : Sign) : Type 0 where
  pub same_area : sg.area_id ≡ req.online_area_id
  pub other_owner : sg.owner_id ≢ cs.player_id
  pub in_cell :
      (req.search_areas ≡ []) ⊎ (contains sg.cell_id (search_cells req.search_areas) ≡ true)

cells-cases :
    (req : ListRequest)
    → ((req.search_areas ≡ []) × (ltb 0 (length (search_cells req.search_areas)) ≡ false))
      ⊎ (ltb 0 (length (search_cells req.search_areas)) ≡ true)
unfolding search_cells
cells-cases req = elim (List-cases req.search_areas) [
  | inl e ↦ inl (e, rw e refl)
  | inr k ↦ inr (rw k.2 (ground arith))
]

pub skip-Wanted :
    (cs : ClientSession) (req : ListRequest) (sg : Sign)
    → out_of_cells req.online_area_id (search_cells req.search_areas) cs.player_id sg ≡ false
    → Wanted cs req sg
unfolding out_of_cells
skip-Wanted cs req sg h = record {
  same_area = ground arith;
  other_owner = λ e. ground arith;
  in_cell = elim (cells-cases req) [ inl k ↦ inl k.0 | inr k ↦ inr (ground arith) ];
}

pub Wanted-skip :
    (cs : ClientSession) (req : ListRequest) (sg : Sign)
    → Wanted cs req sg
    → out_of_cells req.online_area_id (search_cells req.search_areas) cs.player_id sg ≡ false
unfolding out_of_cells search_cells
Wanted-skip cs req sg v = elim v.in_cell [
  | inl k ↦ rw k (ground (arith, v.same_area, v.other_owner))
  | inr k ↦ ground (arith, v.same_area, v.other_owner)
]

pub split_known-length :
    (known : List ℕ) (found : List Sign)
    → length (split_known known found).0 + length (split_known known found).1 ≡ length found
unfolding split_known
split_known-length known [] = omega arith
split_known-length known (sg ∷ found) = grind (arith, split_known-length known found)

pub split_known_infos :
    (known : List ℕ) (found : List Sign) (i : SignInfo)
    → Elem i (split_known known found).0
    → (sg : Sign) × Elem sg found × (contains sg.id known ≡ true) × (i ≡ sign_info sg)
unfolding split_known
split_known_infos known [] i h = absurd h
split_known_infos known (x ∷ found) i h = elim (Bool-cases (contains x.id known)) [
  | inl e ↦ elim (rw e at h) [
    | inl k ↦ (x, inl refl, e, k)
    | inr k ↦ let r = split_known_infos known found i k in (r.0, inr r.1, r.2, r.3)
  ]
  | inr e ↦ let r = split_known_infos known found i (rw e at h) in (r.0, inr r.1, r.2, r.3)
]

pub split_known_datas :
    (known : List ℕ) (found : List Sign) (d : SignData)
    → Elem d (split_known known found).1
    → (sg : Sign) × Elem sg found × (contains sg.id known ≡ false) × (d ≡ sign_data sg)
unfolding split_known
split_known_datas known [] d h = absurd h
split_known_datas known (x ∷ found) d h = elim (Bool-cases (contains x.id known)) [
  | inl e ↦ let r = split_known_datas known found d (rw e at h) in (r.0, inr r.1, r.2, r.3)
  | inr e ↦ elim (rw e at h) [
    | inl k ↦ (x, inl refl, e, k)
    | inr k ↦ let r = split_known_datas known found d k in (r.0, inr r.1, r.2, r.3)
  ]
]

pub split_known_all :
    (known : List ℕ) (found : List Sign) (sg : Sign)
    → Elem sg found
    → Elem (sign_info sg) (split_known known found).0
      ⊎ Elem (sign_data sg) (split_known known found).1
unfolding split_known
split_known_all known [] sg h = absurd h
split_known_all known (x ∷ found) sg h = elim (Bool-cases (contains x.id known)) [
  | inl e ↦ rw e (elim h [
    | inl k ↦ inl (inl (ap sign_info k))
    | inr k ↦ elim (split_known_all known found sg k) [ inl a ↦ inl (inr a) | inr b ↦ inr b ]
  ])
  | inr e ↦ rw e (elim h [
    | inl k ↦ inr (inl (ap sign_data k))
    | inr k ↦ elim (split_known_all known found sg k) [ inl a ↦ inl a | inr b ↦ inr (inr b) ]
  ])
]
