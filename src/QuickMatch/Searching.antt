-- ===== src/QuickMatch/Searching.antt =====
-- internal/server/game/quickmatch.go: what a search returns.
use dso.Base.{
  ◌↔◌, ltb, ◌&&◌, eq→==, ne→==_false, sym, ℕ, ◌≤◌, ◌<◌, ◌≡◌, ◌≢◌, refl, arith, Bool, true, false,
  List, [], ◌∷◌, ◌++◌, length, Elem, Elem-append, Elem-take, ◌⊎◌, inl, inr, Bool-cases, length-take,
}
use dso.QuickMatch.Store.{QuickMatch, skips, split_by_cell, limited, search}

-- The entries that a search is for.
pub record Fits (area mode exclude : ℕ) (m : QuickMatch) : Type 0 where
  pub other_player : m.player_id ≢ exclude
  pub same_area : m.area_id ≡ area
  pub same_mode : m.mode ≡ mode

skips_iff :
    (area mode exclude : ℕ) (m : QuickMatch)
    → (skips area mode exclude m ≡ false → Fits area mode exclude m)
      × (Fits area mode exclude m → skips area mode exclude m ≡ false)
unfolding skips
skips_iff area mode exclude m = (
  λ h. record {
    other_player = λ e. ground arith;
    same_area = ground arith;
    same_mode = ground arith;
  },
  λ h. ground arith,
)

module _ (area cell mode exclude : ℕ) where
  -- An entry of the store that a search is for.
  abbrev pub Found : QuickMatch → List QuickMatch → Type 0
  Found m ms = Elem m ms × Fits area mode exclude m

  clash : {b : Bool} → b ≡ true → b ≡ false → ⊥
  clash p q = ground arith

  split_nil : split_by_cell area cell mode exclude [] ≡ ([], [])
  unfolding split_by_cell
  split_nil = refl

  split_skips :
      (x : QuickMatch) (ms : List QuickMatch)
      → skips area mode exclude x ≡ true
      → split_by_cell area cell mode exclude (x ∷ ms) ≡ split_by_cell area cell mode exclude ms
  unfolding split_by_cell
  split_skips x ms h = rw h refl

  split_same :
      (x : QuickMatch) (ms : List QuickMatch)
      → skips area mode exclude x ≡ false
      → x.cell_id ≡ cell
      → let (same, other) = split_by_cell area cell mode exclude ms in
        split_by_cell area cell mode exclude (x ∷ ms) ≡ (x ∷ same, other)
  unfolding split_by_cell
  split_same x ms h e = rw (h, eq→== x.cell_id cell e) refl

  split_other :
      (x : QuickMatch) (ms : List QuickMatch)
      → skips area mode exclude x ≡ false
      → x.cell_id ≢ cell
      → let (same, other) = split_by_cell area cell mode exclude ms in
        split_by_cell area cell mode exclude (x ∷ ms) ≡ (same, x ∷ other)
  unfolding split_by_cell
  split_other x ms h e = rw (h, ne→==_false x.cell_id cell e) refl

  cell-cases : (x : QuickMatch) → (x.cell_id ≡ cell) ⊎ (x.cell_id ≢ cell)
  cell-cases x = ground arith

  split_sound_same :
      (ms : List QuickMatch) (m : QuickMatch)
      → Elem m (split_by_cell area cell mode exclude ms).0
      → Found m ms × (m.cell_id ≡ cell)
  split_sound_same [] m h = absurd (rw split_nil at h)
  split_sound_same (x ∷ ms) m h = elim (Bool-cases (skips area mode exclude x)) [
    | inl s ↦
        let r = split_sound_same ms m (rw (split_skips x ms s) at h) in ((inr r.0.0, r.0.1), r.1)
    | inr f ↦ elim (cell-cases x) [
      | inl c ↦ elim (rw (split_same x ms f c) at h) [
        | inl e ↦ ((inl e, rw e ((skips_iff area mode exclude x).0 f)), rw e c)
        | inr k ↦ let r = split_sound_same ms m k in ((inr r.0.0, r.0.1), r.1)
      ]
      | inr c ↦
          let r = split_sound_same ms m (rw (split_other x ms f c) at h) in
          ((inr r.0.0, r.0.1), r.1)
    ]
  ]

  split_sound_other :
      (ms : List QuickMatch) (m : QuickMatch)
      → Elem m (split_by_cell area cell mode exclude ms).1
      → Found m ms × (m.cell_id ≢ cell)
  split_sound_other [] m h = absurd (rw split_nil at h)
  split_sound_other (x ∷ ms) m h = elim (Bool-cases (skips area mode exclude x)) [
    | inl s ↦
        let r = split_sound_other ms m (rw (split_skips x ms s) at h) in ((inr r.0.0, r.0.1), r.1)
    | inr f ↦ elim (cell-cases x) [
      | inl c ↦
          let r = split_sound_other ms m (rw (split_same x ms f c) at h) in
          ((inr r.0.0, r.0.1), r.1)
      | inr c ↦ elim (rw (split_other x ms f c) at h) [
        | inl e ↦ ((inl e, rw e ((skips_iff area mode exclude x).0 f)), rw e c)
        | inr k ↦ let r = split_sound_other ms m k in ((inr r.0.0, r.0.1), r.1)
      ]
    ]
  ]

  split_complete :
      (ms : List QuickMatch) (m : QuickMatch)
      → Found m ms
      → Elem m (split_by_cell area cell mode exclude ms).0
        ⊎ Elem m (split_by_cell area cell mode exclude ms).1
  split_complete [] m h = absurd (h.0)
  split_complete (x ∷ ms) m h = elim (Bool-cases (skips area mode exclude x)) [
    | inl s ↦ elim h.0 [
      | inl e ↦ absurd (clash s ((skips_iff area mode exclude x).1 (rw (sym e) h.1)))
      | inr k ↦ rw (split_skips x ms s) (split_complete ms m (k, h.1))
    ]
    | inr f ↦ elim (cell-cases x) [
      | inl c ↦ rw (split_same x ms f c) (elim h.0 [
        | inl e ↦ inl (inl e)
        | inr k ↦ elim (split_complete ms m (k, h.1)) [ inl a ↦ inl (inr a) | inr b ↦ inr b ]
      ])
      | inr c ↦ rw (split_other x ms f c) (elim h.0 [
        | inl e ↦ inr (inl e)
        | inr k ↦ elim (split_complete ms m (k, h.1)) [ inl a ↦ inl a | inr b ↦ inr (inr b) ]
      ])
    ]
  ]

  length-limited :
      (limit : ℕ) (out : List QuickMatch) → 0 < limit → length (limited limit out) ≤ limit
  unfolding limited
  length-limited limit out h = ground (arith, length-take limit out)

  limited-Elem :
      (limit : ℕ) (out : List QuickMatch) (m : QuickMatch) → Elem m (limited limit out) → Elem m out
  unfolding limited
  limited-Elem limit out m h = elim (Bool-cases (ltb 0 limit && ltb limit (length out))) [
    | inl e ↦ Elem-take limit m out (rw e at h)
    | inr e ↦ rw e at h
  ]

  limited_none : (out : List QuickMatch) → limited 0 out ≡ out
  unfolding limited
  limited_none out = refl

  module _ (order : List QuickMatch → List QuickMatch)
      (reorders : (m : QuickMatch) (ms : List QuickMatch) → Elem m (order ms) ↔ Elem m ms) where
    -- Whatever order a range over the registrations takes, a search returns only registrations of
    -- other players at the area and the mode asked for, and at most as many as its limit, when
    -- there is one.
    pub search_sound :
        (limit : ℕ) (store : List QuickMatch)
        → ((m : QuickMatch)
            → Elem m (search order area cell mode exclude limit store)
            → Found m store)
          × (0 < limit → length (search order area cell mode exclude limit store) ≤ limit)
    unfolding search
    search_sound limit store = (
      λ m h. elim (Elem-append m _ _ (limited-Elem limit _ m h)) [
        | inl a ↦ let r = split_sound_same (order store) m a in ((reorders m store).0 r.0.0, r.0.1)
        | inr b ↦ let r = split_sound_other (order store) m b in ((reorders m store).0 r.0.0, r.0.1)
      ],
      λ h. length-limited limit _ h,
    )

    -- Without a limit, a search returns every registration of another player at the area and the
    -- mode, in two parts: those at the cell asked for, and behind them those at other cells.
    pub search_complete :
        (store : List QuickMatch)
        → (same : List QuickMatch) × (other : List QuickMatch) × (search order area cell mode
              exclude 0 store
            ≡ same ++ other)
          × ((m : QuickMatch)
              → (Elem m same ↔ (Found m store × (m.cell_id ≡ cell)))
                × (Elem m other ↔ (Found m store × (m.cell_id ≢ cell))))
    unfolding search
    search_complete store =
        let parts = split_by_cell area cell mode exclude (order store) in
        (
          parts.0,
          parts.1,
          limited_none (parts.0 ++ parts.1),
          λ m. (
            (
              λ h.
                  (let r = split_sound_same (order store) m h in
                    (((reorders m store).0 r.0.0, r.0.1), r.1)),
              λ h. elim (split_complete (order store) m ((reorders m store).1 h.0.0, h.0.1)) [
                | inl a ↦ a
                | inr b ↦ absurd ((split_sound_other (order store) m b).1 h.1)
              ],
            ),
            (
              λ h.
                  (let r = split_sound_other (order store) m h in
                    (((reorders m store).0 r.0.0, r.0.1), r.1)),
              λ h. elim (split_complete (order store) m ((reorders m store).1 h.0.0, h.0.1)) [
                | inl a ↦ absurd (h.1 (split_sound_same (order store) m a).1)
                | inr b ↦ b
              ],
            ),
          ),
        )
