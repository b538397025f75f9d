-- ===== src/BreakIn/Targets.antt =====
-- internal/server/game/breakin.go: whom handleGetBreakInTargetList offers.
use dso.Base.{
  Bool, true, false, ◌&&◌, ltb, leb, if◌then◌else◌, ℕ, ◌+◌, ◌≤◌, ◌≡◌, ◌≢◌, ◌↔◌, ◌⊎◌, refl, ap, sym,
  ◌∙◌, arith, Option, some, List, [], ◌∷◌, Elem, inl, inr, Bool-cases,
}
use dso.Matchmaking.Profile.{apply_matching_parameter, effective_soul_memory}
use dso.Matchmaking.Pools.{is_invadable}
use dso.Matchmaking.Tiers.{break_in_tier_window, soul_memory_matches}
use dso.BreakIn.State.{
  PlayerSession, TargetListRequest, TargetData, Marshalled, target_list, World,
  min_sin_for_blue_orb, blue_eye_orb,
}
use dso.BreakIn.Handlers.{
  offered_soul_memory, passes_over, collect_targets, target_data, with_phantom, change_session,
  answer_with, handle_get_break_in_target_list,
}

-- The rules for a target: another player; and with the filters on, one who can be invaded, in the area
-- or under the blue orb, in reach, and with enough sin for the blue orb unless the stats are unknown.
pub record IsTarget (filtering : Bool) (cs : PlayerSession) (req : TargetListRequest)
    (x : PlayerSession) : Type 0 where
  pub logged_in : x.player_id ≢ 0
  pub other_player : x.player_id ≢ cs.player_id
  pub invadable : (filtering ≡ false) ⊎ (is_invadable x.profile ≡ true)
  pub in_area :
      (filtering ≡ false)
      ⊎ ((req.break_in_type ≡ blue_eye_orb) ⊎ (x.profile.online_area ≡ req.online_area_id))
  pub in_reach :
      (filtering ≡ false)
      ⊎ (soul_memory_matches
            (offered_soul_memory req.matching_parameter)
            (effective_soul_memory x.profile)
            break_in_tier_window
          ≡ true)
  pub is_sinner :
      (filtering ≡ false)
      ⊎ ((req.break_in_type ≢ blue_eye_orb)
          ⊎ ((x.profile.stats_seen ≡ false) ⊎ (min_sin_for_blue_orb ≤ x.profile.sinner_points)))

passes_over-IsTarget :
    (filtering : Bool) (cs : PlayerSession) (req : TargetListRequest) (x : PlayerSession)
    → passes_over filtering cs req x ≡ false
    → IsTarget filtering cs req x
unfolding passes_over
passes_over-IsTarget filtering cs req x h = record {
  logged_in = λ e. ground arith;
  other_player = λ e. ground arith;
  invadable = ground arith;
  in_area = ground arith;
  in_reach = ground arith;
  is_sinner = ground arith;
}

unless_stopped :
    (stop : Bool) (x : PlayerSession) (more : List PlayerSession)
    → Elem x (if stop then [] else more)
    → Elem x more
unless_stopped true x more h = absurd h
unless_stopped false x more h = h

collect_sound :
    (skip : PlayerSession → Bool) (limit n : ℕ) (others : List PlayerSession) (x : PlayerSession)
    → Elem x (collect_targets skip limit n others)
    → Elem x others × (skip x ≡ false)
unfolding collect_targets
collect_sound skip limit n [] x h = absurd h
collect_sound skip limit n (y ∷ others) x h = elim (Bool-cases (skip y)) [
  | inl e ↦ let r = collect_sound skip limit n others x (rw e at h) in (inr r.0, r.1)
  | inr e ↦ elim (rw e at h) [
    | inl k ↦ (inl k, ap skip k ∙ e)
    | inr k ↦
        let r =
          collect_sound skip limit (n + 1) others x
            (unless_stopped (ltb 0 limit && leb limit (n + 1)) x _ k) in
        (inr r.0, r.1)
  ]
]

target_data_sound :
    (found : List PlayerSession) (t : TargetData)
    → Elem t (target_data found)
    → (x : PlayerSession) × Elem x found × (x.player_id ≡ t.player_id) × (x.account_id ≡ t.psn_id)
unfolding target_data
target_data_sound [] t h = absurd h
target_data_sound (y ∷ found) t (inl e) =
    (y, inl refl, ap TargetData.player_id (sym e), ap TargetData.psn_id (sym e))
target_data_sound (y ∷ found) t (inr k) =
    let r = target_data_sound found t k in (r.0, inr r.1, r.2, r.3)

with_phantom_off : (ts : List TargetData) → with_phantom false ts ≡ ts
unfolding with_phantom
with_phantom_off [] = refl
with_phantom_off (t ∷ ts) = refl

-- Without the rejection harness and in whatever order it ranges over the sessions, the list is the
-- marshalling of targets each of which is a session of another player who has logged in. With the
-- filters on, this player can be invaded, is in the area asked for unless the orb is blue, has a soul
-- memory in reach of the invader's, and, for the blue orb, has at least 10 points of sin or has not
-- sent any stats.
pub target_list_sound :
    (order : List PlayerSession → List PlayerSession) (marshal : Marshalled → Option (List ℕ))
    → ((x : PlayerSession) (xs : List PlayerSession) → Elem x (order xs) ↔ Elem x xs)
    → (cs : PlayerSession) (req : TargetListRequest) (w : World) → w.force_reject ≡ false
    → let r = handle_get_break_in_target_list order marshal cs (some req) w in
      (ts : List TargetData) × (r.1
        ≡ (answer_with order marshal (target_list req.online_area_id req.cell_id ts) w).1)
      × ((t : TargetData)
          → Elem t ts
          → (x : PlayerSession) × Elem x r.0.sessions
            × (x.player_id ≡ t.player_id)
            × (x.account_id ≡ t.psn_id)
            × IsTarget w.filtering cs req x)
unfolding handle_get_break_in_target_list answer_with
target_list_sound order marshal reorders cs req w f =
    let update : PlayerSession → PlayerSession = λ x. record x {
      area_id = req.online_area_id;
      profile = apply_matching_parameter req.matching_parameter x.profile;
    } in
    let sessions = change_session cs.key update w.sessions in
    let skip = passes_over w.filtering cs req in
    let found = collect_targets skip req.max_targets 0 (order sessions) in
    (
      target_data found,
      rw (f, with_phantom_off (target_data found)) refl,
      λ t h.
          let (x, among, same_id, same_name) = target_data_sound found t h in
          let (inside, kept) = collect_sound skip req.max_targets 0 (order sessions) x among in
          (
            x,
            (reorders x sessions).0 inside,
            same_id,
            same_name,
            passes_over-IsTarget w.filtering cs req x kept,
          ),
    )
