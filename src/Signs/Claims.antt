-- ===== src/Signs/Claims.antt =====
-- internal/server/game/sign.go: one summoner at a time.
use dso.Base.{
  Bool, true, false, ◌==◌, ℕ, ◌≡◌, ◌≢◌, refl, ap, sym, ◌∙◌, arith, Option, some, List, [], ◌∷◌,
  ◌++◌, append_assoc, Bool-cases, inl, inr,
}
use mathlib.Core.Option.{some_inj}
use dso.Base.Words.{u32}
use dso.QuickMatch.Handlers.{ClientSession, session_for_player}
use dso.Signs.Store.{
  Sign, SignStore, find_sign, change_sign, get_sign, claim, claimed_by_other, release,
  set_summoned_by,
}
use dso.Signs.Service.{
  Outgoing, push_summon, push_reject, Service, SummonRequest, RejectRequest, push_to, respond,
  sign_already_used,
}
use dso.Signs.Handlers.{
  push_reject_to, rejection_for, summon_for, summon_claimed, handle_summon_sign, handle_reject_sign,
}
use dso.Signs.Pushes.{relay_rejection-Pushed}

-- A sign that a player has claimed, or nobody for 0.
abbrev pub claimed : ℕ → Sign → Sign
claimed player sg = record sg { summoned_by = player }

find-set_summoned_by :
    (id player : ℕ) (sgs : List Sign) (sg : Sign)
    → find_sign id sgs ≡ some sg
    → find_sign id (change_sign id (claimed player) sgs) ≡ some (claimed player sg)
unfolding find_sign change_sign
find-set_summoned_by id player [] sg h = cc
find-set_summoned_by id player (x ∷ sgs) sg h = elim (Bool-cases (x.id == id)) [
  | inl e ↦ rw (e, e) (ap (λ y. some (claimed player y)) (some_inj.0 (rw e at h)))
  | inr e ↦ rw (e, e) (find-set_summoned_by id player sgs sg (rw e at h))
]

module _ (id : ℕ) (s : SignStore) where
  pub claim_free :
      (player : ℕ) (sg : Sign)
      → get_sign id s ≡ some sg
      → claimed_by_other player sg ≡ false
      → claim id player s ≡ (set_summoned_by id player s, (some (claimed player sg), true))
  unfolding claim get_sign
  claim_free player sg e f = let k : find_sign id s.by_id ≡ some sg = e in rw (claim, k, f) refl

  pub claim_taken :
      (player : ℕ) (sg : Sign)
      → get_sign id s ≡ some sg
      → claimed_by_other player sg ≡ true
      → claim id player s ≡ (s, (some sg, false))
  unfolding claim get_sign
  claim_taken player sg e f = let k : find_sign id s.by_id ≡ some sg = e in rw (claim, k, f) refl

  pub get-set_summoned_by :
      (player : ℕ) (sg : Sign)
      → get_sign id s ≡ some sg
      → get_sign id (set_summoned_by id player s) ≡ some (claimed player sg)
  unfolding get_sign set_summoned_by
  get-set_summoned_by player sg e = find-set_summoned_by id player s.by_id sg e

free : (player : ℕ) (sg : Sign) → sg.summoned_by ≡ 0 → claimed_by_other player sg ≡ false
unfolding claimed_by_other
free player sg e = ground arith

taken :
    (first second : ℕ) (sg : Sign)
    → first ≢ 0
    → second ≢ first
    → claimed_by_other second (claimed first sg) ≡ true
unfolding claimed_by_other
taken first second sg n m = ground arith

module _ (order : List Sign → List Sign) (marshal : Outgoing → Option (List ℕ)) where
  summon_host :
      (cs host : ClientSession) (req : SummonRequest) (sg : Sign) (body : List ℕ) (s : Service)
      → session_for_player sg.owner_id s.sessions ≡ some host
      → marshal (push_summon (summon_for cs req)) ≡ some body
      → (summon_claimed order marshal cs req (some sg, true) s).0 ≡ push_to host body s
  unfolding summon_claimed respond
  summon_host cs host req sg body s e b = rw (summon_claimed, e, b) refl

  pub push_reject_to_sent :
      (target : ClientSession) (owner sign reason : ℕ) (body : List ℕ) (s : Service)
      → marshal (push_reject (rejection_for target owner sign reason)) ≡ some body
      → push_reject_to order marshal target owner sign reason s ≡ push_to target body s
  unfolding push_reject_to
  push_reject_to_sent target owner sign reason body s b = rw (push_reject_to, b) refl

  refuse_summoner :
      (cs : ClientSession) (req : SummonRequest) (sg : Sign) (body : List ℕ) (s : Service)
      → marshal (push_reject (rejection_for cs sg.owner_id req.sign_id sign_already_used))
        ≡ some body
      → (summon_claimed order marshal cs req (some sg, false) s).0 ≡ push_to cs body s
  unfolding summon_claimed respond
  refuse_summoner cs req sg body s b =
      push_reject_to_sent cs sg.owner_id req.sign_id sign_already_used body s b

  handle_lem :
      (cs : ClientSession) (req : SummonRequest) (s : Service) (st : SignStore)
      (answer : Option Sign × Bool)
      → claim req.sign_id cs.player_id s.signs ≡ (st, answer)
      → (handle_summon_sign order marshal cs (some req) s).0
        ≡ (summon_claimed order marshal cs req answer (record s { signs = st })).0
  unfolding handle_summon_sign
  handle_lem cs req s st answer e =
      ap (λ r. (summon_claimed order marshal cs req r.1 (record s { signs = r.0 })).0) e

  reject_frees :
      (cs : ClientSession) (rej : RejectRequest) (sg : Sign) (s : Service)
      → get_sign (u32 rej.sign_id) s.signs ≡ some sg
      → get_sign (u32 rej.sign_id) (handle_reject_sign order marshal cs (some rej) s).0.signs
        ≡ some (claimed 0 sg)
  unfolding handle_reject_sign respond release
  reject_frees cs rej sg s e =
      let id = u32 rej.sign_id in
      let s' = record s { signs = set_summoned_by id 0 s.signs } in
      rw (handle_reject_sign, e)
        (ap (get_sign id) (relay_rejection-Pushed order marshal sg id rej.error s').signs_same
          ∙ get-set_summoned_by id s.signs 0 sg e)

  -- Let a sign be free and its host connected, and let two different players summon through it one
  -- after the other, the first of them not the player 0, and the two pushes be marshalled. Then the
  -- host is sent the first player's summon and nothing else is sent but the answer to the second
  -- player that the sign is in use; the second request leaves the store as it was, with the sign
  -- claimed by the first player. When the host then declines, the sign is free again.
  pub summon_twice :
      (first second host decliner : ClientSession) (req1 req2 : SummonRequest) (rej : RejectRequest)
      (sg : Sign) (b1 b2 : List ℕ) (s : Service)
      → req2.sign_id ≡ req1.sign_id
      → u32 rej.sign_id ≡ req1.sign_id
      → first.player_id ≢ 0
      → second.player_id ≢ first.player_id
      → get_sign req1.sign_id s.signs ≡ some sg
      → sg.summoned_by ≡ 0
      → session_for_player sg.owner_id s.sessions ≡ some host
      → marshal (push_summon (summon_for first req1)) ≡ some b1
      → marshal (push_reject (rejection_for second sg.owner_id req1.sign_id sign_already_used))
        ≡ some b2
      → let s1 = (handle_summon_sign order marshal first (some req1) s).0 in
        let s2 = (handle_summon_sign order marshal second (some req2) s1).0 in
        let s3 = (handle_reject_sign order marshal decliner (some rej) s2).0 in
        (s2.sent ≡ s.sent ++ ((host.player_id, b1) ∷ (second.player_id, b2) ∷ []))
        × (s2.signs ≡ s1.signs)
        × (get_sign req1.sign_id s2.signs ≡ some (claimed first.player_id sg))
        × (get_sign req1.sign_id s3.signs ≡ some (claimed 0 sg))
  unfolding push_to
  summon_twice first second host decliner req1 req2 rej sg b1 b2 s e2 e3 n m found unclaimed live p1
        p2 =
      let id = req1.sign_id in
      let held = claimed first.player_id sg in
      let st = set_summoned_by id first.player_id s.signs in
      let s1 = push_to host b1 (record s { signs = st }) in
      let step1 : (handle_summon_sign order marshal first (some req1) s).0 ≡ s1 =
        handle_lem first req1 s st (some held, true)
          (claim_free id s.signs first.player_id sg found (free first.player_id sg unclaimed))
        ∙ summon_host first host req1 held b1 (record s { signs = st }) live p1 in
      let got : get_sign id st ≡ some held =
        get-set_summoned_by id s.signs first.player_id sg found in
      let s2 = push_to second b2 s1 in
      let answer : claim req2.sign_id second.player_id st ≡ (st, (some held, false)) =
        ap (λ i. claim i second.player_id st) e2
        ∙ claim_taken id st second.player_id held got
            (taken first.player_id second.player_id sg n m) in
      let step2 : (handle_summon_sign order marshal second (some req2) s1).0 ≡ s2 =
        handle_lem second req2 s1 st (some held, false) answer
        ∙ refuse_summoner second req2 held b2 s1 (
            ap (λ i. marshal (push_reject (rejection_for second sg.owner_id i sign_already_used)))
              e2
            ∙ p2) in
      let both : (handle_summon_sign order marshal second (some req2)
            (handle_summon_sign order marshal first (some req1) s).0).0
          ≡ s2 =
        ap (λ x. (handle_summon_sign order marshal second (some req2) x).0) step1 ∙ step2 in
      (
        ap Service.sent both ∙ append_assoc s.sent _ _,
        ap Service.signs both ∙ sym (ap Service.signs step1),
        ap (λ x. get_sign id x.signs) both ∙ got,
        ap (λ x. get_sign id (handle_reject_sign order marshal decliner (some rej) x).0.signs) both
            ∙ ap (λ i. get_sign i (handle_reject_sign order marshal decliner (some rej) s2).0.signs)
                (sym e3)
            ∙ reject_frees decliner rej held s2 (ap (λ i. get_sign i st) e3 ∙ got),
      )
