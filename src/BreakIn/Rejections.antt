-- ===== src/BreakIn/Rejections.antt =====
-- internal/server/game/breakin.go: a host declines, and the invader is told under the alias of the mode.
use dso.Base.{false, ℕ, ◌≡◌, refl, ap, Option, none, some, List, [], ◌∷◌, ◌++◌}
use dso.BreakIn.State.{PlayerSession, TargetRequest, Marshalled, rejection_push, World}
use dso.BreakIn.Handlers.{
  find_player, rejection_of, reject_push_id, send_to, push_break_in_rejected, answer_with,
  handle_break_in_target,
}

-- A session in which an attempt was noted.
abbrev pub noted : ℕ → PlayerSession → PlayerSession
noted mode cs = record cs { break_in_type = mode }

module _ (order : List PlayerSession → List PlayerSession)
    (marshal : Marshalled → Option (List ℕ)) where
  push_break_in_rejected_sent :
      (invader : PlayerSession) (host : ℕ) (body : List ℕ) (w : World)
      → marshal (rejection_push (rejection_of w invader host)) ≡ some body
      → push_break_in_rejected order marshal invader host w ≡ send_to invader body w
  unfolding push_break_in_rejected
  push_break_in_rejected_sent invader host body w b = rw (push_break_in_rejected, b) refl

  -- To a host who is not connected, the rejection goes out under the mode of the invader's previous
  -- attempt, not the one of this request.
  pub attempt_offline :
      (cs : PlayerSession) (req : TargetRequest) (body : List ℕ) (w : World)
      → w.force_reject ≡ false
      → find_player req.player_id w.sessions ≡ none
      → marshal (
          rejection_push (record {
            push_message_id = reject_push_id w cs.break_in_type;
            player_id = req.player_id;
            psn_id = cs.account_id;
          }))
        ≡ some body
      → (handle_break_in_target order marshal cs (some req) w).0.sent
        ≡ w.sent ++ (cs.player_id, body) ∷ []
  unfolding handle_break_in_target answer_with rejection_of send_to
  attempt_offline cs req body w f e b =
      rw (handle_break_in_target, f, e)
        (ap World.sent (push_break_in_rejected_sent cs req.player_id body w b))
