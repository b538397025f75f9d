-- ===== src/Signs/Pushes.antt =====
-- internal/server/game/sign.go and internal/server/game/mirrorknight.go: a push changes neither store
-- and no session, and the pushes made before stay.
use dso.Base.{
  Bool, true, false, ◌==◌, if◌then◌else◌, ℕ, ◌≡◌, refl, ◌∙◌, Option, none, some, List, [], ◌∷◌,
  Elem, Elem-append_left,
}
use dso.QuickMatch.Handlers.{ClientSession, session_for_player, Sent}
use dso.Signs.Store.{Sign}
use dso.Signs.Service.{Outgoing, Service, push_to, tell_one, tell_aware}
use dso.Signs.Handlers.{push_reject_to, push_sign_removed, push_all_removed, relay_rejection}
use dso.Signs.MirrorKnight.{
  push_mirror_knight_reject, push_mirror_knight_sign_removed, push_all_mirror_removed,
  relay_mirror_rejection,
}

-- A service that differs from another in what it has sent only, and has not sent less.
pub record Pushed (s s' : Service) : Type 0 where
  pub signs_same : s'.signs ≡ s.signs
  pub mirror_same : s'.mirror_knight ≡ s.mirror_knight
  pub sessions_same : s'.sessions ≡ s.sessions
  pub sent_more : (x : Sent) → Elem x s.sent → Elem x s'.sent

pub Pushed-refl : (s : Service) → Pushed s s
Pushed-refl s = record {
  signs_same = refl;
  mirror_same = refl;
  sessions_same = refl;
  sent_more = λ x h. h;
}

pub Pushed-trans : (a b c : Service) → Pushed a b → Pushed b c → Pushed a c
Pushed-trans a b c p q = record {
  signs_same = q.signs_same ∙ p.signs_same;
  mirror_same = q.mirror_same ∙ p.mirror_same;
  sessions_same = q.sessions_same ∙ p.sessions_same;
  sent_more = λ x h. q.sent_more x (p.sent_more x h);
}

pub push_to-Pushed :
    (target : ClientSession) (body : List ℕ) (s : Service) → Pushed s (push_to target body s)
unfolding push_to
push_to-Pushed target body s = record {
  signs_same = refl;
  mirror_same = refl;
  sessions_same = refl;
  sent_more = λ x h. Elem-append_left x s.sent _ h;
}

-- Nothing is pushed when there is nobody, or no bytes, to push.
pub Option-Pushed :
    {A : Type 0} (s : Service) (o : Option A) (push : A → Service)
    → ((a : A) → Pushed s (push a))
    → Pushed s (elim o [ none ↦ s | some a ↦ push a ])
Option-Pushed s none push h = Pushed-refl s
Option-Pushed s (some a) push h = h a

unless-Pushed : (skip : Bool) (s t : Service) → Pushed s t → Pushed s (if skip then s else t)
unless-Pushed true s t h = Pushed-refl s
unless-Pushed false s t h = h

pub tell_one-Pushed :
    (own : ℕ) (body : List ℕ) (id : ℕ) (s : Service) → Pushed s (tell_one own body id s)
unfolding tell_one
tell_one-Pushed own body id s = unless-Pushed (id == own) s _ (
    Option-Pushed s (session_for_player id s.sessions) (λ t. push_to t body s)
      (λ t. push_to-Pushed t body s))

pub tell_aware-Pushed :
    (own : ℕ) (body ids : List ℕ) (s : Service) → Pushed s (tell_aware own body ids s)
unfolding tell_aware
tell_aware-Pushed own body [] s = Pushed-refl s
tell_aware-Pushed own body (id ∷ ids) s =
    Pushed-trans s (tell_one own body id s) _ (tell_one-Pushed own body id s)
      (tell_aware-Pushed own body ids (tell_one own body id s))

module _ (order : List Sign → List Sign) (marshal : Outgoing → Option (List ℕ)) where
  pub push_reject_to-Pushed :
      (target : ClientSession) (owner sign reason : ℕ) (s : Service)
      → Pushed s (push_reject_to order marshal target owner sign reason s)
  unfolding push_reject_to
  push_reject_to-Pushed target owner sign reason s =
      Option-Pushed s _ (λ body. push_to target body s) (λ body. push_to-Pushed target body s)

  pub push_sign_removed-Pushed :
      (sg : Sign) (s : Service) → Pushed s (push_sign_removed order marshal sg s)
  unfolding push_sign_removed
  push_sign_removed-Pushed sg s =
      Option-Pushed s _ (λ body. tell_aware sg.owner_id body sg.aware_of s)
        (λ body. tell_aware-Pushed sg.owner_id body sg.aware_of s)

  pub push_all_removed-Pushed :
      (sgs : List Sign) (s : Service) → Pushed s (push_all_removed order marshal sgs s)
  unfolding push_all_removed
  push_all_removed-Pushed [] s = Pushed-refl s
  push_all_removed-Pushed (sg ∷ sgs) s =
      Pushed-trans s (push_sign_removed order marshal sg s) _ (push_sign_removed-Pushed sg s)
        (push_all_removed-Pushed sgs (push_sign_removed order marshal sg s))

  pub relay_rejection-Pushed :
      (sg : Sign) (sign reason : ℕ) (s : Service)
      → Pushed s (relay_rejection order marshal sg sign reason s)
  unfolding relay_rejection
  relay_rejection-Pushed sg sign reason s = unless-Pushed (sg.summoned_by == 0) s _ (
      Option-Pushed s _ (λ t. push_reject_to order marshal t sg.owner_id sign reason s)
        (λ t. push_reject_to-Pushed t sg.owner_id sign reason s))

  pub push_mirror_knight_reject-Pushed :
      (target : ClientSession) (owner sign reason : ℕ) (s : Service)
      → Pushed s (push_mirror_knight_reject order marshal target owner sign reason s)
  unfolding push_mirror_knight_reject
  push_mirror_knight_reject-Pushed target owner sign reason s =
      Option-Pushed s _ (λ body. push_to target body s) (λ body. push_to-Pushed target body s)

  pub push_mirror_knight_sign_removed-Pushed :
      (sg : Sign) (s : Service) → Pushed s (push_mirror_knight_sign_removed order marshal sg s)
  unfolding push_mirror_knight_sign_removed
  push_mirror_knight_sign_removed-Pushed sg s =
      Option-Pushed s _ (λ body. tell_aware sg.owner_id body sg.aware_of s)
        (λ body. tell_aware-Pushed sg.owner_id body sg.aware_of s)

  pub push_all_mirror_removed-Pushed :
      (sgs : List Sign) (s : Service) → Pushed s (push_all_mirror_removed order marshal sgs s)
  unfolding push_all_mirror_removed
  push_all_mirror_removed-Pushed [] s = Pushed-refl s
  push_all_mirror_removed-Pushed (sg ∷ sgs) s =
      Pushed-trans s (push_mirror_knight_sign_removed order marshal sg s) _
        (push_mirror_knight_sign_removed-Pushed sg s)
        (push_all_mirror_removed-Pushed sgs (push_mirror_knight_sign_removed order marshal sg s))

  pub relay_mirror_rejection-Pushed :
      (sg : Sign) (sign reason : ℕ) (s : Service)
      → Pushed s (relay_mirror_rejection order marshal sg sign reason s)
  unfolding relay_mirror_rejection
  relay_mirror_rejection-Pushed sg sign reason s = unless-Pushed (sg.summoned_by == 0) s _ (
      Option-Pushed s _ (λ t. push_mirror_knight_reject order marshal t sg.owner_id sign reason s)
        (λ t. push_mirror_knight_reject-Pushed t sg.owner_id sign reason s))
