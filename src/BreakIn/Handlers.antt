-- ===== src/BreakIn/Handlers.antt =====
-- internal/server/game/breakin.go: the request handlers of the invasions.
--
-- A request that Unmarshal refuses is `none`. proto.Marshal is a parameter, which may fail; the bytes
-- pushed to a player's connection are kept in the order of the calls, and the log lines and the
-- counters that feed them are left out. `order` stands for the order of a range over the sessions,
-- which are known by their address.
use dso.Base.{
  ℕ, ◌+◌, ◌*◌, Bool, not, ◌&&◌, ◌||◌, ltb, leb, ◌==◌, if◌then◌else◌, Option, none, some, List, [],
  ◌∷◌, ◌++◌,
}
use dso.Base.Words.{u32}
use dso.Base.Result.{ok, err}
use dso.Matchmaking.Status.{MatchingParameter}
use dso.Matchmaking.Profile.{apply_matching_parameter, effective_soul_memory}
use dso.BreakIn.State.{
  min_sin_for_blue_orb, blue_eye_orb, debug_phantom_target_id, break_in_push_base,
  break_in_role_target, break_in_role_reject, PlayerSession, TargetData, TargetPush, RejectionPush,
  Marshalled, World, Reply, TargetListRequest, TargetRequest, target_push, rejection_push,
  target_list, no_fields_response, parse_failed, build_failed, marshal_failed,
}
use dso.Matchmaking.Pools.{is_invadable}
use dso.Matchmaking.Tiers.{break_in_tier_window, soul_memory_matches}

-- The conversion to int32 keeps the lower 32 bits, and is made whether or not the mode is negative.
unfoldable pub break_in_push_id_for : ℕ → ℕ → ℕ
break_in_push_id_for mode role = u32 (break_in_push_base + 4 * mode + role)

unfoldable pub reject_push_id : World → ℕ → ℕ
reject_push_id w mode =
    if not (w.reject_push_override == 0)
    then u32 w.reject_push_override
    else break_in_push_id_for mode break_in_role_reject

unfoldable pub find_player : ℕ → List PlayerSession → Option PlayerSession
find_player id [] = none
find_player id (cs ∷ rest) =
    let later = find_player id rest in if cs.player_id == id then some cs else later

-- A write through the pointer to the session with this key.
unfoldable pub change_session :
    ℕ → (PlayerSession → PlayerSession) → List PlayerSession → List PlayerSession
change_session key f [] = []
change_session key f (cs ∷ rest) =
    let others = change_session key f rest in if cs.key == key then f cs ∷ others else cs ∷ others

unfoldable pub offered_soul_memory : Option MatchingParameter → ℕ
offered_soul_memory none = 0
offered_soul_memory (some mp) = mp.soul_memory

-- Whether the loop of handleGetBreakInTargetList goes on without adding a session.
unfoldable pub passes_over : Bool → PlayerSession → TargetListRequest → PlayerSession → Bool
passes_over filtering cs req other =
    (other.player_id == 0 || other.player_id == cs.player_id)
    || (filtering
        && (not (is_invadable other.profile)
            || ((not (req.break_in_type == blue_eye_orb)
                  && not (other.profile.online_area == req.online_area_id))
                || (not (
                      soul_memory_matches (offered_soul_memory req.matching_parameter)
                        (effective_soul_memory other.profile) break_in_tier_window)
                    || (req.break_in_type == blue_eye_orb
                        && (other.profile.stats_seen
                            && ltb other.profile.sinner_points min_sin_for_blue_orb))))))

-- The loop; `n` targets are in the list so far, and a limit of 0 is no limit.
unfoldable pub collect_targets :
    (PlayerSession → Bool) → ℕ → ℕ → List PlayerSession → List PlayerSession
collect_targets skip limit n [] = []
collect_targets skip limit n (other ∷ others) =
    let more = collect_targets skip limit (n + 1) others in
    let rest = collect_targets skip limit n others in
    if skip other then rest else other ∷ (if ltb 0 limit && leb limit (n + 1) then [] else more)

unfoldable pub target_data : List PlayerSession → List TargetData
target_data [] = []
target_data (other ∷ others) =
    record { player_id = other.player_id; psn_id = other.account_id } ∷ target_data others

-- "dso-reject-test"
abbrev pub phantom_name : List ℕ
phantom_name =
    100 ∷ 115 ∷ 111 ∷ 45 ∷ 114 ∷ 101 ∷ 106 ∷ 101 ∷ 99 ∷ 116 ∷ 45 ∷ 116 ∷ 101 ∷ 115 ∷ 116 ∷ []

unfoldable pub with_phantom : Bool → List TargetData → List TargetData
with_phantom force [] =
    if force then record { player_id = debug_phantom_target_id; psn_id = phantom_name } ∷ [] else []
with_phantom force (t ∷ ts) = t ∷ ts

unfoldable pub send_to : PlayerSession → List ℕ → World → World
send_to target body w = record w { sent = w.sent ++ (target.player_id, body) ∷ [] }

-- The host's own place, where it is known.
unfoldable pub place_of : TargetRequest → PlayerSession → ℕ × ℕ
place_of req target =
    let p = target.profile in
    if not (p.online_activity_area == 0)
    then (
      (if not (p.online_area == 0) then p.online_area else req.online_area_id),
      p.online_activity_area,
    )
    else (req.online_area_id, req.cell_id)

unfoldable pub attempt_push : PlayerSession → TargetRequest → PlayerSession → TargetPush
attempt_push cs req target = record {
  push_message_id = break_in_push_id_for req.break_in_type break_in_role_target;
  player_id = cs.player_id;
  psn_id = cs.account_id;
  break_in_type = req.break_in_type;
  online_area_id = (place_of req target).0;
  cell_id = (place_of req target).1;
}

unfoldable pub set_break_in_type : ℕ → PlayerSession → World → World
set_break_in_type mode cs w = record w {
  sessions = change_session cs.key (λ x. record x { break_in_type = mode }) w.sessions;
}

unfoldable pub rejection_of : World → PlayerSession → ℕ → RejectionPush
rejection_of w invader host = record {
  push_message_id = reject_push_id w invader.break_in_type;
  player_id = host;
  psn_id = invader.account_id;
}

module _ (order : List PlayerSession → List PlayerSession)
    (marshal : Marshalled → Option (List ℕ)) where
  unfoldable pub answer_with : Marshalled → World → Reply
  answer_with response w =
      (w, elim (marshal response) [ none ↦ err marshal_failed | some bytes ↦ ok bytes ])

  unfoldable pub push_break_in_rejected : PlayerSession → ℕ → World → World
  push_break_in_rejected invader host w =
      elim (marshal (rejection_push (rejection_of w invader host))) [
        | none ↦ w
        | some body ↦ send_to invader body w
      ]

  unfoldable pub handle_get_break_in_target_list :
      PlayerSession → Option TargetListRequest → World → Reply
  handle_get_break_in_target_list cs none w = (w, err parse_failed)
  handle_get_break_in_target_list cs (some req) w =
      let update : PlayerSession → PlayerSession = λ x. record x {
        area_id = req.online_area_id;
        profile = apply_matching_parameter req.matching_parameter x.profile;
      } in
      let sessions = change_session cs.key update w.sessions in
      let found =
        collect_targets (passes_over w.filtering cs req) req.max_targets 0 (order sessions) in
      answer_with
        (target_list req.online_area_id req.cell_id
          (with_phantom w.force_reject (target_data found)))
        (record w { sessions = sessions })

  unfoldable pub handle_break_in_target : PlayerSession → Option TargetRequest → World → Reply
  handle_break_in_target cs none w = (w, err parse_failed)
  handle_break_in_target cs (some req) w =
      let noted = set_break_in_type req.break_in_type cs w in
      if w.force_reject
      then answer_with no_fields_response (
          push_break_in_rejected (record cs { break_in_type = req.break_in_type }) req.player_id
            noted)
      else elim (find_player req.player_id w.sessions) [
        | none ↦ answer_with no_fields_response (push_break_in_rejected cs req.player_id w)
        | some target ↦ elim (marshal (target_push (attempt_push cs req target))) [
          | none ↦ (noted, err build_failed)
          | some body ↦ answer_with no_fields_response (send_to target body noted)
        ]
      ]

  -- The request is the 64-bit player id.
  unfoldable pub handle_reject_break_in_target : PlayerSession → Option ℕ → World → Reply
  handle_reject_break_in_target cs none w = (w, err parse_failed)
  handle_reject_break_in_target cs (some id) w =
      answer_with no_fields_response (elim (find_player (u32 id) w.sessions) [
        | none ↦ w
        | some invader ↦ push_break_in_rejected invader cs.player_id w
      ])
