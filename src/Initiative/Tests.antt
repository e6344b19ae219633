-- ===== src/Initiative/Tests.antt =====
-- The scheduler and its authority at concrete inputs.
use conclution_ai_teacher.Prelude.{◌≤◌, ◌≡◌, ◌↔◌, refl, true, false, [], ◌∷◌, ◌++◌, none, some}
use conclution_ai_teacher.Prelude.Int.{◌<ℤ◌, pos, ◌≤ℤ◌, ◌+ℤ◌}
use conclution_ai_teacher.Initiative.Scheduler.{
  ask_one, idle, no_control, commit_stage, safe_commit, Lease, Input, Decision, malformed_input,
  malformed_lease, vetoed, stale, decide_on_idle, decide_on_floor, decide, deadline_missed_at,
}
use conclution_ai_teacher.Initiative.Scheduler.Safety.{SafeToHear, commit_iff}
use conclution_ai_teacher.Initiative.Scheduler.{
  offer_choice, no_action, prepare_stage, prepare_before_commit,
}
use conclution_ai_teacher.Prelude.{ok}
use conclution_ai_teacher.Prelude.Int.{◌-ℤ◌}
use conclution_ai_teacher.Initiative.Selection.{
  Proposal, Selection, starts_work, decide_options, malformed_base, probe, choose, consider,
  eligible, better, on_time, worthier, quicker, malformed_option, conclude, selected,
}
use conclution_ai_teacher.Initiative.Selection.Best.{Among, Foremost, decide_options-best}
use conclution_ai_teacher.Initiative.Authority.{
  PublicationAuthority, new_publication_authority, Turn, prepare_lease, commit, abort,
  malformed_turn, new_lease, honours, same_lease,
}
use conclution_ai_teacher.Initiative.Authority.Once.{
  prepares, commits, run, step, heard_in, heard-once, prepare-commit_iff,
}

abbrev first_turn : Turn
first_turn = record { user = 1; goal = 1; turn = 1; action = ask_one }

abbrev lease : Lease
lease = record {
  session_capability = 9;
  user_generation = 1;
  goal_generation = 1;
  turn_generation = 1;
  action = ask_one;
  expires_ms = pos 1500;
}

abbrev authority : PublicationAuthority
authority = record { capability = 9; prepared = none; committed = false; aborted = false }

abbrev holding : PublicationAuthority
holding = record authority { prepared = some lease }

-- A second commit of the same lease is refused.
commits_once :
    heard_in authority (
      prepares (pos 1000) (pos 500) first_turn
      ∷ commits (pos 1200) lease first_turn
      ∷ commits (pos 1300) lease first_turn
      ∷ [])
    ≡ 1
unfolding heard_in step prepare_lease commit honours same_lease malformed_turn new_lease
commits_once = refl

heard-once_example :
    (heard_in authority (
        (prepares (pos 1000) (pos 500) first_turn ∷ [])
        ++ (commits (pos 1200) lease first_turn ∷ []))
      ≤ 1)
    × (heard_in
          (abort (run authority (prepares (pos 1000) (pos 500) first_turn ∷ [])))
          (commits (pos 1200) lease first_turn ∷ [])
        ≡ 0)
unfolding new_publication_authority
heard-once_example =
    heard-once 9 (prepares (pos 1000) (pos 500) first_turn ∷ [])
      (commits (pos 1200) lease first_turn ∷ []) refl

prepare-commit_iff_example : ((commit holding (pos 1200) lease first_turn).1 ≡ none) ↔ (
    (lease ≡ lease)
    × (first_turn ≡ first_turn)
    × (pos 0 ≤ℤ pos 1200)
    × (pos 1200 ≤ℤ pos 1000 +ℤ pos 500))
unfolding prepare_lease malformed_turn new_lease
prepare-commit_iff_example =
    prepare-commit_iff authority (pos 1000) (pos 500) (pos 1200) first_turn first_turn lease
      {a' = holding} refl

abbrev quiet : Input
quiet = record {
  now_ms = pos 1200;
  session_capability = 9;
  first_audio_deadline_ms = pos 2000;
  estimated_delivery_ms = pos 300;
  user_generation = 1;
  goal_generation = 1;
  turn_generation = 1;
  action = ask_one;
  floor = idle;
  control = no_control;
  goal_active = true;
  provider_ready = true;
  would_substitute_answer = false;
  cooldown_active = false;
  final_acoustic_commit = true;
  calibrated = true;
  floor_resume_risk_upper_bps = pos 100;
  maximum_floor_resume_risk_bps = pos 500;
  utility_lower_bound_bps = pos 40;
  prepared = some lease;
}

abbrev heard_in_time : Decision
heard_in_time = record { stage = commit_stage; reason = safe_commit; deadline_missed = false }

abbrev heard_late : Decision
heard_late = record { stage = commit_stage; reason = safe_commit; deadline_missed = true }

commit_iff_example : (commit_stage ≡ commit_stage) ↔ SafeToHear quiet
unfolding decide malformed_input malformed_lease vetoed stale decide_on_floor decide_on_idle
    deadline_missed_at
commit_iff_example = commit_iff quiet {d = heard_in_time} refl

abbrev offer : Proposal
offer = record {
  action = offer_choice;
  utility_lower_bound_bps = pos 30;
  estimated_delivery_ms = pos 200;
  would_substitute_answer = false;
}

abbrev question : Proposal
question = record {
  action = ask_one;
  utility_lower_bound_bps = pos 40;
  estimated_delivery_ms = pos 300;
  would_substitute_answer = false;
}

-- The input without an action, before anything is prepared.
abbrev open_base : Input
open_base = record quiet {
  action = no_action;
  estimated_delivery_ms = pos 0;
  utility_lower_bound_bps = pos 0;
  prepared = none;
}

abbrev asking : Selection
asking = record {
  action = ask_one;
  decision = record {
    stage = prepare_stage;
    reason = prepare_before_commit;
    deadline_missed = false;
  };
}

decide_options-best_example :
    (b : Proposal) × Among b (offer ∷ question ∷ [])
    × (b.would_substitute_answer ≡ false)
    × (pos 0 <ℤ b.utility_lower_bound_bps)
    × Foremost (open_base.first_audio_deadline_ms -ℤ open_base.now_ms) b (offer ∷ question ∷ [])
    × (ask_one ≡ b.action)
    × (decide (selected open_base b) ≡ ok asking.decision)
    × (starts_work asking.decision.stage ≡ true)
unfolding decide_options malformed_base probe choose consider eligible better on_time worthier
    quicker malformed_option conclude selected decide malformed_input malformed_lease vetoed stale
    decide_on_floor decide_on_idle
decide_options-best_example =
    decide_options-best open_base (offer ∷ question ∷ []) {sel = asking} refl (λ e. cc e)
