-- ===== src/Initiative/Scheduler.antt =====
-- internal/initiativescheduler/scheduler.go: the decision on one initiative. A capability of 16
-- bytes is read as a number, a uint64 generation as a natural number.
pub mod Safety
use conclution_ai_teacher.Prelude.{
  ℕ, Bool, true, false, not, ◌&&◌, ◌||◌, if◌then◌else◌, Option, none, some, ◌==◌, Result, ok, err,
  ◌>>=◌, ◌>>◌, fail_if,
}
use conclution_ai_teacher.Prelude.Int.{ℤ, pos, negsuc, ◌-ℤ◌, ltb_ℤ, leb_ℤ}

-- `no_action` is the empty string, and the last constructor any other string.
pub data Action : Type 0 where
  ask_one reflect_user_goal offer_choice start_practice acknowledge_release : Action
  no_action unknown_action : Action

pub data Floor : Type 0 where
  idle speaking thinking self_repair quiet_candidate unknown_floor : Floor

pub data Control : Type 0 where
  no_control stop_control not_now correct_control unknown_control : Control

pub data Stage : Type 0 where
  listen prepare_stage commit_stage abort_stage : Stage

pub data Reason : Type 0 where
  hard_veto stale_lease user_floor quiet_candidate_uncommitted : Reason
  quiet_candidate_prepare_only prepare_before_commit provider_not_ready : Reason
  commit_evidence_insufficient safe_commit wait_selected : Reason

pub data InitiativeError : Type 0 where
  input_invalid lease_invalid publication_rejected : InitiativeError

pub record Lease : Type 0 where
  pub session_capability : ℕ
  pub user_generation : ℕ
  pub goal_generation : ℕ
  pub turn_generation : ℕ
  pub action : Action
  pub expires_ms : ℤ

pub record Input : Type 0 where
  pub now_ms : ℤ
  pub session_capability : ℕ
  pub first_audio_deadline_ms : ℤ
  pub estimated_delivery_ms : ℤ
  pub user_generation : ℕ
  pub goal_generation : ℕ
  pub turn_generation : ℕ
  pub action : Action
  pub floor : Floor
  pub control : Control
  pub goal_active : Bool
  pub provider_ready : Bool
  pub would_substitute_answer : Bool
  pub cooldown_active : Bool
  pub final_acoustic_commit : Bool
  pub calibrated : Bool
  pub floor_resume_risk_upper_bps : ℤ
  pub maximum_floor_resume_risk_bps : ℤ
  pub utility_lower_bound_bps : ℤ
  pub prepared : Option Lease

pub record Decision : Type 0 where
  pub stage : Stage
  pub reason : Reason
  pub deadline_missed : Bool

abbrev pub valid_action : Action → Bool
valid_action no_action = false
valid_action unknown_action = false
valid_action _ = true

abbrev valid_floor : Floor → Bool
valid_floor unknown_floor = false
valid_floor _ = true

abbrev valid_control : Control → Bool
valid_control unknown_control = false
valid_control _ = true

abbrev index_of : Action → ℕ
index_of ask_one = 0
index_of reflect_user_goal = 1
index_of offer_choice = 2
index_of start_practice = 3
index_of acknowledge_release = 4
index_of no_action = 5
index_of unknown_action = 6

-- Equality of two actions of which one is valid.
abbrev pub same_action : Action → Action → Bool
same_action a b = index_of a == index_of b

abbrev is_no_control : Control → Bool
is_no_control no_control = true
is_no_control _ = false

abbrev outside_bps : ℤ → Bool
outside_bps v = ltb_ℤ v (pos 0) || ltb_ℤ (pos 10000) v

-- The first test of `Decide`.
unfoldable pub malformed_input : Input → Bool
malformed_input i =
    ltb_ℤ i.now_ms (pos 0)
    || ltb_ℤ i.first_audio_deadline_ms (pos 0)
    || ltb_ℤ i.estimated_delivery_ms (pos 0)
    || i.session_capability == 0
    || i.user_generation == 0
    || i.goal_generation == 0
    || i.turn_generation == 0
    || not (valid_action i.action)
    || not (valid_floor i.floor)
    || not (valid_control i.control)
    || outside_bps i.floor_resume_risk_upper_bps
    || outside_bps i.maximum_floor_resume_risk_bps
    || ltb_ℤ i.utility_lower_bound_bps (negsuc 9999)
    || ltb_ℤ (pos 10000) i.utility_lower_bound_bps

unfoldable pub malformed_lease : Option Lease → Bool
malformed_lease none = false
malformed_lease (some l) =
    l.session_capability == 0
    || l.user_generation == 0
    || l.goal_generation == 0
    || l.turn_generation == 0
    || not (valid_action l.action)
    || ltb_ℤ l.expires_ms (pos 0)

unfoldable pub vetoed : Input → Bool
vetoed i =
    not (is_no_control i.control)
    || not i.goal_active
    || i.would_substitute_answer
    || i.cooldown_active
    || not i.calibrated
    || ltb_ℤ i.maximum_floor_resume_risk_bps i.floor_resume_risk_upper_bps
    || leb_ℤ i.utility_lower_bound_bps (pos 0)

unfoldable pub stale : Input → Option Lease → Bool
stale i none = false
stale i (some l) =
    not (l.session_capability == i.session_capability)
    || not (l.user_generation == i.user_generation)
    || not (l.goal_generation == i.goal_generation)
    || not (l.turn_generation == i.turn_generation)
    || not (same_action l.action i.action)
    || ltb_ℤ l.expires_ms i.now_ms

abbrev pub without_deadline : Stage → Reason → Decision
without_deadline stage reason = record { stage = stage; reason = reason; deadline_missed = false }

unfoldable pub inactive : Option Lease → Reason → Decision
inactive (some _) reason = without_deadline abort_stage reason
inactive none reason = without_deadline listen reason

unfoldable pub deadline_missed_at : Input → Bool
deadline_missed_at i =
    ltb_ℤ i.first_audio_deadline_ms i.now_ms
    || ltb_ℤ (i.first_audio_deadline_ms -ℤ i.now_ms) i.estimated_delivery_ms

-- The part of `Decide` after the switch on the floor.
unfoldable pub decide_on_idle : Input → Option Lease → Decision
unfolding deadline_missed_at
decide_on_idle i none = without_deadline prepare_stage prepare_before_commit
decide_on_idle i (some l) =
    if not i.provider_ready
    then without_deadline listen provider_not_ready
    else if not i.final_acoustic_commit
        || not i.calibrated
        || ltb_ℤ i.maximum_floor_resume_risk_bps i.floor_resume_risk_upper_bps
        || leb_ℤ i.utility_lower_bound_bps (pos 0)
    then without_deadline listen commit_evidence_insufficient
    else record {
      stage = commit_stage;
      reason = safe_commit;
      deadline_missed = deadline_missed_at i;
    }

abbrev on_quiet_candidate : Option Lease → Decision
on_quiet_candidate (some _) = without_deadline listen quiet_candidate_uncommitted
on_quiet_candidate none = without_deadline prepare_stage quiet_candidate_prepare_only

unfoldable pub decide_on_floor : Input → Floor → Decision
unfolding inactive decide_on_idle
decide_on_floor i speaking = inactive i.prepared user_floor
decide_on_floor i thinking = inactive i.prepared user_floor
decide_on_floor i self_repair = inactive i.prepared user_floor
decide_on_floor i quiet_candidate = on_quiet_candidate i.prepared
decide_on_floor i _ = decide_on_idle i i.prepared

unfoldable pub decide : Input → Result InitiativeError Decision
unfolding malformed_input malformed_lease vetoed stale inactive decide_on_floor
decide i = do
  fail_if (malformed_input i) input_invalid
  fail_if (malformed_lease i.prepared) lease_invalid
  ok (
      if vetoed i
      then inactive i.prepared hard_veto
      else if stale i i.prepared
      then without_deadline abort_stage stale_lease
      else decide_on_floor i i.floor)
