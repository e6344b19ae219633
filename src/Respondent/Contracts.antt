-- ===== src/Respondent/Contracts.antt =====
-- internal/respondent/contracts.go and internal/answercontract/contracts.go: the two assessments.
-- `other_…` stands for every string that is no constant of its type.
use conclution_ai_teacher.Prelude.{Bool, true, false, List, Option, none, some}

pub data Operator : Type 0 where
  boolean choice quantity state cause purpose procedure definition : Operator
  comparison evidence open_answer other_operator : Operator

pub data Slot : Type 0 where
  polarity_slot selection_slot quantity_slot state_slot cause_slot purpose_slot : Slot
  procedure_slot definition_slot comparison_slot evidence_slot position_slot : Slot
  unit_slot condition_slot uncertainty_slot scope_slot other_slot : Slot

pub data Outcome : Type 0 where
  keep restructure clarify reject other_outcome : Outcome

pub data CommitmentPosition : Type 0 where
  position_first position_later position_absent other_position : CommitmentPosition

pub data Issue : Type 0 where
  invalid_contract ambiguous_question required_slot_missing required_slot_lost : Issue
  commitment_absent commitment_not_first reconstruction_needed number_changed : Issue
  negation_changed condition_changed uncertainty_changed proper_content_changed : Issue
  protected_span_changed content_changed other_issue : Issue

-- `respondent.Assessment`.
pub record Assessment (F : Type 0) : Type 0 where
  pub outcome : Outcome
  pub original_target_coverage : F
  pub target_coverage : F
  pub original_commitment_position : CommitmentPosition
  pub commitment_position : CommitmentPosition
  pub target_satisfied : Bool
  pub meaning_preserved : Bool
  pub issues : List Issue

-- `answercontract.Metrics`, and the fields of `answercontract.Assessment` that the coach reads: all
-- but the reconstruction's own (`RepairAccepted`, `ReconstructedAnswer`).
pub record Metrics (F : Type 0) : Type 0 where
  pub hypothesis_gap : F
  pub hypothesis_entropy : F
  pub target_slot_coverage : F
  pub commitment_front_position : CommitmentPosition
  pub meaning_preservation : F

pub record CriticAssessment (F : Type 0) : Type 0 where
  pub metrics : Metrics F
  pub critic_outcome : Outcome
  pub ambiguous_contract : Bool
  pub critic_satisfied : Bool

unfoldable pub target_slot : Operator → Option Slot
target_slot boolean = some polarity_slot
target_slot choice = some selection_slot
target_slot quantity = some quantity_slot
target_slot state = some state_slot
target_slot cause = some cause_slot
target_slot purpose = some purpose_slot
target_slot procedure = some procedure_slot
target_slot definition = some definition_slot
target_slot comparison = some comparison_slot
target_slot evidence = some evidence_slot
target_slot open_answer = some position_slot
target_slot other_operator = none

abbrev pub is_keep : Outcome → Bool
is_keep keep = true
is_keep _ = false

abbrev pub is_clarify : Outcome → Bool
is_clarify clarify = true
is_clarify _ = false

abbrev pub is_reject : Outcome → Bool
is_reject reject = true
is_reject _ = false

abbrev pub is_first_position : CommitmentPosition → Bool
is_first_position position_first = true
is_first_position _ = false

abbrev pub is_later_position : CommitmentPosition → Bool
is_later_position position_later = true
is_later_position _ = false

abbrev pub is_absent_position : CommitmentPosition → Bool
is_absent_position position_absent = true
is_absent_position _ = false
