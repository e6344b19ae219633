-- ===== src/Initiative/Selection.antt =====
-- internal/initiativescheduler/selection.go: the choice among at most four actions and a wait.
pub mod Order
pub mod Best
use conclution_ai_teacher.Prelude.{
  ℕ, Bool, true, false, not, ◌&&◌, ◌||◌, if◌then◌else◌, List, [], ◌∷◌, any_of, length, Option, none,
  some, ltb, ◌==◌, Result, ok, err, ◌>>=◌, ◌>>◌, fail_if,
}
use conclution_ai_teacher.Prelude.Int.{ℤ, pos, negsuc, ◌-ℤ◌, ltb_ℤ, leb_ℤ, eqb_ℤ}
use conclution_ai_teacher.Initiative.Scheduler.{
  Action, ask_one, reflect_user_goal, offer_choice, start_practice, acknowledge_release, no_action,
  Stage, prepare_stage, commit_stage, listen, abort_stage, Lease, Input, Decision, InitiativeError,
  decide, inactive, wait_selected, valid_action, same_action,
}

abbrev maximum_options : ℕ
maximum_options = 4

-- `Option` of the source.
pub record Proposal : Type 0 where
  pub action : Action
  pub utility_lower_bound_bps : ℤ
  pub estimated_delivery_ms : ℤ
  pub would_substitute_answer : Bool

-- The errors of `DecideOptions`: of the base, of an option, and of `Decide`.
pub data SelectionError : Type 0 where
  options_invalid option_invalid : SelectionError
  not_decided : InitiativeError → SelectionError

-- The order of the names of the valid actions as strings.
abbrev pub name_order : Action → ℕ
name_order acknowledge_release = 0
name_order ask_one = 1
name_order offer_choice = 2
name_order reflect_user_goal = 3
name_order start_practice = 4
name_order _ = 5

-- option.Action < best.Action, where both are valid.
abbrev pub named_before : Action → Action → Bool
named_before a b = ltb (name_order a) (name_order b)

unfoldable pub malformed_option : List Action → Proposal → Bool
malformed_option seen o =
    not (valid_action o.action)
    || any_of (same_action o.action) seen
    || ltb_ℤ o.estimated_delivery_ms (pos 0)
    || ltb_ℤ o.utility_lower_bound_bps (negsuc 9999)
    || ltb_ℤ (pos 10000) o.utility_lower_bound_bps

unfoldable pub eligible : Proposal → Bool
eligible o = not (o.would_substitute_answer || leb_ℤ o.utility_lower_bound_bps (pos 0))

unfoldable pub on_time : ℤ → Proposal → Bool
on_time remaining o = leb_ℤ (pos 0) remaining && leb_ℤ o.estimated_delivery_ms remaining

-- The later keys of the order: the delivery, then the name; and before them the utility.
unfoldable pub quicker : Proposal → Proposal → Bool
quicker o best =
    ltb_ℤ o.estimated_delivery_ms best.estimated_delivery_ms
    || (eqb_ℤ o.estimated_delivery_ms best.estimated_delivery_ms
        && named_before o.action best.action)

unfoldable pub worthier : Proposal → Proposal → Bool
unfolding quicker
worthier o best =
    ltb_ℤ best.utility_lower_bound_bps o.utility_lower_bound_bps
    || (eqb_ℤ o.utility_lower_bound_bps best.utility_lower_bound_bps && quicker o best)

-- Whether an option takes the place of the best so far; `bestOnTime` is `on_time` of the best.
unfoldable pub better : ℤ → Proposal → Proposal → Bool
unfolding on_time worthier
better remaining o best =
    (on_time remaining o && not (on_time remaining best))
    || ((if on_time remaining o then on_time remaining best else not (on_time remaining best))
        && worthier o best)

abbrev pub replace_best : ℤ → Proposal → Option Proposal → Proposal
replace_best remaining o none = o
replace_best remaining o (some best) = if better remaining o best then o else best

unfoldable pub consider : ℤ → Proposal → Option Proposal → Option Proposal
consider remaining o best = if eligible o then some (replace_best remaining o best) else best

-- The loop over the options.
unfoldable pub choose :
    ℤ → List Action → Option Proposal → List Proposal → Result SelectionError (Option Proposal)
choose remaining seen best [] = ok best
choose remaining seen best (o ∷ os) = do
  fail_if (malformed_option seen o) option_invalid
  choose remaining (o.action ∷ seen) (consider remaining o best) os

pub record Selection : Type 0 where
  pub action : Action
  pub decision : Decision

abbrev is_no_action : Action → Bool
is_no_action no_action = true
is_no_action _ = false

-- The first test of `DecideOptions`.
unfoldable pub malformed_base : Input → List Proposal → Bool
malformed_base base os =
    not (is_no_action base.action)
    || not (eqb_ℤ base.estimated_delivery_ms (pos 0))
    || not (eqb_ℤ base.utility_lower_bound_bps (pos 0))
    || base.would_substitute_answer
    || ltb maximum_options (length os)

unfoldable pub probe : Input → Input
probe base = record base { action = ask_one; utility_lower_bound_bps = pos 1 }

unfoldable pub selected : Input → Proposal → Input
selected base best = record base {
  action = best.action;
  estimated_delivery_ms = best.estimated_delivery_ms;
  utility_lower_bound_bps = best.utility_lower_bound_bps;
}

abbrev or_not_decided : Result InitiativeError Decision → Result SelectionError Decision
or_not_decided (ok d) = ok d
or_not_decided (err e) = err (not_decided e)

abbrev pub starts_work : Stage → Bool
starts_work prepare_stage = true
starts_work commit_stage = true
starts_work _ = false

-- The part of `DecideOptions` after the loop.
unfoldable pub conclude : Input → Option Proposal → Result SelectionError Selection
conclude base none =
    ok (record { action = no_action; decision = inactive base.prepared wait_selected })
conclude base (some best) = do
  d ← or_not_decided (decide (selected base best))
  ok (record { action = if starts_work d.stage then best.action else no_action; decision = d })

unfoldable pub decide_options : Input → List Proposal → Result SelectionError Selection
decide_options base os = do
  fail_if (malformed_base base os) options_invalid
  or_not_decided (decide (probe base))
  best ← choose (base.first_audio_deadline_ms -ℤ base.now_ms) [] none os
  conclude base best
