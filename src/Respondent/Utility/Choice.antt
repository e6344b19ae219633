-- ===== src/Respondent/Utility/Choice.antt =====
-- The choice of `selectAnswerAction` is a permitted action, whatever the utilities are.
use conclution_ai_teacher.Prelude.{◌≡◌, refl, ◌∙◌, ◌≢◌, Bool, true, false, ◌||◌, arith}
use conclution_ai_teacher.Respondent.Floats.{FloatOps, Five, fold_five}
use conclution_ai_teacher.Respondent.Progress.{AnswerAttemptLevel}
use conclution_ai_teacher.Respondent.Policy.{wait, other_action, permits}
use conclution_ai_teacher.Respondent.Utility.{
  AnswerActionUtility, Selected, select_step, select_answer_action, evaluate_answer_actions,
}

module _ {F : Type 0} (fl : FloatOps F) where
  -- The loop has found nothing, or an action of the mask.
  abbrev IsGood : Five Bool → Selected F → Type 0
  IsGood mask s = s.found ≡ true → (permits mask s.chosen ≡ true) × (s.chosen ≢ other_action)

  -- The entry of the array names its action, and the mask's bit for it.
  abbrev Fits : Five Bool → AnswerActionUtility F → Type 0
  Fits mask u = (permits mask u.action ≡ u.permitted) × (u.action ≢ other_action)

  step-IsGood :
      (mask : Five Bool) (s : Selected F) (u : AnswerActionUtility F)
      → Fits mask u
      → IsGood mask s
      → IsGood mask (select_step fl s u) × ((select_step fl s u).found ≡ (s.found || u.permitted))
  unfolding select_step
  step-IsGood mask s u p g = ground arith

  loop-IsGood :
      (mask : Five Bool) (s : Selected F) (us : Five (AnswerActionUtility F))
      → Fits mask us.at_0
      → Fits mask us.at_1
      → Fits mask us.at_2
      → Fits mask us.at_3
      → Fits mask us.at_4
      → IsGood mask s
      → let t = fold_five (select_step fl) s us in
        IsGood mask t
        × (t.found ≡ (
            s.found || us.at_0.permitted || us.at_1.permitted || us.at_2.permitted
            || us.at_3.permitted || us.at_4.permitted))
  loop-IsGood mask s us f0 f1 f2 f3 f4 g =
      let (g1, e1) = step-IsGood mask s us.at_0 f0 g in
      let s1 = select_step fl s us.at_0 in
      let (g2, e2) = step-IsGood mask s1 us.at_1 f1 g1 in
      let s2 = select_step fl s1 us.at_1 in
      let (g3, e3) = step-IsGood mask s2 us.at_2 f2 g2 in
      let s3 = select_step fl s2 us.at_2 in
      let (g4, e4) = step-IsGood mask s3 us.at_3 f3 g3 in
      let s4 = select_step fl s3 us.at_3 in
      let (g5, e5) = step-IsGood mask s4 us.at_4 f4 g4 in (g5, ground arith)

  pub select-permitted :
      (values : Five F) (attempts : AnswerAttemptLevel) (mask : Five Bool)
      → mask.at_0 || mask.at_1 || mask.at_2 || mask.at_3 || mask.at_4 ≡ true
      → let action = select_answer_action fl (evaluate_answer_actions fl values attempts mask) in
        (permits mask action ≡ true) × (action ≢ other_action)
  unfolding select_answer_action evaluate_answer_actions
  select-permitted values attempts mask h =
      let (good, found) =
        loop-IsGood mask (record { chosen = wait; best_total = fl.neg fl.max_float; found = false })
          (evaluate_answer_actions fl values attempts mask) (refl, λ e. cc) (refl, λ e. cc)
          (refl, λ e. cc) (refl, λ e. cc) (refl, λ e. cc) (λ e. cc) in
      good (found ∙ h)
