-- ===== src/Respondent/Utility/Maximal.antt =====
-- The choice of `selectAnswerAction` has the highest total among the permitted actions, where the
-- totals are ordered (no NaN).
use conclution_ai_teacher.Prelude.{◌≡◌, refl, Bool, true, false, arith}
use conclution_ai_teacher.Respondent.Floats.{FloatOps, Five, five}
use conclution_ai_teacher.Respondent.Progress.{AnswerAttemptLevel}
use conclution_ai_teacher.Respondent.Policy.{
  AnswerSupportAction, wait, elicit, restate, complete, release, other_action, permits,
}
use conclution_ai_teacher.Respondent.Utility.{
  AnswerActionUtility, Selected, select_step, select_answer_action, evaluate_answer_actions,
}

-- The order of `float64` on values that are not NaN.
pub record IsOrdered {F : Type 0} (fl : FloatOps F) : Type 0 where
  pub irreflexive : (x : F) → fl.lt x x ≡ false
  pub asymmetric : (x y : F) → fl.lt x y ≡ true → fl.lt y x ≡ false
  pub cotransitive : (x y z : F) → fl.lt x y ≡ false → fl.lt y z ≡ false → fl.lt x z ≡ false

-- The total of an action in the array of utilities.
abbrev pub total_of : {F : Type 0} → Five (AnswerActionUtility F) → AnswerSupportAction → F
total_of us wait = us.at_0.total
total_of us elicit = us.at_1.total
total_of us restate = us.at_2.total
total_of us complete = us.at_3.total
total_of us release = us.at_4.total
total_of us other_action = us.at_0.total

module _ {F : Type 0} (fl : FloatOps F) (ordered : IsOrdered fl) where
  -- The loop's best total is not below `x`.
  abbrev Covers : F → Selected F → Type 0
  Covers x s = (s.found ≡ true) × (fl.lt s.best_total x ≡ false)

  Covers-keep :
      (x : F) (s : Selected F) (u : AnswerActionUtility F)
      → Covers x s
      → Covers x (select_step fl s u)
  unfolding select_step
  Covers-keep x s u c =
      ground (
        arith,
        ordered.asymmetric s.best_total u.total,
        ordered.cotransitive u.total s.best_total x,
      )

  Covers-new :
      (s : Selected F) (u : AnswerActionUtility F)
      → u.permitted ≡ true
      → Covers u.total (select_step fl s u)
  unfolding select_step
  Covers-new s u p = ground (arith, ordered.irreflexive u.total)

  -- The best total is that of the chosen action.
  abbrev Tracks : Five (AnswerActionUtility F) → Selected F → Type 0
  Tracks us s = s.found ≡ true → total_of us s.chosen ≡ s.best_total

  Tracks-step :
      (us : Five (AnswerActionUtility F)) (s : Selected F) (u : AnswerActionUtility F)
      → total_of us u.action ≡ u.total
      → Tracks us s
      → Tracks us (select_step fl s u)
  unfolding select_step
  Tracks-step us s u e t = ground arith

  -- The five rounds of the loop from state `s`.
  abbrev rounds : Selected F → Five (AnswerActionUtility F) → Five (Selected F)
  rounds s us =
      let s1 = select_step fl s us.at_0 in
      let s2 = select_step fl s1 us.at_1 in
      let s3 = select_step fl s2 us.at_2 in
      let s4 = select_step fl s3 us.at_3 in five s1 s2 s3 s4 (select_step fl s4 us.at_4)

  rounds-Covers :
      (s : Selected F) (us : Five (AnswerActionUtility F))
      → let t = (rounds s us).at_4 in
        (us.at_0.permitted ≡ true → Covers us.at_0.total t)
        × (us.at_1.permitted ≡ true → Covers us.at_1.total t)
        × (us.at_2.permitted ≡ true → Covers us.at_2.total t)
        × (us.at_3.permitted ≡ true → Covers us.at_3.total t)
        × (us.at_4.permitted ≡ true → Covers us.at_4.total t)
  rounds-Covers s us =
      let r = rounds s us in
      let keep4 = λ (x : F) (c : Covers x r.at_3). Covers-keep x r.at_3 us.at_4 c in
      let keep3 = λ (x : F) (c : Covers x r.at_2). keep4 x (Covers-keep x r.at_2 us.at_3 c) in
      let keep2 = λ (x : F) (c : Covers x r.at_1). keep3 x (Covers-keep x r.at_1 us.at_2 c) in
      let keep1 = λ (x : F) (c : Covers x r.at_0). keep2 x (Covers-keep x r.at_0 us.at_1 c) in
      (
        λ p. keep1 us.at_0.total (Covers-new s us.at_0 p),
        λ p. keep2 us.at_1.total (Covers-new r.at_0 us.at_1 p),
        λ p. keep3 us.at_2.total (Covers-new r.at_1 us.at_2 p),
        λ p. keep4 us.at_3.total (Covers-new r.at_2 us.at_3 p),
        λ p. Covers-new r.at_3 us.at_4 p,
      )

  rounds-Tracks :
      (s : Selected F) (us : Five (AnswerActionUtility F))
      → total_of us us.at_0.action ≡ us.at_0.total
      → total_of us us.at_1.action ≡ us.at_1.total
      → total_of us us.at_2.action ≡ us.at_2.total
      → total_of us us.at_3.action ≡ us.at_3.total
      → total_of us us.at_4.action ≡ us.at_4.total
      → Tracks us s
      → Tracks us (rounds s us).at_4
  rounds-Tracks s us e0 e1 e2 e3 e4 t =
      let r = rounds s us in
      Tracks-step us r.at_3 us.at_4 e4 (
        Tracks-step us r.at_2 us.at_3 e3 (
          Tracks-step us r.at_1 us.at_2 e2
            (Tracks-step us r.at_0 us.at_1 e1 (Tracks-step us s us.at_0 e0 t))))

  -- Where the order of the totals is that of floats without NaN, no permitted action has a total
  -- above that of the chosen action.
  pub select-maximal :
      (values : Five F) (attempts : AnswerAttemptLevel) (mask : Five Bool)
      (action : AnswerSupportAction)
      → permits mask action ≡ true
      → let us = evaluate_answer_actions fl values attempts mask in
        fl.lt (total_of us (select_answer_action fl us)) (total_of us action) ≡ false
  unfolding select_answer_action evaluate_answer_actions
  select-maximal values attempts mask action p =
      let us = evaluate_answer_actions fl values attempts mask in
      let s : Selected F = record {
        chosen = wait;
        best_total = fl.neg fl.max_float;
        found = false;
      } in
      let (c0, c1, c2, c3, c4) = rounds-Covers s us in
      let t = rounds-Tracks s us refl refl refl refl refl (λ e. cc) in
      let covered : Covers (total_of us action) (rounds s us).at_4 =
        elim action as (λ a. permits mask a ≡ true → Covers (total_of us a) (rounds s us).at_4) [
          | wait ↦ c0
          | elicit ↦ c1
          | restate ↦ c2
          | complete ↦ c3
          | release ↦ c4
          | other_action ↦ c0
        ]
          p in
      rw (t covered.0) covered.1
