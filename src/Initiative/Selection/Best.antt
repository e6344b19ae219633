-- ===== src/Initiative/Selection/Best.antt =====
-- The choice is a best option.
use conclution_ai_teacher.Prelude.{
  ◌≡◌, ◌≢◌, ◌⊎◌, inl, inr, refl, ap, ◌∙◌, true, false, List, [], ◌∷◌, Option, none, some, arith,
  Bool-cases, Result, ok, Result-cases, ◌≤◌, ◌+◌, sym, ltb,
}
use mathlib.Core.Path.{subst}
use conclution_ai_teacher.Prelude.Int.{ℤ, pos, negsuc, pos_part, neg_part, ◌-ℤ◌, ◌≤ℤ◌, ◌<ℤ◌}
use conclution_ai_teacher.Initiative.Scheduler.{Action, Input, no_action, decide}
use conclution_ai_teacher.Initiative.Selection.{
  Selection, malformed_base, probe, selected, starts_work, conclude, decide_options, Proposal,
  SelectionError, eligible, better, consider, malformed_option, choose, on_time, worthier, quicker,
  name_order,
}
use conclution_ai_teacher.Initiative.Selection.Order.{better_trans, better_irrefl}

ok-injective :
    {x y : Option Proposal}
    → ◌≡◌ {A = Result SelectionError (Option Proposal)} (ok x) (ok y)
    → x ≡ y
ok-injective e = cc e

-- The option is not above the best so far: it is no candidate, or not better.
abbrev NotAbove : ℤ → Option Proposal → Proposal → Type 0
NotAbove r none x = eligible x ≡ false
NotAbove r (some b) x = (eligible x ≡ true) → better r x b ≡ false

consider-keeps :
    (r : ℤ) (o x : Proposal) (best : Option Proposal)
    → NotAbove r best x
    → NotAbove r (consider r o best) x
unfolding consider
consider-keeps r o x none n = ground arith
consider-keeps r o x (some b) n = ground (arith, better_trans r x o b)

consider-new : (r : ℤ) (o : Proposal) (best : Option Proposal) → NotAbove r (consider r o best) o
unfolding consider
consider-new r o none = ground (arith, better_irrefl r o)
consider-new r o (some b) = ground (arith, better_irrefl r o)

choose-parts :
    (r : ℤ) (seen : List Action) (best : Option Proposal) (o : Proposal) (os : List Proposal)
    {best' : Option Proposal}
    → choose r seen best (o ∷ os) ≡ ok best'
    → choose r (o.action ∷ seen) (consider r o best) os ≡ ok best'
unfolding choose
choose-parts r seen best o os h = elim (Bool-cases (malformed_option seen o)) [
  | inl bad ↦ absurd (ground arith)
  | inr good ↦ ground arith
]

choose-keeps :
    (r : ℤ) (seen : List Action) (best : Option Proposal) (os : List Proposal) (x : Proposal)
    {best' : Option Proposal}
    → choose r seen best os ≡ ok best'
    → NotAbove r best x
    → NotAbove r best' x
unfolding choose
choose-keeps r seen best [] x h n = subst (λ b. NotAbove r b x) (ok-injective h) n
choose-keeps r seen best (o ∷ os) x h n =
    choose-keeps r (o.action ∷ seen) (consider r o best) os x (choose-parts r seen best o os h)
      (consider-keeps r o x best n)

abbrev Unbeaten : ℤ → Option Proposal → List Proposal → Type 0
Unbeaten r best [] = Unit {0}
Unbeaten r best (o ∷ os) = NotAbove r best o × Unbeaten r best os

choose-Unbeaten :
    (r : ℤ) (seen : List Action) (best : Option Proposal) (os : List Proposal)
    {best' : Option Proposal}
    → choose r seen best os ≡ ok best'
    → Unbeaten r best' os
choose-Unbeaten r seen best [] h = tt
choose-Unbeaten r seen best (o ∷ os) h =
    let rest = choose-parts r seen best o os h in
    (
      choose-keeps r (o.action ∷ seen) (consider r o best) os o rest (consider-new r o best),
      choose-Unbeaten r (o.action ∷ seen) (consider r o best) os rest,
    )

-- The best is one of the options, and a candidate.
abbrev pub Among : Proposal → List Proposal → Type 0
Among b [] = ⊥
Among b (o ∷ os) = (b ≡ o) ⊎ Among b os

consider-cases :
    (r : ℤ) (o : Proposal) (best : Option Proposal) {b : Proposal}
    → consider r o best ≡ some b
    → (best ≡ some b) ⊎ ((b ≡ o) × (eligible b ≡ true))
unfolding consider
consider-cases r o none h = ground arith
consider-cases r o (some b') h = ground arith

choose-Among :
    (r : ℤ) (seen : List Action) (best : Option Proposal) (os : List Proposal) {b : Proposal}
    → choose r seen best os ≡ ok (some b)
    → (best ≡ some b) ⊎ (Among b os × (eligible b ≡ true))
unfolding choose
choose-Among r seen best [] h = inl (ok-injective h)
choose-Among r seen best (o ∷ os) h =
    elim (choose-Among r (o.action ∷ seen) (consider r o best) os
      (choose-parts r seen best o os h)) [
        | inr (m, e) ↦ inr (inr m, e)
        | inl c ↦ elim (consider-cases r o best c) [
          | inl same ↦ inl same
          | inr (new, e) ↦ inr (inl new, e)
        ]
      ]

conclude-chosen :
    (base : Input) (best : Option Proposal) {sel : Selection}
    → conclude base best ≡ ok sel
    → sel.action ≢ no_action
    → (b : Proposal) × (best ≡ some b)
      × (sel.action ≡ b.action)
      × (decide (selected base b) ≡ ok sel.decision)
      × (starts_work sel.decision.stage ≡ true)
unfolding conclude
conclude-chosen base none h acts = absurd (ground arith)
conclude-chosen base (some b) h acts = elim (Result-cases (decide (selected base b))) [
  | inr (e, p) ↦ absurd (ground arith)
  | inl (d, p) ↦ (b, refl, ground arith, ground arith, ground arith)
]

-- The answer of the option arrives by the deadline, `r` ms from now; it does not.
abbrev pub Punctual : ℤ → Proposal → Type 0
Punctual r x = (pos 0 ≤ℤ r) × (x.estimated_delivery_ms ≤ℤ r)

abbrev pub Tardy : ℤ → Proposal → Type 0
Tardy r x = (r <ℤ pos 0) ⊎ (r <ℤ x.estimated_delivery_ms)

-- The first option goes before the second, or level with it: by the utility, then by the delivery,
-- then by the name.
abbrev pub Ahead : Proposal → Proposal → Type 0
Ahead b x =
    (x.utility_lower_bound_bps <ℤ b.utility_lower_bound_bps)
    ⊎ ((b.utility_lower_bound_bps ≡ x.utility_lower_bound_bps)
        × ((b.estimated_delivery_ms <ℤ x.estimated_delivery_ms)
            ⊎ ((b.estimated_delivery_ms ≡ x.estimated_delivery_ms)
                × (name_order b.action ≤ name_order x.action))))

-- The same with the deadline, which goes before the utility.
abbrev pub Preferred : ℤ → Proposal → Proposal → Type 0
Preferred r b x =
    (Punctual r b × Tardy r x)
    ⊎ (((Punctual r b × Punctual r x) ⊎ (Tardy r b × Tardy r x)) × Ahead b x)

abbrev pub Disqualified : Proposal → Type 0
Disqualified x = (x.would_substitute_answer ≡ true) ⊎ (x.utility_lower_bound_bps ≤ℤ pos 0)

-- Every option of the list is disqualified, or the first one is preferred to it.
abbrev pub Foremost : ℤ → Proposal → List Proposal → Type 0
Foremost r b [] = Unit {0}
Foremost r b (o ∷ os) = (Disqualified o ⊎ Preferred r b o) × Foremost r b os

level : (a b : ℤ) → (pos_part a + neg_part b ≤ pos_part b + neg_part a) → (a <ℤ b) ⊎ (a ≡ b)
level (pos n) (pos m) h = elim (Bool-cases (ltb n m)) [
  | inl e ↦ inl (ground arith)
  | inr e ↦ inr (ap pos (ground arith))
]
level (pos n) (negsuc m) h = absurd (omega arith)
level (negsuc n) (pos m) h = inl (omega arith)
level (negsuc n) (negsuc m) h = elim (Bool-cases (ltb m n)) [
  | inl e ↦ inl (ground arith)
  | inr e ↦ inr (ap negsuc (ground arith))
]

unbeaten-Ahead : (b x : Proposal) → worthier x b ≡ false → Ahead b x
unfolding worthier quicker
unbeaten-Ahead b x h =
    elim (level x.utility_lower_bound_bps b.utility_lower_bound_bps (ground arith)) [
      | inl e ↦ inl e
      | inr e ↦ elim (level b.estimated_delivery_ms x.estimated_delivery_ms (ground (arith, e))) [
        | inl d ↦ inr (sym e, inl d)
        | inr d ↦ inr (sym e, inr (d, ground (arith, e, d)))
      ]
    ]

unbeaten-Preferred : (r : ℤ) (b x : Proposal) → better r x b ≡ false → Preferred r b x
unfolding better on_time
unbeaten-Preferred r b x h = elim (Bool-cases (on_time r b)) [
  | inl p ↦ elim (Bool-cases (on_time r x)) [
    | inl q ↦ inr (inl (ground arith, ground arith), unbeaten-Ahead b x (ground arith))
    | inr q ↦ inl (ground arith, ground arith)
  ]
  | inr p ↦ elim (Bool-cases (on_time r x)) [
    | inl q ↦ absurd (ground arith)
    | inr q ↦ inr (inr (ground arith, ground arith), unbeaten-Ahead b x (ground arith))
  ]
]

ineligible-Disqualified : (x : Proposal) → eligible x ≡ false → Disqualified x
unfolding eligible
ineligible-Disqualified x h = ground arith

Unbeaten-Foremost :
    (r : ℤ) (b : Proposal) (os : List Proposal) → Unbeaten r (some b) os → Foremost r b os
Unbeaten-Foremost r b [] u = tt
Unbeaten-Foremost r b (o ∷ os) (n, u) = elim (Bool-cases (eligible o)) [
  | inl e ↦ (inr (unbeaten-Preferred r b o (n e)), Unbeaten-Foremost r b os u)
  | inr e ↦ (inl (ineligible-Disqualified o e), Unbeaten-Foremost r b os u)
]

eligible-qualified :
    (b : Proposal)
    → eligible b ≡ true
    → (b.would_substitute_answer ≡ false) × (pos 0 <ℤ b.utility_lower_bound_bps)
unfolding eligible
eligible-qualified b h = ground arith

-- Where the options lead to an action, it is that of an option of the list with a positive utility
-- that does not substitute the answer, every other option of the list has no positive utility,
-- substitutes the answer, or does not go before it in the order: an option whose delivery fits the
-- time to the deadline first, then the higher utility, the earlier delivery and the earlier name;
-- and the decision is that of Decide for it, to prepare or to commit.
pub decide_options-best :
    (base : Input) (os : List Proposal) {sel : Selection}
    → decide_options base os ≡ ok sel
    → sel.action ≢ no_action
    → (b : Proposal) × Among b os
      × (b.would_substitute_answer ≡ false)
      × (pos 0 <ℤ b.utility_lower_bound_bps)
      × Foremost (base.first_audio_deadline_ms -ℤ base.now_ms) b os
      × (sel.action ≡ b.action)
      × (decide (selected base b) ≡ ok sel.decision)
      × (starts_work sel.decision.stage ≡ true)
unfolding decide_options
decide_options-best base os {sel = sel} h acts =
    let r = base.first_audio_deadline_ms -ℤ base.now_ms in
    elim (Bool-cases (malformed_base base os)) [
      | inl bad ↦ absurd (ground arith)
      | inr good ↦ elim (Result-cases (decide (probe base))) [
        | inr (e, p) ↦ absurd (ground arith)
        | inl (d, p) ↦ elim (Result-cases (choose r [] none os)) [
          | inr (e, c) ↦ absurd (ground arith)
          | inl (best, c) ↦
              let k : conclude base best ≡ ok sel = ground arith in
              let (b, same, named, decided, works) = conclude-chosen base best k acts in
              let chosen : choose r [] none os ≡ ok (some b) = c ∙ ap ok same in
              elim (choose-Among r [] none os chosen) [
                | inl e ↦ absurd (cc e)
                | inr (m, e) ↦
                    let (honest, useful) = eligible-qualified b e in
                    (
                      b,
                      m,
                      honest,
                      useful,
                      Unbeaten-Foremost r b os (choose-Unbeaten r [] none os chosen),
                      named,
                      decided,
                      works,
                    )
              ]
        ]
      ]
    ]
