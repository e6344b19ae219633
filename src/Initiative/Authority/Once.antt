-- ===== src/Initiative/Authority/Once.antt =====
-- At most one initiative is heard, only under its own lease, and none after an abort.
use conclution_ai_teacher.Prelude.{
  ℕ, if◌then◌else◌, ◌+◌, ◌≤◌, ◌≡◌, ◌↔◌, sym, ap, ◌∙◌, true, false, List, [], ◌∷◌, ◌++◌, Option,
  none, some, arith, ok,
}
use conclution_ai_teacher.Prelude.{◌||◌}
use mathlib.Core.Path.{subst}
use conclution_ai_teacher.Prelude.Int.{ℤ, ◌+ℤ◌, pos, ◌≤ℤ◌}
use conclution_ai_teacher.Initiative.Scheduler.{InitiativeError, Lease}
use conclution_ai_teacher.Initiative.Authority.{
  PublicationAuthority, new_publication_authority, Turn, prepare_lease, honours, same_lease, commit,
  abort, malformed_turn, new_lease,
}

pub data Call : Type 0 where
  prepares : ℤ → ℤ → Turn → Call
  commits : ℤ → Lease → Turn → Call
  aborts : Call

unfoldable pub step : PublicationAuthority → Call → PublicationAuthority
step a (prepares now lifetime t) = (prepare_lease a now lifetime t).0
step a (commits now l t) = (commit a now l t).0
step a aborts = abort a

abbrev published : Option InitiativeError → ℕ
published none = 1
published (some _) = 0

-- How many commits a call makes: 1 for a `Commit` that succeeds.
abbrev heard : PublicationAuthority → Call → ℕ
heard a (commits now l t) = published (commit a now l t).1
heard a _ = 0

unfoldable pub run : PublicationAuthority → List Call → PublicationAuthority
run a [] = a
run a (c ∷ cs) = run (step a c) cs

-- The initiatives that are heard over the calls.
unfoldable pub heard_in : PublicationAuthority → List Call → ℕ
heard_in a [] = 0
heard_in a (c ∷ cs) = heard a c + heard_in (step a c) cs

-- What an authority can still grant.
abbrev left : PublicationAuthority → ℕ
left a = if a.aborted || a.committed then 0 else 1

step-left : (a : PublicationAuthority) (c : Call) → heard a c + left (step a c) ≤ left a
unfolding step prepare_lease commit abort
step-left a (prepares now lifetime t) = ground arith
step-left a (commits now l t) = ground arith
step-left a aborts = ground arith

heard_le : (a : PublicationAuthority) (cs : List Call) → heard_in a cs ≤ left a
unfolding heard_in
heard_le a [] = omega arith
heard_le a (c ∷ cs) = omega (arith, step-left a c, heard_le (step a c) cs)

-- Over any calls on a new authority, at most one commit succeeds, and after an abort none does,
-- whatever was prepared before or is prepared later.
pub heard-once :
    (capability : ℕ) (before after : List Call) {a : PublicationAuthority}
    → new_publication_authority capability ≡ ok a
    → (heard_in a (before ++ after) ≤ 1) × (heard_in (abort (run a before)) after ≡ 0)
unfolding new_publication_authority abort
heard-once capability before after {a = a} h = (
  ground (arith, heard_le a (before ++ after)),
  ground (arith, heard_le (abort (run a before)) after),
)

same_lease_iff : (l m : Lease) → (same_lease l m ≡ true) ↔ (l ≡ m)
unfolding same_lease
same_lease_iff l m = (λ h. ground arith, λ h. ground arith)

honours_iff :
    (a : PublicationAuthority) (l m : Lease) (t : Turn) (later : ℤ)
    → l.session_capability ≡ a.capability
    → (honours a (some l) later m t ≡ true)
      ↔ ((m ≡ l) × (l ≡ new_lease a.capability t l.expires_ms) × (later ≤ℤ l.expires_ms))
unfolding honours new_lease
honours_iff a l m t later c =
    (λ h. ground (arith, same_lease_iff m l), λ h. ground (arith, same_lease_iff m l))

prepared-lease :
    (a : PublicationAuthority) (now lifetime : ℤ) (t : Turn) {a' : PublicationAuthority} {l : Lease}
    → prepare_lease a now lifetime t ≡ (a', ok l)
    → (a'.prepared ≡ some l)
      × (a'.aborted ≡ false)
      × (a'.committed ≡ false)
      × (a'.capability ≡ a.capability)
      × (l ≡ new_lease a.capability t (now +ℤ lifetime))
      × (malformed_turn t ≡ false)
unfolding prepare_lease
prepared-lease a now lifetime t h = ground arith

new_lease-injective :
    (capability : ℕ) (t u : Turn) (x y : ℤ)
    → new_lease capability t x ≡ new_lease capability u y
    → (t ≡ u) × (x ≡ y)
unfolding new_lease
new_lease-injective capability t u x y e = ground arith

commit-honours :
    (a : PublicationAuthority) (later : ℤ) (m : Lease) (u : Turn)
    → a.aborted ≡ false
    → a.committed ≡ false
    → ((commit a later m u).1 ≡ none)
      ↔ ((pos 0 ≤ℤ later) × (malformed_turn u ≡ false) × (honours a a.prepared later m u ≡ true))
unfolding commit
commit-honours a later m u x y = (λ h. ground arith, λ h. ground arith)

-- Right after a successful preparation, a commit succeeds exactly when it presents the lease that
-- was returned, names the same generations and action, and comes at a time from 0 to the end of
-- the lease.
pub prepare-commit_iff :
    (a : PublicationAuthority) (now lifetime later : ℤ) (t u : Turn) (m : Lease)
    {a' : PublicationAuthority} {l : Lease}
    → prepare_lease a now lifetime t ≡ (a', ok l)
    → ((commit a' later m u).1 ≡ none)
      ↔ ((m ≡ l) × (u ≡ t) × (pos 0 ≤ℤ later) × (later ≤ℤ now +ℤ lifetime))
unfolding new_lease
prepare-commit_iff a now lifetime later t u m {a' = a'} {l = l} h =
    let (p, x, y, c, e, z) = prepared-lease a now lifetime t h in
    let granted = commit-honours a' later m u x y in
    let grantor : l.session_capability ≡ a'.capability = ap (λ k. k.session_capability) e ∙ sym c in
    let until : l.expires_ms ≡ now +ℤ lifetime = ap (λ k. k.expires_ms) e in
    let held = honours_iff a' l m u later grantor in
    let found = ap (λ o. honours a' o later m u) p in
    (
      λ k.
          let (start, _, hon) = granted.0 k in
          let (same, mine, in_time) = held.0 (sym found ∙ hon) in
          let (turns, _) =
            new_lease-injective a.capability u t l.expires_ms (now +ℤ lifetime)
              (ap (λ cap. new_lease cap u l.expires_ms) (sym c) ∙ sym mine ∙ e) in
          (same, turns, start, subst (λ b. later ≤ℤ b) until in_time),
      λ (same, turns, start, in_time). granted.1 (
        start,
        ap malformed_turn turns ∙ z,
        found
            ∙ held.1 (same, e ∙ cc (turns, c, until), subst (λ b. later ≤ℤ b) (sym until) in_time),
      ),
    )
