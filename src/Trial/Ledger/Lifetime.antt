-- ===== src/Trial/Ledger/Lifetime.antt =====
-- The life of one record: what a transition keeps, when it is refused, and how many there can be.
use conclution_ai_teacher.Prelude.{
  ℕ, ◌+◌, ◌≤◌, ◌<◌, ◌≡◌, ◌≢◌, ◌↔◌, ◌⊎◌, inl, inr, Bool, true, false, List, [], ◌∷◌, arith, Result,
  ok, err, Result-cases, ap, sym, ◌||◌, ◌∙◌,
}
use conclution_ai_teacher.Prelude.Int.{ℤ, pos, ◌+ℤ◌}
use conclution_ai_teacher.Prelude.Clock.{Time}
use conclution_ai_teacher.Trial.Ledger.{
  ttl, TrialError, Event, help, stop, complete_verified, complete_unverified, other_event, Status,
  stopped, answer_first, unverified, Record, pending, validate_record, current, move, transition,
}

-- A valid record: 15 minutes from its creation, with a generation that counts what happened to it.
valid_generation :
    (r : Record)
    → validate_record r ≡ ok tt
    → (r.expires_at ≡ r.created_at + ttl)
      × ((r.generation ≡ pos 1) ⊎ (r.generation ≡ pos 2) ⊎ (r.generation ≡ pos 3))
unfolding validate_record
valid_generation r h = ground arith

pub current-eq :
    (r : Record) (now : Time) {r' : Record}
    → current r now ≡ ok r'
    → (r ≡ r') × (validate_record r ≡ ok tt) × (r.created_at ≤ now) × (now < r.expires_at)
unfolding current
current-eq r now h = ground arith

move-keeps :
    (r : Record) (event : Event) {r' : Record}
    → move r event ≡ ok r'
    → (r'.generation ≡ r.generation)
      × (r'.created_at ≡ r.created_at)
      × (r'.expires_at ≡ r.expires_at)
      × (r'.version ≡ r.version)
      × (r'.question ≡ r.question)
unfolding move
move-keeps r event h = ground arith

pub transition-advances :
    (r : Record) (generation : ℤ) (event : Event) (now : Time) {r' : Record}
    → transition r generation event now ≡ ok r'
    → (validate_record r ≡ ok tt)
      × (validate_record r' ≡ ok tt)
      × (generation ≡ r.generation)
      × (r.status ≡ pending)
      × (r'.generation ≡ r.generation +ℤ pos 1)
      × (r'.created_at ≡ r.created_at)
      × (r'.expires_at ≡ r.expires_at)
      × (r.created_at ≤ now)
      × (now < r.expires_at)
unfolding transition
transition-advances r generation event now h = elim (Result-cases (current r now)) [
  | inr (e, c) ↦ absurd (ground arith)
  | inl (r1, c) ↦ elim (Result-cases (move r1 event)) [
    | inr (e, m) ↦ absurd (ground arith)
    | inl (r2, m) ↦ ground (arith, current-eq r now c, move-keeps r1 event m)
  ]
]

-- A request to `Apply`, as the ledger sees it.
pub record Request : Type 0 where
  pub generation : ℤ
  pub event : Event
  pub now : Time

abbrev replaced : Record → Result TrialError Record → Record × ℕ
replaced r (ok r') = (r', 1)
replaced r (err e) = (r, 0)

-- The record after the requests, of which a refused one changes nothing, and how many succeeded.
unfoldable pub after_all : Record → List Request → Record × ℕ
after_all r [] = (r, 0)
after_all r (q ∷ qs) =
    let (r', n) = replaced r (transition r q.generation q.event q.now) in
    let (r'', m) = after_all r' qs in (r'', n + m)

after_all_keeps :
    (r : Record) (qs : List Request)
    → validate_record r ≡ ok tt
    → (validate_record (after_all r qs).0 ≡ ok tt)
      × ((after_all r qs).0.generation ≡ r.generation +ℤ pos (after_all r qs).1)
      × ((after_all r qs).0.created_at ≡ r.created_at)
unfolding after_all
after_all_keeps r [] v = ground (arith, valid_generation r v)
after_all_keeps r (q ∷ qs) v = elim (Result-cases (transition r q.generation q.event q.now)) [
  | inr (e, t) ↦ ground (arith, after_all_keeps r qs v, t)
  | inl (r', t) ↦
      let a = transition-advances r q.generation q.event q.now t in
      ground (arith, a, after_all_keeps r' qs a.1, t, valid_generation r v)
]

-- Of any sequence of requests on a valid record, at most 2 succeed; the record stays valid and its
-- deadline does not move.
pub applied_le :
    (r : Record) (qs : List Request)
    → validate_record r ≡ ok tt
    → (validate_record (after_all r qs).0 ≡ ok tt)
      × ((after_all r qs).1 ≤ 2)
      × ((after_all r qs).0.expires_at ≡ r.expires_at)
applied_le r qs v =
    let k = after_all_keeps r qs v in
    ground (arith, k, valid_generation r v, valid_generation (after_all r qs).0 k.0)

-- The conditions on which a request to a valid record is granted.
abbrev pub Granted : Record → Request → Type 0
Granted r q =
    (r.status ≡ pending)
    × (q.generation ≡ r.generation)
    × (r.created_at ≤ q.now)
    × (q.now < r.expires_at)
    × (q.event ≢ other_event)
    × ((q.event ≡ help) → r.assisted ≡ false)

-- What a granted request leaves.
abbrev status_after : Event → Status
status_after stop = stopped
status_after complete_verified = answer_first
status_after complete_unverified = unverified
status_after _ = pending

abbrev is_help : Event → Bool
is_help help = true
is_help _ = false

abbrev pub outcome : Record → Event → Record
outcome r event = record r {
  generation = r.generation +ℤ pos 1;
  assisted = r.assisted || is_help event;
  status = status_after event;
}

Granted-current :
    (r : Record) (q : Request) → validate_record r ≡ ok tt → Granted r q → current r q.now ≡ ok r
unfolding current validate_record
Granted-current r q v g = ground arith

outcome-validates :
    (r : Record) (event : Event)
    → validate_record r ≡ ok tt
    → r.status ≡ pending
    → event ≢ other_event
    → (event ≡ help → r.assisted ≡ false)
    → validate_record (outcome r event) ≡ ok tt
unfolding validate_record
outcome-validates r event v p o h = ground arith

Granted-transition :
    (r : Record) (q : Request)
    → validate_record r ≡ ok tt
    → Granted r q
    → transition r q.generation q.event q.now ≡ ok (outcome r q.event)
unfolding transition move
Granted-transition r q v g =
    let (pending_status, _, _, _, known, once) = g in
    ground (arith, Granted-current r q v g, outcome-validates r q.event v pending_status known once)

pub transition-Granted :
    (r : Record) (q : Request) {r' : Record}
    → validate_record r ≡ ok tt
    → transition r q.generation q.event q.now ≡ ok r'
    → Granted r q × (r' ≡ outcome r q.event)
unfolding transition current move validate_record
transition-Granted r q v t = ground arith

-- A request on a valid record succeeds exactly when the record is pending, the generation is its
-- own, the time is from its creation to before its deadline, the event is known, and help was not
-- given before; what it leaves is the record with the next generation and the assistance or the
-- status that the event names.
pub transition_iff :
    (r r' : Record) (q : Request)
    → validate_record r ≡ ok tt
    → (transition r q.generation q.event q.now ≡ ok r') ↔ (Granted r q × (r' ≡ outcome r q.event))
transition_iff r r' q v =
    (transition-Granted r q v, λ (g, e). Granted-transition r q v g ∙ ap ok (sym e))
