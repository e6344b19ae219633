-- ===== src/LongMemory/Dispatcher/Shutdown.antt =====
-- The queue over any interleaving of callers, workers and `Close`.
use conclution_ai_teacher.Prelude.{
  ◌+◌, ◌≤◌, ◌≡◌, ◌≢◌, refl, sym, ap, ◌∙◌, inl, inr, Bool, true, if◌then◌else◌, List, [], ◌∷◌, ◌++◌,
  length, ltb, arith, ok, Bool-cases,
}
use mathlib.Core.Path.{subst}
use mathlib.Core.List.{append_assoc, append-nil}
use conclution_ai_teacher.LongMemory.Dispatcher.{
  MemoryJob, DispatcherOptions, Dispatcher, new_dispatcher, admit, stop_admission, cancel, receive,
  take_wake, leave,
}

pub data Event : Type 0 where
  admits : MemoryJob → Event
  stops cancels receives wakes leaves : Event

-- The dispatcher after an event, the jobs that the event admits, and those that it receives.
unfoldable pub step : Dispatcher → Event → Dispatcher × List MemoryJob × List MemoryJob
step d (admits job) =
    let (d', admitted) = admit d job in (d', if admitted then job ∷ [] else [], [])
step d stops = (stop_admission d, [], [])
step d cancels = (cancel d, [], [])
step d receives = let (d', received) = receive d in (d', [], received)
step d wakes = (take_wake d, [], [])
step d leaves = (leave d, [], [])

unfoldable pub run : Dispatcher → List Event → Dispatcher × List MemoryJob × List MemoryJob
run d [] = (d, [], [])
run d (e ∷ es) =
    let (d', admitted, received) = step d e in
    let (d'', later, last) = run d' es in (d'', admitted ++ later, received ++ last)

abbrev pub WellFormed : Dispatcher → Type 0
WellFormed d =
    (length d.jobs ≤ d.capacity)
    × (d.capacity ≤ 256)
    × (d.exited ≤ d.workers)
    × (d.cancelled ≡ true → d.closed ≡ true)
    × (d.exited ≢ 0 → (d.cancelled ≡ true) × (d.jobs ≡ []))

length-snoc :
    (jobs : List MemoryJob) (job : MemoryJob) → length (jobs ++ (job ∷ [])) ≡ length jobs + 1
length-snoc [] job = refl
length-snoc (x ∷ jobs) job = omega (arith, length-snoc jobs job)

step-WellFormed : (d : Dispatcher) (e : Event) → WellFormed d → WellFormed (step d e).0
unfolding step admit stop_admission cancel receive take_wake leave
step-WellFormed d (admits job) w = ground (arith, length-snoc d.jobs job)
step-WellFormed d stops w = ground arith
step-WellFormed d cancels w = ground arith
step-WellFormed d receives w = ground arith
step-WellFormed d wakes w = w
step-WellFormed d leaves w = ground arith

receive_kept :
    (d : Dispatcher) (jobs : List MemoryJob)
    → d.jobs ≡ jobs
    → d.jobs ++ [] ≡ (receive d).1 ++ (receive d).0.jobs
unfolding receive
receive_kept d [] e = rw e refl
receive_kept d (job ∷ rest) e = rw e (append-nil (job ∷ rest))

leave_kept : (d : Dispatcher) → (leave d).jobs ≡ d.jobs
unfolding leave
leave_kept d = ground arith

step_kept :
    (d : Dispatcher) (e : Event) → d.jobs ++ (step d e).1 ≡ (step d e).2 ++ (step d e).0.jobs
unfolding step admit stop_admission cancel receive take_wake leave
step_kept d (admits job) = elim (Bool-cases d.closed) [
  | inl c ↦ rw c (append-nil d.jobs)
  | inr c ↦ elim (Bool-cases (ltb (length d.jobs) d.capacity)) [
    | inl f ↦ rw (c, f) refl
    | inr f ↦ rw (c, f) (append-nil d.jobs)
  ]
]
step_kept d stops = append-nil d.jobs
step_kept d cancels = elim (Bool-cases d.closed) [
  | inl c ↦ rw c (append-nil d.jobs)
  | inr c ↦ rw c (append-nil d.jobs)
]
step_kept d receives = receive_kept d d.jobs refl
step_kept d wakes = append-nil d.jobs
step_kept d leaves = append-nil d.jobs ∙ sym (leave_kept d)

run-WellFormed : (d : Dispatcher) (es : List Event) → WellFormed d → WellFormed (run d es).0
unfolding run
run-WellFormed d [] w = w
run-WellFormed d (e ∷ es) w = run-WellFormed (step d e).0 es (step-WellFormed d e w)

run_kept :
    (d : Dispatcher) (es : List Event) → d.jobs ++ (run d es).1 ≡ (run d es).2 ++ (run d es).0.jobs
unfolding run
run_kept d [] = append-nil d.jobs
run_kept d (e ∷ es) =
    let now = step_kept d e in
    let later = run_kept (step d e).0 es in
    sym (append_assoc d.jobs (step d e).1 (run (step d e).0 es).1)
    ∙ ap (λ x. x ++ (run (step d e).0 es).1) now
    ∙ append_assoc (step d e).2 (step d e).0.jobs (run (step d e).0 es).1
    ∙ ap (λ x. (step d e).2 ++ x) later
    ∙ sym (append_assoc (step d e).2 (run (step d e).0 es).2 (run (step d e).0 es).0.jobs)

new_dispatcher-new :
    (o : DispatcherOptions) (observed : Bool) {d : Dispatcher}
    → new_dispatcher o observed ≡ ok d
    → WellFormed d × (d.jobs ≡ [])
unfolding new_dispatcher
new_dispatcher-new o observed h = ground arith

pub received_in_order :
    (o : DispatcherOptions) (observed : Bool) (d : Dispatcher) (es : List Event)
    → new_dispatcher o observed ≡ ok d
    → ((run d es).1 ≡ (run d es).2 ++ (run d es).0.jobs) × (length (run d es).0.jobs ≤ 256)
received_in_order o observed d es h =
    let (w, empty) = new_dispatcher-new o observed h in
    let (fits, most, _, _, _) = run-WellFormed d es w in
    (
      subst (λ x. x ++ (run d es).1 ≡ (run d es).2 ++ (run d es).0.jobs) empty (run_kept d es),
      omega (arith, fits, most),
    )

step_closed :
    (d : Dispatcher) (e : Event)
    → d.closed ≡ true
    → ((step d e).1 ≡ []) × ((step d e).0.closed ≡ true)
unfolding step admit stop_admission cancel receive take_wake leave
step_closed d (admits job) h = ground arith
step_closed d stops h = ground arith
step_closed d cancels h = ground arith
step_closed d receives h = ground arith
step_closed d wakes h = ground arith
step_closed d leaves h = ground arith

run_closed : (d : Dispatcher) (es : List Event) → d.closed ≡ true → (run d es).1 ≡ []
unfolding run
run_closed d [] h = refl
run_closed d (e ∷ es) h =
    let (none_now, still) = step_closed d e h in
    rw (none_now, run_closed (step d e).0 es still) refl

-- Over any interleaving of admissions, the two parts of Close and the steps of the workers: once a
-- worker has returned, the queue holds no job, every job that was admitted has been received
-- exactly once in the order of admission, and no job is admitted any more.
pub leave-Wiped :
    (o : DispatcherOptions) (observed : Bool) (d : Dispatcher) (es later : List Event)
    → new_dispatcher o observed ≡ ok d
    → (run d es).0.exited ≢ 0
    → ((run d es).0.jobs ≡ []) × ((run d es).1 ≡ (run d es).2) × ((run (run d es).0 later).1 ≡ [])
leave-Wiped o observed d es later h left =
    let (w, empty) = new_dispatcher-new o observed h in
    let (_, _, _, stopped, gone) = run-WellFormed d es w in
    let (cancelled, wiped) = gone left in
    let (in_order, _) = received_in_order o observed d es h in
    (
      wiped,
      in_order ∙ ap (λ x. (run d es).2 ++ x) wiped ∙ append-nil (run d es).2,
      run_closed (run d es).0 later (stopped cancelled),
    )
