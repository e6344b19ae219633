-- ===== src/LongMemory/Dispatcher.antt =====
-- internal/longmemory/dispatcher.go: the jobs that save a memory after the response.
-- The channel `jobs` is a list, oldest first; `wake` says that the channel of one marker is full.
pub mod Processed
pub mod Shutdown
use conclution_ai_teacher.Prelude.{
  ℕ, ◌+◌, ◌-◌, ◌*◌, ◌≡◌, Bool, true, false, not, ◌&&◌, ◌||◌, if◌then◌else◌, List, [], ◌∷◌, ◌++◌,
  Option, none, some, length, ltb, Result, ok, err, ◌>>=◌, ◌>>◌, fail_if,
}
use conclution_ai_teacher.Prelude.Int.{ℤ, pos, pos_part, ltb_ℤ, leb_ℤ, eqb_ℤ}
use conclution_ai_teacher.Prelude.Clock.{Time, second, minute, after}
use conclution_ai_teacher.Prelude.Text.{is_empty, Text, Rune, is_empty_string}
use conclution_ai_teacher.LongMemory.Store.{
  MemoryError, invalid_state, disabled, stale_generation, Consent, MemoryStore,
}
use conclution_ai_teacher.LongMemory.Manager.{Payload, Keys, manager_status, save}

pub data Outcome : Type 0 where
  outcome_saved outcome_disabled outcome_empty outcome_invalid outcome_stale outcome_store_failed
        outcome_expired outcome_queue_full :
      Outcome

pub record MemoryJob : Type 0 where
  pub uid : List Rune
  pub state_token : Text
  pub created_at : Time

pub record DispatcherOptions : Type 0 where
  pub queue_capacity : ℤ
  pub workers : ℤ
  pub job_ttl : ℤ
  pub job_timeout : ℤ

abbrev or_default : ℤ → ℕ → ℤ
or_default v d = if eqb_ℤ v (pos 0) then pos d else v

abbrev out_of : ℤ → ℕ → Bool
out_of v most = ltb_ℤ v (pos 1) || ltb_ℤ (pos most) v

-- The part of `Dispatcher` that changes, with the options that it keeps; `exited` counts the workers
-- that have returned.
pub record Dispatcher : Type 0 where
  pub capacity : ℕ
  pub workers : ℕ
  pub ttl : ℕ
  pub timeout : ℕ
  pub observed : Bool
  pub jobs : List MemoryJob
  pub wake : Bool
  pub closed : Bool
  pub cancelled : Bool
  pub exited : ℕ

unfoldable pub new_dispatcher : DispatcherOptions → Bool → Result MemoryError Dispatcher
new_dispatcher o observed =
    let capacity = or_default o.queue_capacity 32 in
    let workers = or_default o.workers 1 in
    let ttl = or_default o.job_ttl (30 * second) in
    let timeout = or_default o.job_timeout (10 * second) in
    if out_of capacity 256 || out_of workers 4 || out_of ttl minute || out_of timeout (30 * second)
    then err invalid_state
    else ok (record {
      capacity = pos_part capacity;
      workers = pos_part workers;
      ttl = pos_part ttl;
      timeout = pos_part timeout;
      observed = observed;
      jobs = [];
      wake = false;
      closed = false;
      cancelled = false;
      exited = 0;
    })

-- `Enqueue` up to the call of `admit`; `len(stateToken)` counts bytes.
unfoldable pub prepare_job : Bool → List Rune → Text → Time → Option MemoryJob
prepare_job closed uid state_token now =
    if is_empty_string uid || is_empty state_token || ltb 16384 (length state_token) || closed
    then none
    else some (record { uid = uid; state_token = state_token; created_at = now })

unfoldable pub admit : Dispatcher → MemoryJob → Dispatcher × Bool
admit d job =
    if d.closed
    then (d, false)
    else if ltb (length d.jobs) d.capacity
    then (record d { jobs = d.jobs ++ (job ∷ []) }, true)
    else (record d { wake = d.wake || d.observed }, false)

-- The two parts of `Close` before it waits; the admission lock is released between them.
unfoldable pub stop_admission : Dispatcher → Dispatcher
stop_admission d = record d { closed = true }

unfoldable pub cancel : Dispatcher → Dispatcher
cancel d = if d.closed then record d { cancelled = true } else d

-- A worker's receipt of a job, to process it or to wipe it, and of the marker.
unfoldable pub receive : Dispatcher → Dispatcher × List MemoryJob
receive d = elim d.jobs [ [] ↦ (d, []) | job ∷ rest ↦ (record d { jobs = rest }, job ∷ []) ]

unfoldable pub take_wake : Dispatcher → Dispatcher
take_wake d = record d { wake = false }

abbrev has_job : List MemoryJob → Bool
has_job [] = false
has_job (_ ∷ _) = true

-- The return of a worker from `zeroPending`, and with it from `worker`. The other return, after a
-- recovered panic, is left out: `process` and `notify` recover the panics of their own calls.
unfoldable pub leave : Dispatcher → Dispatcher
leave d =
    if d.cancelled && not (has_job d.jobs) && ltb d.exited d.workers
    then record d { exited = d.exited + 1 }
    else d

-- What `process` sees of the world: whether the context is done, and the clock.
pub record Observations : Type 0 where
  pub now : Time
  pub done_before_status : Bool
  pub status_cancelled : Bool
  pub done_after_status : Bool
  pub done_after_candidate : Bool
  pub save_cancelled : Bool
  pub nonce : Option (List ℕ)
  pub saved_at : Time
  pub put_at : Time

abbrev failing_with : {A E F : Type 0} → F → Result E A → Result F A
failing_with x (ok a) = ok a
failing_with x (err _) = err x

abbrev or_fail : {A F : Type 0} → F → Option A → Result F A
or_fail x none = err x
or_fail x (some a) = ok a

abbrev save_outcome : Result MemoryError (Unit {0}) → Outcome
save_outcome (ok _) = outcome_saved
save_outcome (err disabled) = outcome_stale
save_outcome (err stale_generation) = outcome_stale
save_outcome (err _) = outcome_store_failed

-- `candidate` is `CandidateSource.LongTermMemoryCandidate`.
module _ (k : Keys) (candidate : List Rune → Text → Option (Payload × Bool)) where
  -- What `process` does before it saves; an error is the outcome that it notifies, if any.
  unfoldable pub prepare_process :
      MemoryStore → ℕ → MemoryJob → Observations → Result (Option Outcome) (ℤ × Payload)
  prepare_process s ttl job o = do
    fail_if (after o.now (job.created_at + ttl)) (some outcome_expired)
    fail_if o.done_before_status none
    consent ← failing_with (some outcome_disabled) (manager_status k s o.status_cancelled job.uid)
    fail_if (not consent.enabled) (some outcome_disabled)
    fail_if o.done_after_status none
    (payload, found) ← or_fail (some outcome_invalid) (candidate job.uid job.state_token)
    fail_if (not found) (some outcome_empty)
    fail_if o.done_after_candidate none
    ok (consent.generation, payload)

  abbrev saved_job :
      MemoryStore
      → MemoryJob
      → Observations
      → Result (Option Outcome) (ℤ × Payload)
      → MemoryStore × Option Outcome
  saved_job s job o (err x) = (s, x)
  saved_job s job o (ok (generation, payload)) =
      let (s', r) =
        save k s o.save_cancelled job.uid generation payload o.nonce o.saved_at o.put_at in
      (s', some (save_outcome r))

  -- `process`, which reads the consent of the store `s` and saves into the store `s'` that other
  -- calls may have made of it.
  unfoldable pub process :
      MemoryStore → MemoryStore → ℕ → MemoryJob → Observations → MemoryStore × Option Outcome
  process s s' ttl job o = saved_job s' job o (prepare_process s ttl job o)
