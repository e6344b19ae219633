-- ===== src/Lib.antt =====
-- Verification library of the Go service of KOTAE AI (internal/ of this repository).
--
-- The service helps a person to answer, in their own words, a question that somebody asked them. The parts
-- that are modelled, and the files that model them:
--
-- Respondent (internal/respondent): the coach and the controller behind it.
--   Respondent/Progress, Policy, Posterior, Utility, Plan: belief_controller.go. The finite observation of a
--   turn (observeAnswerState), the mask of the actions (allowedAnswerActions), the Bayes update, the
--   utilities, the choice (PlanAnswerSupport) and the reason codes.
--   Respondent/Stored: belief_state.go, the posterior as five uint16 masses.
--   Respondent/Coach, Replies, Guide: coach.go, the guidance that a turn gives.
--   Respondent/Contracts: the assessments of contracts.go and of internal/answercontract/contracts.go.
-- Conversation (internal/conversation): Conversation/Projection is verifier_progress_observation.go, the
--   adapter from the assessments of the two verifiers to the controller's finite input.
-- Guard (internal/guard): Guard/RateLimit is rate_limit.go, Guard/LiveLease is voice_live_lease.go, each
--   with its in-memory and its Firestore implementation.
-- Trial (internal/guesttrial): the trial of a guest. Trial/Ledger is ledger.go, Trial/Memory memory.go,
--   Trial/Owner and Trial/Service service.go and verification.go; Trial/Ledger/Lifetime, Memory/Runs,
--   Memory/Swap and Service/Publication hold what is proved of them.
-- Initiative (internal/initiativescheduler): Initiative/Scheduler is scheduler.go, which decides whether a
--   prepared initiative may be heard, Initiative/Selection selection.go, the choice among the actions, and
--   Initiative/Authority publication_authority.go, the single right that the caller holds for it.
-- LongMemory (internal/longmemory): what is remembered of a person across sessions. LongMemory/Store is
--   memory_store.go, LongMemory/Manager longmemory.go, LongMemory/Context the tokens of
--   context_capability.go and session_context.go with what their holder gets in Context/Redeem, and
--   LongMemory/Dispatcher dispatcher.go.
-- Passkey (internal/passkey): the passkeys of an account. Passkey/Store is store.go, and Passkey/Memory
--   (recovery codes), Passkey/Accounts (ceremonies and credentials) and Passkey/Lifecycle (list,
--   revocation, deletion) are memory_store.go; Passkey/Calls holds its calls in any order, as a function
--   and as a relation. Passkey/Service is the registration and the login of passkey.go,
--   and Passkey/Service/Recovery recovery_code.go.
-- Prelude: shared names, Go's results, integers and times.
--
-- How the code is read. A Go uint8 or string enumeration is a data type with one more constructor for the
-- values that are no constant. float64 is a parameter with operations and no laws (Respondent/Floats), so
-- the theorems about the controller hold for every rounding; where a theorem needs an order of floats, that is
-- a hypothesis. A time is a number of nanoseconds since Go's zero time. int and int64 values that the source
-- compares with 0 are integers; the counters stay far below 2^63 because the limits are at most 20,000. An
-- array of length 5 is a record of five fields. Each mutex makes its method atomic, so a method is a
-- function on the state, and an interleaving is a list of calls. A context that is done, the random bytes and
-- the answers of Firestore are arguments; SHA-256, HMAC, AES-GCM, JSON and base64 are parameters;
-- what a theorem needs of them is a hypothesis of it. What Firestore keeps of the expiry of a lease is a
-- parameter too: it has microseconds, the source nanoseconds. A worker of the dispatcher takes one step at a time,
-- and Close two. A range over the accounts of the passkey store visits them in the order of a list.
-- The version of a credential is an integer that does not reach 2^63.
--
-- Fuel: the loop of StoreVerifierProgress hands out one unit each round, so as many rounds as the scale
-- (10,000) are enough.
--
-- Not modelled: the text analysis of the agent and of the meaning gate, the provider streams of voiceflow,
-- nativeflow and speechio, the HTTP transport, and the calls of Google, Firebase and Crossref.
pub mod Prelude
pub mod Guard
pub mod Respondent
pub mod Conversation
pub mod Trial
pub mod Initiative
pub mod LongMemory
pub mod Passkey
