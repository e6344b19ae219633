-- ===== src/LongMemory/Store/Generations.antt =====
-- What a revocation and a use leave behind, over any later calls.
use conclution_ai_teacher.Prelude.{
  ◌≡◌, ◌≢◌, inl, inr, refl, Bool, true, false, List, [], ◌∷◌, none, some, arith, Option-cases, ok,
  err, Result-cases,
}
use conclution_ai_teacher.Prelude.Int.{ℤ, ◌≤ℤ◌, ◌<ℤ◌}
use conclution_ai_teacher.Prelude.Clock.{Time}
use conclution_ai_teacher.Prelude.Text.{Text, text_eq_iff}
use conclution_ai_teacher.LongMemory.Store.{
  MemoryError, Consent, MemoryRecord, MemoryStore, check_consent, check_use, consume_capability,
  enable, disable_and_delete, check_put, put_record, get_current, get_record, live_record,
  validate_memory_record,
}

-- A call that may change the store.
pub data Call : Type 0 where
  enables : Bool → Text → Time → Call
  disables : Bool → Text → Time → Call
  puts : Bool → Text → ℤ → MemoryRecord → Time → Call
  uses_capability : Bool → Text → ℤ → Text → Time → Time → Call

unfoldable pub step : MemoryStore → Call → MemoryStore
step s (enables cancelled key now) = (enable s cancelled key now).0
step s (disables cancelled key now) = (disable_and_delete s cancelled key now).0
step s (puts cancelled key generation r now) = (put_record s cancelled key generation r now).0
step s (uses_capability cancelled key generation digest expires_at now) =
    (consume_capability s cancelled key generation digest expires_at now).0

unfoldable pub run : MemoryStore → List Call → MemoryStore
run s [] = s
run s (c ∷ cs) = run (step s c) cs

abbrev pub generation_of : MemoryStore → Text → ℤ
generation_of s key = (s.entries key).consent.generation

-- No call takes a generation back, and a revocation moves it on.
step_grows :
    (s : MemoryStore) (c : Call) (key : Text) → generation_of s key ≤ℤ generation_of (step s c) key
unfolding step enable disable_and_delete put_record consume_capability
step_grows s (enables cancelled k now) key = ground (arith, text_eq_iff key k)
step_grows s (disables cancelled k now) key = ground (arith, text_eq_iff key k)
step_grows s (puts cancelled k generation r now) key = ground (arith, text_eq_iff key k)
step_grows s (uses_capability cancelled k generation digest expires_at now) key = ground arith

pub run_grows :
    (s : MemoryStore) (cs : List Call) (key : Text)
    → generation_of s key ≤ℤ generation_of (run s cs) key
unfolding run
run_grows s [] key = omega arith
run_grows s (c ∷ cs) key = omega (arith, step_grows s c key, run_grows (step s c) cs key)

disable_moves :
    (s : MemoryStore) (key : Text) (now : Time)
    → (disable_and_delete s false key now).1 ≡ ok tt
    → generation_of s key <ℤ generation_of (disable_and_delete s false key now).0 key
unfolding disable_and_delete
disable_moves s key now h = ground (arith, text_eq_iff key key)

past_consent :
    (c : Consent) (g : ℤ) → g <ℤ c.generation → (e : MemoryError) × (check_consent c g ≡ err e)
unfolding check_consent
past_consent c g h = elim (Result-cases (check_consent c g)) [
  | inr e ↦ e
  | inl (u, e) ↦ absurd (ground arith)
]

-- Where the key's generation is past `g`, nothing is done or read under `g`.
abbrev pub Refused : MemoryStore → Text → ℤ → Type 0
Refused s key g =
    ((cancelled : Bool) (r : MemoryRecord) (now : Time)
      → (e : MemoryError) × (put_record s cancelled key g r now ≡ (s, err e)))
    × ((cancelled : Bool) (digest : Text) (expires_at now : Time)
        → (e : MemoryError) × (consume_capability s cancelled key g digest expires_at now
            ≡ (s, err e)))
    × ((cancelled : Bool) (now : Time)
        → (e : MemoryError) × (get_record s cancelled key g now ≡ err e))

pub check_put-consent :
    (s : MemoryStore) (cancelled : Bool) (key : Text) (g : ℤ) (r : MemoryRecord) (now : Time)
    {u : Unit {0}}
    → check_put s cancelled key g r now ≡ ok u
    → check_consent (s.entries key).consent g ≡ ok tt
unfolding check_put
check_put-consent s cancelled key g r now h =
    elim (Result-cases (check_consent (s.entries key).consent g)) [
      | inl (u, e) ↦ e
      | inr (x, e) ↦ absurd (ground arith)
    ]

check_use-consent :
    (s : MemoryStore) (cancelled : Bool) (key : Text) (g : ℤ) (digest : Text)
    (expires_at now : Time) {u : Unit {0}}
    → check_use s cancelled key g digest expires_at now ≡ ok u
    → (check_consent (s.entries key).consent g ≡ ok tt) × (s.uses digest ≡ none)
unfolding check_use
check_use-consent s cancelled key g digest expires_at now h =
    elim (Result-cases (check_consent (s.entries key).consent g)) [
      | inl (u, e) ↦ elim (Option-cases (s.uses digest)) [
        | inl n ↦ (e, n)
        | inr (t, n) ↦ absurd (ground arith)
      ]
      | inr (x, e) ↦ absurd (ground arith)
    ]

pub consent_current :
    (c : Consent) (g : ℤ) {u : Unit {0}}
    → check_consent c g ≡ ok u
    → (c.enabled ≡ true) × (c.generation ≡ g)
unfolding check_consent
consent_current c g h = ground arith

put_refused :
    (s : MemoryStore) (cancelled : Bool) (key : Text) (g : ℤ) (r : MemoryRecord) (now : Time)
    → g <ℤ generation_of s key
    → (e : MemoryError) × (put_record s cancelled key g r now ≡ (s, err e))
unfolding put_record
put_refused s cancelled key g r now h = elim (Result-cases (check_put s cancelled key g r now)) [
  | inr (e, c) ↦ (e, rw c refl)
  | inl (u, c) ↦
      let (_, same) =
        consent_current (s.entries key).consent g (check_put-consent s cancelled key g r now c) in
      absurd (ground arith)
]

use_refused :
    (s : MemoryStore) (cancelled : Bool) (key : Text) (g : ℤ) (digest : Text)
    (expires_at now : Time)
    → g <ℤ generation_of s key
    → (e : MemoryError) × (consume_capability s cancelled key g digest expires_at now ≡ (s, err e))
unfolding consume_capability
use_refused s cancelled key g digest expires_at now h =
    elim (Result-cases (check_use s cancelled key g digest expires_at now)) [
      | inr (e, c) ↦ (e, rw c refl)
      | inl (u, c) ↦
          let (checked, _) = check_use-consent s cancelled key g digest expires_at now c in
          let (_, same) = consent_current (s.entries key).consent g checked in absurd (ground arith)
    ]

-- What a successful read found.
pub current-found :
    (s : MemoryStore) (cancelled : Bool) (key : Text) (now : Time) {c : Consent} {r : MemoryRecord}
    → get_current s cancelled key now ≡ ok (c, r)
    → (c ≡ (s.entries key).consent)
      × (c.enabled ≡ true)
      × ((s.entries key).stored ≡ some r)
      × (validate_memory_record r c.generation now ≡ ok tt)
unfolding get_current live_record
current-found s cancelled key now h = elim (Option-cases (s.entries key).stored) [
  | inl n ↦ absurd (ground arith)
  | inr (r', f) ↦
      elim (Result-cases (validate_memory_record r' (s.entries key).consent.generation now)) [
        | inr (x, v) ↦ absurd (ground arith)
        | inl (u, v) ↦ ground arith
      ]
]

get_refused :
    (s : MemoryStore) (cancelled : Bool) (key : Text) (g : ℤ) (now : Time)
    → g <ℤ generation_of s key
    → (e : MemoryError) × (get_record s cancelled key g now ≡ err e)
unfolding get_record
get_refused s cancelled key g now h = elim (Result-cases (get_record s cancelled key g now)) [
  | inr e ↦ e
  | inl (r, e) ↦ elim (Result-cases (get_current s cancelled key now)) [
    | inr (x, c) ↦ absurd (ground arith)
    | inl ((c, r'), f) ↦
        let (same, _, _, _) = current-found s cancelled key now f in absurd (ground arith)
  ]
]

pub revoked-Refused :
    (s : MemoryStore) (key : Text) (g : ℤ) (now : Time) (cs : List Call)
    → (disable_and_delete s false key now).1 ≡ ok tt
    → g ≤ℤ generation_of s key
    → Refused (run (disable_and_delete s false key now).0 cs) key g
revoked-Refused s key g now cs h le =
    let after = (disable_and_delete s false key now).0 in
    let past : g <ℤ generation_of (run after cs) key =
      omega (arith, disable_moves s key now h, run_grows after cs key, le) in
    (
      λ cancelled r later. put_refused (run after cs) cancelled key g r later past,
      λ cancelled digest expires_at later.
          use_refused (run after cs) cancelled key g digest expires_at later past,
      λ cancelled later. get_refused (run after cs) cancelled key g later past,
    )

step_used :
    (s : MemoryStore) (c : Call) (digest : Text)
    → s.uses digest ≢ none
    → (step s c).uses digest ≢ none
unfolding step enable disable_and_delete put_record consume_capability
step_used s (enables cancelled k now) digest h = ground arith
step_used s (disables cancelled k now) digest h = ground arith
step_used s (puts cancelled k generation r now) digest h = ground arith
step_used s (uses_capability cancelled k generation d expires_at now) digest h =
    ground (arith, text_eq_iff digest d)

run_used :
    (s : MemoryStore) (cs : List Call) (digest : Text)
    → s.uses digest ≢ none
    → (run s cs).uses digest ≢ none
unfolding run
run_used s [] digest h = h
run_used s (c ∷ cs) digest h = run_used (step s c) cs digest (step_used s c digest h)

consumed_used :
    (s : MemoryStore) (cancelled : Bool) (key : Text) (g : ℤ) (digest : Text)
    (expires_at now : Time)
    → (consume_capability s cancelled key g digest expires_at now).1 ≡ ok tt
    → (consume_capability s cancelled key g digest expires_at now).0.uses digest ≢ none
unfolding consume_capability
consumed_used s cancelled key g digest expires_at now h =
    ground (arith, h, text_eq_iff digest digest)

use_twice :
    (s : MemoryStore) (cancelled : Bool) (key : Text) (g : ℤ) (digest : Text)
    (expires_at now : Time)
    → s.uses digest ≢ none
    → (e : MemoryError) × ((consume_capability s cancelled key g digest expires_at now).1 ≡ err e)
unfolding consume_capability
use_twice s cancelled key g digest expires_at now h =
    elim (Result-cases (check_use s cancelled key g digest expires_at now)) [
      | inr e ↦ e
      | inl (u, c) ↦
          let (_, fresh) = check_use-consent s cancelled key g digest expires_at now c in
          absurd (h fresh)
    ]

pub consume-once :
    (s : MemoryStore) (cancelled cancelled' : Bool) (key key' : Text) (g g' : ℤ) (digest : Text)
    (expires_at now expires_at' now' : Time) (cs : List Call)
    → (consume_capability s cancelled key g digest expires_at now).1 ≡ ok tt
    → (e : MemoryError) × ((consume_capability
          (run (consume_capability s cancelled key g digest expires_at now).0 cs)
          cancelled'
          key'
          g'
          digest
          expires_at'
          now').1
        ≡ err e)
consume-once s cancelled cancelled' key key' g g' digest expires_at now expires_at' now' cs h =
    let after = run (consume_capability s cancelled key g digest expires_at now).0 cs in
    let used =
      run_used (consume_capability s cancelled key g digest expires_at now).0 cs digest
        (consumed_used s cancelled key g digest expires_at now h) in
    use_twice after cancelled' key' g' digest expires_at' now' used
