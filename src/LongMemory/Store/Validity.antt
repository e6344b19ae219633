-- ===== src/LongMemory/Store/Validity.antt =====
-- What the entries hold over any calls, and what is read back.
use conclution_ai_teacher.Prelude.{
  ◌≤◌, ◌<◌, ◌≡◌, ◌≢◌, ◌⊎◌, inl, inr, refl, sym, ap, ◌∙◌, Bool, true, false, List, [], ◌∷◌, Option,
  none, some, length, arith, Bool-cases, ok, Result-cases,
}
use mathlib.Core.Path.{subst}
use conclution_ai_teacher.Prelude.Int.{ℤ, pos, ◌≤ℤ◌}
use conclution_ai_teacher.Prelude.Clock.{Time}
use conclution_ai_teacher.Prelude.Text.{Text, text_eq, text_eq_iff}
use conclution_ai_teacher.LongMemory.Store.{
  set_entry, next_consent, malformed_call, Consent, MemoryRecord, MemoryEntry, MemoryStore,
  new_memory_store, check_consent, check_use, consume_capability, enable, disable_and_delete,
  check_put, put_record, get_current, get_record, live_record, validate_memory_record,
}
use conclution_ai_teacher.LongMemory.Store.Generations.{
  Call, enables, disables, puts, uses_capability, step, run, check_put-consent, consent_current,
}

-- A record is held only under a consent that is given, and under its generation.
abbrev pub HeldUnder : Consent → Option MemoryRecord → Type 0
HeldUnder c none = Unit {0}
HeldUnder c (some r) =
    (c.enabled ≡ true)
    × (r.generation ≡ c.generation)
    × (r.schema_version ≡ pos 1)
    × (length r.nonce ≡ 12)
    × (length r.ciphertext ≤ 4096)

abbrev pub ValidEntry : MemoryEntry → Type 0
ValidEntry e =
    HeldUnder e.consent e.stored
    × (pos 0 ≤ℤ e.consent.generation)
    × (e.consent.enabled ≡ true → pos 1 ≤ℤ e.consent.generation)

abbrev pub WellFormed : MemoryStore → Type 0
WellFormed s = (key : Text) → ValidEntry (s.entries key)

checked-Held :
    (s : MemoryStore) (cancelled : Bool) (key : Text) (g : ℤ) (r : MemoryRecord) (now : Time)
    {u : Unit {0}}
    → check_put s cancelled key g r now ≡ ok u
    → HeldUnder (s.entries key).consent (some r)
unfolding check_put validate_memory_record
checked-Held s cancelled key g r now h =
    let (on, same) =
      consent_current (s.entries key).consent g (check_put-consent s cancelled key g r now h) in
    elim (Result-cases (check_consent (s.entries key).consent g)) [
      | inr (x, e) ↦ absurd (ground arith)
      | inl (u, e) ↦ ground arith
    ]

set_entry-WellFormed :
    (s : MemoryStore) (key : Text) (e : MemoryEntry)
    → ValidEntry e
    → WellFormed s
    → WellFormed (set_entry s key e)
set_entry-WellFormed s key e v w other = elim (Bool-cases (text_eq other key)) [
  | inl same ↦ rw same v
  | inr ne ↦ rw ne (w other)
]

next-ValidEntry :
    (c : Consent) (enabled : Bool) → pos 0 ≤ℤ c.generation → ValidEntry (next_consent c enabled)
next-ValidEntry c enabled h = ground arith

-- What a call leaves: the same store, or one with a valid entry in place of the key's.
abbrev Changes : MemoryStore → MemoryStore → Type 0
Changes s s' =
    ((s'.entries ≡ s.entries)
      ⊎ ((key : Text) × (e : MemoryEntry) × (s' ≡ set_entry s key e) × ValidEntry e))

step-Changes : (s : MemoryStore) (c : Call) → WellFormed s → Changes s (step s c)
unfolding step enable disable_and_delete put_record consume_capability
step-Changes s (enables cancelled k now) w = elim (Bool-cases (malformed_call cancelled k now)) [
  | inl bad ↦ inl (ground arith)
  | inr good ↦ elim (Bool-cases (s.entries k).consent.enabled) [
    | inl on ↦ inl (ground arith)
    | inr off ↦ inr (
      k,
      next_consent (s.entries k).consent true,
      ground arith,
      next-ValidEntry (s.entries k).consent true (w k).1,
    )
  ]
]
step-Changes s (disables cancelled k now) w = elim (Bool-cases (malformed_call cancelled k now)) [
  | inl bad ↦ inl (ground arith)
  | inr good ↦ inr (
    k,
    next_consent (s.entries k).consent false,
    ground arith,
    next-ValidEntry (s.entries k).consent false (w k).1,
  )
]
step-Changes s (puts cancelled k g r now) w =
    elim (Result-cases (check_put s cancelled k g r now)) [
      | inr (x, e) ↦ inl (ground arith)
      | inl (u, e) ↦ inr (
        k,
        record (s.entries k) { stored = some r },
        ground arith,
        (checked-Held s cancelled k g r now e, (w k).1, (w k).2),
      )
    ]
step-Changes s (uses_capability cancelled k g digest expires_at now) w =
    elim (Result-cases (check_use s cancelled k g digest expires_at now)) [
      | inr (x, e) ↦ inl (ground arith)
      | inl (u, e) ↦ inl (ground arith)
    ]

step-WellFormed : (s : MemoryStore) (c : Call) → WellFormed s → WellFormed (step s c)
step-WellFormed s c w = elim (step-Changes s c w) [
  | inl same ↦ λ key. subst (λ m. ValidEntry (m key)) (sym same) (w key)
  | inr (k, e, same, v) ↦ subst WellFormed (sym same) (set_entry-WellFormed s k e v w)
]

run_keeps : (s : MemoryStore) (cs : List Call) → WellFormed s → WellFormed (run s cs)
unfolding run
run_keeps s [] w = w
run_keeps s (c ∷ cs) w = run_keeps (step s c) cs (step-WellFormed s c w)

-- After any calls on a new store, every stored record stands under a consent that is given and
-- carries its generation, the schema version 1, a nonce of 12 bytes and at most 4,096 bytes of
-- ciphertext; and a given consent has a generation of at least 1.
pub run-WellFormed_new : (cs : List Call) → WellFormed (run new_memory_store cs)
unfolding new_memory_store
run-WellFormed_new cs = run_keeps new_memory_store cs (λ key. (tt, omega arith, λ e. cc e))

-- A call that leaves the entry of the key alone.
abbrev pub Elsewhere : Text → Call → Type 0
Elsewhere key (enables cancelled k now) = k ≢ key
Elsewhere key (disables cancelled k now) = k ≢ key
Elsewhere key (puts cancelled k g r now) = k ≢ key
Elsewhere key (uses_capability cancelled k g digest expires_at now) = Unit {0}

abbrev pub AllElsewhere : Text → List Call → Type 0
AllElsewhere key [] = Unit {0}
AllElsewhere key (c ∷ cs) = Elsewhere key c × AllElsewhere key cs

step-Elsewhere :
    (s : MemoryStore) (c : Call) (key : Text)
    → Elsewhere key c
    → (step s c).entries key ≡ s.entries key
unfolding step enable disable_and_delete put_record consume_capability
step-Elsewhere s (enables cancelled k now) key n = ground (arith, text_eq_iff key k)
step-Elsewhere s (disables cancelled k now) key n = ground (arith, text_eq_iff key k)
step-Elsewhere s (puts cancelled k g r now) key n = ground (arith, text_eq_iff key k)
step-Elsewhere s (uses_capability cancelled k g digest expires_at now) key n = ground arith

run-Elsewhere :
    (s : MemoryStore) (cs : List Call) (key : Text)
    → AllElsewhere key cs
    → (run s cs).entries key ≡ s.entries key
unfolding run
run-Elsewhere s [] key n = refl
run-Elsewhere s (c ∷ cs) key n = run-Elsewhere (step s c) cs key n.1 ∙ step-Elsewhere s c key n.0

pub checked-parts :
    (s : MemoryStore) (key : Text) (g : ℤ) (r : MemoryRecord) (now : Time) {u : Unit {0}}
    → check_put s false key g r now ≡ ok u
    → validate_memory_record r g now ≡ ok tt
unfolding check_put
checked-parts s key g r now h = elim (Result-cases (validate_memory_record r g now)) [
  | inl (u, e) ↦ e
  | inr (x, e) ↦ elim (Result-cases (check_consent (s.entries key).consent g)) [
    | inl (u, c) ↦ absurd (ground arith)
    | inr (y, c) ↦ absurd (ground arith)
  ]
]

pub put_checked :
    (s : MemoryStore) (key : Text) (g : ℤ) (r : MemoryRecord) (now : Time)
    → (put_record s false key g r now).1 ≡ ok tt
    → check_put s false key g r now ≡ ok tt
unfolding put_record
put_checked s key g r now h = h

put_entry :
    (s : MemoryStore) (key : Text) (g : ℤ) (r : MemoryRecord) (now : Time)
    → (put_record s false key g r now).1 ≡ ok tt
    → (put_record s false key g r now).0.entries key ≡ record (s.entries key) { stored = some r }
unfolding put_record
put_entry s key g r now h = rw (h, (text_eq_iff key key).1 refl) refl

validates_later :
    (r : MemoryRecord) (g : ℤ) (now later : Time)
    → validate_memory_record r g now ≡ ok tt
    → now ≤ later
    → later < r.expires_at
    → validate_memory_record r g later ≡ ok tt
unfolding validate_memory_record
validates_later r g now later v a b = ground arith

live_read :
    (s : MemoryStore) (key : Text) (g : ℤ) (r : MemoryRecord) (later : Time)
    → (s.entries key).consent.enabled ≡ true
    → (s.entries key).consent.generation ≡ g
    → (s.entries key).stored ≡ some r
    → later < r.expires_at
    → validate_memory_record r g later ≡ ok tt
    → get_record s false key g later ≡ ok r
unfolding get_record get_current live_record
live_read s key g r later on same held live v = ground arith

pub get-put :
    (s : MemoryStore) (key : Text) (g : ℤ) (r : MemoryRecord) (now later : Time) (cs : List Call)
    → (put_record s false key g r now).1 ≡ ok tt
    → AllElsewhere key cs
    → now ≤ later
    → later < r.expires_at
    → get_record (run (put_record s false key g r now).0 cs) false key g later ≡ ok r
get-put s key g r now later cs h n a b =
    let checked = put_checked s key g r now h in
    let (on, same) =
      consent_current (s.entries key).consent g (check_put-consent s false key g r now checked) in
    let entry =
      run-Elsewhere (put_record s false key g r now).0 cs key n ∙ put_entry s key g r now h in
    live_read (run (put_record s false key g r now).0 cs) key g r later
      (ap (λ e. e.consent.enabled) entry ∙ on) (ap (λ e. e.consent.generation) entry ∙ same)
      (ap (λ e. e.stored) entry) b
      (validates_later r g now later (checked-parts s key g r now checked) a b)
