-- ===== src/Trial/Memory/Bounds.antt =====
-- What the store holds, over any sequence of calls.
use conclution_ai_teacher.Prelude.Text.{Text, text_eq, text_eq_iff}
use conclution_ai_teacher.Prelude.{
  suc, ◌≤◌, ◌≡◌, ◌≢◌, sym, inl, inr, Bool, true, false, List, [], ◌∷◌, some, arith, Bool-cases,
  Option-cases, ok, Result-cases, length,
}
use conclution_ai_teacher.Prelude.Int.{ℤ, pos, ◌≤ℤ◌, leb_ℤ}
use conclution_ai_teacher.Prelude.Clock.{Time, after}
use conclution_ai_teacher.Trial.Ledger.{Event, Record, valid_key, validate_record, transition}
use conclution_ai_teacher.Trial.Ledger.Lifetime.{transition-advances}
use conclution_ai_teacher.Trial.Memory.{
  Records, MemoryStore, new_memory_store, find, assign, delete_expired, valid_creation, admit,
  create, applied, apply,
}

-- A call of the store by any request.
pub data Call : Type 0 where
  creates : Bool → Text → Record → Call
  reads : Bool → Text → Time → Call
  applies : Bool → Text → ℤ → Event → Time → Call

unfoldable pub step : MemoryStore → Call → MemoryStore
step s (creates cancelled key r) = (create s cancelled key r).0
step s (reads cancelled key now) = s
step s (applies cancelled key generation event now) = (apply s cancelled key generation event now).0

unfoldable pub run : MemoryStore → List Call → MemoryStore
run s [] = s
run s (c ∷ cs) = run (step s c) cs

-- Every entry has a valid key and a valid record, and no other entry its key.
abbrev pub Absent : Text → Records → Type 0
Absent key [] = Unit {0}
Absent key ((k, r) ∷ rest) = (k ≢ key) × Absent key rest

abbrev pub Entries : Records → Type 0
Entries [] = Unit {0}
Entries ((k, r) ∷ rest) =
    (valid_key k ≡ true) × (validate_record r ≡ ok tt) × Absent k rest × Entries rest

abbrev pub WellFormed : MemoryStore → Type 0
WellFormed s = Entries s.records × (pos (length s.records) ≤ℤ s.capacity)

pub text_ne : (a b : Text) → text_eq a b ≡ false → a ≢ b
text_ne a b h e = absurd (cc ((text_eq_iff a b).1 e, h))

Absent-assign :
    (key k : Text) (r : Record) (rs : Records) → Absent k rs → k ≢ key → Absent k (assign key r rs)
unfolding assign
Absent-assign key k r [] a n = ((λ e. n (sym e)), tt)
Absent-assign key k r ((k', r') ∷ rest) a n = elim (Bool-cases (text_eq k' key)) [
  | inl e ↦ rw e a
  | inr e ↦ rw e (a.0, Absent-assign key k r rest a.1 n)
]

pub Absent-delete :
    (now : Time) (k : Text) (rs : Records) → Absent k rs → Absent k (delete_expired now rs)
unfolding delete_expired
Absent-delete now k [] a = tt
Absent-delete now k ((k', r) ∷ rest) a = elim (Bool-cases (after r.expires_at now)) [
  | inl e ↦ rw e (a.0, Absent-delete now k rest a.1)
  | inr e ↦ rw e (Absent-delete now k rest a.1)
]

Entries-delete : (now : Time) (rs : Records) → Entries rs → Entries (delete_expired now rs)
unfolding delete_expired
Entries-delete now [] w = tt
Entries-delete now ((k, r) ∷ rest) (v, a, b, w) = elim (Bool-cases (after r.expires_at now)) [
  | inl e ↦ rw e (v, a, Absent-delete now k rest b, Entries-delete now rest w)
  | inr e ↦ rw e (Entries-delete now rest w)
]

length-delete : (now : Time) (rs : Records) → length (delete_expired now rs) ≤ length rs
unfolding delete_expired
length-delete now [] = omega arith
length-delete now ((k, r) ∷ rest) = ground (arith, length-delete now rest)

Entries-assign :
    (key : Text) (r : Record) (rs : Records)
    → valid_key key ≡ true
    → validate_record r ≡ ok tt
    → Entries rs
    → Entries (assign key r rs)
unfolding assign
Entries-assign key r [] v u w = (v, u, tt, tt)
Entries-assign key r ((k, r') ∷ rest) v u (vk, vr, b, w) = elim (Bool-cases (text_eq k key)) [
  | inl e ↦ rw e (vk, u, b, w)
  | inr e ↦
      rw e (vk, vr, Absent-assign key k r rest b (text_ne k key e), Entries-assign key r rest v u w)
]

length-assign_le :
    (key : Text) (r : Record) (rs : Records) → length (assign key r rs) ≤ suc (length rs)
unfolding assign
length-assign_le key r [] = omega arith
length-assign_le key r ((k, r') ∷ rest) = ground (arith, length-assign_le key r rest)

length-assign :
    (key : Text) (r r0 : Record) (rs : Records)
    → find key rs ≡ some r0
    → length (assign key r rs) ≡ length rs
unfolding assign find
length-assign key r r0 [] h = cc
length-assign key r r0 ((k, r') ∷ rest) h = ground (arith, length-assign key r r0 rest)

pub creation-valid :
    (key : Text) (r : Record)
    → valid_creation key r ≡ true
    → (valid_key key ≡ true) × (validate_record r ≡ ok tt)
unfolding valid_creation
creation-valid key r h = ground arith

admit-WellFormed :
    (s : MemoryStore) (key : Text) (r : Record)
    → valid_key key ≡ true
    → validate_record r ≡ ok tt
    → WellFormed s
    → WellFormed (admit s key r).0
unfolding admit
admit-WellFormed s key r v u (w, l) =
    elim (Bool-cases (leb_ℤ s.capacity (pos (length s.records)))) [
      | inl full ↦ rw full (w, l)
      | inr e ↦ rw e (
        Entries-assign key r s.records v u w,
        ground (arith, e, length-assign_le key r s.records),
      )
    ]

create-WellFormed :
    (s : MemoryStore) (cancelled : Bool) (key : Text) (r : Record)
    → WellFormed s
    → WellFormed (create s cancelled key r).0
unfolding create
create-WellFormed s cancelled key r (w, l) = elim (Bool-cases (valid_creation key r)) [
  | inr bad ↦ rw bad (w, l)
  | inl good ↦ elim (Bool-cases cancelled) [
    | inl done ↦ rw (good, done) (w, l)
    | inr live ↦ elim (Option-cases (find key s.records)) [
      | inr (r0, f) ↦ rw (good, live, f) (w, l)
      | inl f ↦
          let (v, u) = creation-valid key r good in
          let swept = record s { records = delete_expired r.created_at s.records } in
          rw (good, live, f)
            (admit-WellFormed swept key r v u (
              Entries-delete r.created_at s.records w,
              omega (arith, l, length-delete r.created_at s.records),
            ))
    ]
  ]
]

-- What a successful `Apply` found.
pub applied-found :
    (s : MemoryStore) (cancelled : Bool) (key : Text) (generation : ℤ) (event : Event) (now : Time)
    {next : Record}
    → applied s cancelled key generation event now ≡ ok next
    → (valid_key key ≡ true)
      × ((r : Record) × (find key s.records ≡ some r)
          × (transition r generation event now ≡ ok next))
unfolding applied
applied-found s cancelled key generation event now h = elim (Bool-cases (valid_key key)) [
  | inr bad ↦ absurd (ground arith)
  | inl good ↦ elim (Option-cases (find key s.records)) [
    | inl f ↦ absurd (ground arith)
    | inr (r, f) ↦ (good, (r, f, ground arith))
  ]
]

apply-WellFormed :
    (s : MemoryStore) (cancelled : Bool) (key : Text) (generation : ℤ) (event : Event) (now : Time)
    → WellFormed s
    → WellFormed (apply s cancelled key generation event now).0
unfolding apply
apply-WellFormed s cancelled key generation event now (w, l) =
    elim (Result-cases (applied s cancelled key generation event now)) [
      | inr (x, e) ↦ rw e (w, l)
      | inl (next, e) ↦
          let (v, (r, f, t)) = applied-found s cancelled key generation event now e in
          rw e (
            Entries-assign key next s.records v (transition-advances r generation event now t).1 w,
            rw (length-assign key next r s.records f) l,
          )
    ]

pub step-WellFormed : (s : MemoryStore) (c : Call) → WellFormed s → WellFormed (step s c)
unfolding step
step-WellFormed s (creates cancelled key r) w = create-WellFormed s cancelled key r w
step-WellFormed s (reads cancelled key now) w = w
step-WellFormed s (applies cancelled key generation event now) w =
    apply-WellFormed s cancelled key generation event now w

pub run_keeps : (s : MemoryStore) (cs : List Call) → WellFormed s → WellFormed (run s cs)
unfolding run
run_keeps s [] w = w
run_keeps s (c ∷ cs) w = run_keeps (step s c) cs (step-WellFormed s c w)

-- After any calls on a new store, the store holds at most its capacity of records, every record is
-- valid and under a valid key, and no key is held twice.
pub run-WellFormed :
    (capacity : ℤ) (cs : List Call) {s : MemoryStore}
    → new_memory_store capacity ≡ ok s
    → WellFormed (run s cs)
unfolding new_memory_store
run-WellFormed capacity cs {s = s} h = run_keeps s cs (ground arith)
