-- ===== src/Trial/Memory/Runs.antt =====
-- What stays true of the record under a key, while calls are made that create none under it.
use conclution_ai_teacher.Prelude.Text.{Text, text_eq, text_eq_iff}
use conclution_ai_teacher.Prelude.{
  ◌≡◌, ◌≢◌, refl, ap, sym, ◌∙◌, inl, inr, Bool, true, false, List, [], ◌∷◌, Option, none, some,
  arith, Bool-cases, Option-cases, ok, Result-cases, length,
}
use mathlib.Core.Path.{subst}
use conclution_ai_teacher.Prelude.Int.{ℤ, pos, leb_ℤ}
use conclution_ai_teacher.Prelude.Clock.{Time, after}
use conclution_ai_teacher.Trial.Ledger.{Event, Record, transition}
use conclution_ai_teacher.Trial.Memory.{
  Records, MemoryStore, find, assign, delete_expired, valid_creation, admit, create, applied, apply,
}
use conclution_ai_teacher.Trial.Memory.Bounds.{
  Call, creates, reads, applies, step, run, Absent, Entries, WellFormed, step-WellFormed, text_ne,
  applied-found, Absent-delete,
}

find-here :
    (key k : Text) (r : Record) (rest : Records)
    → text_eq k key ≡ true
    → find key ((k, r) ∷ rest) ≡ some r
unfolding find
find-here key k r rest e = rw e refl

find-later :
    (key k : Text) (r : Record) (rest : Records)
    → text_eq k key ≡ false
    → find key ((k, r) ∷ rest) ≡ find key rest
unfolding find
find-later key k r rest e = rw e refl

pub find-assign_same :
    (key : Text) (r : Record) (rs : Records) → find key (assign key r rs) ≡ some r
unfolding find assign
find-assign_same key r [] = rw ((text_eq_iff key key).1 refl) refl
find-assign_same key r ((k, r') ∷ rest) = elim (Bool-cases (text_eq k key)) [
  | inl e ↦ rw (e, e) refl
  | inr e ↦ rw (e, e) (find-assign_same key r rest)
]

find-assign_other :
    (key k : Text) (r : Record) (rs : Records) → k ≢ key → find key (assign k r rs) ≡ find key rs
unfolding find assign
find-assign_other key k r [] n = ground (arith, text_eq_iff k key)
find-assign_other key k r ((k', r') ∷ rest) n = elim (Bool-cases (text_eq k' k)) [
  | inl e ↦ ground (arith, text_eq_iff k' k, text_eq_iff k' key, text_eq_iff k key)
  | inr e ↦ ground (arith, find-assign_other key k r rest n)
]

find-Absent : (key : Text) (rs : Records) → Absent key rs → find key rs ≡ none
unfolding find
find-Absent key [] a = refl
find-Absent key ((k, r) ∷ rest) (n, a) = ground (arith, text_eq_iff k key, find-Absent key rest a)

-- Any call but a creation under the key.
abbrev pub NoCreation : Text → Call → Type 0
NoCreation key (creates cancelled k r) = k ≢ key
NoCreation key _ = Unit {0}

abbrev pub NoCreations : Text → List Call → Type 0
NoCreations key [] = Unit {0}
NoCreations key (c ∷ cs) = NoCreation key c × NoCreations key cs

module _ (key : Text) (P : Option Record → Type 0) (gone : P none)
    (moves : (r : Record) (generation : ℤ) (event : Event) (now : Time) (next : Record)
      → P (some r)
      → transition r generation event now ≡ ok next
      → P (some next)) where
  delete-keeps :
      (now : Time) (rs : Records)
      → Entries rs
      → P (find key rs)
      → P (find key (delete_expired now rs))
  unfolding find delete_expired
  delete-keeps now [] w p = p
  delete-keeps now ((k, r) ∷ rest) (v, u, b, w) p = elim (Bool-cases (text_eq k key)) [
    | inr n ↦
        let rest_p = subst P (find-later key k r rest n) p in
        elim (Bool-cases (after r.expires_at now)) [
          | inl kept ↦ rw (kept, n) (delete-keeps now rest w rest_p)
          | inr out ↦ rw out (delete-keeps now rest w rest_p)
        ]
    | inl e ↦ elim (Bool-cases (after r.expires_at now)) [
      | inl kept ↦ rw (kept, e) (subst P (find-here key k r rest e) p)
      | inr out ↦
          let absent : Absent key rest = rw (← (text_eq_iff k key).0 e) b in
          rw (out, find-Absent key (delete_expired now rest) (Absent-delete now key rest absent))
            gone
    ]
  ]

  assign-keeps :
      (k : Text) (r : Record) (rs : Records)
      → (k ≡ key → P (some r))
      → P (find key rs)
      → P (find key (assign k r rs))
  assign-keeps k r rs new p = elim (Bool-cases (text_eq k key)) [
    | inl e ↦ let same = (text_eq_iff k key).0 e in rw (same, find-assign_same key r rs) (new same)
    | inr e ↦ rw (find-assign_other key k r rs (text_ne k key e)) p
  ]

  create-keeps :
      (s : MemoryStore) (cancelled : Bool) (k : Text) (r : Record)
      → k ≢ key
      → Entries s.records
      → P (find key s.records)
      → P (find key (create s cancelled k r).0.records)
  unfolding create admit
  create-keeps s cancelled k r n w p = elim (Bool-cases (valid_creation k r)) [
    | inr bad ↦ rw bad p
    | inl good ↦ elim (Bool-cases cancelled) [
      | inl done ↦ rw (good, done) p
      | inr live ↦ elim (Option-cases (find k s.records)) [
        | inr (r0, f) ↦ rw (good, live, f) p
        | inl f ↦
            let swept = delete_expired r.created_at s.records in
            let p' = delete-keeps r.created_at s.records w p in
            elim (Bool-cases (leb_ℤ s.capacity (pos (length swept)))) [
              | inl full ↦ rw (good, live, f, full) p'
              | inr room ↦ rw (good, live, f, room) (assign-keeps k r swept (λ e. absurd (n e)) p')
            ]
      ]
    ]
  ]

  apply-keeps :
      (s : MemoryStore) (cancelled : Bool) (k : Text) (generation : ℤ) (event : Event) (now : Time)
      → P (find key s.records)
      → P (find key (apply s cancelled k generation event now).0.records)
  unfolding apply
  apply-keeps s cancelled k generation event now p =
      elim (Result-cases (applied s cancelled k generation event now)) [
        | inr (x, e) ↦ rw e p
        | inl (next, e) ↦
            let (v, (r, f, t)) = applied-found s cancelled k generation event now e in
            rw e (
              assign-keeps k next s.records
                (λ same.
                  moves r generation event now next
                    (subst P (ap (λ x. find x s.records) (sym same) ∙ f) p) t)
                p)
      ]

  pub run-keeps :
      (s : MemoryStore) (cs : List Call)
      → WellFormed s
      → NoCreations key cs
      → P (find key s.records)
      → P (find key (run s cs).records)
  unfolding run step
  run-keeps s [] w n p = p
  run-keeps s (creates cancelled k r ∷ cs) w n p =
      run-keeps (create s cancelled k r).0 cs (step-WellFormed s (creates cancelled k r) w) n.1
        (create-keeps s cancelled k r n.0 w.0 p)
  run-keeps s (reads cancelled k now ∷ cs) w n p = run-keeps s cs w n.1 p
  run-keeps s (applies cancelled k generation event now ∷ cs) w n p =
      run-keeps (apply s cancelled k generation event now).0 cs
        (step-WellFormed s (applies cancelled k generation event now) w) n.1
        (apply-keeps s cancelled k generation event now p)
