-- ===== src/Trial/Service/Begin.antt =====
-- A trial that was begun: that it can be read until its deadline, and when one can be begun.
use conclution_ai_teacher.Prelude.Text.{AllBytes, Text, encode_to_string, hex_digit, length-encode}
use conclution_ai_teacher.Prelude.{
  ℕ, ◌≤◌, ◌<◌, ◌≡◌, refl, ap, inl, inr, Bool, true, false, List, [], ◌∷◌, Option, none, some, arith,
  Bool-cases, Option-cases, ok, Result-cases, length, all_of, ◌/◌, ◌%◌,
}
use mathlib.Core.Path.{subst}
use conclution_ai_teacher.Prelude.Int.{pos, ◌<ℤ◌, leb_ℤ}
use conclution_ai_teacher.Prelude.Clock.{Time, microsecond, truncate}
use conclution_ai_teacher.Trial.Ledger.{
  is_lower_hex_digit, Record, valid_key, validate_record, current,
}
use conclution_ai_teacher.Trial.Memory.{
  MemoryStore, find, delete_expired, valid_creation, admit, create, read,
}
use conclution_ai_teacher.Trial.Memory.Bounds.{creation-valid}
use conclution_ai_teacher.Trial.Memory.Runs.{find-assign_same}
use conclution_ai_teacher.Trial.Owner.{Owner, valid_owner, document_key, message}
use conclution_ai_teacher.Prelude.Text.{Rune}
use conclution_ai_teacher.Trial.Service.{Snapshot, snapshot, new_record, prepare, begin, read_trial}

-- What a creation that succeeds leaves under its key.
created-found :
    (s : MemoryStore) (cancelled : Bool) (key : Text) (r : Record)
    → (create s cancelled key r).1 ≡ none
    → (valid_creation key r ≡ true) × (find key (create s cancelled key r).0.records ≡ some r)
unfolding create admit
created-found s cancelled key r h = elim (Bool-cases (valid_creation key r)) [
  | inr bad ↦ absurd (ground arith)
  | inl good ↦ elim (Bool-cases cancelled) [
    | inl done ↦ absurd (ground arith)
    | inr live ↦ elim (Option-cases (find key s.records)) [
      | inr (r0, f) ↦ absurd (ground arith)
      | inl f ↦
          let swept = delete_expired r.created_at s.records in
          elim (Bool-cases (leb_ℤ s.capacity (pos (length swept)))) [
            | inl full ↦ absurd (ground (arith, full))
            | inr room ↦ (good, rw (good, live, f, room) (find-assign_same key r swept))
          ]
    ]
  ]
]

validated-current :
    (r : Record) (now : Time)
    → validate_record r ≡ ok tt
    → r.created_at ≤ now
    → now < r.expires_at
    → current r now ≡ ok r
unfolding current validate_record
validated-current r now v a b = ground arith

is_lower_hex_digit-hex_digit : (n : ℕ) → n < 16 → is_lower_hex_digit (hex_digit n) ≡ true
is_lower_hex_digit-hex_digit n h = ground arith

lower-encode : (bs : List ℕ) → AllBytes bs → all_of is_lower_hex_digit (encode_to_string bs) ≡ true
unfolding encode_to_string
lower-encode [] h = refl
lower-encode (b ∷ bs) (h, t) =
    rw
      (
        is_lower_hex_digit-hex_digit (b / 16) (omega arith),
        is_lower_hex_digit-hex_digit (b % 16) (omega arith),
      )
      (lower-encode bs t)

valid_key-encode :
    (bs : List ℕ) → AllBytes bs → length bs ≡ 32 → valid_key (encode_to_string bs) ≡ true
unfolding valid_key
valid_key-encode bs a l = ground (arith, length-encode bs, lower-encode bs a)

new_record-creation :
    (key : Text) (now : Time)
    → valid_key key ≡ true
    → 0 < now
    → valid_creation key (new_record now) ≡ true
unfolding valid_creation new_record validate_record
new_record-creation key now v h = ground arith

creation-accepted :
    (s : MemoryStore) (key : Text) (r : Record)
    → valid_creation key r ≡ true
    → find key s.records ≡ none
    → pos (length (delete_expired r.created_at s.records)) <ℤ s.capacity
    → (create s false key r).1 ≡ none
unfolding create admit
creation-accepted s key r good f room =
    let free : leb_ℤ s.capacity (pos (length (delete_expired r.created_at s.records))) ≡ false =
      ground arith in
    rw (good, f, free) refl

module _ (mac : List Rune → List ℕ) where
  prepared :
      (cancelled : Bool) (owner : Owner) (random : Option (List ℕ)) (now : Time) {id key : Text}
      {r : Record}
      → prepare mac cancelled owner random now ≡ ok (id, key, r)
      → (document_key mac owner id ≡ ok key) × (r ≡ new_record (truncate now microsecond))
  unfolding prepare
  prepared cancelled owner none now h = absurd (ground arith)
  prepared cancelled owner (some bytes) now h =
      elim (Result-cases (document_key mac owner (encode_to_string bytes))) [
        | inr (e, d) ↦ absurd (ground arith)
        | inl (k, d) ↦ ground (arith, d)
      ]

  begun-created :
      (s : MemoryStore) (cancelled at_create : Bool) (owner : Owner) (random : Option (List ℕ))
      (now : Time) {snap : Snapshot}
      → (begin mac s cancelled at_create owner random now).1 ≡ ok snap
      → (id : Text) × (key : Text) × (r : Record) × (prepare mac cancelled owner random now
          ≡ ok (id, key, r))
        × ((create s at_create key r).1 ≡ none)
        × (snap ≡ snapshot id r)
        × ((begin mac s cancelled at_create owner random now).0 ≡ (create s at_create key r).0)
  unfolding begin
  begun-created s cancelled at_create owner random now h =
      elim (Result-cases (prepare mac cancelled owner random now)) [
        | inr (e, p) ↦ absurd (ground arith)
        | inl ((id, key, r), p) ↦ elim (Option-cases (create s at_create key r).1) [
          | inr (e, c) ↦ absurd (ground arith)
          | inl c ↦ (id, key, r, p, c, ground (arith, p, c), rw p refl)
        ]
      ]

  read-stored :
      (s : MemoryStore) (owner : Owner) (id key : Text) (r : Record) (later : Time)
      → document_key mac owner id ≡ ok key
      → valid_key key ≡ true
      → find key s.records ≡ some r
      → current r later ≡ ok r
      → read_trial mac s false owner id later ≡ ok (snapshot id r)
  unfolding read_trial read
  read-stored s owner id key r later d v f c = rw (d, v, f, c) refl

  -- A trial that was begun is read back by its owner as it was returned, at any time from its
  -- start to before its deadline, where no other call came between.
  pub begin-read :
      (s : MemoryStore) (cancelled at_create : Bool) (owner : Owner) (random : Option (List ℕ))
      (now later : Time) {snap : Snapshot}
      → (begin mac s cancelled at_create owner random now).1 ≡ ok snap
      → now ≤ later
      → later < snap.expires_at
      → read_trial mac
          (begin mac s cancelled at_create owner random now).0
          false
          owner
          snap.id
          later
        ≡ ok snap
  unfolding snapshot new_record
  begin-read s cancelled at_create owner random now later {snap = snap} h a b =
      let (id, key, r, p, c, shown, same) =
        begun-created s cancelled at_create owner random now h in
      let (d, made) = prepared cancelled owner random now p in
      let (good, f) = created-found s at_create key r c in
      let (v, u) = creation-valid key r good in
      let starts = ap (λ x. x.created_at) made in
      let now_current =
        validated-current r later u (omega (arith, starts))
          (subst (λ x. later < x.expires_at) shown b) in
      rw (shown, same)
        (read-stored (create s at_create key r).0 owner id key r later d v f now_current)

  -- With a valid owner, 32 random bytes, a MAC of 32 bytes, a clock of at least a microsecond, a
  -- key that is not held and room after the expired records are dropped, a trial begins, with a
  -- pending record of generation 1 at the time cut to microseconds.
  pub begin_starts :
      (s : MemoryStore) (owner : Owner) (bytes : List ℕ) (now : Time)
      → valid_owner owner ≡ true
      → AllBytes bytes
      → length bytes ≡ 32
      → AllBytes (mac (message owner (encode_to_string bytes)))
      → length (mac (message owner (encode_to_string bytes))) ≡ 32
      → microsecond ≤ now
      → find (encode_to_string (mac (message owner (encode_to_string bytes)))) s.records ≡ none
      → pos (length (delete_expired (truncate now microsecond) s.records)) <ℤ s.capacity
      → (begin mac s false false owner (some bytes) now).1
        ≡ ok (snapshot (encode_to_string bytes) (new_record (truncate now microsecond)))
  unfolding begin prepare document_key new_record
  begin_starts s owner bytes now o a l a' l' m f room =
      let id = encode_to_string bytes in
      let key = encode_to_string (mac (message owner id)) in
      let r = new_record (truncate now microsecond) in
      let good =
        new_record-creation key (truncate now microsecond)
          (valid_key-encode (mac (message owner id)) a' l') (omega arith) in
      let made = creation-accepted s key r good f room in
      rw (o, valid_key-encode bytes a l, made) refl
