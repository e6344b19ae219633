-- ===== src/LongMemory/Manager/RoundTrip.antt =====
-- A memory that was saved is loaded again, until it expires.
use conclution_ai_teacher.Prelude.{
  ℕ, ◌+◌, ◌≤◌, ◌<◌, ◌≡◌, ◌≢◌, inl, inr, refl, sym, ap, ◌∙◌, Bool, false, List, [], Option, some,
  length, ltb, arith, Option-cases, Result, ok, Result-cases,
}
use mathlib.Core.Path.{subst}
use conclution_ai_teacher.Prelude.Int.{ℤ, pos, ltb_ℤ}
use conclution_ai_teacher.Prelude.Clock.{Time}
use conclution_ai_teacher.Prelude.Text.{Text, Rune}
use conclution_ai_teacher.LongMemory.Store.{
  default_ttl, MemoryError, MemoryRecord, MemoryStore, put_record, get_record,
  validate_memory_record,
}
use conclution_ai_teacher.LongMemory.Store.Generations.{Call, run}
use conclution_ai_teacher.LongMemory.Store.Validity.{
  AllElsewhere, get-put, put_checked, checked-parts,
}
use conclution_ai_teacher.LongMemory.Manager.{
  Payload, Keys, validate_payload, principal_key, sealed_record, prepare_save, save, read_payload,
  open_loaded, load, aad, max_plaintext,
}

-- What the sealing and the encoding of the record promise.
abbrev pub Opens : Keys → Type 0
Opens k =
    ((nonce plaintext : List ℕ) (label : Text)
      → length nonce ≡ 12
      → k.records.unseal nonce (k.records.seal nonce plaintext label) label ≡ some plaintext)
    × ((p : Payload)
        → validate_payload k p ≡ ok tt
        → k.unmarshal_payload (k.marshal_payload p) ≡ some p)

ok-injective : {A : Type 0} {x y : A} → ◌≡◌ {A = Result MemoryError A} (ok x) (ok y) → x ≡ y
ok-injective e = cc e

pub sealed-validates :
    (r : MemoryRecord) (g : ℤ) (now : Time)
    → validate_memory_record r g now ≡ ok tt
    → (r.schema_version ≡ pos 1) × (r.generation ≡ g) × (length r.nonce ≡ 12) × (r.ciphertext ≢ [])
unfolding validate_memory_record
sealed-validates r g now h = ground arith

module _ (k : Keys) where
  pub prepare_save-eq :
      (uid : List Rune) (g : ℤ) (p : Payload) (random : Option (List ℕ)) (now : Time) {key : Text}
      {r : MemoryRecord}
      → prepare_save k uid g p random now ≡ ok (key, r)
      → (ltb_ℤ g (pos 1) ≡ false)
        × (validate_payload k p ≡ ok tt)
        × (principal_key k uid ≡ ok key)
        × (ltb max_plaintext (length (k.marshal_payload p)) ≡ false)
        × ((nonce : List ℕ) × (r ≡ sealed_record k key g p nonce now))
  unfolding prepare_save
  prepare_save-eq uid g p random now h = elim (Result-cases (validate_payload k p)) [
    | inr (x, v) ↦ absurd (ground arith)
    | inl (u, v) ↦ elim (Result-cases (principal_key k uid)) [
      | inr (x, q) ↦ absurd (ground arith)
      | inl (key', q) ↦ elim (Option-cases random) [
        | inl n ↦ absurd (ground arith)
        | inr (nonce, n) ↦
            (ground arith, ground arith, ground arith, ground arith, (nonce, ground arith))
      ]
    ]
  ]

  read_payload-marshal :
      (p : Payload)
      → Opens k
      → validate_payload k p ≡ ok tt
      → ltb max_plaintext (length (k.marshal_payload p)) ≡ false
      → read_payload k (some (k.marshal_payload p)) ≡ ok p
  unfolding read_payload
  read_payload-marshal p laws v l = ground (arith, l, laws.1 p v, v)

  open_loaded-sealed :
      (key : Text) (g : ℤ) (p : Payload) (nonce : List ℕ) (now then : Time)
      → Opens k
      → validate_payload k p ≡ ok tt
      → ltb max_plaintext (length (k.marshal_payload p)) ≡ false
      → validate_memory_record (sealed_record k key g p nonce now) g then ≡ ok tt
      → open_loaded k key g (sealed_record k key g p nonce now) ≡ ok p
  unfolding open_loaded sealed_record
  open_loaded-sealed key g p nonce now then laws v l checked =
      let (_, _, twelve, full) =
        sealed-validates (sealed_record k key g p nonce now) g then checked in
      let opened = laws.0 nonce (k.marshal_payload p) (aad key g) twelve in
      let payload = read_payload-marshal p laws v l in ground (arith, twelve, full, opened, payload)

  pub saved-put :
      (s : MemoryStore) (uid : List Rune) (g : ℤ) (p : Payload) (random : Option (List ℕ))
      (now put_at : Time)
      → (save k s false uid g p random now put_at).1 ≡ ok tt
      → (key : Text) × (r : MemoryRecord) × (prepare_save k uid g p random now ≡ ok (key, r))
        × (save k s false uid g p random now put_at ≡ put_record s false key g r put_at)
  unfolding save
  saved-put s uid g p random now put_at h =
      elim (Result-cases (prepare_save k uid g p random now)) [
        | inr (x, e) ↦ absurd (ground arith)
        | inl ((key, r), e) ↦ (key, r, e, rw e refl)
      ]

  live_later :
      (key : Text) (g : ℤ) (p : Payload) (nonce : List ℕ) (now later : Time) (r : MemoryRecord)
      → r ≡ sealed_record k key g p nonce now
      → later < now + default_ttl
      → later < r.expires_at
  unfolding sealed_record
  live_later key g p nonce now later r e b = rw (ap (λ x. x.expires_at) e) b

  pub load_opened :
      (s : MemoryStore) (cancelled : Bool) (uid : List Rune) (key : Text) (g : ℤ) (later : Time)
      (r : MemoryRecord) (p : Payload)
      → ltb_ℤ g (pos 1) ≡ false
      → principal_key k uid ≡ ok key
      → get_record s cancelled key g later ≡ ok r
      → open_loaded k key g r ≡ ok p
      → load k s cancelled uid g later ≡ ok p
  unfolding load
  load_opened s cancelled uid key g later r p start named found opened =
      rw (start, named, found, opened) refl

  -- Where records unseal and payloads decode to what was sealed and encoded, a payload whose
  -- saving succeeds is loaded again as it was, from the time of the saving to before it expires,
  -- after any calls that leave the entry of the person alone.
  pub load-save :
      (s : MemoryStore) (uid : List Rune) (key : Text) (g : ℤ) (p : Payload)
      (random : Option (List ℕ)) (now put_at later : Time) (cs : List Call)
      → Opens k
      → principal_key k uid ≡ ok key
      → (save k s false uid g p random now put_at).1 ≡ ok tt
      → AllElsewhere key cs
      → put_at ≤ later
      → later < now + default_ttl
      → load k (run (save k s false uid g p random now put_at).0 cs) false uid g later ≡ ok p
  load-save s uid key g p random now put_at later cs laws named h n a b =
      let (key', r, prepared, same) = saved-put s uid g p random now put_at h in
      let (start, v, named', l, (nonce, e)) = prepare_save-eq uid g p random now prepared in
      let same_key : key' ≡ key = ok-injective (sym named' ∙ named) in
      let put = sym (ap (λ x. x.1) same) ∙ h in
      let got =
        get-put s key' g r put_at later cs put (subst (λ x. AllElsewhere x cs) (sym same_key) n) a
          (live_later key' g p nonce now later r e b) in
      let checked = checked-parts s key' g r put_at (put_checked s key' g r put_at put) in
      let sealed = subst (λ x. validate_memory_record x g put_at ≡ ok tt) e checked in
      let opened = open_loaded-sealed key' g p nonce now put_at laws v l sealed in
      let found = ap (λ x. get_record (run x cs) false key' g later) (ap (λ x. x.0) same) ∙ got in
      load_opened (run (save k s false uid g p random now put_at).0 cs) false uid key' g later r p
        start named' found (subst (λ x. open_loaded k key' g x ≡ ok p) (sym e) opened)
