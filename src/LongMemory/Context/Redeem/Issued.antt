-- ===== src/LongMemory/Context/Redeem/Issued.antt =====
-- From the record over the capability to the session context.
use conclution_ai_teacher.Prelude.{
  ℕ, zero, suc, ◌+◌, ◌*◌, ◌/◌, ◌≤◌, ◌<◌, ◌≡◌, ◌≢◌, refl, sym, ap, ◌∙◌, inl, inr, Bool, true, List,
  [], ◌∷◌, Option, none, some, length, drop, arith, Result, ok, err, Option-cases, Result-cases,
}
use mathlib.Core.Path.{subst}
use conclution_ai_teacher.Prelude.Int.{ℤ, pos, ◌≤ℤ◌}
use conclution_ai_teacher.Prelude.Clock.{Time, second, epoch}
use conclution_ai_teacher.Prelude.Text.{Text, Rune}
use conclution_ai_teacher.LongMemory.Store.{
  MemoryError, invalid_state, disabled, stale_generation, not_found, replayed, passed_on, Consent,
  MemoryRecord, MemoryStore, get_current, get_record, validate_memory_record,
}
use conclution_ai_teacher.LongMemory.Store.Generations.{generation_of, current-found}
use conclution_ai_teacher.LongMemory.Manager.{
  Payload, Envelope, TokenKind, capability_token, Keys, validate_payload, principal_key, aad,
  read_payload, open_loaded, load,
}
use conclution_ai_teacher.LongMemory.Manager.RoundTrip.{sealed-validates, load_opened}
use conclution_ai_teacher.LongMemory.Context.{
  max_token_bytes, max_token_plaintext, valid_app_id, app_id_key, read_token, validate_envelope,
  open_token, new_envelope, seal_token, lifetime, open_record, issue_context, issue_found,
  begin_context,
}
use conclution_ai_teacher.LongMemory.Context.Redeem.RoundTrip.{
  Carries, read_token-seal, validate_envelope-new,
}

pub length-drop : (n m : ℕ) (xs : List ℕ) → length xs ≡ n + m → length (drop n xs) ≡ m
length-drop zero m xs h = omega arith
length-drop (suc n) m [] h = absurd (omega arith)
length-drop (suc n) m (x ∷ xs) h = length-drop n m xs (omega arith)

opened_once : {A : Type 0} {x y : A} → ◌≡◌ {A = Result MemoryError A} (ok x) (ok y) → x ≡ y
opened_once e = cc e

-- The time of the token, and what was read of the random source.
abbrev pub Lasts : Option (List ℕ) → Time → Time → Type 0
Lasts random now later =
    ((bytes : List ℕ) → random ≡ some bytes → length bytes ≡ 28)
    × ((epoch + 1) * second ≤ now)
    × (now ≤ later)
    × (later / second < now / second + lifetime)

module _ (k : Keys) where
  read_payload-Valid :
      (plaintext : Option (List ℕ)) {p : Payload}
      → read_payload k plaintext ≡ ok p
      → validate_payload k p ≡ ok tt
  unfolding read_payload
  read_payload-Valid none h = absurd (ground arith)
  read_payload-Valid (some bytes) h = elim (Option-cases (k.unmarshal_payload bytes)) [
    | inl n ↦ absurd (ground arith)
    | inr (q, e) ↦ elim (Result-cases (validate_payload k q)) [
      | inr (x, v) ↦ absurd (ground arith)
      | inl (u, v) ↦ ground arith
    ]
  ]

  -- What a capability that was issued for a record holds.
  abbrev Issued : Text → List Rune → Option (List ℕ) → Time → Consent → MemoryRecord → Text → Type 0
  Issued u app random now c r token =
      (p : Payload) × (bytes : List ℕ) × (random ≡ some bytes)
      × (open_record k u c.generation r now ≡ ok p)
      × (pos 1 ≤ℤ c.generation)
      × (length (
            k.marshal_envelope capability_token
              (new_envelope k u (app_id_key k app) c.generation p bytes now))
          ≤ max_token_plaintext)
      × (length token ≤ max_token_bytes)
      × (token
          ≡ seal_token k capability_token
              (k.marshal_envelope capability_token
                (new_envelope k u (app_id_key k app) c.generation p bytes now))
              u (app_id_key k app) (drop 16 bytes))

  issue_context-Issued :
      (u : Text) (app : List Rune) (random : Option (List ℕ)) (now : Time) (c : Consent)
      (r : MemoryRecord) {token : Text}
      → issue_context k u app random now (c, r) ≡ ok (some token)
      → Issued u app random now c r token
  unfolding issue_context
  issue_context-Issued u app random now c r h =
      elim (Result-cases (open_record k u c.generation r now)) [
        | inr (x, e) ↦ absurd (ground arith)
        | inl (p, e) ↦ elim (Option-cases random) [
          | inl n ↦ absurd (ground arith)
          | inr (bytes, n) ↦
              (p, bytes, n, e, ground arith, ground arith, ground arith, ground arith)
        ]
      ]

  issue_found-err :
      (u : Text) (app : List Rune) (random : Option (List ℕ)) (now : Time) (x : MemoryError)
      {token : Text}
      → issue_found k u app random now (err x) ≢ ok (some token)
  unfolding issue_found
  issue_found-err u app random now invalid_state h = cc
  issue_found-err u app random now disabled h = cc
  issue_found-err u app random now stale_generation h = cc
  issue_found-err u app random now not_found h = cc
  issue_found-err u app random now replayed h = cc
  issue_found-err u app random now passed_on h = cc

  begin_context-Issued :
      (s : MemoryStore) (cancelled : Bool) (uid app : List Rune) (random : Option (List ℕ))
      (now : Time) {token : Text}
      → begin_context k s cancelled uid app random now ≡ ok (some token)
      → (u : Text) × (c : Consent) × (r : MemoryRecord) × (valid_app_id app ≡ true)
        × (principal_key k uid ≡ ok u)
        × (get_current s cancelled u now ≡ ok (c, r))
        × Issued u app random now c r token
  unfolding begin_context issue_found
  begin_context-Issued s cancelled uid app random now {token = token} h =
      elim (Result-cases (principal_key k uid)) [
        | inr (x, e) ↦ absurd (ground arith)
        | inl (u, e) ↦ elim (Result-cases (get_current s cancelled u now)) [
          | inr (x, g) ↦ absurd (issue_found-err u app random now x {token = token} (ground arith))
          | inl ((c, r), g) ↦ (
            u,
            c,
            r,
            ground arith,
            e,
            g,
            issue_context-Issued u app random now c r (ground arith),
          )
        ]
      ]

  open_record-loaded :
      (u : Text) (g : ℤ) (r : MemoryRecord) (now : Time) {p : Payload}
      → open_record k u g r now ≡ ok p
      → open_loaded k u g r ≡ ok p
  unfolding open_record open_loaded
  open_record-loaded u g r now h = elim (Result-cases (validate_memory_record r g now)) [
    | inr (x, v) ↦ absurd (ground arith)
    | inl (w, v) ↦ let (version, same, twelve, full) = sealed-validates r g now v in ground arith
  ]

  get_current-record :
      (s : MemoryStore) (cancelled : Bool) (u : Text) (now : Time) (c : Consent) (r : MemoryRecord)
      → get_current s cancelled u now ≡ ok (c, r)
      → get_record s cancelled u c.generation now ≡ ok r
  unfolding get_record
  get_current-record s cancelled u now c r h = ground arith

  open_record-load :
      (s : MemoryStore) (cancelled : Bool) (uid : List Rune) (u : Text) (now : Time) (c : Consent)
      (r : MemoryRecord) {p : Payload}
      → principal_key k uid ≡ ok u
      → get_current s cancelled u now ≡ ok (c, r)
      → pos 1 ≤ℤ c.generation
      → open_record k u c.generation r now ≡ ok p
      → load k s cancelled uid c.generation now ≡ ok p
  open_record-load s cancelled uid u now c r {p = p} named found g1 h =
      load_opened k s cancelled uid u c.generation now r p (ground arith) named
        (get_current-record s cancelled u now c r found) (open_record-loaded u c.generation r now h)

  open_record-Valid :
      (u : Text) (g : ℤ) (r : MemoryRecord) (now : Time) {p : Payload}
      → open_record k u g r now ≡ ok p
      → validate_payload k p ≡ ok tt
  unfolding open_record
  open_record-Valid u g r now h = elim (Result-cases (validate_memory_record r g now)) [
    | inr (x, v) ↦ absurd (ground arith)
    | inl (w, v) ↦
        read_payload-Valid (k.records.unseal r.nonce r.ciphertext (aad u g)) (ground arith)
  ]

  open_token-eq :
      (kind : TokenKind) (uid app : List Rune) (token u : Text) (e : Envelope) (later : Time)
      → read_token k kind uid app token ≡ ok (u, e)
      → validate_envelope k e u (app_id_key k app) later ≡ ok tt
      → open_token k kind uid app token later ≡ ok (u, e)
  unfolding open_token
  open_token-eq kind uid app token u e later r v = rw (r, v) refl

  -- A token that opens now, and what it holds.
  abbrev pub Opens : TokenKind → List Rune → List Rune → Text → Time → Text → Payload → ℤ → Type 0
  Opens kind uid app token later u p g =
      (e : Envelope) × (open_token k kind uid app token later ≡ ok (u, e))
      × (e.memory ≡ p)
      × (e.generation ≡ g)
      × (e.app_id_digest ≡ app_id_key k app)

  abbrev pub sealed_memory : TokenKind → List Rune → Text → ℤ → Payload → List ℕ → Time → Text
  sealed_memory kind app u g p bytes now =
      seal_token k kind
        (k.marshal_envelope kind (new_envelope k u (app_id_key k app) g p bytes now)) u
        (app_id_key k app) (drop 16 bytes)

  pub sealed-Opens :
      (kind : TokenKind) (uid app : List Rune) (u : Text) (g : ℤ) (p : Payload) (bytes : List ℕ)
      (now later : Time)
      → Carries k kind
      → valid_app_id app ≡ true
      → principal_key k uid ≡ ok u
      → validate_payload k p ≡ ok tt
      → pos 1 ≤ℤ g
      → Lasts (some bytes) now later
      → length (k.marshal_envelope kind (new_envelope k u (app_id_key k app) g p bytes now))
        ≤ max_token_plaintext
      → length (sealed_memory kind app u g p bytes now) ≤ max_token_bytes
      → Opens kind uid app (sealed_memory kind app u g p bytes now) later u p g
  unfolding new_envelope
  sealed-Opens kind uid app u g p bytes now later laws a named valid g1 (sized, start, le, lasts)
        small short =
      let e = new_envelope k u (app_id_key k app) g p bytes now in
      let n = sized bytes refl in
      let read =
        read_token-seal k kind uid app u e (drop 16 bytes) laws valid a named
          (length-drop 16 12 bytes n) small short in
      let checked =
        validate_envelope-new k u (app_id_key k app) g p bytes now later (laws.1) valid g1
          (omega arith) start le lasts in
      (
        e,
        open_token-eq kind uid app (sealed_memory kind app u g p bytes now) u e later read checked,
        refl,
        refl,
        refl,
      )

  -- A memory that is loaded under `g`, and opened from the token.
  abbrev pub Begun :
      MemoryStore → Bool → List Rune → List Rune → Text → Text → Time → Time → ℤ → Type 0
  Begun s cancelled uid app u token now later g =
      (p : Payload) × (load k s cancelled uid g now ≡ ok p)
      × Opens capability_token uid app token later u p g
      × (validate_payload k p ≡ ok tt)
      × (pos 1 ≤ℤ g)
      × (valid_app_id app ≡ true)

  Issued-Begun :
      (s : MemoryStore) (cancelled : Bool) (uid app : List Rune) (u : Text)
      (random : Option (List ℕ)) (now later : Time) (token : Text) (c : Consent) (r : MemoryRecord)
      → Carries k capability_token
      → Lasts random now later
      → valid_app_id app ≡ true
      → principal_key k uid ≡ ok u
      → get_current s cancelled u now ≡ ok (c, r)
      → Issued u app random now c r token
      → Begun s cancelled uid app u token now later c.generation
  Issued-Begun s cancelled uid app u random now later token c r laws lasts a named found issued =
      let (p, bytes, drawn, opened, g1, small, short, same) = issued in
      let valid = open_record-Valid u c.generation r now opened in
      let opens =
        sealed-Opens capability_token uid app u c.generation p bytes now later laws a named valid g1
          (subst (λ x. Lasts x now later) drawn lasts) small
          (subst (λ x. length x ≤ max_token_bytes) same short) in
      (
        p,
        open_record-load s cancelled uid u now c r named found g1 opened,
        subst (λ x. Opens capability_token uid app x later u p c.generation) (sym same) opens,
        valid,
        g1,
        a,
      )

  pub begin_context-Begun :
      (s : MemoryStore) (cancelled : Bool) (uid app : List Rune) (u : Text)
      (random : Option (List ℕ)) (now later : Time) (token : Text)
      → Carries k capability_token
      → Lasts random now later
      → principal_key k uid ≡ ok u
      → begin_context k s cancelled uid app random now ≡ ok (some token)
      → Begun s cancelled uid app u token now later (generation_of s u)
        × ((s.entries u).consent.enabled ≡ true)
  begin_context-Begun s cancelled uid app u random now later token laws lasts named h =
      let (u', c, r, a, named', found, issued) =
        begin_context-Issued s cancelled uid app random now h in
      let same : u' ≡ u = opened_once (sym named' ∙ named) in
      let found' = subst (λ x. get_current s cancelled x now ≡ ok (c, r)) same found in
      let issued' = subst (λ x. Issued x app random now c r token) same issued in
      let (current, on, _, _) = current-found s cancelled u now found' in
      let begun =
        Issued-Begun s cancelled uid app u random now later token c r laws lasts a named found'
          issued' in
      (
        subst (λ x. Begun s cancelled uid app u token now later x) (ap (λ x. x.generation) current)
            begun,
        sym (ap (λ x. x.enabled) current) ∙ on,
      )
