-- ===== src/LongMemory/Context/Redeem/Sessions.antt =====
-- What the holder of a capability or of a session context reads while it lasts.
use conclution_ai_teacher.Prelude.{
  ℕ, ◌+◌, ◌≤◌, ◌≡◌, refl, sym, ap, ◌∙◌, inl, inr, Bool, true, false, List, ◌++◌, Option, some,
  length, drop, arith, ok, Option-cases, Result-cases,
}
use mathlib.Core.Path.{subst}
use conclution_ai_teacher.Prelude.Int.{ℤ, pos, ◌≤ℤ◌}
use conclution_ai_teacher.Prelude.Clock.{Time}
use conclution_ai_teacher.Prelude.Text.{Text, Rune}
use conclution_ai_teacher.LongMemory.Store.{Consent, MemoryStore, status, check_consent}
use conclution_ai_teacher.LongMemory.Store.Generations.{generation_of}
use conclution_ai_teacher.LongMemory.Manager.{
  Payload, Envelope, capability_token, session_token, Keys, validate_payload, principal_key, load,
  manager_status,
}
use conclution_ai_teacher.LongMemory.Context.{
  max_token_bytes, max_token_plaintext, valid_app_id, app_id_key, open_token, new_envelope,
  seal_token, token_aad, encoded_len, begin_context,
}
use conclution_ai_teacher.LongMemory.Context.Redeem.{
  open_context, consume_token, prepare_session, consume_session_context, open_session_context,
}
use conclution_ai_teacher.LongMemory.Context.Redeem.RoundTrip.{Carries, length-++}
use conclution_ai_teacher.LongMemory.Context.Redeem.Issued.{
  length-drop, Lasts, Opens, sealed-Opens, begin_context-Begun,
}

module _ (k : Keys) where
  manager_status-eq :
      (s : MemoryStore) (uid : List Rune) (u : Text)
      → principal_key k uid ≡ ok u
      → manager_status k s false uid ≡ ok (s.entries u).consent
  unfolding manager_status status
  manager_status-eq s uid u named = rw named refl

  check_consent-eq :
      (c : Consent) (g : ℤ) → c.enabled ≡ true → c.generation ≡ g → check_consent c g ≡ ok tt
  unfolding check_consent
  check_consent-eq c g on same = ground arith

  open_context-eq :
      (s : MemoryStore) (uid app : List Rune) (u : Text) (token : Text) (later : Time) (p : Payload)
      (g : ℤ)
      → principal_key k uid ≡ ok u
      → Opens k capability_token uid app token later u p g
      → (s.entries u).consent.enabled ≡ true
      → (s.entries u).consent.generation ≡ g
      → open_context k s false uid app token later ≡ ok (p, g)
  unfolding open_context
  open_context-eq s uid app u token later p g named (e, opened, memory, generation, _) on current =
      let checked =
        check_consent-eq (s.entries u).consent e.generation on (current ∙ sym generation) in
      rw (opened, manager_status-eq s uid u named, checked, memory, generation) refl

  pub open_context-begin :
      (s s' : MemoryStore) (cancelled : Bool) (uid app : List Rune) (u : Text)
      (random : Option (List ℕ)) (now later : Time) (token : Text)
      → Carries k capability_token
      → Lasts random now later
      → principal_key k uid ≡ ok u
      → begin_context k s cancelled uid app random now ≡ ok (some token)
      → (s'.entries u).consent ≡ (s.entries u).consent
      → (p : Payload) × (load k s cancelled uid (generation_of s u) now ≡ ok p)
        × (open_context k s' false uid app token later ≡ ok (p, generation_of s u))
  open_context-begin s s' cancelled uid app u random now later token laws lasts named h kept =
      let ((p, loaded, opens, _, _, _), on) =
        begin_context-Begun k s cancelled uid app u random now later token laws lasts named h in
      (
        p,
        loaded,
        open_context-eq s' uid app u token later p (generation_of s u) named opens
            (ap (λ x. x.enabled) kept ∙ on) (ap (λ x. x.generation) kept),
      )

  -- The session context that is sealed for a memory.
  abbrev Prepared : Text → Text → ℤ → Payload → List ℕ → Time → Text → Type 0
  Prepared u a g p bytes now session =
      (length (k.marshal_envelope session_token (new_envelope k u a g p bytes now))
        ≤ max_token_plaintext)
      × (5
            + encoded_len
                (28 + length (k.marshal_envelope session_token (new_envelope k u a g p bytes now)))
          ≤ max_token_bytes)
      × (session
          ≡ seal_token k session_token
              (k.marshal_envelope session_token (new_envelope k u a g p bytes now)) u a
              (drop 16 bytes))

  prepare_session-Prepared :
      (uid app : List Rune) (u : Text) (token : Text) (random : Option (List ℕ)) (now : Time)
      (e : Envelope) {u' : Text} {e' : Envelope} {session : Text} {seconds : ℕ}
      → open_token k capability_token uid app token now ≡ ok (u, e)
      → prepare_session k uid app token random now ≡ ok (u', e', (session, seconds))
      → (bytes : List ℕ) × (random ≡ some bytes)
        × Prepared u e.app_id_digest e.generation e.memory bytes now session
  unfolding prepare_session
  prepare_session-Prepared uid app u token random now e opened h = elim (Option-cases random) [
    | inl n ↦ absurd (ground arith)
    | inr (bytes, n) ↦ (bytes, n, (ground arith, ground arith, ground arith))
  ]

  length-sealed :
      (plaintext : List ℕ) (u a : Text) (nonce : List ℕ)
      → Carries k session_token
      → ((bytes : List ℕ) → length (k.encode bytes) ≡ encoded_len (length bytes))
      → length nonce ≡ 12
      → length (seal_token k session_token plaintext u a nonce)
        ≡ 5 + encoded_len (28 + length plaintext)
  unfolding seal_token
  length-sealed plaintext u a nonce laws size n =
      let aad = token_aad session_token u a in
      let (_, longer) = laws.0 nonce plaintext aad n in
      let coded = size (nonce ++ (k.tokens session_token).seal nonce plaintext aad) in
      let both = length-++ nonce ((k.tokens session_token).seal nonce plaintext aad) in
      omega (arith, longer, coded, both)

  prepared_session-Opens :
      (uid app : List Rune) (u : Text) (g : ℤ) (p : Payload) (token : Text)
      (random : Option (List ℕ)) (now later : Time) {u' : Text} {e' : Envelope} {session : Text}
      {seconds : ℕ}
      → Carries k session_token
      → ((bytes : List ℕ) → length (k.encode bytes) ≡ encoded_len (length bytes))
      → Lasts random now later
      → valid_app_id app ≡ true
      → principal_key k uid ≡ ok u
      → validate_payload k p ≡ ok tt
      → pos 1 ≤ℤ g
      → Opens k capability_token uid app token now u p g
      → prepare_session k uid app token random now ≡ ok (u', e', (session, seconds))
      → Opens k session_token uid app session later u p g
  prepared_session-Opens uid app u g p token random now later {session = session} laws size lasts a
        named valid g1 (e, opened, memory, generation, app_same) h =
      let (bytes, drawn, prepared) =
        prepare_session-Prepared uid app u token random now e opened h in
      let for_app =
        subst (λ x. Prepared u x e.generation e.memory bytes now session) app_same prepared in
      let under =
        subst (λ x. Prepared u (app_id_key k app) x e.memory bytes now session) generation
          for_app in
      let (small, short, same) =
        subst (λ x. Prepared u (app_id_key k app) g x bytes now session) memory under in
      let sized = lasts.0 in
      let n = length-drop 16 12 bytes (sized bytes drawn) in
      let longer =
        length-sealed
          (k.marshal_envelope session_token (new_envelope k u (app_id_key k app) g p bytes now)) u
          (app_id_key k app) (drop 16 bytes) laws size n in
      let opens =
        sealed-Opens k session_token uid app u g p bytes now later laws a named valid g1
          (subst (λ x. Lasts x now later) drawn lasts) small (omega (arith, longer, short)) in
      subst (λ x. Opens k session_token uid app x later u p g) (sym same) opens

  open_session_context-eq :
      (uid app : List Rune) (u : Text) (token : Text) (later : Time) (p : Payload) (g : ℤ)
      → Opens k session_token uid app token later u p g
      → open_session_context k uid app token later ≡ ok (p, g)
  unfolding open_session_context
  open_session_context-eq uid app u token later p g (e, opened, memory, generation, _) =
      rw (opened, memory, generation) refl

  consume_session_context-prepared :
      (s : MemoryStore) (cancelled : Bool) (uid app : List Rune) (token : Text)
      (random : Option (List ℕ)) (now : Time) {session : Text} {seconds : ℕ}
      → (consume_session_context k s cancelled uid app token random now).1 ≡ ok (session, seconds)
      → (u : Text) × (e : Envelope) × (prepare_session k uid app token random now
          ≡ ok (u, e, (session, seconds)))
  unfolding consume_session_context
  consume_session_context-prepared s cancelled uid app token random now h =
      elim (Result-cases (prepare_session k uid app token random now)) [
        | inr (x, e) ↦ absurd (ground arith)
        | inl ((u, e, answer), p) ↦ elim (Result-cases (consume_token k s cancelled now u e).1) [
          | inr (x, c) ↦ absurd (ground arith)
          | inl (w, c) ↦ (u, e, ground arith)
        ]
      ]

  -- Where the tokens decode and unseal to what was encoded and sealed, the encoding has the length
  -- of unpadded base64, 28 random bytes were read each time and the clock is past the Unix epoch:
  -- a session context that was got for a capability opens, until it expires, to the payload and
  -- the generation that a load returned when the capability was issued.
  pub open_session_context-consume :
      (s s' : MemoryStore) (cancelled cancelled' : Bool) (uid app : List Rune) (u : Text)
      (random random' : Option (List ℕ)) (now then later : Time) (token session : Text)
      (seconds : ℕ)
      → Carries k capability_token
      → Carries k session_token
      → ((bytes : List ℕ) → length (k.encode bytes) ≡ encoded_len (length bytes))
      → Lasts random now then
      → Lasts random' then later
      → principal_key k uid ≡ ok u
      → begin_context k s cancelled uid app random now ≡ ok (some token)
      → (consume_session_context k s' cancelled' uid app token random' then).1
        ≡ ok (session, seconds)
      → (p : Payload) × (load k s cancelled uid (generation_of s u) now ≡ ok p)
        × (open_session_context k uid app session later ≡ ok (p, generation_of s u))
  open_session_context-consume s s' cancelled cancelled' uid app u random random' now then later
        token session seconds laws laws' size lasts lasts' named h c =
      let ((p, loaded, opens, valid, g1, a), _) =
        begin_context-Begun k s cancelled uid app u random now then token laws lasts named h in
      let (_, _, prepared) =
        consume_session_context-prepared s' cancelled' uid app token random' then c in
      let session_opens =
        prepared_session-Opens uid app u (generation_of s u) p token random' then later laws' size
          lasts' a named valid g1 opens prepared in
      (
        p,
        loaded,
        open_session_context-eq uid app u session later p (generation_of s u) session_opens,
      )
