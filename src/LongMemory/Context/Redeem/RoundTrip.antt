-- ===== src/LongMemory/Context/Redeem/RoundTrip.antt =====
-- A token that was sealed is read again, and what is read of it while it lasts.
use conclution_ai_teacher.Prelude.{
  ℕ, zero, suc, ◌+◌, ◌-◌, ◌*◌, ◌/◌, ◌%◌, ◌≤◌, ◌<◌, ◌≡◌, refl, true, false, List, [], ◌∷◌, ◌++◌,
  some, length, take, drop, ltb, arith, ok,
}
use conclution_ai_teacher.Prelude.Int.{ℤ, pos, ◌≤ℤ◌, ◌<ℤ◌, ◌+ℤ◌}
use conclution_ai_teacher.Prelude.Clock.{Time, second, unix, epoch}
use conclution_ai_teacher.Prelude.Text.{Text, Rune, text_eq_iff}
use conclution_ai_teacher.LongMemory.Manager.{
  Payload, Envelope, TokenKind, Keys, validate_payload, principal_key,
}
use conclution_ai_teacher.LongMemory.Context.{
  prefix, token_aad, max_token_bytes, max_token_plaintext, strip_prefix, valid_app_id, app_id_key,
  is_apart, read_token, validate_envelope, new_envelope, seal_token, lifetime,
}

-- What the sealing and the encoding of the tokens promise.
abbrev pub Carries : Keys → TokenKind → Type 0
Carries k kind =
    ((nonce plaintext : List ℕ) (label : Text)
      → length nonce ≡ 12
      → ((k.tokens kind).unseal nonce ((k.tokens kind).seal nonce plaintext label) label
          ≡ some plaintext)
        × (length ((k.tokens kind).seal nonce plaintext label) ≡ length plaintext + 16))
    × ((bytes : List ℕ) → k.decode (k.encode bytes) ≡ some bytes)
    × ((e : Envelope)
        → validate_payload k e.memory ≡ ok tt
        → (k.unmarshal_envelope kind (k.marshal_envelope kind e) ≡ some e)
          × (2 ≤ length (k.marshal_envelope kind e)))

strip_prefix-++ : (p t : Text) → strip_prefix p (p ++ t) ≡ some t
unfolding strip_prefix
strip_prefix-++ [] t = refl
strip_prefix-++ (x ∷ p) t = ground (arith, strip_prefix-++ p t)

pub length-++ : (xs ys : List ℕ) → length (xs ++ ys) ≡ length xs + length ys
length-++ [] ys = omega arith
length-++ (x ∷ xs) ys = omega (arith, length-++ xs ys)

pub take-++ : (n : ℕ) (xs ys : List ℕ) → length xs ≡ n → take n (xs ++ ys) ≡ xs
take-++ zero [] ys h = refl
take-++ zero (x ∷ xs) ys h = absurd (omega arith)
take-++ (suc n) [] ys h = absurd (omega arith)
take-++ (suc n) (x ∷ xs) ys h = rw (take-++ n xs ys (omega arith)) refl

pub drop-++ : (n : ℕ) (xs ys : List ℕ) → length xs ≡ n → drop n (xs ++ ys) ≡ ys
drop-++ zero [] ys h = refl
drop-++ zero (x ∷ xs) ys h = absurd (omega arith)
drop-++ (suc n) [] ys h = absurd (omega arith)
drop-++ (suc n) (x ∷ xs) ys h = drop-++ n xs ys (omega arith)

length-take : (n : ℕ) (xs : List ℕ) → n ≤ length xs → length (take n xs) ≡ n
length-take zero xs h = refl
length-take (suc n) [] h = absurd (omega arith)
length-take (suc n) (x ∷ xs) h = omega (arith, length-take n xs (omega arith))

truncated : (t : ℕ) → (t - t % second) / second ≡ t / second
truncated t = omega arith

module _ (k : Keys) where
  read_token-eq :
      (kind : TokenKind) (uid app : List Rune) (token encoded : Text) (u : Text)
      (raw plaintext : List ℕ) (e : Envelope)
      → valid_app_id app ≡ true
      → strip_prefix (prefix kind) token ≡ some encoded
      → ltb max_token_bytes (length token) ≡ false
      → principal_key k uid ≡ ok u
      → k.decode encoded ≡ some raw
      → ltb (length raw) 30 ≡ false
      → (k.tokens kind).unseal (take 12 raw) (drop 12 raw) (token_aad kind u (app_id_key k app))
        ≡ some plaintext
      → ltb max_token_plaintext (length plaintext) ≡ false
      → k.unmarshal_envelope kind plaintext ≡ some e
      → read_token k kind uid app token ≡ ok (u, e)
  unfolding read_token
  read_token-eq kind uid app token encoded u raw plaintext e a s l named d r o f p =
      rw (a, s, l, named, d, r, o, f, p) refl

  pub read_token-seal :
      (kind : TokenKind) (uid app : List Rune) (u : Text) (e : Envelope) (nonce : List ℕ)
      → Carries k kind
      → validate_payload k e.memory ≡ ok tt
      → valid_app_id app ≡ true
      → principal_key k uid ≡ ok u
      → length nonce ≡ 12
      → length (k.marshal_envelope kind e) ≤ max_token_plaintext
      → length (seal_token k kind (k.marshal_envelope kind e) u (app_id_key k app) nonce)
        ≤ max_token_bytes
      → read_token k kind uid app
          (seal_token k kind (k.marshal_envelope kind e) u (app_id_key k app) nonce)
        ≡ ok (u, e)
  unfolding read_token seal_token
  read_token-seal kind uid app u e nonce (seals, codes, parses) valid a named n small short =
      let plaintext = k.marshal_envelope kind e in
      let aad = token_aad kind u (app_id_key k app) in
      let sealed = (k.tokens kind).seal nonce plaintext aad in
      let (opened, longer) = seals nonce plaintext aad n in
      let (parsed, two) = parses e valid in
      let stripped = strip_prefix-++ (prefix kind) (k.encode (nonce ++ sealed)) in
      let decoded = codes (nonce ++ sealed) in
      let size = length-++ nonce sealed in
      let front = take-++ 12 nonce sealed n in
      let back = drop-++ 12 nonce sealed n in
      let unsealed : (k.tokens kind).unseal (take 12 (nonce ++ sealed)) (drop 12 (nonce ++ sealed))
            aad
          ≡ some plaintext =
        rw (front, back) opened in
      let fits : ltb max_token_plaintext (length plaintext) ≡ false = ground arith in
      let enough : ltb (length (nonce ++ sealed)) 30 ≡ false = ground arith in
      read_token-eq kind uid app (seal_token k kind plaintext u (app_id_key k app) nonce)
        (k.encode (nonce ++ sealed)) u (nonce ++ sealed) plaintext e a stripped (ground arith) named
        decoded enough unsealed fits parsed

  validate_envelope-eq :
      (e : Envelope) (now : Time) {id : List ℕ}
      → k.decode e.id ≡ some id
      → length id ≡ 16
      → e.version ≡ pos 1
      → pos 1 ≤ℤ e.generation
      → pos 1 ≤ℤ e.issued_at
      → is_apart e.issued_at e.expires_at (pos lifetime) ≡ true
      → e.issued_at ≤ℤ unix now +ℤ pos 30
      → unix now <ℤ e.expires_at
      → validate_payload k e.memory ≡ ok tt
      → validate_envelope k e e.uid_digest e.app_id_digest now ≡ ok tt
  unfolding validate_envelope
  validate_envelope-eq e now d l v g i a early late valid = ground (
    arith,
    d,
    l,
    v,
    g,
    i,
    a,
    early,
    late,
    valid,
    text_eq_iff e.uid_digest e.uid_digest,
    text_eq_iff e.app_id_digest e.app_id_digest,
  )

  pub validate_envelope-new :
      (u a : Text) (g : ℤ) (p : Payload) (random : List ℕ) (now later : Time)
      → ((bytes : List ℕ) → k.decode (k.encode bytes) ≡ some bytes)
      → validate_payload k p ≡ ok tt
      → pos 1 ≤ℤ g
      → 16 ≤ length random
      → (epoch + 1) * second ≤ now
      → now ≤ later
      → later / second < now / second + lifetime
      → validate_envelope k (new_envelope k u a g p random now) u a later ≡ ok tt
  unfolding new_envelope is_apart unix
  validate_envelope-new u a g p random now later codes valid g1 n start le lasts =
      let decoded = codes (take 16 random) in
      let size = length-take 16 random n in
      validate_envelope-eq (new_envelope k u a g p random now) later (codes (take 16 random)) size
        refl g1 (ground arith) (ground arith) (ground arith) (ground arith) valid
