-- ===== src/Passkey/Calls/References.antt =====
-- An account has as many references as credentials.
use conclution_ai_teacher.Prelude.{
  ℕ, suc, ◌≡◌, ap, ◌∙◌, inl, inr, List, [], ◌∷◌, length, arith, ok, Result-cases,
}
use conclution_ai_teacher.Prelude.Text.{Text}
use conclution_ai_teacher.Passkey.Store.{Digests, credential_reference, reference_list}

module _ (d : Digests) (C : Type 0) (id : C → List ℕ) where
  pub length-reference_list :
      (seen : List Text) (cs : List C) {references : List Text}
      → reference_list d C id seen cs ≡ ok references
      → length references ≡ length cs
  unfolding reference_list
  length-reference_list seen [] {references = references} h =
      let none_left : references ≡ [] = cc in ap length none_left
  length-reference_list seen (c ∷ cs) {references = references} h =
      let reference = credential_reference d (id c) in
      elim (Result-cases (reference_list d C id (reference ∷ seen) cs)) [
        | inr (x, e) ↦ absurd (ground arith)
        | inl (rest, e) ↦
            let same : references ≡ reference ∷ rest = ground arith in
            ap length same ∙ ap suc (length-reference_list (reference ∷ seen) cs e)
      ]
