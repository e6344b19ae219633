-- ===== src/Passkey/Calls/Ceremonies.antt =====
-- A ceremony that was presented is gone.
use conclution_ai_teacher.Prelude.{
  ℕ, ◌≡◌, ◌≢◌, refl, ◌∙◌, List, [], ◌∷◌, Option, none, some, Result, err,
}
use conclution_ai_teacher.Prelude.Clock.{Time}
use conclution_ai_teacher.Prelude.Text.{Text, assign_other, assign-none, assign_same}
use conclution_ai_teacher.Passkey.Store.{StoreError, ceremony_invalid, Ceremony, Digests}
use conclution_ai_teacher.Passkey.Memory.{MemoryStore}
use conclution_ai_teacher.Passkey.Accounts.{
  taken, matching, matching_registration, consume_ceremony, consume_registration_ceremony,
}
use conclution_ai_teacher.Passkey.Calls.{Call, puts_ceremony, step, run}
use conclution_ai_teacher.Passkey.Calls.Relation.{
  key_of, Effect, kept, places, takes, takes_registration, replaces, joins, returns, advances,
  loses, ends, step-Effect,
}

-- The two ways of presenting a ceremony.
pub data Presentation : Type 0 where
  for_purpose : Text → Presentation
  for_registration : Presentation

module _ (d : Digests) (C : Type 0) (id : C → List ℕ) where
  -- No call places a ceremony under the key.
  abbrev pub NotPlaced : Text → Call C → Type 0
  NotPlaced key (puts_ceremony ceremony_id r) = key_of d C id ceremony_id ≢ key
  NotPlaced key _ = Unit {0}

  abbrev pub NonePlaced : Text → List (Call C) → Type 0
  NonePlaced key [] = Unit {0}
  NonePlaced key (c ∷ cs) = NotPlaced key c × NonePlaced key cs

  pub Effect-gone :
      {s s' : MemoryStore C} {c : Call C} (key : Text)
      → Effect d C id s c s'
      → NotPlaced key c
      → s.ceremonies key ≡ none
      → s'.ceremonies key ≡ none
  Effect-gone key (kept c) n h = h
  Effect-gone {s = s} key (places ceremony_id r) n h =
      assign_other (key_of d C id ceremony_id) key (some r) s.ceremonies n ∙ h
  Effect-gone {s = s} key (takes ceremony_id purpose app now) n h =
      assign-none (key_of d C id ceremony_id) key s.ceremonies h
  Effect-gone {s = s} key (takes_registration ceremony_id app now) n h =
      assign-none (key_of d C id ceremony_id) key s.ceremonies h
  Effect-gone key (replaces uid digest expires_at now) n h = h
  Effect-gone key (joins user c now stored) n h = h
  Effect-gone key (returns user c digest now stored) n h = h
  Effect-gone key (advances raw_id expected c now m user f v) n h = h
  Effect-gone key (loses uid reference now user) n h = h
  Effect-gone key (ends uid now references) n h = h

  pub run_gone :
      (s : MemoryStore C) (cs : List (Call C)) (key : Text)
      → NonePlaced key cs
      → s.ceremonies key ≡ none
      → (run d C id s cs).ceremonies key ≡ none
  unfolding run
  run_gone s [] key n h = h
  run_gone s (c ∷ cs) key n h =
      run_gone (step d C id s c) cs key n.1 (Effect-gone key (step-Effect d C id s c) n.0 h)

  unfoldable pub present :
      Presentation
      → MemoryStore C
      → List ℕ
      → List ℕ
      → Time
      → MemoryStore C × Result StoreError Ceremony
  present (for_purpose purpose) s ceremony_id app now =
      consume_ceremony d C id s ceremony_id purpose app now
  present for_registration s ceremony_id app now =
      consume_registration_ceremony d C id s ceremony_id app now

  taken_gone :
      (s : MemoryStore C) (key : Text) (check : Ceremony → Result StoreError Ceremony)
      (found : Option Ceremony)
      → s.ceremonies key ≡ found
      → (taken d C id s key check found).0.ceremonies key ≡ none
  taken_gone s key check none h = h
  taken_gone s key check (some _) h = assign_same key none s.ceremonies

  pub present_gone :
      (p : Presentation) (s : MemoryStore C) (ceremony_id app : List ℕ) (now : Time)
      → (present p s ceremony_id app now).0.ceremonies (key_of d C id ceremony_id) ≡ none
  unfolding present consume_ceremony consume_registration_ceremony
  present_gone (for_purpose purpose) s ceremony_id app now =
      taken_gone s (key_of d C id ceremony_id) (matching d C id purpose app now)
        (s.ceremonies (key_of d C id ceremony_id)) refl
  present_gone for_registration s ceremony_id app now =
      taken_gone s (key_of d C id ceremony_id) (matching_registration d C id app now)
        (s.ceremonies (key_of d C id ceremony_id)) refl

  pub gone_refused :
      (p : Presentation) (s : MemoryStore C) (ceremony_id app : List ℕ) (now : Time)
      → s.ceremonies (key_of d C id ceremony_id) ≡ none
      → (present p s ceremony_id app now).1 ≡ err ceremony_invalid
  unfolding present consume_ceremony consume_registration_ceremony
  gone_refused (for_purpose purpose) s ceremony_id app now h = rw h refl
  gone_refused for_registration s ceremony_id app now h = rw h refl

  -- A ceremony can be presented once: after it was presented, in either way and with any outcome,
  -- and after any calls that put no ceremony under the same key, every presentation of it is
  -- refused as invalid.
  pub present-once :
      (p p' : Presentation) (s : MemoryStore C) (ceremony_id app app' : List ℕ) (now now' : Time)
      (cs : List (Call C))
      → NonePlaced (key_of d C id ceremony_id) cs
      → (present p' (run d C id (present p s ceremony_id app now).0 cs) ceremony_id app' now').1
        ≡ err ceremony_invalid
  present-once p p' s ceremony_id app app' now now' cs n =
      let s' = (present p s ceremony_id app now).0 in
      gone_refused p' (run d C id s' cs) ceremony_id app' now'
        (run_gone s' cs (key_of d C id ceremony_id) n (present_gone p s ceremony_id app now))
