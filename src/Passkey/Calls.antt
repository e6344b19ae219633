-- ===== src/Passkey/Calls.antt =====
-- The calls that change the store, in any order.
pub mod Effects
pub mod Relation
pub mod References
pub mod Bounded
pub mod Ceremonies
pub mod Recovery
pub mod Versions
use conclution_ai_teacher.Prelude.{ℕ, List, [], ◌∷◌}
use conclution_ai_teacher.Prelude.Int.{ℤ}
use conclution_ai_teacher.Prelude.Clock.{Time}
use conclution_ai_teacher.Prelude.Text.{Text, Rune}
use conclution_ai_teacher.Passkey.Store.{User, Ceremony, Digests}
use conclution_ai_teacher.Passkey.Memory.{MemoryStore, replace_recovery_code}
use conclution_ai_teacher.Passkey.Accounts.{
  put_ceremony, consume_ceremony, consume_registration_ceremony, create_credential,
  create_recovery_credential, update_credential,
}
use conclution_ai_teacher.Passkey.Lifecycle.{revoke_credential, delete_account_data}

pub data Call (C : Type 0) : Type 0 where
  puts_ceremony : List ℕ → Ceremony → Call C
  consumes : List ℕ → Text → List ℕ → Time → Call C
  consumes_registration : List ℕ → List ℕ → Time → Call C
  replaces_code : List Rune → List ℕ → Time → Time → Call C
  creates : User C → C → Time → Call C
  recovers : User C → C → List ℕ → Time → Call C
  updates : List ℕ → ℤ → C → Time → Call C
  revokes : List Rune → Text → Time → Call C
  deletes : List Rune → Time → Call C

module _ (d : Digests) (C : Type 0) (id : C → List ℕ) where
  unfoldable pub step : MemoryStore C → Call C → MemoryStore C
  step s (puts_ceremony key r) = (put_ceremony d C id s key r).0
  step s (consumes key purpose app now) = (consume_ceremony d C id s key purpose app now).0
  step s (consumes_registration key app now) =
      (consume_registration_ceremony d C id s key app now).0
  step s (replaces_code uid digest expires_at now) =
      (replace_recovery_code d C id s uid digest expires_at now).0
  step s (creates user c now) = (create_credential d C id s user c now).0
  step s (recovers user c digest now) = (create_recovery_credential d C id s user c digest now).0
  step s (updates raw_id version c now) = (update_credential d C id s raw_id version c now).0
  step s (revokes uid reference now) = (revoke_credential d C id s uid reference now).0
  step s (deletes uid now) = (delete_account_data d C id s uid now).0

  unfoldable pub run : MemoryStore C → List (Call C) → MemoryStore C
  run s [] = s
  run s (c ∷ cs) = run (step s c) cs
