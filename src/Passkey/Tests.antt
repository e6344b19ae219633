-- ===== src/Passkey/Tests.antt =====
-- Runs of internal/passkey.
use conclution_ai_teacher.Prelude.{
  Result, Option, arith, true, false, ℕ, ◌+◌, ◌*◌, ◌≡◌, refl, List, [], ◌∷◌, ◌++◌, some, take,
  replicate, ok, err,
}
use conclution_ai_teacher.Prelude.Int.{pos}
use conclution_ai_teacher.Prelude.Clock.{Time, epoch, unix, second, day}
use conclution_ai_teacher.Prelude.Text.{Text, Rune, code, text_eq, string_eq, is_space, trim_space}
use conclution_ai_teacher.Passkey.Store.{
  ceremony_matches, StoreError, User, Digests, credential_reference,
  credential_reference_for_raw_id, parse_credential_reference, new_credential_summary,
  reference_list, credential_references, validate_credential_creation, validate_credential_update,
}
use conclution_ai_teacher.Passkey.Memory.{
  MemoryStore, new_memory_store, account_key, validate_indexed, validate_all,
  validate_credential_state, owned_user, replace_checked, replace_recovery_code, code_in_force,
}
use conclution_ai_teacher.Passkey.Accounts.{
  find_credential, consume_ceremony, put_ceremony, joined_user, create_locked, create_credential,
  recover_locked, create_recovery_credential, replace_at, update_locked, update_found,
  update_credential,
}
use conclution_ai_teacher.Passkey.Calls.{creates, revokes, deletes, run}
use conclution_ai_teacher.Passkey.Service.{
  ServiceError, Library, blank, trimmed_id, mint, begin_authentication, check_login,
  finish_authentication,
}
use conclution_ai_teacher.Passkey.Service.Recovery.{
  without_prefix, recovery_code_digest, new_recovery_code, issue_recovery_code,
}
use conclution_ai_teacher.Passkey.Service.Recovery.Issue.{LeadsBack, issue-LeadsBack}
use conclution_ai_teacher.Passkey.Service.Login.{LoggedIn, finish_authentication-LoggedIn}
use conclution_ai_teacher.Passkey.Service.Once.{finish, logs_in, registers, finish-once}
use conclution_ai_teacher.Passkey.Calls.Bounded.{AllBounded, run-AllBounded}
use conclution_ai_teacher.Passkey.Calls.Recovery.{Spent, recover-Spent}
use conclution_ai_teacher.Passkey.Calls.Versions.{update-once}

-- A digest of 32 numbers and an encoding of 43, for the tests.
abbrev digests : Digests
digests = record {
  sha256 = λ raw. take 32 (raw ++ replicate 32 0);
  encode = λ bytes. bytes ++ replicate 11 0;
  decode = λ text. some (take 32 text);
}

abbrev credential_id : List ℕ → List ℕ
credential_id c = c

abbrev account : User (List ℕ)
account = record { uid = code b'u' ∷ []; user_handle = 9 ∷ []; credentials = [] }

abbrev registered_at : Time
registered_at = 1_000 * second

abbrev empty_store : MemoryStore (List ℕ)
empty_store = new_memory_store digests (List ℕ) credential_id

abbrev created_store : MemoryStore (List ℕ)
created_store =
    (create_credential digests (List ℕ) credential_id empty_store account (7 ∷ []) registered_at).0

abbrev secret : List ℕ
secret = 5 ∷ replicate 31 1

abbrev coded_store : MemoryStore (List ℕ)
coded_store =
    (replace_recovery_code digests (List ℕ) credential_id created_store (code b'u' ∷ []) secret
      (registered_at + day) registered_at).0

created_test :
    (create_credential digests (List ℕ) credential_id empty_store account (7 ∷ []) registered_at).1
    ≡ ok tt
unfolding credential_reference credential_reference_for_raw_id parse_credential_reference
    new_credential_summary reference_list credential_references validate_credential_creation
    validate_credential_update new_memory_store account_key validate_indexed validate_all
    validate_credential_state owned_user replace_checked replace_recovery_code code_in_force
    joined_user create_locked create_credential recover_locked create_recovery_credential replace_at
    update_locked update_found update_credential text_eq string_eq is_space trim_space
created_test = refl

updated_test :
    (update_credential digests
      (List ℕ)
      credential_id
      created_store
      (7 ∷ [])
      (pos 1)
      (7 ∷ [])
      (registered_at + second)).1
    ≡ ok tt
unfolding credential_reference credential_reference_for_raw_id parse_credential_reference
    new_credential_summary reference_list credential_references validate_credential_creation
    validate_credential_update new_memory_store account_key validate_indexed validate_all
    validate_credential_state owned_user replace_checked replace_recovery_code code_in_force
    joined_user create_locked create_credential recover_locked create_recovery_credential replace_at
    update_locked update_found update_credential text_eq string_eq is_space trim_space
updated_test = refl

coded_test :
    (replace_recovery_code digests
      (List ℕ)
      credential_id
      created_store
      (code b'u' ∷ [])
      secret
      (registered_at + day)
      registered_at).1
    ≡ ok tt
unfolding credential_reference credential_reference_for_raw_id parse_credential_reference
    new_credential_summary reference_list credential_references validate_credential_creation
    validate_credential_update new_memory_store account_key validate_indexed validate_all
    validate_credential_state owned_user replace_checked replace_recovery_code code_in_force
    joined_user create_locked create_credential recover_locked create_recovery_credential replace_at
    update_locked update_found update_credential text_eq string_eq is_space trim_space
coded_test = refl

recovered_test :
    (create_recovery_credential digests
      (List ℕ)
      credential_id
      coded_store
      account
      (8 ∷ [])
      secret
      (registered_at + second)).1
    ≡ ok tt
unfolding credential_reference credential_reference_for_raw_id parse_credential_reference
    new_credential_summary reference_list credential_references validate_credential_creation
    validate_credential_update new_memory_store account_key validate_indexed validate_all
    validate_credential_state owned_user replace_checked replace_recovery_code code_in_force
    joined_user create_locked create_credential recover_locked create_recovery_credential replace_at
    update_locked update_found update_credential text_eq string_eq is_space trim_space
recovered_test = refl

run-AllBounded_example :
    AllBounded digests
      (List ℕ)
      credential_id
      (run digests (List ℕ) credential_id empty_store (
        creates account (7 ∷ []) registered_at
        ∷ revokes (code b'u' ∷ []) (7 ∷ []) registered_at
        ∷ [])).users
run-AllBounded_example =
    run-AllBounded digests (List ℕ) credential_id (
      creates account (7 ∷ []) registered_at ∷ revokes (code b'u' ∷ []) (7 ∷ []) registered_at ∷ [])

update-once_example :
    (e : StoreError) × (update_credential digests
        (List ℕ)
        credential_id
        (run digests
          (List ℕ)
          credential_id
          (update_credential digests
            (List ℕ)
            credential_id
            created_store
            (7 ∷ [])
            (pos 1)
            (7 ∷ [])
            (registered_at + second)).0
          (deletes (code b'v' ∷ []) registered_at ∷ []))
        (7 ∷ [])
        (pos 1)
        (7 ∷ [])
        (registered_at + second)
      ≡ (
        run digests
            (List ℕ)
            credential_id
            (update_credential digests
              (List ℕ)
              credential_id
              created_store
              (7 ∷ [])
              (pos 1)
              (7 ∷ [])
              (registered_at + second)).0
            (deletes (code b'v' ∷ []) registered_at ∷ []),
        err e,
      ))
update-once_example =
    update-once digests (List ℕ) credential_id created_store (7 ∷ []) (pos 1) (7 ∷ []) (7 ∷ [])
      (registered_at + second) (registered_at + second)
      (deletes (code b'v' ∷ []) registered_at ∷ []) updated_test (tt, tt)

recover-Spent_example :
    Spent digests
      (List ℕ)
      credential_id
      (run digests
        (List ℕ)
        credential_id
        (create_recovery_credential digests
          (List ℕ)
          credential_id
          coded_store
          account
          (8 ∷ [])
          secret
          (registered_at + second)).0
        (revokes (code b'u' ∷ []) (7 ∷ []) registered_at ∷ []))
      secret
recover-Spent_example =
    recover-Spent digests (List ℕ) credential_id coded_store account (8 ∷ []) secret
      (registered_at + second) (revokes (code b'u' ∷ []) (7 ∷ []) registered_at ∷ []) recovered_test
      (tt, tt)

-- Logins.
abbrev library : Library (List ℕ)
library = record {
  begin_registration = λ user expires_at. some [];
  begin_login = λ expires_at. some [];
  session_user = λ session. some [];
  finish_registration = λ user session request. some (8 ∷ []);
  presented = λ session request. some (7 ∷ [], 9 ∷ []);
  finish_login = λ user session request. some (7 ∷ []);
  user_verified = λ c. true;
  clone_warning = λ c. false;
  mint_custom_token = λ uid at. some (1 ∷ []);
}

abbrev login_at : Time
login_at = (epoch + 1_000) * second

abbrev app : List Rune
app = code b'a' ∷ []

abbrev ceremony : List Rune
ceremony = code b'A' ∷ code b'B' ∷ replicate 11 (code 0)

abbrev login_store : MemoryStore (List ℕ)
login_store =
    (begin_authentication digests (List ℕ) credential_id library created_store app
      (some (b'A' ∷ b'B' ∷ [])) login_at).0

logged_in_test :
    (finish_authentication digests
      (List ℕ)
      credential_id
      library
      login_store
      app
      ceremony
      []
      (login_at + second)
      (login_at + second)).1
    ≡ ok (1 ∷ [])
unfolding credential_reference credential_reference_for_raw_id parse_credential_reference
    new_credential_summary reference_list credential_references validate_credential_creation
    validate_credential_update new_memory_store account_key validate_indexed validate_all
    validate_credential_state owned_user joined_user create_locked create_credential replace_at
    update_locked update_found update_credential text_eq string_eq is_space trim_space put_ceremony
    consume_ceremony ceremony_matches find_credential blank trimmed_id mint begin_authentication
    check_login finish_authentication unix
logged_in_test = refl

app_test : blank app ≡ false
unfolding blank trim_space is_space
app_test = refl

finish_authentication-LoggedIn_example :
    LoggedIn digests
      (List ℕ)
      credential_id
      library
      login_store
      (finish_authentication digests
        (List ℕ)
        credential_id
        library
        login_store
        app
        ceremony
        []
        (login_at + second)
        (login_at + second)).0
      app
      ceremony
      []
      (login_at + second)
      (login_at + second)
      (1 ∷ [])
finish_authentication-LoggedIn_example =
    finish_authentication-LoggedIn digests (List ℕ) credential_id library login_store app ceremony
      [] (login_at + second) (login_at + second) (1 ∷ []) logged_in_test

finish-once_example :
    (e : ServiceError) × ((finish digests
        (List ℕ)
        credential_id
        library
        registers
        (run digests
          (List ℕ)
          credential_id
          (finish digests
            (List ℕ)
            credential_id
            library
            logs_in
            login_store
            app
            ceremony
            []
            (login_at + second)
            (login_at + second)).0
          (revokes (code b'u' ∷ []) (7 ∷ []) login_at ∷ []))
        app
        ceremony
        []
        (login_at + second)
        (login_at + second)).1
      ≡ err e)
finish-once_example =
    finish-once digests (List ℕ) credential_id library logs_in registers login_store app app
      ceremony [] [] (login_at + second) (login_at + second) (login_at + second) (login_at + second)
      (revokes (code b'u' ∷ []) (7 ∷ []) login_at ∷ []) app_test (tt, tt)

-- Recovery codes.
abbrev code_of : Result StoreError Text → Text
code_of (ok recovery_text) = recovery_text
code_of (err _) = []

abbrev material : Option (List ℕ)
material = some (6 ∷ replicate 31 2)

abbrev issued_text : Text
issued_text =
    code_of
      (issue_recovery_code digests (List ℕ) credential_id created_store (code b'u' ∷ []) material
        registered_at).1

issued_test :
    (issue_recovery_code digests
      (List ℕ)
      credential_id
      created_store
      (code b'u' ∷ [])
      material
      registered_at).1
    ≡ ok issued_text
unfolding credential_reference credential_reference_for_raw_id parse_credential_reference
    new_credential_summary reference_list credential_references validate_credential_creation
    new_memory_store account_key validate_indexed validate_all validate_credential_state owned_user
    replace_checked replace_recovery_code joined_user create_locked create_credential text_eq
    string_eq is_space trim_space blank without_prefix recovery_code_digest new_recovery_code
    issue_recovery_code
issued_test = refl

issue-LeadsBack_example :
    LeadsBack digests
      (List ℕ)
      credential_id
      created_store
      (issue_recovery_code digests
        (List ℕ)
        credential_id
        created_store
        (code b'u' ∷ [])
        material
        registered_at).0
      (trim_space (code b'u' ∷ []))
      issued_text
      (registered_at + day)
issue-LeadsBack_example =
    issue-LeadsBack digests (List ℕ) credential_id created_store (code b'u' ∷ []) material
      registered_at (registered_at + day) issued_text issued_test (omega arith) (omega arith)
