-- ===== src/Initiative/Authority.antt =====
-- internal/initiativescheduler/publication_authority.go: the single right to be heard.
pub mod Once
use conclution_ai_teacher.Prelude.{
  ℕ, Bool, true, false, not, ◌&&◌, ◌||◌, if◌then◌else◌, Option, none, some, ◌==◌, Result, ok, err,
}
use conclution_ai_teacher.Prelude.Int.{ℤ, pos, ◌+ℤ◌, ◌-ℤ◌, ltb_ℤ, leb_ℤ, eqb_ℤ}
use conclution_ai_teacher.Initiative.Scheduler.{
  Action, InitiativeError, publication_rejected, Lease, valid_action, same_action,
}

abbrev maximum_publication_lease_ms : ℤ
maximum_publication_lease_ms = pos 30000

-- int64(^uint64(0) >> 1)
abbrev max_int64 : ℤ
max_int64 = pos 9223372036854775807

pub record PublicationAuthority : Type 0 where
  pub capability : ℕ
  pub prepared : Option Lease
  pub committed : Bool
  pub aborted : Bool

unfoldable pub new_publication_authority : ℕ → Result InitiativeError PublicationAuthority
new_publication_authority capability =
    if capability == 0
    then err publication_rejected
    else ok
        (record { capability = capability; prepared = none; committed = false; aborted = false })

-- The generations and the action that a call of `Prepare` or `Commit` names.
pub record Turn : Type 0 where
  pub user : ℕ
  pub goal : ℕ
  pub turn : ℕ
  pub action : Action

unfoldable pub malformed_turn : Turn → Bool
malformed_turn t = t.user == 0 || t.goal == 0 || t.turn == 0 || not (valid_action t.action)

abbrev is_some : Option Lease → Bool
is_some none = false
is_some (some _) = true

unfoldable pub new_lease : ℕ → Turn → ℤ → Lease
new_lease capability t expires = record {
  session_capability = capability;
  user_generation = t.user;
  goal_generation = t.goal;
  turn_generation = t.turn;
  action = t.action;
  expires_ms = expires;
}

-- `Prepare`: the authority after the call, and what it returns.
unfoldable pub prepare_lease :
    PublicationAuthority → ℤ → ℤ → Turn → PublicationAuthority × Result InitiativeError Lease
unfolding malformed_turn new_lease
prepare_lease a now_ms lifetime_ms t =
    if ltb_ℤ now_ms (pos 0)
      || leb_ℤ lifetime_ms (pos 0)
      || ltb_ℤ maximum_publication_lease_ms lifetime_ms
      || ltb_ℤ (max_int64 -ℤ lifetime_ms) now_ms
      || malformed_turn t
    then (a, err publication_rejected)
    else if a.aborted || a.committed || is_some a.prepared
    then (a, err publication_rejected)
    else (
      record a { prepared = some (new_lease a.capability t (now_ms +ℤ lifetime_ms)) },
      ok (new_lease a.capability t (now_ms +ℤ lifetime_ms)),
    )

-- lease == *authority.prepared
unfoldable pub same_lease : Lease → Lease → Bool
same_lease l m =
    l.session_capability == m.session_capability
    && l.user_generation == m.user_generation
    && l.goal_generation == m.goal_generation
    && l.turn_generation == m.turn_generation
    && same_action l.action m.action
    && eqb_ℤ l.expires_ms m.expires_ms

-- The lease is the one that was prepared, for this turn, and has not expired.
unfoldable pub honours : PublicationAuthority → Option Lease → ℤ → Lease → Turn → Bool
honours a none now_ms l t = false
honours a (some prepared) now_ms l t =
    same_lease l prepared
    && l.session_capability == a.capability
    && l.user_generation == t.user
    && l.goal_generation == t.goal
    && l.turn_generation == t.turn
    && same_action l.action t.action
    && leb_ℤ now_ms l.expires_ms

-- `Commit`: the authority after the call, and the error.
unfoldable pub commit :
    PublicationAuthority → ℤ → Lease → Turn → PublicationAuthority × Option InitiativeError
unfolding malformed_turn same_lease honours
commit a now_ms l t =
    if ltb_ℤ now_ms (pos 0) || malformed_turn t
    then (a, some publication_rejected)
    else if a.aborted || a.committed || not (honours a a.prepared now_ms l t)
    then (a, some publication_rejected)
    else (record a { committed = true; prepared = none }, none)

unfoldable pub abort : PublicationAuthority → PublicationAuthority
abort a = record a { aborted = true; prepared = none }
