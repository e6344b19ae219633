-- ===== src/Guard/LiveLease/Holder.antt =====
-- Holders: 32 bytes print as 64 hexadecimal digits, and equality of holders is decided.
use conclution_ai_teacher.Prelude.Text.{AllBytes, length-encode, is_hex-encode}
use conclution_ai_teacher.Prelude.{ℕ, ◌<◌, ◌≡◌, some, List, arith, length, ok}
use conclution_ai_teacher.Prelude.Int.{ℤ}
use conclution_ai_teacher.Prelude.Clock.{Time}
use conclution_ai_teacher.Guard.LiveLease.{
  VoiceLiveLeaseState, validate_lease, new_voice_live_lease_state,
}

pub new-validates :
    (now : Time) (ttl : ℤ) (bytes : List ℕ) {s : VoiceLiveLeaseState}
    → AllBytes bytes
    → length bytes ≡ 32
    → new_voice_live_lease_state now ttl (some bytes) ≡ ok s
    → (validate_lease s ≡ ok tt) × (now < s.expires_at)
unfolding new_voice_live_lease_state validate_lease
new-validates now ttl bytes a l h = ground (arith, length-encode bytes, is_hex-encode bytes a)
