-- ===== src/Respondent/Stored.antt =====
-- internal/respondent/belief_state.go: the posterior as five `uint16` masses that sum to 10,000.
pub mod Quantize
use conclution_ai_teacher.Prelude.{
  ℕ, zero, suc, ◌+◌, ◌-◌, ◌%◌, Bool, ◌&&◌, Option, none, some, ltb, ◌==◌, if◌then◌else◌,
}
use conclution_ai_teacher.Respondent.Floats.{FloatOps, Five, five, map_five, zip_five}
use conclution_ai_teacher.Respondent.Posterior.{
  VerifierProgressPosterior, posterior_values, posterior_from_values, normalize_probability_values,
}

abbrev pub stored_version : ℕ
stored_version = 1

abbrev pub policy_version : ℕ
policy_version = 1

abbrev pub scale : ℕ
scale = 10_000

abbrev pub u16 : ℕ → ℕ
u16 n = n % 65536

pub record StoredVerifierProgress : Type 0 where
  pub version : ℕ
  pub policy : ℕ
  pub mass : Five ℕ

abbrev pub total_mass : Five ℕ → ℕ
total_mass m = m.at_0 + m.at_1 + m.at_2 + m.at_3 + m.at_4

-- `Valid`. The `uint32` total of five `uint16` does not wrap.
unfoldable pub is_valid : StoredVerifierProgress → Bool
is_valid s = s.version == stored_version && s.policy == policy_version && total_mass s.mass == scale

-- Array access at an index below 5.
abbrev get_five : {A : Type 0} → Five A → ℕ → A
get_five v zero = v.at_0
get_five v (suc zero) = v.at_1
get_five v (suc (suc zero)) = v.at_2
get_five v (suc (suc (suc zero))) = v.at_3
get_five v _ = v.at_4

abbrev set_five : {A : Type 0} → Five A → ℕ → A → Five A
set_five v zero x = record v { at_0 = x }
set_five v (suc zero) x = record v { at_1 = x }
set_five v (suc (suc zero)) x = record v { at_2 = x }
set_five v (suc (suc (suc zero))) x = record v { at_3 = x }
set_five v _ x = record v { at_4 = x }

-- The variables of the loop of `StoreVerifierProgress`.
record Quantized (F : Type 0) : Type 0 where
  masses : Five ℕ
  remainders : Five F
  assigned : ℕ

module _ {F : Type 0} (fl : FloatOps F) where
  open fl use {dec, sub, mul, div, neg, lt, floor_u16, of_u16}

  -- The method `Posterior`.
  unfoldable pub stored_posterior : StoredVerifierProgress → Option (VerifierProgressPosterior F)
  unfolding is_valid
  stored_posterior s =
      if is_valid s
      then some (posterior_from_values (map_five (λ m. div (of_u16 m) (of_u16 scale)) s.mass))
      else none

  -- One comparison of the search for the largest remainder.
  larger : Five F → ℕ → ℕ → ℕ
  larger remainders best index =
      if lt (get_five remainders best) (get_five remainders index) then index else best

  largest_remainder : Five F → ℕ
  unfolding larger
  largest_remainder r = larger r (larger r (larger r (larger r 0 1) 2) 3) 4

  -- One round of the loop that hands out what the rounding left.
  top_up_round : Quantized F → Quantized F
  top_up_round q =
      let best = largest_remainder q.remainders in
      record {
        masses = set_five q.masses best (u16 (get_five q.masses best + 1));
        remainders = set_five q.remainders best (neg (dec 1 0));
        assigned = u16 (q.assigned + 1);
      }

  -- The rounds left are bounded by the scale: each assigns one unit.
  top_up : ℕ → Quantized F → Quantized F
  top_up zero q = q
  top_up (suc fuel) q =
      let rest = top_up fuel (top_up_round q) in if ltb q.assigned scale then rest else q

  -- The state before the loop: the floors and what they leave.
  quantize : Five F → Quantized F
  quantize values =
      let scaled = map_five (λ p. mul p (of_u16 scale)) values in
      let base = map_five floor_u16 scaled in
      record {
        masses = base;
        remainders = zip_five (λ x b. sub x (of_u16 b)) scaled base;
        assigned =
            u16 (u16 (u16 (u16 (base.at_0 + base.at_1) + base.at_2) + base.at_3) + base.at_4);
      }

  pub store_verifier_progress : VerifierProgressPosterior F → StoredVerifierProgress
  unfolding quantize
  store_verifier_progress p =
      let (values, _) = normalize_probability_values fl (posterior_values p) in
      record {
        version = stored_version;
        policy = policy_version;
        mass = (top_up scale (quantize values)).masses;
      }
