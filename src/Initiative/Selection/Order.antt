-- ===== src/Initiative/Selection/Order.antt =====
-- The order of the options: what a strict order has, key by key.
use conclution_ai_teacher.Prelude.{ℕ, ◌≡◌, Bool, true, false, arith}
use conclution_ai_teacher.Prelude.{◌&&◌, ◌||◌, not, if◌then◌else◌, ltb}
use conclution_ai_teacher.Prelude.Int.{ℤ, ltb_ℤ, eqb_ℤ}
use conclution_ai_teacher.Initiative.Selection.{
  Proposal, on_time, better, worthier, quicker, named_before, name_order,
}

ltb_trans : (a b c : ℕ) → ltb a b ≡ true → ltb b c ≡ true → ltb a c ≡ true
ltb_trans a b c h k = ground arith

-- A key that decides, and the keys after it.
lex_trans :
    (a b c : ℤ) (p q s : Bool)
    → (p ≡ true → q ≡ true → s ≡ true)
    → (ltb_ℤ a b || (eqb_ℤ a b && p)) ≡ true
    → (ltb_ℤ b c || (eqb_ℤ b c && q)) ≡ true
    → (ltb_ℤ a c || (eqb_ℤ a c && s)) ≡ true
lex_trans a b c p q s f h k = ground arith

quicker_trans : (x y z : Proposal) → quicker x y ≡ true → quicker y z ≡ true → quicker x z ≡ true
unfolding quicker
quicker_trans x y z =
    lex_trans x.estimated_delivery_ms y.estimated_delivery_ms z.estimated_delivery_ms
      (named_before x.action y.action) (named_before y.action z.action)
      (named_before x.action z.action)
      (ltb_trans (name_order x.action) (name_order y.action) (name_order z.action))

-- The utilities are compared the other way round.
lex_rev_trans :
    (a b c : ℤ) (p q s : Bool)
    → (p ≡ true → q ≡ true → s ≡ true)
    → (ltb_ℤ b a || (eqb_ℤ a b && p)) ≡ true
    → (ltb_ℤ c b || (eqb_ℤ b c && q)) ≡ true
    → (ltb_ℤ c a || (eqb_ℤ a c && s)) ≡ true
lex_rev_trans a b c p q s f h k = ground arith

worthier_trans :
    (x y z : Proposal) → worthier x y ≡ true → worthier y z ≡ true → worthier x z ≡ true
unfolding worthier
worthier_trans x y z =
    lex_rev_trans x.utility_lower_bound_bps y.utility_lower_bound_bps z.utility_lower_bound_bps
      (quicker x y) (quicker y z) (quicker x z) (quicker_trans x y z)

late_trans :
    (a b c p q s : Bool)
    → (p ≡ true → q ≡ true → s ≡ true)
    → ((a && not b) || ((if a then b else not b) && p)) ≡ true
    → ((b && not c) || ((if b then c else not c) && q)) ≡ true
    → ((a && not c) || ((if a then c else not c) && s)) ≡ true
late_trans a b c p q s f h k = ground arith

pub better_trans :
    (r : ℤ) (x y z : Proposal) → better r x y ≡ true → better r y z ≡ true → better r x z ≡ true
unfolding better
better_trans r x y z =
    late_trans (on_time r x) (on_time r y) (on_time r z) (worthier x y) (worthier y z)
      (worthier x z) (worthier_trans x y z)

quicker_irrefl : (x : Proposal) → quicker x x ≡ false
unfolding quicker
quicker_irrefl x = ground arith

worthier_irrefl : (x : Proposal) → worthier x x ≡ false
unfolding worthier
worthier_irrefl x = ground (arith, quicker_irrefl x)

pub better_irrefl : (r : ℤ) (x : Proposal) → better r x x ≡ false
unfolding better
better_irrefl r x = ground (arith, worthier_irrefl x)
