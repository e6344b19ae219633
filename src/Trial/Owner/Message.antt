-- ===== src/Trial/Owner/Message.antt =====
-- The message that the key of a trial is the MAC of names one owner and one trial.
use conclution_ai_teacher.Prelude.Text.{Text}
use conclution_ai_teacher.Prelude.{◌≡◌, refl, true, false, List, [], ◌∷◌, ◌++◌, map, any_of, arith}
use conclution_ai_teacher.Trial.Owner.{Owner, valid_name, valid_owner, message, message_prefix}
use conclution_ai_teacher.Prelude.Text.{Rune, code, is_nul}

-- Before the first NUL and after it.
split_nul :
    (u v s t : List Rune)
    → any_of is_nul u ≡ false
    → any_of is_nul v ≡ false
    → (u ++ (code 0 ∷ s)) ≡ (v ++ (code 0 ∷ t))
    → (u ≡ v) × (s ≡ t)
split_nul [] [] s t a b e = (refl, cc e)
split_nul [] (y ∷ v) s t a b e = absurd (ground arith)
split_nul (x ∷ u) [] s t a b e = absurd (ground arith)
split_nul (x ∷ u) (y ∷ v) s t a b e = ground (arith, split_nul u v s t)

map_code : (s t : Text) → map code s ≡ map code t → s ≡ t
map_code [] [] e = refl
map_code [] (y ∷ t) e = cc e
map_code (x ∷ s) [] e = cc e
map_code (x ∷ s) (y ∷ t) e = ground (arith, map_code s t)

name_without_nul : (v : List Rune) → valid_name v ≡ true → any_of is_nul v ≡ false
unfolding valid_name
name_without_nul v h = ground arith

append-cancel : (xs a b : List Rune) → (xs ++ a) ≡ (xs ++ b) → a ≡ b
append-cancel [] a b e = e
append-cancel (x ∷ xs) a b e = append-cancel xs a b (cc e)

message_tail :
    (o o' : Owner) (id id' : Text)
    → message o id ≡ message o' id'
    → (o.uid ++ (code 0 ∷ o.app_id ++ (code 0 ∷ map code id)))
      ≡ (o'.uid ++ (code 0 ∷ o'.app_id ++ (code 0 ∷ map code id')))
unfolding message
message_tail o o' id id' e =
    append-cancel (map code message_prefix) (o.uid ++ (code 0 ∷ o.app_id ++ (code 0 ∷ map code id)))
      (o'.uid ++ (code 0 ∷ o'.app_id ++ (code 0 ∷ map code id'))) e

-- Two valid owners with two trial ids give the same message to the MAC only if the owners and the
-- ids are the same.
pub message-injective :
    (o o' : Owner) (id id' : Text)
    → valid_owner o ≡ true
    → valid_owner o' ≡ true
    → message o id ≡ message o' id'
    → (o ≡ o') × (id ≡ id')
unfolding valid_owner
message-injective o o' id id' v v' e =
    let (users, tails) =
      split_nul o.uid o'.uid (o.app_id ++ (code 0 ∷ map code id))
        (o'.app_id ++ (code 0 ∷ map code id')) (name_without_nul o.uid (ground arith))
        (name_without_nul o'.uid (ground arith)) (message_tail o o' id id' e) in
    let (apps, ids) =
      split_nul o.app_id o'.app_id (map code id) (map code id')
        (name_without_nul o.app_id (ground arith)) (name_without_nul o'.app_id (ground arith))
        tails in
    ((cc (users, apps)), map_code id id' ids)
