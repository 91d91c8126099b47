-- ===== src/Database/Names.antt =====
-- How many rows have a name, and the duplicate names (src/claw_msg/server/database.py).
use claw_msg.Prelude.{
  ◌≤◌, ◌≡◌, refl, sym, ◌∙◌, String, Bool, true, false, ◌⊎◌, inl, inr, Option, none, some, List, [],
  ◌∷◌, any, filter, nocase_eq, nocase_eq_iff, Bool-cases, arith,
}
use mathlib.Core.Bool.{false≢true}
use claw_msg.Schema.{AgentRow, agent_is}
use claw_msg.Table.{count_where, delete_where}
use claw_msg.Table.Laws.{any_congr}
use claw_msg.MessageValidation.{name_is}
use claw_msg.Database.{duplicate_names, is_doomed, is_kept}

-- `id` is a key.
abbrev pub HasKeys : List AgentRow → Type 0
HasKeys rows = (k : String) → count_where (agent_is k) rows ≤ 1

bool_eq : (a b : Bool) → (a ≡ true → b ≡ true) → (b ≡ true → a ≡ true) → a ≡ b
bool_eq true true f g = refl
bool_eq false false f g = refl
bool_eq true false f g = absurd (false≢true (f refl))
bool_eq false true f g = absurd (false≢true (g refl))

nocase_eq_comm : (a b : String) → nocase_eq a b ≡ nocase_eq b a
nocase_eq_comm a b =
    bool_eq _ _ (λ h. (nocase_eq_iff b a).1 (sym ((nocase_eq_iff a b).0 h)))
      (λ h. (nocase_eq_iff a b).1 (sym ((nocase_eq_iff b a).0 h)))

same_name : (a b c : String) → nocase_eq a b ≡ true → nocase_eq a c ≡ nocase_eq b c
same_name a b c h =
    let e = (nocase_eq_iff a b).0 h in
    bool_eq _ _ (λ k. (nocase_eq_iff b c).1 (sym e ∙ (nocase_eq_iff a c).0 k))
      (λ k. (nocase_eq_iff a c).1 (e ∙ (nocase_eq_iff b c).0 k))

pub count_left :
    (n : String) (k : Option String) (rows : List AgentRow)
    → count_where (name_is n) (delete_where (is_doomed n k) rows) ≤ count_where (is_kept k) rows
unfolding count_where delete_where filter
count_left n k [] = omega arith
count_left n k (r ∷ rows) = ground (arith, count_left n k rows)

count_none : (rows : List AgentRow) → count_where (is_kept none) rows ≡ 0
unfolding count_where
count_none [] = refl
count_none (r ∷ rows) = count_none rows

pub kept_once :
    (k : Option String) (rows : List AgentRow) → HasKeys rows → count_where (is_kept k) rows ≤ 1
kept_once none rows h = omega (arith, count_none rows)
kept_once (some k) rows h = h k

count_zero :
    (p : AgentRow → Bool) (rows : List AgentRow) → any p rows ≡ false → count_where p rows ≡ 0
unfolding count_where any
count_zero p [] h = refl
count_zero p (r ∷ rows) h = ground (arith, count_zero p rows)

-- A name that is not seen is of one row at most, or one of the duplicates.
pub in_duplicates :
    (n : String) (seen : List String) (rows : List AgentRow)
    → any (nocase_eq n) seen ≡ false
    → (count_where (name_is n) rows ≤ 1) ⊎ (any (nocase_eq n) (duplicate_names seen rows) ≡ true)
unfolding count_where duplicate_names any
in_duplicates n seen [] h = inl (omega arith)
in_duplicates n seen (r ∷ rows) h = elim (Bool-cases (name_is n r)) [
  | inr e ↦ elim (in_duplicates n (r.name ∷ seen) rows (rw (nocase_eq_comm n r.name, e) h)) [
    | inl c ↦ inl (rw e c)
    | inr d ↦ inr (ground arith)
  ]
  | inl e ↦ elim (Bool-cases (any (name_is n) rows)) [
    | inr z ↦ inl (rw e (omega (arith, count_zero (name_is n) rows z)))
    | inl y ↦
        let unseen : any (nocase_eq r.name) seen ≡ false =
          any_congr (nocase_eq r.name) (nocase_eq n) seen (λ m. same_name r.name n m e) ∙ h in
        let twice : any (name_is r.name) rows ≡ true =
          any_congr (name_is r.name) (name_is n) rows (λ s.
            nocase_eq_comm s.name r.name ∙ same_name r.name n s.name e ∙ nocase_eq_comm n s.name)
          ∙ y in
        inr (rw (unseen, twice, nocase_eq_comm n r.name, e) refl)
  ]
]

count_congr :
    (p q : AgentRow → Bool) (rows : List AgentRow)
    → ((r : AgentRow) → p r ≡ q r)
    → count_where p rows ≡ count_where q rows
unfolding count_where
count_congr p q [] h = refl
count_congr p q (r ∷ rows) h = ground (arith, count_congr p q rows h, h r)

pub count_same :
    (n m : String) (rows : List AgentRow)
    → nocase_eq n m ≡ true
    → count_where (name_is n) rows ≡ count_where (name_is m) rows
count_same n m rows h =
    count_congr (name_is n) (name_is m) rows
      (λ r. nocase_eq_comm r.name n ∙ same_name n m r.name h ∙ nocase_eq_comm m r.name)
