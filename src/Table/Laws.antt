-- ===== src/Table/Laws.antt =====
-- Laws of the statements: what a later read of the table sees of a write.
use claw_msg.Prelude.{
  ◌+◌, ◌≡◌, refl, Bool, true, false, not, ◌&&◌, none, some, List, [], ◌∷◌, ◌++◌, arith, any, filter,
  if◌then◌else◌, Bool-cases, inl, inr, length, ◌≤◌,
}
use claw_msg.Table.{find_first, update_where, delete_where, count_where}

module _ {ℓ} {R : Type ℓ} where
  -- A row is found exactly if there is one.
  pub any-find_first :
      (p : R → Bool) (rs : List R)
      → any p rs ≡ (elim (find_first p rs) [ none ↦ false | some r ↦ true ])
  unfolding find_first any
  any-find_first p [] = refl
  any-find_first p (r ∷ rs) = ground (arith, any-find_first p rs)

  pub find_first_fits : (p : R → Bool) (rs : List R) {r : R} → find_first p rs ≡ some r → p r ≡ true
  unfolding find_first
  find_first_fits p [] h = cc
  find_first_fits p (r ∷ rs) {r = s} h = elim (Bool-cases (p r)) [
    | inl e ↦ ground arith
    | inr e ↦ ground (arith, find_first_fits p rs {r = s})
  ]

  -- An update that does not touch what `q` reads is not seen by it.
  pub any-update_where :
      (p q : R → Bool) (f : R → R) (rs : List R)
      → ((r : R) → q (f r) ≡ q r)
      → any q (update_where p f rs) ≡ any q rs
  unfolding update_where any
  any-update_where p q f [] h = refl
  any-update_where p q f (r ∷ rs) h = ground (arith, any-update_where p q f rs h, h r)

  pub any-delete_where :
      (p q : R → Bool) (rs : List R) → any q (delete_where p rs) ≡ any (λ r. q r && not (p r)) rs
  unfolding delete_where any filter
  any-delete_where p q [] = refl
  any-delete_where p q (r ∷ rs) = ground (arith, any-delete_where p q rs)

  pub any-filter : (p q : R → Bool) (rs : List R) → any q (filter p rs) ≡ any (λ r. q r && p r) rs
  unfolding any filter
  any-filter p q [] = refl
  any-filter p q (r ∷ rs) = ground (arith, any-filter p q rs)

  pub any_congr : (p q : R → Bool) (rs : List R) → ((r : R) → p r ≡ q r) → any p rs ≡ any q rs
  unfolding any
  any_congr p q [] h = refl
  any_congr p q (r ∷ rs) h = ground (arith, any_congr p q rs h, h r)

  pub any_implies :
      (p q : R → Bool) (rs : List R)
      → ((r : R) → p r ≡ true → q r ≡ true)
      → any p rs ≡ true
      → any q rs ≡ true
  unfolding any
  any_implies p q [] h a = a
  any_implies p q (r ∷ rs) h a = ground (arith, any_implies p q rs h, h r)

  pub any_none : (p : R → Bool) (rs : List R) → ((r : R) → p r ≡ false) → any p rs ≡ false
  unfolding any
  any_none p [] h = refl
  any_none p (r ∷ rs) h = ground (arith, any_none p rs h, h r)

  pub filter_congr :
      (p q : R → Bool) (rs : List R) → ((r : R) → p r ≡ q r) → filter p rs ≡ filter q rs
  unfolding filter
  filter_congr p q [] h = refl
  filter_congr p q (r ∷ rs) h = ground (arith, filter_congr p q rs h, h r)

  pub filter-filter :
      (p q : R → Bool) (rs : List R) → filter p (filter q rs) ≡ filter (λ r. p r && q r) rs
  unfolding filter
  filter-filter p q [] = refl
  filter-filter p q (r ∷ rs) = ground (arith, filter-filter p q rs)

  pub count_where-eq : (p : R → Bool) (rs : List R) → count_where p rs ≡ length (filter p rs)
  unfolding count_where filter
  count_where-eq p [] = refl
  count_where-eq p (r ∷ rs) = ground (arith, count_where-eq p rs)

  pub count_where-append :
      (p : R → Bool) (xs ys : List R)
      → count_where p (xs ++ ys) ≡ count_where p xs + count_where p ys
  unfolding count_where
  count_where-append p [] ys = omega arith
  count_where-append p (r ∷ xs) ys = ground (arith, count_where-append p xs ys)

  pub count_none : (p : R → Bool) (rs : List R) → any p rs ≡ false → count_where p rs ≡ 0
  unfolding count_where any
  count_none p [] h = omega arith
  count_none p (r ∷ rs) h = ground (arith, count_none p rs)

  pub count_where-update_where :
      (p q : R → Bool) (f : R → R) (rs : List R)
      → ((r : R) → q (f r) ≡ q r)
      → count_where q (update_where p f rs) ≡ count_where q rs
  unfolding count_where update_where
  count_where-update_where p q f [] h = omega arith
  count_where-update_where p q f (r ∷ rs) h =
      ground (arith, count_where-update_where p q f rs h, h r)

  pub count_where-delete_le :
      (p q : R → Bool) (rs : List R) → count_where p (delete_where q rs) ≤ count_where p rs
  unfolding count_where delete_where filter
  count_where-delete_le p q [] = omega arith
  count_where-delete_le p q (r ∷ rs) = ground (arith, count_where-delete_le p q rs)

  -- What a read of one row sees of an update that keeps what `q` reads.
  pub find_first-update_where :
      (p q : R → Bool) (f : R → R) (rs : List R)
      → ((r : R) → q (f r) ≡ q r)
      → find_first q (update_where p f rs)
        ≡ (elim (find_first q rs) [ none ↦ none | some r ↦ some (if p r then f r else r) ])
  unfolding find_first update_where
  find_first-update_where p q f [] h = refl
  find_first-update_where p q f (r ∷ rs) h = ground (arith, find_first-update_where p q f rs h, h r)

  pub find_first-append :
      (q : R → Bool) (xs ys : List R)
      → find_first q (xs ++ ys)
        ≡ (elim (find_first q xs) [ none ↦ find_first q ys | some r ↦ some r ])
  unfolding find_first
  find_first-append q [] ys = refl
  find_first-append q (r ∷ xs) ys = ground (arith, find_first-append q xs ys)

  pub find_first-delete_where :
      (p q : R → Bool) (rs : List R)
      → find_first q (delete_where p rs) ≡ find_first (λ r. q r && not (p r)) rs
  unfolding find_first delete_where filter
  find_first-delete_where p q [] = refl
  find_first-delete_where p q (r ∷ rs) = ground (arith, find_first-delete_where p q rs)

  find_first-delete_none :
      (p q : R → Bool) (rs : List R)
      → count_where q rs ≤ 0
      → find_first q (delete_where p rs) ≡ none
  unfolding find_first delete_where filter count_where
  find_first-delete_none p q [] h = refl
  find_first-delete_none p q (r ∷ rs) h = elim (Bool-cases (q r)) [
    | inl e ↦ absurd (ground arith)
    | inr e ↦ ground (arith, find_first-delete_none p q rs)
  ]

  -- A row that is the only one to fit is deleted or found as before.
  pub find_first-delete_only :
      (p q : R → Bool) (rs : List R)
      → count_where q rs ≤ 1
      → find_first q (delete_where p rs)
        ≡ (elim (find_first q rs) [ none ↦ none | some r ↦ if p r then none else some r ])
  unfolding find_first delete_where filter count_where
  find_first-delete_only p q [] h = refl
  find_first-delete_only p q (r ∷ rs) h = elim (Bool-cases (q r)) [
    | inl e ↦ ground (arith, find_first-delete_none p q rs)
    | inr e ↦ ground (arith, find_first-delete_only p q rs)
  ]

  pub find_first_congr :
      (p q : R → Bool) (rs : List R) → ((r : R) → p r ≡ q r) → find_first p rs ≡ find_first q rs
  unfolding find_first
  find_first_congr p q [] h = refl
  find_first_congr p q (r ∷ rs) h = ground (arith, find_first_congr p q rs h, h r)

  pub any_update_self :
      (p : R → Bool) (f : R → R) (rs : List R)
      → ((r : R) → p (f r) ≡ false)
      → any p (update_where p f rs) ≡ false
  unfolding any update_where
  any_update_self p f [] h = refl
  any_update_self p f (r ∷ rs) h = ground (arith, any_update_self p f rs h, h r)

  pub filter_none : (p : R → Bool) (rs : List R) → any p rs ≡ false → filter p rs ≡ []
  unfolding any filter
  filter_none p [] h = refl
  filter_none p (r ∷ rs) h = ground (arith, filter_none p rs)
