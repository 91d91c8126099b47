-- ===== src/Table/Order.antt =====
-- `order_by` sorts, and keeps the rows.
use claw_msg.Prelude.{
  zero, suc, length, take, All, ℕ, ◌≤◌, ◌≡◌, refl, Bool, ◌||◌, List, [], ◌∷◌, arith, any, leb,
  Bool-cases, inl, inr,
}
use claw_msg.Table.{insert_by, order_by, insert_desc, order_desc}

module _ {ℓ} {R : Type ℓ} (key : R → ℕ) where
  abbrev pub IsBelow : R → List R → Type 0
  IsBelow x [] = Unit
  IsBelow x (r ∷ rs) = key x ≤ key r

  -- Each key is at most the next.
  abbrev pub IsSorted : List R → Type 0
  IsSorted [] = Unit
  IsSorted (r ∷ rs) = IsBelow r rs × IsSorted rs

  insert_by-IsBelow :
      (x r : R) (rs : List R) → key r ≤ key x → IsBelow r rs → IsBelow r (insert_by key x rs)
  unfolding insert_by
  insert_by-IsBelow x r [] h b = h
  insert_by-IsBelow x r (s ∷ rs) h b = ground arith

  insert_by-IsSorted : (x : R) (rs : List R) → IsSorted rs → IsSorted (insert_by key x rs)
  unfolding insert_by
  insert_by-IsSorted x [] s = (tt, tt)
  insert_by-IsSorted x (r ∷ rs) s = elim (Bool-cases (leb (key x) (key r))) [
    | inl e ↦ rw e (ground arith, s)
    | inr e ↦ rw e (insert_by-IsBelow x r rs (ground arith) s.0, insert_by-IsSorted x rs s.1)
  ]

  pub order_by-IsSorted : (rs : List R) → IsSorted (order_by key rs)
  unfolding order_by
  order_by-IsSorted [] = tt
  order_by-IsSorted (r ∷ rs) = insert_by-IsSorted r (order_by key rs) (order_by-IsSorted rs)

  any-insert_by :
      (p : R → Bool) (x : R) (rs : List R) → any p (insert_by key x rs) ≡ (p x || any p rs)
  unfolding insert_by any
  any-insert_by p x [] = refl
  any-insert_by p x (r ∷ rs) = ground (arith, any-insert_by p x rs)

  pub any-order_by : (p : R → Bool) (rs : List R) → any p (order_by key rs) ≡ any p rs
  unfolding order_by any
  any-order_by p [] = refl
  any-order_by p (r ∷ rs) = ground (arith, any-insert_by p r (order_by key rs), any-order_by p rs)

  abbrev pub IsAbove : R → List R → Type 0
  IsAbove x [] = Unit
  IsAbove x (r ∷ rs) = key r ≤ key x

  -- Each key is at least the next.
  abbrev pub IsDescending : List R → Type 0
  IsDescending [] = Unit
  IsDescending (r ∷ rs) = IsAbove r rs × IsDescending rs

  insert_desc-IsAbove :
      (x r : R) (rs : List R) → key x ≤ key r → IsAbove r rs → IsAbove r (insert_desc key x rs)
  unfolding insert_desc
  insert_desc-IsAbove x r [] h b = h
  insert_desc-IsAbove x r (s ∷ rs) h b = ground arith

  insert_desc-IsDescending :
      (x : R) (rs : List R) → IsDescending rs → IsDescending (insert_desc key x rs)
  unfolding insert_desc
  insert_desc-IsDescending x [] s = (tt, tt)
  insert_desc-IsDescending x (r ∷ rs) s = elim (Bool-cases (leb (key r) (key x))) [
    | inl e ↦ rw e (ground arith, s)
    | inr e ↦
        rw e (insert_desc-IsAbove x r rs (ground arith) s.0, insert_desc-IsDescending x rs s.1)
  ]

  pub order_desc-IsDescending : (rs : List R) → IsDescending (order_desc key rs)
  unfolding order_desc
  order_desc-IsDescending [] = tt
  order_desc-IsDescending (r ∷ rs) =
      insert_desc-IsDescending r (order_desc key rs) (order_desc-IsDescending rs)

  pub take-IsDescending : (n : ℕ) (rs : List R) → IsDescending rs → IsDescending (take n rs)
  take-IsDescending zero rs s = tt
  take-IsDescending (suc n) [] s = tt
  take-IsDescending (suc zero) (r ∷ rs) s = (tt, tt)
  take-IsDescending (suc (suc n)) (r ∷ []) s = (tt, tt)
  take-IsDescending (suc (suc n)) (r ∷ q ∷ rs) s = (s.0, take-IsDescending (suc n) (q ∷ rs) s.1)

  any-insert_desc :
      (p : R → Bool) (x : R) (rs : List R) → any p (insert_desc key x rs) ≡ (p x || any p rs)
  unfolding insert_desc any
  any-insert_desc p x [] = refl
  any-insert_desc p x (r ∷ rs) = ground (arith, any-insert_desc p x rs)

  pub any-order_desc : (p : R → Bool) (rs : List R) → any p (order_desc key rs) ≡ any p rs
  unfolding order_desc any
  any-order_desc p [] = refl
  any-order_desc p (r ∷ rs) =
      ground (arith, any-insert_desc p r (order_desc key rs), any-order_desc p rs)

  length-insert_desc : (x : R) (rs : List R) → length (insert_desc key x rs) ≡ suc (length rs)
  unfolding insert_desc
  length-insert_desc x [] = refl
  length-insert_desc x (r ∷ rs) = ground (arith, length-insert_desc x rs)

  pub length-order_desc : (rs : List R) → length (order_desc key rs) ≡ length rs
  unfolding order_desc
  length-order_desc [] = refl
  length-order_desc (r ∷ rs) =
      omega (arith, length-insert_desc r (order_desc key rs), length-order_desc rs)

  All-insert_desc :
      (P : R → Type 0) (x : R) (rs : List R) → P x → All P rs → All P (insert_desc key x rs)
  unfolding insert_desc
  All-insert_desc P x [] h a = (h, tt)
  All-insert_desc P x (r ∷ rs) h a = elim (Bool-cases (leb (key r) (key x))) [
    | inl e ↦ rw e (h, a)
    | inr e ↦ rw e (a.0, All-insert_desc P x rs h a.1)
  ]

  pub All-order_desc : (P : R → Type 0) (rs : List R) → All P rs → All P (order_desc key rs)
  unfolding order_desc
  All-order_desc P [] a = tt
  All-order_desc P (r ∷ rs) a =
      All-insert_desc P r (order_desc key rs) a.0 (All-order_desc P rs a.1)
