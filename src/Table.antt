-- ===== src/Table.antt =====
-- The statements of SQL that the code runs on a table, a list of rows in the order of insertion.
pub mod Laws
pub mod Order
use claw_msg.Prelude.{
  ℕ, suc, Bool, not, Option, none, some, List, [], ◌∷◌, leb, filter, if◌then◌else◌,
}

module _ {ℓ} {R : Type ℓ} where
  -- `SELECT … WHERE p` and `fetchone()`
  unfoldable pub find_first : (R → Bool) → List R → Option R
  find_first p [] = none
  find_first p (r ∷ rs) = if p r then some r else find_first p rs

  -- `UPDATE … SET f WHERE p`
  unfoldable pub update_where : (R → Bool) → (R → R) → List R → List R
  update_where p f [] = []
  update_where p f (r ∷ rs) = (if p r then f r else r) ∷ update_where p f rs

  -- `DELETE … WHERE p`
  unfoldable pub delete_where : (R → Bool) → List R → List R
  delete_where p rs = filter (λ r. not (p r)) rs

  -- `SELECT COUNT(*) … WHERE p`, and the `rowcount` of an `UPDATE` or a `DELETE`
  unfoldable pub count_where : (R → Bool) → List R → ℕ
  count_where p [] = 0
  count_where p (r ∷ rs) = let n = count_where p rs in if p r then suc n else n

  -- `ORDER BY key`; rows with one key stay in their order.
  unfoldable pub insert_by : (R → ℕ) → R → List R → List R
  insert_by key x [] = x ∷ []
  insert_by key x (r ∷ rs) = if leb (key x) (key r) then x ∷ r ∷ rs else r ∷ insert_by key x rs

  unfoldable pub order_by : (R → ℕ) → List R → List R
  order_by key [] = []
  order_by key (r ∷ rs) = insert_by key r (order_by key rs)

  -- `ORDER BY key DESC`
  unfoldable pub insert_desc : (R → ℕ) → R → List R → List R
  insert_desc key x [] = x ∷ []
  insert_desc key x (r ∷ rs) = if leb (key r) (key x) then x ∷ r ∷ rs else r ∷ insert_desc key x rs

  unfoldable pub order_desc : (R → ℕ) → List R → List R
  order_desc key [] = []
  order_desc key (r ∷ rs) = insert_desc key r (order_desc key rs)
