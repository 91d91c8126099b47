-- ===== src/Database/Columns.antt =====
-- The columns that `init_db` adds to an old database (src/claw_msg/server/database.py). A database
-- is here the columns of each of its tables.
use claw_msg.Prelude.{
  ◌≡◌, refl, sym, ap, ◌∙◌, String, Bool, true, false, ◌||◌, ◌&&◌, eq_iff, Option, none, some, List,
  [], ◌∷◌, ◌++◌, ◌==◌, any, any-append, if◌then◌else◌, Bool-cases, inl, inr, arith,
}
use claw_msg.Prelude.Dict.{Dict, get, put, get-put}

abbrev pub Catalogue : Type 0
Catalogue = Dict (List String)

abbrev columns_or_none : Option (List String) → List String
columns_or_none none = []
columns_or_none (some cs) = cs

-- `PRAGMA table_info`; of a table that is not there it answers nothing.
unfoldable pub table_columns : Catalogue → String → List String
table_columns db table = columns_or_none (get db table)

abbrev pub has_column : String → List String → Bool
has_column column columns = any (λ c. c == column) columns

unfoldable pub ensure_column : String → String → Catalogue → Catalogue
ensure_column table column db =
    if has_column column (table_columns db table)
    then db
    else put db table (table_columns db table ++ (column ∷ []))

-- The calls of `init_db`, in order.
unfoldable pub ensure_columns : Catalogue → Catalogue
ensure_columns db = ensure_column "contacts" "met_via" (
    ensure_column "contacts" "notes" (
      ensure_column "contacts" "tags" (
        ensure_column "agents" "trusted_identity_json" (
          ensure_column "agents" "public_key"
            (ensure_column "agents" "owner" (ensure_column "agents" "dm_policy" db))))))

or_false : (b : Bool) → (b || false) ≡ b
or_false b = ground arith

module _ (table column : String) (db : Catalogue) where
  there_already :
      (t c : String)
      → has_column column (table_columns db table) ≡ true
      → has_column c (table_columns db t)
        ≡ (has_column c (table_columns db t) || ((table == t) && (column == c)))
  there_already t c h = elim (Bool-cases ((table == t) && (column == c))) [
    | inr e ↦ rw e (sym (or_false (has_column c (table_columns db t))))
    | inl e ↦
        let et : (table == t) ≡ true = ground arith in
        let ec : (column == c) ≡ true = ground arith in
        let (same_table, u) = eq_iff table t in
        let (same_column, v) = eq_iff column c in
        let known : has_column c (table_columns db t) ≡ true =
          rw (← same_table et, ← same_column ec) h in
        rw known refl
  ]

  columns-put :
      (t : String)
      → table_columns (put db table (table_columns db table ++ (column ∷ []))) t
        ≡ (if table == t then table_columns db table ++ (column ∷ []) else table_columns db t)
  unfolding table_columns
  columns-put t =
      ap columns_or_none (get-put db table t (columns_or_none (get db table) ++ (column ∷ [])))
      ∙ elim (Bool-cases (table == t)) [ inl e ↦ rw e refl | inr e ↦ rw e refl ]

  added_column :
      (t c : String)
      → has_column c
          (if table == t then table_columns db table ++ (column ∷ []) else table_columns db t)
        ≡ (has_column c (table_columns db t) || ((table == t) && (column == c)))
  unfolding any
  added_column t c = elim (Bool-cases (table == t)) [
    | inr e ↦ rw e (sym (or_false (has_column c (table_columns db t))))
    | inl e ↦
        let (same_table, u) = eq_iff table t in
        rw e (
          any-append (λ d. d == c) (table_columns db table) (column ∷ [])
          ∙ ap (λ b. has_column c (table_columns db table) || b) (or_false (column == c))
          ∙ ap (λ x. has_column c (table_columns db x) || (column == c)) (same_table e))
  ]

  -- A column of a table, before and after.
  pub has_column-ensure_column :
      (t c : String)
      → has_column c (table_columns (ensure_column table column db) t)
        ≡ (has_column c (table_columns db t) || ((table == t) && (column == c)))
  unfolding ensure_column
  has_column-ensure_column t c = elim (Bool-cases (has_column column (table_columns db table))) [
    | inl h ↦ rw h (there_already t c h)
    | inr h ↦ rw h (ap (has_column c) (columns-put t) ∙ added_column t c)
  ]

-- The columns that an old database may lack.
abbrev pub required_columns : List (String × String)
required_columns =
    ("agents", "dm_policy")
    ∷ ("agents", "owner")
    ∷ ("agents", "public_key")
    ∷ ("agents", "trusted_identity_json")
    ∷ ("contacts", "tags")
    ∷ ("contacts", "notes")
    ∷ ("contacts", "met_via")
    ∷ []

unfoldable pub ensure_each : List (String × String) → Catalogue → Catalogue
ensure_each [] db = db
ensure_each ((table, column) ∷ more) db = ensure_each more (ensure_column table column db)

or_assoc : (a b c : Bool) → ((a || b) || c) ≡ (a || (b || c))
or_assoc a b c = ground arith

has_column-ensure_each :
    (required : List (String × String)) (db : Catalogue) (t c : String)
    → has_column c (table_columns (ensure_each required db) t)
      ≡ (has_column c (table_columns db t) || any (λ r. (r.0 == t) && (r.1 == c)) required)
unfolding ensure_each any
has_column-ensure_each [] db t c = sym (or_false (has_column c (table_columns db t)))
has_column-ensure_each ((table, column) ∷ more) db t c =
    has_column-ensure_each more (ensure_column table column db) t c
    ∙ ap (λ b. b || any (λ r. (r.0 == t) && (r.1 == c)) more)
        (has_column-ensure_column table column db t c)
    ∙ or_assoc (has_column c (table_columns db t)) ((table == t) && (column == c)) _

-- After `init_db` a table has the columns that it had and the required ones, and no others.
pub ensure_columns_lem :
    (db : Catalogue) (t c : String)
    → has_column c (table_columns (ensure_columns db) t)
      ≡ (has_column c (table_columns db t) || any (λ r. (r.0 == t) && (r.1 == c)) required_columns)
unfolding ensure_columns ensure_each
ensure_columns_lem db t c = has_column-ensure_each required_columns db t c
