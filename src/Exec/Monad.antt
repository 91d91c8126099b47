-- ===== src/Exec/Monad.antt =====
-- Handlers raise: an `HTTPException`, the `IntegrityError` of SQLite, a failed `send_text`, an
-- `AttributeError` on a frame of the wrong shape, a value that SQLite cannot
-- bind, or a reply that does not fit its model.
use claw_msg.Prelude.{◌≡◌, refl, sym, ap, ◌∙◌, ℕ, String, Bool, true, false, if◌then◌else◌}
use claw_msg.Schema.{Tables, Db, commit}
use claw_msg.Exec.State.{World}

pub data Error : Type 0 where
  http : ℕ → String → Error
  integrity_error send_failed attribute_error bind_error validation_error : Error

pub data Result (A : Type 0) : Type 0 where
  ok : A → Result A
  raised : Error → Result A

abbrev pub Exec : Type 0 → Type 0
Exec A = World → Result A × World

module _ {A : Type 0} where
  abbrev pub pure : A → Exec A
  pure a w = (ok a, w)

  abbrev pub raise : Error → Exec A
  raise e w = (raised e, w)

  -- A read of the shared state.
  abbrev pub gets : (World → A) → Exec A
  gets f w = (ok (f w), w)

abbrev pub continue : {A B : Type 0} → Result A → (A → Exec B) → Exec B
continue (ok a) f w = f a w
continue (raised e) f w = (raised e, w)

infixl 5 ◌>>=◌ ◌>>◌
abbrev pub ◌>>=◌ : {A B : Type 0} → Exec A → (A → Exec B) → Exec B
◌>>=◌ m f w = let (r, w') = m w in continue r f w'

abbrev pub ◌>>◌ : {B : Type 0} → Exec (Unit {0}) → Exec B → Exec B
m >> k = m >>= λ _. k

-- `if c: raise e`
abbrev pub raise_if : Bool → Error → Exec (Unit {0})
raise_if true e = raise e
raise_if false e = pure tt

abbrev pub modify_db : (Db → Db) → Exec (Unit {0})
modify_db f w = (ok tt, record w { db = f w.db })

abbrev pub modify_tables : (Tables → Tables) → Exec (Unit {0})
modify_tables f w = (ok tt, record w { db = record w.db { tables = f w.db.tables } })

-- `await db.commit()`
abbrev pub commit_db : Exec (Unit {0})
commit_db w = (ok tt, record w { db = commit w.db })

-- `INSERT`: a row that breaks a constraint is an error.
abbrev pub insert_row : (Tables → Bool) → (Tables → Tables) → Exec (Unit {0})
insert_row fits f w = if fits w.db.tables then modify_tables f w else raise integrity_error w

-- `INSERT OR IGNORE`: a row whose key is there is skipped; a foreign key is checked as ever.
abbrev pub insert_or_ignore :
    (Tables → Bool) → (Tables → Bool) → (Tables → Tables) → Exec (Unit {0})
insert_or_ignore exists refers f w =
    if exists w.db.tables then (ok tt, w) else insert_row refers f w

pub raised-ne-ok : {A : Type 0} {x : Error} {a : A} → raised x ≡ ok a → ⊥
raised-ne-ok h = cc

pub ok-injective : {A : Type 0} {a b : A} → ok a ≡ ok b → a ≡ b
ok-injective h = cc

ok-of-continue :
    {A B : Type 0} (r : Result A) (f : A → Exec B) (w : World) {b : B} {w' : World}
    → continue r f w ≡ (ok b, w')
    → (a : A) × (r ≡ ok a) × (f a w ≡ (ok b, w'))
ok-of-continue (ok a) f w h = (a, refl, h)
ok-of-continue (raised e) f w h = absurd (raised-ne-ok (ap (λ p. p.0) h))

-- A call that has returned has returned from its first part and from the rest.
pub bind-eq-ok :
    {A B : Type 0} (m : Exec A) (f : A → Exec B) (w : World) {b : B} {w' : World}
    → (m >>= f) w ≡ (ok b, w')
    → (a : A) × (m w ≡ (ok a, (m w).1)) × (f a (m w).1 ≡ (ok b, w'))
bind-eq-ok m f w h =
    let (a, e, k) = ok-of-continue (m w).0 f (m w).1 h in (a, λ i. (e i, (m w).1), k)

continue_assoc :
    {A B C : Type 0} (r : Result A) (f : A → Exec B) (g : B → Exec C) (w : World)
    → (let (s, w') = continue r f w in continue s g w') ≡ continue r (λ a. f a >>= g) w
continue_assoc (ok a) f g w = refl
continue_assoc (raised e) f g w = refl

pub bind_assoc :
    {A B C : Type 0} (m : Exec A) (f : A → Exec B) (g : B → Exec C) (w : World)
    → ((m >>= f) >>= g) w ≡ (m >>= λ a. f a >>= g) w
bind_assoc m f g w = continue_assoc (m w).0 f g (m w).1

continue-cong :
    {A B : Type 0} (r : Result A) (f g : A → Exec B) (w : World)
    → ((a : A) → f a w ≡ g a w)
    → continue r f w ≡ continue r g w
continue-cong (ok a) f g w h = h a
continue-cong (raised e) f g w h = refl

pub bind-cong :
    {A B : Type 0} (m : Exec A) (f g : A → Exec B) (w : World)
    → ((a : A) (v : World) → f a v ≡ g a v)
    → (m >>= f) w ≡ (m >>= g) w
bind-cong m f g w h = continue-cong (m w).0 f g (m w).1 (λ a. h a (m w).1)

-- What follows a call goes into the rest of the call.
pub bind-into :
    {A B C : Type 0} (m : Exec A) (f : A → Exec B) (g : B → Exec C) (h : A → Exec C) (w : World)
    → ((a : A) (v : World) → h a v ≡ (f a >>= g) v)
    → (m >>= h) w ≡ ((m >>= f) >>= g) w
bind-into m f g h w e = bind-cong m h (λ a. f a >>= g) w e ∙ sym (bind_assoc m f g w)
