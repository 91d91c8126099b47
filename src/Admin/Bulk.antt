-- ===== src/Admin/Bulk.antt =====
-- Adding contacts in bulk (`admin_bulk_add_contacts`, server/routes_admin.py).
use claw_msg.Prelude.{
  ℕ, ◌+◌, ◌≡◌, refl, sym, ap, ◌∙◌, String, Bool, true, false, Option, List, [], ◌∷◌, inl, inr, any,
  any-append, length, length-append, All, eq_refl, arith, Bool-cases, if◌then◌else◌,
}
use mathlib.Core.Path.{subst}
use claw_msg.Schema.{Tables, contact_is, has_contact, contact_refers, commit, IsSettled}
use claw_msg.Contacts.{ContactAddRequest, contact_row, add_row}
use claw_msg.Exec.{
  Env, World, ok, pure, commit_db, ◌>>=◌, ◌>>◌, bind-eq-ok, ok-injective, raised-ne-ok,
}
use claw_msg.Admin.{
  BulkContactPair, check_admin, insert_contact, request_of, count_if, add_pairs,
  admin_bulk_add_contacts,
}

-- What is written when the answer is `b`.
abbrev Inserted : Env → String → ContactAddRequest → Bool → Tables → Tables → Type 0
Inserted env agent req true t t' = t' ≡ add_row (contact_row env agent req) t
Inserted env agent req false t t' = (has_contact t agent req.peer_id ≡ true) × (t' ≡ t)

insert_contact-ok :
    (env : Env) (agent : String) (req : ContactAddRequest) (w : World) {b : Bool} {w' : World}
    → insert_contact env agent req w ≡ (ok b, w')
    → Inserted env agent req b w.db.tables w'.db.tables
unfolding insert_contact
insert_contact-ok env agent req w {b} {w'} h =
    elim (Bool-cases (has_contact w.db.tables agent req.peer_id)) [
      | inl e ↦
          subst (λ (x : Bool). Inserted env agent req x w.db.tables w'.db.tables)
            (ok-injective (ap (λ p. p.0) (rw e at h)))
            (e, sym (ap (λ p. p.1.db.tables) (rw e at h)))
      | inr e ↦ elim (Bool-cases (contact_refers w.db.tables (contact_row env agent req))) [
        | inl q ↦
            subst (λ (x : Bool). Inserted env agent req x w.db.tables w'.db.tables)
              (ok-injective (ap (λ p. p.0) (rw (e, q) at h)))
              (sym (ap (λ p. p.1.db.tables) (rw (e, q) at h)))
        | inr q ↦ absurd (raised-ne-ok (ap (λ p. p.0) (rw (e, q) at h)))
      ]
    ]

abbrev pub HasAll : Tables → List BulkContactPair → Type 0
HasAll t pairs = All (λ p. has_contact t p.agent_id p.peer_id ≡ true) pairs

abbrev pub KeepsContacts : Tables → Tables → Type 0
KeepsContacts t t' =
    (agent peer : String) → has_contact t agent peer ≡ true → has_contact t' agent peer ≡ true

Inserted-there :
    (env : Env) (agent : String) (req : ContactAddRequest) (b : Bool) (t t' : Tables)
    → Inserted env agent req b t t'
    → (has_contact t' agent req.peer_id ≡ true)
      × KeepsContacts t t'
      × (length t'.contacts ≡ (if b then 1 else 0) + length t.contacts)
unfolding has_contact any
Inserted-there env agent req false t t' (h, e) = rw e (h, λ a p k. k, omega arith)
Inserted-there env agent req true t t' e = rw e (
  any-append (contact_is agent req.peer_id) t.contacts (contact_row env agent req ∷ [])
      ∙ ground (arith, eq_refl agent, eq_refl req.peer_id),
  λ a p k. any-append (contact_is a p) t.contacts (contact_row env agent req ∷ []) ∙ rw k refl,
  omega (arith, length-append t.contacts (contact_row env agent req ∷ [])),
)

-- What the loop has done: the counts go on from `n`.
abbrev Added : List BulkContactPair → ℕ × ℕ → ℕ × ℕ → Tables → Tables → Type 0
Added pairs n n' t t' =
    (n'.0 + n'.1 ≡ n.0 + n.1 + length pairs)
    × (length t'.contacts + n.0 ≡ length t.contacts + n'.0)
    × HasAll t' pairs
    × KeepsContacts t t'

Added-none : (n : ℕ × ℕ) (t : Tables) → Added [] n n t t
Added-none n t = (omega arith, refl, tt, λ a p k. k)

Added-more :
    (p : BulkContactPair) (pairs : List BulkContactPair) (b : Bool) (n n' : ℕ × ℕ) (t s t' : Tables)
    → has_contact s p.agent_id p.peer_id ≡ true
    → KeepsContacts t s
    → length s.contacts ≡ (if b then 1 else 0) + length t.contacts
    → Added pairs (count_if b n) n' s t'
    → Added (p ∷ pairs) n n' t t'
Added-more p pairs true n n' t s t' has keeps len (sum, grown, all, kept) = (
  omega arith,
  omega arith,
  (kept p.agent_id p.peer_id has, all),
  λ a q k. kept a q (keeps a q k),
)
Added-more p pairs false n n' t s t' has keeps len (sum, grown, all, kept) = (
  omega arith,
  omega arith,
  (kept p.agent_id p.peer_id has, all),
  λ a q k. kept a q (keeps a q k),
)

add_pairs-ok :
    (env : Env) (pairs : List BulkContactPair) (n : ℕ × ℕ) (w : World) {n' : ℕ × ℕ} {w' : World}
    → add_pairs env pairs n w ≡ (ok n', w')
    → Added pairs n n' w.db.tables w'.db.tables
unfolding add_pairs
add_pairs-ok env [] n w {n'} {w'} h =
    subst (λ (m : ℕ × ℕ). Added [] n m w.db.tables w'.db.tables) (ok-injective (ap (λ p. p.0) h))
      (subst (λ (t : Tables). Added [] n n w.db.tables t) (ap (λ p. p.1.db.tables) h)
        (Added-none n w.db.tables))
add_pairs-ok env (p ∷ pairs) n w {n'} {w'} h =
    let (b, e, k) =
      bind-eq-ok (insert_contact env p.agent_id (request_of p))
        (λ b. add_pairs env pairs (count_if b n)) w h in
    let v = (insert_contact env p.agent_id (request_of p) w).1 in
    let (has, keeps, len) =
      Inserted-there env p.agent_id (request_of p) b w.db.tables v.db.tables
        (insert_contact-ok env p.agent_id (request_of p) w e) in
    Added-more p pairs b n n' w.db.tables v.db.tables w'.db.tables has keeps len
      (add_pairs-ok env pairs (count_if b n) v k)

-- When a bulk request returns, its two counts add up to the number of its pairs, there are as many
-- more contacts as it says to have created, each pair is a contact, no contact has gone, and all of it
-- is committed.
pub admin_bulk_add_contacts_lem :
    (env : Env) (key : Option String) (pairs : List BulkContactPair) (w : World)
    {created skipped : ℕ} {w' : World}
    → admin_bulk_add_contacts env key pairs w ≡ (ok (created, skipped), w')
    → (created + skipped ≡ length pairs)
      × (length w'.db.tables.contacts ≡ length w.db.tables.contacts + created)
      × HasAll w'.db.tables pairs
      × KeepsContacts w.db.tables w'.db.tables
      × IsSettled w'.db
unfolding admin_bulk_add_contacts commit
admin_bulk_add_contacts_lem env key pairs w {created} {skipped} {w'} h =
    let (u, e, k) =
      bind-eq-ok (check_admin env key)
        (λ _. add_pairs env pairs (0, 0) >>= λ n. commit_db >> pure n) w h in
    let (n, e', k') = bind-eq-ok (add_pairs env pairs (0, 0)) (λ n. commit_db >> pure n) w k in
    let v = (add_pairs env pairs (0, 0) w).1 in
    let (sum, grown, all, kept) : Added pairs (0, 0) (created, skipped) w.db.tables w'.db.tables =
      subst (λ (m : ℕ × ℕ). Added pairs (0, 0) m w.db.tables w'.db.tables)
        (ok-injective (ap (λ p. p.0) k'))
        (subst (λ (t : Tables). Added pairs (0, 0) n w.db.tables t) (ap (λ p. p.1.db.tables) k')
          (add_pairs-ok env pairs (0, 0) w e')) in
    (
      omega arith,
      omega arith,
      all,
      kept,
      subst (λ (v' : World). IsSettled v'.db) (ap (λ p. p.1) k') refl,
    )
