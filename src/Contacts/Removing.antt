-- ===== src/Contacts/Removing.antt =====
-- Removing a contact (`remove_contact`, server/routes_contacts.py).
use claw_msg.Prelude.{
  ◌≡◌, refl, sym, ◌∙◌, String, Bool, false, not, ◌&&◌, ◌||◌, some, List, [], ◌∷◌, ◌==◌, any, nat_eq,
  inl, inr, if◌then◌else◌, Bool-cases, arith,
}
use claw_msg.Schema.{AgentRow, ContactRow, Tables, contact_is, has_contact, commit, IsSettled}
use claw_msg.Table.{count_where}
use claw_msg.Table.Laws.{any-delete_where, any_none}
use mathlib.Core.Path.{subst}
use claw_msg.MessageValidation.{is_contacts_only}
use claw_msg.MessageValidation.Permission.{accepts}
use claw_msg.Exec.{World, Result, ok, raised, http}
use claw_msg.Contacts.{delete_contact, remove_contact}

count_where-any :
    (p : ContactRow → Bool) (rs : List ContactRow) → nat_eq (count_where p rs) 0 ≡ not (any p rs)
unfolding count_where any
count_where-any p [] = refl
count_where-any p (r ∷ rs) = ground (arith, count_where-any p rs)

deleted :
    (agent peer : String) (t : Tables)
    → has_contact (delete_contact agent peer t) agent peer ≡ false
unfolding has_contact
deleted agent peer t =
    any-delete_where (contact_is agent peer) (contact_is agent peer) t.contacts
    ∙ any_none (λ r. contact_is agent peer r && not (contact_is agent peer r)) t.contacts
        (λ r. ground arith)

abbrev after_removing : String → String → World → World
after_removing peer agent w = record w {
  db = record {
    tables = delete_contact agent peer w.db.tables;
    durable = delete_contact agent peer w.db.tables;
  };
}

abbrev pub found_or_404 : Bool → Result (Unit {0})
found_or_404 b = if b then ok tt else raised (http 404 "Contact not found")

remove_contact_runs :
    (peer agent : String) (w : World)
    → remove_contact peer agent w
      ≡ (found_or_404 (has_contact w.db.tables agent peer), after_removing peer agent w)
unfolding remove_contact commit has_contact
remove_contact_runs peer agent w =
    let e = count_where-any (contact_is agent peer) w.db.tables.contacts in
    elim (Bool-cases (any (contact_is agent peer) w.db.tables.contacts)) [
      | inl c ↦ rw (e, c) refl
      | inr c ↦ rw (e, c) refl
    ]

-- What holds after the call, for a row of the agent.
abbrev pub Removed : String → String → AgentRow → World → Result (Unit {0}) × World → Type 0
Removed peer agent a w r =
    (r.0 ≡ found_or_404 (has_contact w.db.tables agent peer))
    × (has_contact r.1.db.tables agent peer ≡ false)
    × IsSettled r.1.db
    × (accepts r.1.db.tables peer agent (some a)
        ≡ ((agent == peer) || not (is_contacts_only a.dm_policy)))

-- The answer tells whether the contact was there. Either way it is not there afterwards, which is
-- committed, and of the peer's direct messages the agent takes none any more, but if its policy is
-- open or the two are one.
pub remove_contact_lem :
    (peer agent : String) (a : AgentRow) (w : World)
    → Removed peer agent a w (remove_contact peer agent w)
remove_contact_lem peer agent a w =
    let gone = deleted agent peer w.db.tables in
    subst (λ (r : Result (Unit {0}) × World). Removed peer agent a w r)
      (sym (remove_contact_runs peer agent w)) (refl, gone, refl, ground arith)
