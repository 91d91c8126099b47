-- ===== src/Contacts/Adding.antt =====
-- Adding a contact (`add_contact`, server/routes_contacts.py).
use claw_msg.Prelude.{
  ◌≡◌, refl, sym, ap, ◌∙◌, String, true, false, none, some, [], ◌∷◌, ◌==◌, any, eq_refl, eq_iff,
  inl, inr, if◌then◌else◌, Bool-cases, Option-cases, arith,
}
use mathlib.Core.Path.{subst}
use claw_msg.Schema.{
  AgentRow, ContactRow, Tables, agent_is, contact_is, has_agent, has_contact, contact_refers,
  commit, IsSettled,
}
use claw_msg.Table.{find_first}
use claw_msg.Table.Laws.{
  any-find_first, find_first-update_where, find_first-append, find_first_fits,
}
use claw_msg.MessageValidation.{get_message_target_error}
use claw_msg.MessageValidation.Permission.{get_message_target_error_lem}
use claw_msg.Exec.{Env, World, Result, ok, raised, http}
use claw_msg.Contacts.{
  ContactAddRequest, ContactResponse, contact_response, contact_row, get_contact_row, add_row,
  overwrite, overwrite_row, response_or, upsert, add_contact,
}

abbrev after_upsert : Env → String → ContactAddRequest → Tables → Tables
after_upsert env agent req t =
    if has_contact t agent req.peer_id
    then overwrite_row agent req t
    else add_row (contact_row env agent req) t

-- The row has what the request says.
abbrev Holds : ContactAddRequest → ContactRow → Type 0
Holds req c =
    (c.peer_id ≡ req.peer_id)
    × (c.alias ≡ req.alias)
    × (c.tags ≡ some req.tags)
    × (c.notes ≡ req.notes)
    × (c.met_via ≡ req.met_via)

abbrev pub Answers : ContactAddRequest → ContactResponse → Type 0
Answers req r =
    (r.peer_id ≡ req.peer_id)
    × (r.alias ≡ req.alias)
    × (r.tags ≡ req.tags)
    × (r.notes ≡ req.notes)
    × (r.met_via ≡ req.met_via)

find_agent :
    (t : Tables) (k : String)
    → has_agent t k ≡ true
    → (a : AgentRow) × (find_first (agent_is k) t.agents ≡ some a)
unfolding has_agent
find_agent t k h = elim (Option-cases (find_first (agent_is k) t.agents)) [
  | inr (a, e) ↦ (a, e)
  | inl e ↦ ground (arith, any-find_first (agent_is k) t.agents)
]

module _ (env : Env) (agent : String) (req : ContactAddRequest) (t : Tables) where
  find_saved :
      (c : ContactRow) × (find_first
          (contact_is agent req.peer_id)
          (after_upsert env agent req t).contacts
        ≡ some c)
      × Holds req c
  unfolding has_contact find_first
  find_saved =
      let p = contact_is agent req.peer_id in
      elim (Option-cases (find_first p t.contacts)) [
        | inr (c, e) ↦
            let there : any p t.contacts ≡ true = any-find_first p t.contacts ∙ rw e refl in
            let fits = find_first_fits p t.contacts e in
            (
              overwrite req c,
              rw there (
                  find_first-update_where p p (overwrite req) t.contacts (λ z. refl)
                  ∙ rw (e, fits) refl),
              (ground (arith, eq_iff c.peer_id req.peer_id), refl, refl, refl, refl),
            )
        | inl e ↦
            let new : any p t.contacts ≡ false = any-find_first p t.contacts ∙ rw e refl in
            (
              contact_row env agent req,
              rw new (
                  find_first-append p t.contacts (contact_row env agent req ∷ [])
                  ∙ rw (e, eq_refl agent, eq_refl req.peer_id) refl),
              (refl, refl, refl, refl, refl),
            )
      ]

  same_agents : (after_upsert env agent req t).agents ≡ t.agents
  same_agents = ground arith

  same_has : (k : String) → has_agent (after_upsert env agent req t) k ≡ has_agent t k
  unfolding has_agent
  same_has k = ap (any (agent_is k)) same_agents

  saved :
      has_agent t req.peer_id ≡ true
      → (r : ContactResponse) × (row : ContactRow × AgentRow) × (get_contact_row
            (after_upsert env agent req t)
            agent
            req.peer_id
          ≡ some row)
        × (contact_response row ≡ ok r)
        × Answers req r
  unfolding get_contact_row contact_response
  saved h =
      let (c, f, (p, al, tg, n, m)) = find_saved in
      let (a, g) = find_agent t req.peer_id h in
      (
        record {
          peer_id = c.peer_id;
          alias = c.alias;
          tags = req.tags;
          notes = c.notes;
          met_via = c.met_via;
          peer_name = a.name;
          peer_status = a.status;
          added_at = c.added_at;
        },
        (c, a),
        rw f (rw (same_agents, p, g) refl),
        rw tg refl,
        (p, al, refl, n, m),
      )

  has_saved : has_contact (after_upsert env agent req t) agent req.peer_id ≡ true
  unfolding has_contact
  has_saved =
      let (c, f, q) = find_saved in
      any-find_first (contact_is agent req.peer_id) (after_upsert env agent req t).contacts
      ∙ rw f refl

upsert-ok :
    (env : Env) (agent : String) (req : ContactAddRequest) (w : World)
    → has_agent w.db.tables agent ≡ true
    → has_agent w.db.tables req.peer_id ≡ true
    → upsert env agent req w
      ≡ (ok tt, record w { db = record w.db { tables = after_upsert env agent req w.db.tables } })
unfolding contact_refers
upsert-ok env agent req w a p = elim (Bool-cases (has_contact w.db.tables agent req.peer_id)) [
  | inl e ↦ rw e refl
  | inr e ↦ rw (e, a, p) refl
]

may_write :
    (t : Tables) (agent peer : String)
    → has_agent t agent ≡ true
    → has_contact t agent peer ≡ true
    → get_message_target_error peer (some agent) none t ≡ none
may_write t agent peer h c =
    let (a, e) = find_agent t agent h in
    (get_message_target_error_lem peer (some agent) none t).1 (rw (e, c) ground arith, refl)

no_agent :
    (t : Tables) (k : String) → has_agent t k ≡ false → find_first (agent_is k) t.agents ≡ none
unfolding has_agent
no_agent t k h = elim (Option-cases (find_first (agent_is k) t.agents)) [
  | inl e ↦ e
  | inr (a, e) ↦ ground (arith, any-find_first (agent_is k) t.agents)
]

abbrev after_adding : Env → ContactAddRequest → String → World → World
after_adding env req agent w = record w {
  db = record {
    tables = after_upsert env agent req w.db.tables;
    durable = after_upsert env agent req w.db.tables;
  };
}

add_contact_runs :
    (env : Env) (req : ContactAddRequest) (agent : String) (w : World)
    → (req.peer_id == agent) ≡ false
    → has_agent w.db.tables agent ≡ true
    → has_agent w.db.tables req.peer_id ≡ true
    → add_contact env req agent w ≡ (
      response_or 500 "Failed to load saved contact"
          (get_contact_row (after_upsert env agent req w.db.tables) agent req.peer_id),
      after_adding env req agent w,
    )
unfolding add_contact commit
add_contact_runs env req agent w e a p =
    let (b, f) = find_agent w.db.tables req.peer_id p in
    rw (e, f, upsert-ok env agent req w a p) refl

-- How a call ends.
abbrev pub AddEnds :
    Env → ContactAddRequest → String → World → Result ContactResponse × World → Type 0
AddEnds env req agent w r =
    if req.peer_id == agent
    then (r ≡ (raised (http 400 "Cannot add yourself as a contact"), w))
    else (if has_agent w.db.tables req.peer_id
        then ((c : ContactResponse) × (r.0 ≡ ok c)
            × Answers req c
            × IsSettled r.1.db
            × (has_contact r.1.db.tables agent req.peer_id ≡ true)
            × (get_message_target_error req.peer_id (some agent) none r.1.db.tables ≡ none))
        else (r ≡ (raised (http 404 "Peer agent not found"), w)))

-- An agent cannot add itself, nor an agent that is not there: then nothing changes. Any other call
-- answers with a contact that has the values of the request, old or new, with everything committed,
-- and from then on the peer may send direct messages to the agent whatever the agent's policy.
pub add_contact_lem :
    (env : Env) (req : ContactAddRequest) (agent : String) (w : World)
    → has_agent w.db.tables agent ≡ true
    → AddEnds env req agent w (add_contact env req agent w)
unfolding add_contact
add_contact_lem env req agent w a = elim (Bool-cases (req.peer_id == agent)) [
  | inl e ↦ rw e refl
  | inr e ↦ elim (Bool-cases (has_agent w.db.tables req.peer_id)) [
    | inr p ↦ rw (e, p, no_agent w.db.tables req.peer_id p) refl
    | inl p ↦
        let (c, row, g, k, answers) = saved env agent req w.db.tables p in
        subst (λ (r : Result ContactResponse × World). AddEnds env req agent w r)
          (sym (add_contact_runs env req agent w e a p))
          (rw (e, p)
            (
              c,
              rw g k,
              answers,
              refl,
              has_saved env agent req w.db.tables,
              may_write (after_upsert env agent req w.db.tables) agent req.peer_id
                  (same_has env agent req w.db.tables agent ∙ a)
                  (has_saved env agent req w.db.tables),
            ))
  ]
]
