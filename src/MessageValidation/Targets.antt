-- ===== src/MessageValidation/Targets.antt =====
-- Which agent a target names (src/claw_msg/server/message_validation.py).
use claw_msg.Prelude.{
  ◌≡◌, refl, sym, ◌∙◌, ◌&&◌, ◌≢◌, ◌↔◌, String, Bool, true, false, none, some, List, [], ◌∷◌, arith,
  ◌==◌, eq_iff, any, filter, take, length, Option-cases, inl, inr, ◌⊎◌,
}
use claw_msg.Schema.{AgentRow, Tables, agent_is, has_agent}
use claw_msg.Table.{find_first, count_where}
use claw_msg.Table.Laws.{any-find_first, find_first_fits, count_where-eq, any-filter, any_implies}
use claw_msg.MessageValidation.{name_is, only_row, resolve_agent_target}

only_row-none : (rows : List AgentRow) → only_row (take 2 rows) ≡ none → length rows ≢ 1
only_row-none [] h = omega arith
only_row-none (r ∷ []) h = cc
only_row-none (r ∷ s ∷ rows) h = omega arith

only_row-some :
    (rows : List AgentRow) {k : String}
    → only_row (take 2 rows) ≡ some k
    → (length rows ≡ 1) × (any (agent_is k) rows ≡ true)
unfolding any
only_row-some [] h = cc
only_row-some (r ∷ []) {k} h = ground (arith, eq_iff r.id k)
only_row-some (r ∷ s ∷ rows) h = cc

only_row-many : (rows : List AgentRow) → length rows ≢ 1 → only_row (take 2 rows) ≡ none
only_row-many [] h = refl
only_row-many (r ∷ []) h = absurd (h refl)
only_row-many (r ∷ s ∷ rows) h = refl

-- The agent with the id `k` has the name `identifier`.
abbrev pub is_named : String → String → AgentRow → Bool
is_named k identifier r = (r.id == k) && name_is identifier r

-- What is found is the id of an agent: the identifier itself, if that is an agent's id, or else the
-- id of the only agent of that name.
pub resolve_found :
    (identifier : String) (t : Tables) {k : String}
    → resolve_agent_target identifier t ≡ some k
    → (has_agent t k ≡ true)
      × ((k ≡ identifier)
          ⊎ ((has_agent t identifier ≡ false)
              × (count_where (name_is identifier) t.agents ≡ 1)
              × (any (is_named k identifier) t.agents ≡ true)))
unfolding resolve_agent_target has_agent
resolve_found identifier t {k} h =
    let there = any-find_first (agent_is identifier) t.agents in
    elim (Option-cases (find_first (agent_is identifier) t.agents)) [
      | inl e ↦
          let one = only_row-some (filter (name_is identifier) t.agents) (rw e at h) in
          let named = any-filter (name_is identifier) (agent_is k) t.agents in
          (
            any_implies (is_named k identifier) (agent_is k) t.agents (λ r p. ground arith)
                (sym named ∙ one.1),
            inr (
              there ∙ rw e refl,
              count_where-eq (name_is identifier) t.agents ∙ one.0,
              sym named ∙ one.1,
            ),
          )
      | inr (r, e) ↦
          let same =
            (eq_iff r.id identifier).0 (find_first_fits (agent_is identifier) t.agents e) in
          let found : some r.id ≡ some k = rw e at h in
          let known : any (agent_is identifier) t.agents ≡ true = rw e at there in
          let k_same : k ≡ identifier = ground arith in (rw k_same known, inl k_same)
    ]

-- Nothing is found exactly if the identifier is no agent's id and not the name of one agent alone.
pub resolve_missing :
    (identifier : String) (t : Tables)
    → (resolve_agent_target identifier t ≡ none)
      ↔ ((has_agent t identifier ≡ false) × (count_where (name_is identifier) t.agents ≢ 1))
unfolding resolve_agent_target has_agent
resolve_missing identifier t =
    let there = any-find_first (agent_is identifier) t.agents in
    let counted = count_where-eq (name_is identifier) t.agents in
    elim (Option-cases (find_first (agent_is identifier) t.agents)) [
      | inl e ↦ rw e (
        λ h. (ground arith, rw counted (only_row-none (filter (name_is identifier) t.agents) h)),
        λ h. only_row-many (filter (name_is identifier) t.agents) (rw counted at (h.1)),
      )
      | inr (r, e) ↦ rw e (λ h. cc, λ h. ground arith)
    ]
