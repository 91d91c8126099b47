-- ===== src/Agents/Answered.antt =====
-- Whom a registration answers with, and whose rows it leaves (`register_agent`,
-- server/routes_agents.py).
use claw_msg.Prelude.{
  ◌≡◌, refl, sym, ◌∙◌, String, false, Option, none, some, List, [], ◌∷◌, ◌++◌, ◌==◌, eq_iff, inl,
  inr, str_truthy, Bool-cases, arith, if◌then◌else◌,
}
use mathlib.Core.Path.{subst}
use claw_msg.Schema.{AgentRow, TrustedIdentity, Tables, agent_is}
use claw_msg.Table.{find_first, update_where}
use claw_msg.Auth.{authenticate_token}
use claw_msg.Exec.{Env}
use claw_msg.Agents.{
  Issuer, AgentRegisterRequest, existing_agent, new_agent, renewed, add_agent, update_agent,
}
use claw_msg.Agents.Registered.{Written}

find_first-update_other :
    (k j : String) (f : AgentRow → AgentRow) (rs : List AgentRow)
    → ((r : AgentRow) → (f r).id ≡ r.id)
    → (k == j) ≡ false
    → find_first (agent_is j) (update_where (agent_is k) f rs) ≡ find_first (agent_is j) rs
unfolding find_first update_where
find_first-update_other k j f [] h n = refl
find_first-update_other k j f (r ∷ rs) h n =
    let ih = find_first-update_other k j f rs h n in
    elim (Bool-cases (r.id == k)) [
      | inl e ↦
          let other : (r.id == j) ≡ false = rw (sym ((eq_iff r.id k).0 e)) at n in
          rw (e, h r, other) ih
      | inr e ↦ rw e (elim (Bool-cases (r.id == j)) [ inl q ↦ rw q refl | inr q ↦ rw q ih ])
    ]

find_first-add_other :
    (r : AgentRow) (j : String) (rs : List AgentRow)
    → (r.id == j) ≡ false
    → find_first (agent_is j) (rs ++ r ∷ []) ≡ find_first (agent_is j) rs
unfolding find_first
find_first-add_other r j [] h = rw h refl
find_first-add_other r j (x ∷ rs) h = ground (arith, find_first-add_other r j rs h)

-- The agent that a registration answers with: the one that its existing token names, else a new one.
abbrev pub named_or_new : String → Option String → String
named_or_new uuid none = uuid
named_or_new uuid (some k) = if str_truthy k then k else uuid

abbrev pub answered_agent : Issuer → Env → Option String → Tables → String
answered_agent i env none t = env.uuid
answered_agent i env (some token) t =
    if token == "" then env.uuid else named_or_new env.uuid (authenticate_token i.crypto token t)

pub answered_agent-eq :
    (i : Issuer) (env : Env) (o : Option String) (t : Tables)
    → answered_agent i env o t ≡ named_or_new env.uuid (existing_agent i o t)
answered_agent-eq i env none t = refl
answered_agent-eq i env (some token) t = elim (Bool-cases (token == "")) [
  | inl e ↦ rw e refl
  | inr e ↦ rw e refl
]

named_or_new-falsy :
    (uuid : String) (o : Option String)
    → ((j : String) → o ≡ some j → str_truthy j ≡ false)
    → uuid ≡ named_or_new uuid o
named_or_new-falsy uuid none h = refl
named_or_new-falsy uuid (some k) h = rw (h k refl) refl

pub Written-agent :
    (i : Issuer) (env : Env) (req : AgentRegisterRequest) (existing : Option String)
    (identity : Option TrustedIdentity) (k : String) (t t' : Tables)
    → Written i env req existing identity k t t'
    → k ≡ named_or_new env.uuid existing
Written-agent i env req existing identity k t t' (inl (e, truthy, _)) = rw e (rw truthy refl)
Written-agent i env req existing identity k t t' (inr (e, falsy, _, _)) =
    e ∙ named_or_new-falsy env.uuid existing falsy

-- The row of every other agent is as it was.
abbrev pub OthersKept : String → Tables → Tables → Type 0
OthersKept k t t' =
    (j : String)
    → find_first (agent_is j) t'.agents
      ≡ (if k == j then find_first (agent_is j) t'.agents else find_first (agent_is j) t.agents)

renewed_others :
    (i : Issuer) (req : AgentRegisterRequest) (identity : Option TrustedIdentity) (k : String)
    (t : Tables)
    → OthersKept k t (update_agent k (renewed i req identity) t)
renewed_others i req identity k t j = elim (Bool-cases (k == j)) [
  | inl e ↦ rw e refl
  | inr e ↦ rw e (find_first-update_other k j (renewed i req identity) t.agents (λ r. refl) e)
]

added_others : (r : AgentRow) (t : Tables) → OthersKept r.id t (add_agent r t)
added_others r t j = elim (Bool-cases (r.id == j)) [
  | inl e ↦ rw e refl
  | inr e ↦ rw e (find_first-add_other r j t.agents e)
]

pub Written-OthersKept :
    (i : Issuer) (env : Env) (req : AgentRegisterRequest) (existing : Option String)
    (identity : Option TrustedIdentity) (k : String) (t t' : Tables)
    → Written i env req existing identity k t t'
    → OthersKept k t t'
Written-OthersKept i env req existing identity k t t' (inl (_, _, w)) =
    subst (λ (u : Tables). OthersKept k t u) (sym w) (renewed_others i req identity k t)
Written-OthersKept i env req existing identity k t t' (inr (e, _, _, w)) =
    subst (λ (u : Tables). OthersKept k t u) (sym w)
      (subst (λ (z : String). OthersKept z t (add_agent (new_agent i env req identity) t)) (sym e)
        (added_others (new_agent i env req identity) t))
