-- ===== src/Agents/Identity.antt =====
-- Trusted identities (server/routes_agents.py).
use claw_msg.Prelude.{
  ◌≡◌, refl, sym, ap, ◌∙◌, String, true, Option, none, some, [], ◌∷◌, ◌==◌, eq_iff, inl, inr,
  str_truthy, Bool-cases, arith,
}
use mathlib.Core.Path.{subst}
use claw_msg.Schema.{AgentRow, TrustedIdentity, Tables, agent_is}
use claw_msg.Table.{find_first}
use claw_msg.Table.Laws.{find_first-update_where, find_first-append, find_first_fits}
use claw_msg.Exec.{Env, World, ok, ok-injective, raised-ne-ok}
use claw_msg.Agents.{
  Issuer, AgentRegisterRequest, AgentRegisterResponse, identity_eq, final_identity, known_identity,
  existing_agent, new_agent, renewed, register_agent,
}
use claw_msg.Agents.Registered.{Written, register_as-ok}

identity_eq→eq : (a b : TrustedIdentity) → identity_eq a b ≡ true → a ≡ b
identity_eq→eq a b h =
    let p : (a.issuer ≡ b.issuer) = ground (arith, eq_iff a.issuer b.issuer) in
    let q : (a.kind ≡ b.kind) = ground (arith, eq_iff a.kind b.kind) in
    let r : (a.account_id ≡ b.account_id) = ground (arith, eq_iff a.account_id b.account_id) in
    let s : (a.peer_id ≡ b.peer_id) = ground (arith, eq_iff a.peer_id b.peer_id) in
    let u : (a.openclaw_agent_id ≡ b.openclaw_agent_id) =
      ground (arith, eq_iff a.openclaw_agent_id b.openclaw_agent_id) in
    λ i. record {
      issuer = p i;
      kind = q i;
      account_id = r i;
      peer_id = s i;
      openclaw_agent_id = u i;
    }

final_identity-kept :
    (x : TrustedIdentity) (requested : Option TrustedIdentity) {identity : Option TrustedIdentity}
    → final_identity (some x) requested ≡ ok identity
    → identity ≡ some x
unfolding final_identity
final_identity-kept x none h = sym (ok-injective h)
final_identity-kept x (some y) h = elim (Bool-cases (identity_eq x y)) [
  | inl e ↦ sym (ok-injective (rw e at h)) ∙ ap some (sym (identity_eq→eq x y e))
  | inr e ↦ absurd (raised-ne-ok (rw e at h))
]

-- The agent has the identity.
abbrev pub HasIdentity : Tables → String → TrustedIdentity → Type 0
HasIdentity t k x =
    (r : AgentRow) × (find_first (agent_is k) t.agents ≡ some r) × (r.trusted_identity ≡ some x)

known_identity-some :
    (k : String) (t : Tables) (x : TrustedIdentity)
    → str_truthy k ≡ true
    → HasIdentity t k x
    → known_identity (some k) t ≡ some x
known_identity-some k t x h (r, f, e) = rw (h, f) e

kept :
    (i : Issuer) (env : Env) (req : AgentRegisterRequest) (existing : Option String)
    (requested identity : Option TrustedIdentity) (agent : String) (t t' : Tables) (k : String)
    (x : TrustedIdentity)
    → final_identity (known_identity existing t) requested ≡ ok identity
    → Written i env req existing identity agent t t'
    → HasIdentity t k x
    → HasIdentity t' k x
kept i env req existing requested identity agent t t' k x h (inl (e, u, w)) (r, f, q) =
    elim (Bool-cases (r.id == agent)) [
      | inl s ↦
          let same : k ≡ agent =
            sym ((eq_iff r.id k).0 (find_first_fits (agent_is k) t.agents f))
            ∙ (eq_iff r.id agent).0 s in
          let known : known_identity existing t ≡ some x =
            ap (λ (o : Option String). known_identity o t) e
            ∙ known_identity-some agent t x u
                (subst (λ (j : String). HasIdentity t j x) same (r, f, q)) in
          (
            renewed i req identity r,
            rw w (
                find_first-update_where (agent_is agent) (agent_is k) (renewed i req identity)
                  t.agents (λ z. refl)
                ∙ rw (f, s) refl),
            final_identity-kept x requested (rw known at h),
          )
      | inr s ↦ (
        r,
        rw w (
            find_first-update_where (agent_is agent) (agent_is k) (renewed i req identity) t.agents
              (λ z. refl)
            ∙ rw (f, s) refl),
        q,
      )
    ]
kept i env req existing requested identity agent t t' k x h (inr (e, _, n, w)) (r, f, q) = (
  r,
  rw w (find_first-append (agent_is k) t.agents (new_agent i env req identity ∷ []) ∙ rw f refl),
  q,
)

-- A trusted identity is for ever: whoever registers, with whatever key and token, an agent that has
-- one keeps it as it is.
pub register_agent_keeps_identity :
    (i : Issuer) (env : Env) (key : Option String) (req : AgentRegisterRequest) (w : World)
    {resp : AgentRegisterResponse} {w' : World} (k : String) (x : TrustedIdentity)
    → register_agent i env key req w ≡ (ok resp, w')
    → HasIdentity w.db.tables k x
    → HasIdentity w'.db.tables k x
unfolding register_agent
register_agent_keeps_identity i env key req w {resp} {w'} k x h has =
    let existing = existing_agent i req.existing_token w.db.tables in
    let (requested, identity, a, b, e, written) =
      register_as-ok i env key req existing (known_identity existing w.db.tables) w h in
    kept i env req existing requested identity resp.agent_id w.db.tables w'.db.tables k x b written
      has
