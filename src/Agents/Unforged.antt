-- ===== src/Agents/Unforged.antt =====
-- No trusted identity without the admin's key (server/routes_agents.py).
use claw_msg.Prelude.{
  ◌≡◌, refl, sym, ap, ◌∙◌, String, false, Option, none, some, [], ◌∷◌, ◌==◌, eq_iff, inl, inr,
  str_truthy, if◌then◌else◌, Bool-cases, Option-cases, none-ne-some, some-injective,
}
use mathlib.Core.Path.{subst}
use claw_msg.Schema.{AgentRow, TrustedIdentity, Tables, agent_is}
use claw_msg.Table.{find_first}
use claw_msg.Table.Laws.{find_first-update_where, find_first-append, find_first_fits}
use claw_msg.Admin.Key.{has_valid_admin_key}
use claw_msg.Exec.{Env, World, ok, ok-injective}
use claw_msg.Agents.{
  Issuer, AgentRegisterRequest, AgentRegisterResponse, final_identity, known_identity,
  existing_agent, new_agent, renewed, register_agent,
}
use claw_msg.Agents.Registered.{Written, register_as-ok}
use claw_msg.Agents.Identity.{HasIdentity}

no_new :
    (old requested : Option TrustedIdentity) {identity : Option TrustedIdentity}
    → requested ≡ none
    → final_identity old requested ≡ ok identity
    → identity ≡ old
unfolding final_identity
no_new none r e h = sym (ok-injective h) ∙ e
no_new (some x) none e h = sym (ok-injective h)
no_new (some x) (some y) e h = absurd (none-ne-some (sym e))

no_identity :
    (existing : Option String) (t : Tables)
    → ((j : String) → existing ≡ some j → str_truthy j ≡ false)
    → known_identity existing t ≡ none
no_identity none t h = refl
no_identity (some j) t h = rw (h j refl) refl

identity_before :
    (k : String) (t : Tables) {x : TrustedIdentity}
    → known_identity (some k) t ≡ some x
    → HasIdentity t k x
identity_before k t h = elim (Bool-cases (str_truthy k)) [
  | inr e ↦ absurd (none-ne-some (rw e at h))
  | inl e ↦ elim (Option-cases (find_first (agent_is k) t.agents)) [
    | inl n ↦ absurd (none-ne-some (rw (e, n) at h))
    | inr (r, f) ↦ (r, f, rw (e, f) at h)
  ]
]

renewed_before :
    (i : Issuer) (req : AgentRegisterRequest) (identity : Option TrustedIdentity) (agent k : String)
    (t : Tables) (x : TrustedIdentity) (r r' : AgentRow)
    → identity ≡ known_identity (some agent) t
    → find_first (agent_is k) t.agents ≡ some r
    → (if r.id == agent then renewed i req identity r else r) ≡ r'
    → r'.trusted_identity ≡ some x
    → HasIdentity t k x
renewed_before i req identity agent k t x r r' d f g q = elim (Bool-cases (r.id == agent)) [
  | inr s ↦ (r, f, ap (λ z. z.trusted_identity) (rw s at g) ∙ q)
  | inl s ↦
      subst (λ (j : String). HasIdentity t j x)
        (sym ((eq_iff r.id agent).0 s)
          ∙ (eq_iff r.id k).0 (find_first_fits (agent_is k) t.agents f))
        (identity_before agent t (sym d ∙ ap (λ z. z.trusted_identity) (rw s at g) ∙ q))
]

before :
    (i : Issuer) (env : Env) (req : AgentRegisterRequest) (existing : Option String)
    (identity : Option TrustedIdentity) (agent : String) (t t' : Tables) (k : String)
    (x : TrustedIdentity)
    → identity ≡ known_identity existing t
    → Written i env req existing identity agent t t'
    → HasIdentity t' k x
    → HasIdentity t k x
unfolding find_first
before i env req existing identity agent t t' k x d (inl (e, u, w)) (r', f', q) =
    let g =
      sym (
        find_first-update_where (agent_is agent) (agent_is k) (renewed i req identity) t.agents
          (λ z. refl))
      ∙ ap (λ (s : Tables). find_first (agent_is k) s.agents) (sym w)
      ∙ f' in
    elim (Option-cases (find_first (agent_is k) t.agents)) [
      | inl n ↦ absurd (none-ne-some (rw n at g))
      | inr (r, f) ↦
          renewed_before i req identity agent k t x r r'
            (d ∙ ap (λ (o : Option String). known_identity o t) e) f (some-injective (rw f at g)) q
    ]
before i env req existing identity agent t t' k x d (inr (e, fresh, n, w)) (r', f', q) =
    let g =
      sym (find_first-append (agent_is k) t.agents (new_agent i env req identity ∷ []))
      ∙ ap (λ (s : Tables). find_first (agent_is k) s.agents) (sym w)
      ∙ f' in
    elim (Option-cases (find_first (agent_is k) t.agents)) [
      | inr (r, f) ↦ (r, f, ap (λ z. z.trusted_identity) (some-injective (rw f at g)) ∙ q)
      | inl z ↦ elim (Bool-cases (env.uuid == k)) [
        | inr s ↦ absurd (none-ne-some (rw (z, s) at g))
        | inl s ↦ absurd (
            none-ne-some (
              sym (no_identity existing t fresh)
              ∙ sym d
              ∙ ap (λ y. y.trusted_identity) (some-injective (rw (z, s) at g))
              ∙ q))
      ]
    ]

-- Without the admin's key no trusted identity comes about: an agent that has one after a
-- registration had it before.
pub register_agent_makes_no_identity :
    (i : Issuer) (env : Env) (key : Option String) (req : AgentRegisterRequest) (w : World)
    {resp : AgentRegisterResponse} {w' : World} (k : String) (x : TrustedIdentity)
    → has_valid_admin_key env.config.admin_key key ≡ false
    → register_agent i env key req w ≡ (ok resp, w')
    → HasIdentity w'.db.tables k x
    → HasIdentity w.db.tables k x
unfolding register_agent
register_agent_makes_no_identity i env key req w {resp} {w'} k x no_key h has =
    let existing = existing_agent i req.existing_token w.db.tables in
    let (requested, identity, a, b, e, written) =
      register_as-ok i env key req existing (known_identity existing w.db.tables) w h in
    before i env req existing identity resp.agent_id w.db.tables w'.db.tables k x
      (no_new (known_identity existing w.db.tables) requested (sym (ok-injective (rw no_key at a)))
        b)
      written has
