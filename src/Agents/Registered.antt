-- ===== src/Agents/Registered.antt =====
-- What a registration that returns has written (`register_agent`, server/routes_agents.py).
use claw_msg.Prelude.{
  ◌≡◌, sym, ap, String, true, false, Option, none, some, ◌⊎◌, inl, inr, str_truthy, Bool-cases,
  none-ne-some, some-injective,
}
use mathlib.Core.Path.{subst}
use claw_msg.Schema.{TrustedIdentity, Tables, has_agent, commit}
use claw_msg.Exec.{
  Env, World, ok, Exec, pure, commit_db, ◌>>=◌, ◌>>◌, bind-eq-ok, ok-injective, raised-ne-ok,
}
use claw_msg.Agents.{
  Issuer, AgentRegisterRequest, AgentRegisterResponse, requested_identity, final_identity,
  new_agent, renewed, add_agent, update_agent, insert_agent, write_agent, of_result, register_as,
}

-- The agent has been renewed, or a new one added.
abbrev pub Written :
    Issuer
    → Env
    → AgentRegisterRequest
    → Option String
    → Option TrustedIdentity
    → String
    → Tables
    → Tables
    → Type 0
Written i env req existing identity agent t t' =
    ((existing ≡ some agent)
      × (str_truthy agent ≡ true)
      × (t' ≡ update_agent agent (renewed i req identity) t))
    ⊎ ((agent ≡ env.uuid)
        × ((j : String) → existing ≡ some j → str_truthy j ≡ false)
        × (has_agent t env.uuid ≡ false)
        × (t' ≡ add_agent (new_agent i env req identity) t))

insert_agent-ok :
    (i : Issuer) (env : Env) (req : AgentRegisterRequest) (identity : Option TrustedIdentity)
    (w : World) {a : String} {w' : World}
    → insert_agent i env req identity w ≡ (ok a, w')
    → (a ≡ env.uuid)
      × (has_agent w.db.tables env.uuid ≡ false)
      × (w'.db.tables ≡ add_agent (new_agent i env req identity) w.db.tables)
insert_agent-ok i env req identity w h = elim (Bool-cases (has_agent w.db.tables env.uuid)) [
  | inl e ↦ absurd (raised-ne-ok (ap (λ p. p.0) (rw e at h)))
  | inr e ↦
      (sym (ok-injective (ap (λ p. p.0) (rw e at h))), e, sym (ap (λ p. p.1.db.tables) (rw e at h)))
]

write_agent-ok :
    (i : Issuer) (env : Env) (req : AgentRegisterRequest) (existing : Option String)
    (identity : Option TrustedIdentity) (w : World) {a : String} {w' : World}
    → write_agent i env req existing identity w ≡ (ok a, w')
    → Written i env req existing identity a w.db.tables w'.db.tables
write_agent-ok i env req none identity w {a} {w'} h =
    let (a, b, c) = insert_agent-ok i env req identity w h in
    inr (a, λ j q. absurd (none-ne-some q), b, c)
write_agent-ok i env req (some k) identity w {a} {w'} h = elim (Bool-cases (str_truthy k)) [
  | inl e ↦ inl (
    ap some (ok-injective (ap (λ p. p.0) (rw e at h))),
    subst (λ (z : String). str_truthy z ≡ true) (ok-injective (ap (λ p. p.0) (rw e at h))) e,
    subst (λ (z : String). w'.db.tables ≡ update_agent z (renewed i req identity) w.db.tables)
        (ok-injective (ap (λ p. p.0) (rw e at h))) (sym (ap (λ p. p.1.db.tables) (rw e at h))),
  )
  | inr e ↦
      let (x, y, z) = insert_agent-ok i env req identity w (rw e at h) in
      inr (x, λ j q. subst (λ (z : String). str_truthy z ≡ false) (some-injective q) e, y, z)
]

module _ (i : Issuer) (env : Env) (key : Option String) (req : AgentRegisterRequest)
    (existing : Option String) (old : Option TrustedIdentity) where
  abbrev response : String → Exec AgentRegisterResponse
  response a = commit_db >> pure (record { agent_id = a; token = i.token })

  pub register_as-ok :
      (w : World) {resp : AgentRegisterResponse} {w' : World}
      → register_as i env key req existing old w ≡ (ok resp, w')
      → (requested : Option TrustedIdentity) × (identity : Option TrustedIdentity)
        × (requested_identity i env key req ≡ ok requested)
        × (final_identity old requested ≡ ok identity)
        × (resp.token ≡ i.token)
        × Written i env req existing identity resp.agent_id w.db.tables w'.db.tables
  unfolding commit
  register_as-ok w {resp} {w'} h =
      let (requested, e, h') =
        bind-eq-ok (of_result (requested_identity i env key req))
          (λ r.
            of_result (final_identity old r) >>= λ d. write_agent i env req existing d >>= response)
          w h in
      let (identity, e', h'') =
        bind-eq-ok (of_result (final_identity old requested))
          (λ d. write_agent i env req existing d >>= response) w h' in
      let (agent, e'', h3) = bind-eq-ok (write_agent i env req existing identity) response w h'' in
      (
        requested,
        identity,
        ap (λ p. p.0) e,
        ap (λ p. p.0) e',
        sym (ap (λ r. r.token) (ok-injective (ap (λ p. p.0) h3))),
        subst (λ (t : Tables). Written i env req existing identity resp.agent_id w.db.tables t)
            (ap (λ p. p.1.db.tables) h3)
            (subst
              (λ (z : String).
                Written i env req existing identity z w.db.tables
                  (write_agent i env req existing identity w).1.db.tables)
              (ap (λ r. r.agent_id) (ok-injective (ap (λ p. p.0) h3)))
              (write_agent-ok i env req existing identity w e'')),
      )
