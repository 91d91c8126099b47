-- ===== src/Messages/Outcome.antt =====
-- How `send_message` ends (src/claw_msg/server/routes_messages.py).
use claw_msg.Prelude.{
  ℕ, ltb, ◌≡◌, refl, ◌∙◌, ◌⊎◌, inl, inr, String, Bool, true, false, not, Option, none, some, [],
  ◌∷◌, arith, eq_refl, ◌==◌, any, any-append, str_truthy, All, if◌then◌else◌, Bool-cases,
  Option-cases,
}
use claw_msg.Schema.{Tables, has_message, has_agent, message_is, message_fits, IsWellFormed, commit}
use claw_msg.Table.{count_where}
use claw_msg.RateLimit.{Buckets, allow}
use claw_msg.RateLimit.Limiter.{get-allow}
use claw_msg.Prelude.Dict.{get}
use claw_msg.Exec.{MsgData, message_receive, Env, World, Result, ok, raised, http}
use claw_msg.MessageValidation.{
  name_is, resolve_agent_target, is_ambiguous_agent_name, get_message_target_error, first_error,
}
use claw_msg.MessageValidation.Targets.{resolve_found}
use claw_msg.Messages.{
  MessageSendRequest, no_target, resolve_to, members_of, store_message, store_and_deliver,
  send_message, message_row, msg_data_of,
}
use claw_msg.Messages.Checks.{after_rate, after_store}
use claw_msg.Messages.Returns.{deliver-returns, members_exist}

-- The first check that fails, in the order of the code, as the status and the detail of the answer.
abbrev pub resolved_or_none : Option String → Tables → Option String
resolved_or_none none t = none
resolved_or_none (some name) t = if str_truthy name then resolve_agent_target name t else none

abbrev pub unresolved : Option String → Tables → Option (ℕ × String)
unresolved none t = none
unresolved (some name) t =
    if not (str_truthy name) then none else elim (resolve_agent_target name t) [
      | some k ↦ none
      | none ↦
          if ltb 1 (count_where (name_is name) t.agents)
          then some (409, "Multiple agents with that name. Use UUID instead.")
          else some (404, "Recipient agent not found")
    ]

abbrev pub when : Bool → ℕ → String → Option (ℕ × String)
when b code detail = if b then some (code, detail) else none

abbrev pub refusal : Env → MessageSendRequest → String → World → Option (ℕ × String)
refusal env req sender w = first_error (when (no_target req) 400 "Must specify 'to' or 'room_id'") (
    first_error (unresolved req.to w.db.tables) (
      first_error
        (when (not (allow env.config.rate_limit_per_min env.monotonic sender w.buckets).1) 429
          "Rate limit exceeded")
        (get_message_target_error sender (resolved_or_none req.to w.db.tables) req.room_id
          w.db.tables)))

-- A refused call answers with the check that failed, and leaves the database, the sockets, the wire
-- and the buckets of the others as they were; a call that is not refused returns.
abbrev pub Ends : Option (ℕ × String) → String → World → Result MsgData × World → Type 0
Ends none sender w r = (msg : MsgData) × (r.0 ≡ ok msg)
Ends (some (code, detail)) sender w r =
    (r.0 ≡ raised (http code detail))
    × ((k : String)
        → get r.1.buckets k ≡ (if sender == k then get r.1.buckets k else get w.buckets k))
    × (r.1.db ≡ w.db)
    × (r.1.connections ≡ w.connections)
    × (r.1.wire ≡ w.wire)

resolve_cases :
    (o : Option String) (w : World)
    → ((unresolved o w.db.tables ≡ none)
        × (resolve_to o w ≡ (ok (resolved_or_none o w.db.tables), w))
        × ((k : String) → resolved_or_none o w.db.tables ≡ some k → has_agent w.db.tables k ≡ true))
      ⊎ ((code : ℕ) × (detail : String) × (unresolved o w.db.tables ≡ some (code, detail))
          × (resolve_to o w ≡ (raised (http code detail), w)))
unfolding is_ambiguous_agent_name
resolve_cases none w = inl (refl, refl, λ k h. cc)
resolve_cases (some name) w = elim (Bool-cases (str_truthy name)) [
  | inr e ↦ inl (rw e, rw e, λ k h. cc)
  | inl e ↦ elim (Option-cases (resolve_agent_target name w.db.tables)) [
    | inr (k, r) ↦ inl (rw (e, r), rw (e, r), λ j h. (resolve_found name w.db.tables (rw e at h)).0)
    | inl r ↦ elim (Bool-cases (ltb 1 (count_where (name_is name) w.db.tables.agents))) [
      | inl many ↦ inr (
        409,
        "Multiple agents with that name. Use UUID instead.",
        rw (e, r, many),
        rw (e, r, many),
      )
      | inr few ↦ inr (404, "Recipient agent not found", rw (e, r, few), rw (e, r, few))
    ]
  ]
]

module _ (env : Env) (req : MessageSendRequest) (sender : String) (to : Option String)
    (w : World) where
  stored_there : has_message (after_store env sender to req w).db.tables env.uuid ≡ true
  unfolding after_store has_message any
  stored_there =
      any-append (message_is env.uuid) w.db.tables.messages (message_row env sender to req ∷ [])
      ∙ ground (arith, eq_refl env.uuid)

  stored_agents :
      (k : String)
      → has_agent w.db.tables k ≡ true
      → has_agent (after_store env sender to req w).db.tables k ≡ true
  unfolding after_store has_agent
  stored_agents k h = h

  stored_rooms :
      (r : String)
      → IsWellFormed w.db.tables
      → All
          (λ k. has_agent (after_store env sender to req w).db.tables k ≡ true)
          (members_of r (after_store env sender to req w).db.tables)
  unfolding after_store has_agent members_of
  stored_rooms r wf = members_exist w.db.tables r w.db.tables.room_members wf.members_refer

  -- What has passed the checks is stored and delivered.
  store_and_deliver-returns :
      IsWellFormed w.db.tables
      → has_agent w.db.tables sender ≡ true
      → has_message w.db.tables env.uuid ≡ false
      → ((k : String) → to ≡ some k → has_agent w.db.tables k ≡ true)
      → (msg : MsgData) × ((store_and_deliver env req sender to w).0 ≡ ok msg)
  unfolding store_message message_fits after_store commit
  store_and_deliver-returns wf known new exists =
      let v = after_store env sender to req w in
      let msg = msg_data_of env sender to req v.db.tables in
      (
        msg,
        rw (new, known)
            (rw (
              deliver-returns env env.uuid (message_receive msg) sender to req.room_id v
                stored_there (λ k e. stored_agents k (exists k e)) (λ r. stored_rooms r wf))),
      )

unchanged : (sender k : String) (d : Buckets) → get d k ≡ (if sender == k then get d k else get d k)
unchanged sender k d = ground arith

-- A call takes from the sender's bucket only.
others_kept :
    (rate now : ℕ) (sender k : String) (d : Buckets)
    → get (allow rate now sender d).0 k
      ≡ (if sender == k then get (allow rate now sender d).0 k else get d k)
others_kept rate now sender k d =
    let e = get-allow rate now sender k d in
    elim (Bool-cases (sender == k)) [ inl s ↦ rw s refl | inr s ↦ rw s (rw s at e) ]

-- Every call ends: with a message, or with the first check that fails, which then has changed
-- nothing but the sender's bucket. No other error comes out of it, where the tables keep their
-- foreign keys, the sender is an agent and the new id is not taken.
pub send_message-Ends :
    (env : Env) (req : MessageSendRequest) (sender : String) (w : World)
    → IsWellFormed w.db.tables
    → has_agent w.db.tables sender ≡ true
    → has_message w.db.tables env.uuid ≡ false
    → Ends (refusal env req sender w) sender w (send_message env req sender w)
unfolding send_message
send_message-Ends env req sender w wf known new = elim (Bool-cases (no_target req)) [
  | inl e ↦ rw e (refl, λ k. unchanged sender k w.buckets, refl, refl, refl)
  | inr e ↦ elim (resolve_cases req.to w) [
    | inr (code, detail, u, r) ↦
        rw (e, u, r) (refl, λ k. unchanged sender k w.buckets, refl, refl, refl)
    | inl (u, r, exists) ↦
        elim (Bool-cases (allow env.config.rate_limit_per_min env.monotonic sender w.buckets).1) [
          | inr l ↦
              rw (e, u, r, l)
                (
                  refl,
                  λ k. others_kept env.config.rate_limit_per_min env.monotonic sender k w.buckets,
                  refl,
                  refl,
                  refl,
                )
          | inl l ↦
              elim (Option-cases (
                get_message_target_error sender (resolved_or_none req.to w.db.tables) req.room_id
                  w.db.tables)) [
                    | inr ((code, detail), t) ↦
                        rw (e, u, r, l, t)
                          (
                            refl,
                            λ k.
                                others_kept env.config.rate_limit_per_min env.monotonic sender k
                                  w.buckets,
                            refl,
                            refl,
                            refl,
                          )
                    | inl t ↦
                        rw (e, u, r, l, t)
                          (store_and_deliver-returns env req sender
                            (resolved_or_none req.to w.db.tables) (after_rate env sender w) wf known
                            new exists)
                  ]
        ]
  ]
]
