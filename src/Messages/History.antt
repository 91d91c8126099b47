-- ===== src/Messages/History.antt =====
-- `GET /messages/` (src/claw_msg/server/routes_messages.py): the direct messages of an agent.
use claw_msg.Prelude.{
  ℕ, ◌+◌, ◌/◌, ◌≤◌, ◌≡◌, refl, sym, ap, ◌∙◌, String, Bool, true, false, ◌&&◌, ◌||◌, Option, none,
  some, List, [], ◌∷◌, arith, ◌==◌, any, ltb, leb, filter, map, take, length, opt_eq, str_truthy,
  if◌then◌else◌, All, All-filter, All-take, All-mono, length-take_le, length-map, take_all, inl,
  inr, ◌⊎◌, Bool-cases, Option-cases,
}
use claw_msg.Schema.{MessageRow, Tables, has_agent, agent_is, message_is}
use claw_msg.Table.{order_desc}
use claw_msg.Table.Laws.{any-filter, filter_congr}
use claw_msg.Table.Order.{
  IsDescending, order_desc-IsDescending, take-IsDescending, All-order_desc, any-order_desc,
  length-order_desc,
}
use claw_msg.Exec.{MsgData, Result, ok, raised, http, ok-injective, raised-ne-ok}
use claw_msg.OfflineQueue.{msg_data, created}
use claw_msg.MessageValidation.{resolve_agent_target, is_ambiguous_agent_name}

abbrev pub is_null : Option String → Bool
is_null none = true
is_null (some s) = false

-- The second condition of the query, where a peer is given.
abbrev pub between : String → Option String → MessageRow → Bool
between agent none m = true
between agent (some peer) m =
    if str_truthy peer
    then ((m.from_agent == agent) && opt_eq m.to_agent peer)
      || ((m.from_agent == peer) && opt_eq m.to_agent agent)
    else true

-- `_normalize_since`: the time to the second.
abbrev pub normalize_since : ℕ → ℕ
normalize_since since = since / 1000000

abbrev pub is_after : Option ℕ → MessageRow → Bool
is_after none m = true
is_after (some since) m = ltb (normalize_since since) m.created_at

-- The message is a direct one, from the agent or to it.
abbrev pub is_own : String → MessageRow → Bool
is_own agent m = is_null m.room_id && ((m.from_agent == agent) || opt_eq m.to_agent agent)

-- The whole condition; the join with the sender's row asks that there is one.
abbrev pub in_history : Tables → String → Option String → Option ℕ → MessageRow → Bool
in_history t agent peer since m =
    (is_own agent m && between agent peer m) && (is_after since m && has_agent t m.from_agent)

unfoldable pub history_rows : Tables → String → Option String → Option ℕ → ℕ → List MessageRow
history_rows t agent peer since limit =
    take limit (order_desc created (filter (in_history t agent peer since) t.messages))

abbrev pub query_history : Tables → String → Option String → Option ℕ → ℕ → Result (List MsgData)
query_history t agent peer since limit =
    ok (map (msg_data t) (history_rows t agent peer since limit))

-- A peer of an unknown name has no messages; an ambiguous one is an error.
abbrev pub history_of_peer :
    Tables → String → String → Option String → Option ℕ → ℕ → Result (List MsgData)
history_of_peer t agent name (some peer) since limit = query_history t agent (some peer) since limit
history_of_peer t agent name none since limit =
    if is_ambiguous_agent_name name t
    then raised (http 409 "Multiple agents with that name. Use UUID instead.")
    else ok []

unfoldable pub get_messages : Tables → String → Option String → Option ℕ → ℕ → Result (List MsgData)
get_messages t agent none since limit = query_history t agent none since limit
get_messages t agent (some name) since limit =
    if str_truthy name
    then history_of_peer t agent name (resolve_agent_target name t) since limit
    else query_history t agent none since limit

history_rows-own :
    (t : Tables) (agent : String) (peer : Option String) (since : Option ℕ) (limit : ℕ)
    → All (λ m. is_own agent m ≡ true) (history_rows t agent peer since limit)
unfolding history_rows
history_rows-own t agent peer since limit = All-take _ limit _ (
    All-order_desc created _ _ (
      All-mono (λ m. in_history t agent peer since m ≡ true) (λ m. is_own agent m ≡ true) _
        (λ m h. ground arith) (All-filter (in_history t agent peer since) t.messages)))

-- What a request asks for, apart from the query. With a peer: what has gone between the two.
abbrev pub goes : String → String → MessageRow → Bool
goes from to m = (m.from_agent == from) && opt_eq m.to_agent to

abbrev pub is_with : String → Option String → MessageRow → Bool
is_with agent none m = (m.from_agent == agent) || opt_eq m.to_agent agent
is_with agent (some peer) m =
    if peer == ""
    then (m.from_agent == agent) || opt_eq m.to_agent agent
    else goes agent peer m || goes peer agent m

abbrev pub is_later : Option ℕ → MessageRow → Bool
is_later none m = true
is_later (some since) m = leb (since / 1000000 + 1) m.created_at

abbrev pub is_wanted : Tables → String → Option String → Option ℕ → MessageRow → Bool
is_wanted t agent peer since m =
    is_null m.room_id
    && (is_with agent peer m && (is_later since m && any (agent_is m.from_agent) t.agents))

is_after-eq : (since : Option ℕ) (m : MessageRow) → is_after since m ≡ is_later since m
is_after-eq none m = refl
is_after-eq (some since) m = ground arith

own_between :
    (agent : String) (peer : Option String) (m : MessageRow)
    → (is_own agent m && between agent peer m) ≡ (is_null m.room_id && is_with agent peer m)
own_between agent none m = ground arith
own_between agent (some peer) m = ground arith

and_regroup :
    (a b c d e f : Bool) → (a && b) ≡ (e && f) → ((a && b) && (c && d)) ≡ (e && (f && (c && d)))
and_regroup a b c d e f h = ground arith

in_history-eq :
    (t : Tables) (agent : String) (peer : Option String) (since : Option ℕ) (m : MessageRow)
    → in_history t agent peer since m ≡ is_wanted t agent peer since m
unfolding has_agent
in_history-eq t agent peer since m = rw (is_after-eq since m) (
    and_regroup (is_own agent m) (between agent peer m) (is_later since m) _ (is_null m.room_id)
      (is_with agent peer m) (own_between agent peer m))

-- At most `limit` messages come back, newest first. Each is a direct message with a known sender:
-- one between the agent and the peer where a peer that is not empty is given, else one from or to
-- the agent; and with a `since` it is of a later second.
pub history_rows_lem :
    (t : Tables) (agent : String) (peer : Option String) (since : Option ℕ) (limit : ℕ)
    → (length (history_rows t agent peer since limit) ≤ limit)
      × IsDescending created (history_rows t agent peer since limit)
      × All (λ m. is_wanted t agent peer since m ≡ true) (history_rows t agent peer since limit)
unfolding history_rows
history_rows_lem t agent peer since limit =
    let found = filter (in_history t agent peer since) t.messages in
    (
      length-take_le limit (order_desc created found),
      take-IsDescending created limit _ (order_desc-IsDescending created found),
      All-take _ limit _ (
          All-order_desc created _ _ (
            All-mono (λ m. in_history t agent peer since m ≡ true)
              (λ m. is_wanted t agent peer since m ≡ true) _
              (λ m h. sym (in_history-eq t agent peer since m) ∙ h)
              (All-filter (in_history t agent peer since) t.messages))),
    )

-- If no more than `limit` messages are asked for, each of them comes back, and no other: the direct
-- messages with a known sender that are between the agent and the peer, or without a peer are from or
-- to the agent, and with a `since` are of a later second.
pub history_rows_complete :
    (t : Tables) (agent : String) (peer : Option String) (since : Option ℕ) (limit : ℕ)
    (id : String)
    → length (filter (is_wanted t agent peer since) t.messages) ≤ limit
    → any (message_is id) (history_rows t agent peer since limit)
      ≡ any (λ m. message_is id m && is_wanted t agent peer since m) t.messages
unfolding history_rows
history_rows_complete t agent peer since limit id fits =
    let found = filter (is_wanted t agent peer since) t.messages in
    ap (λ ms. any (message_is id) (take limit (order_desc created ms)))
      (filter_congr (in_history t agent peer since) (is_wanted t agent peer since) t.messages
        (in_history-eq t agent peer since))
    ∙ ap (any (message_is id))
        (take_all limit (order_desc created found) (omega (arith, length-order_desc created found)))
    ∙ any-order_desc created (message_is id) found
    ∙ any-filter (is_wanted t agent peer since) (message_is id) t.messages

get_messages_cases :
    (t : Tables) (agent : String) (peer : Option String) (since : Option ℕ) (limit : ℕ)
    {msgs : List MsgData}
    → get_messages t agent peer since limit ≡ ok msgs
    → (msgs ≡ [])
      ⊎ ((p : Option String) × (msgs ≡ map (msg_data t) (history_rows t agent p since limit)))
unfolding get_messages
get_messages_cases t agent none since limit h = inr (none, sym (ok-injective h))
get_messages_cases t agent (some name) since limit h = elim (Bool-cases (str_truthy name)) [
  | inr e ↦ inr (none, sym (ok-injective (rw e at h)))
  | inl e ↦ elim (Option-cases (resolve_agent_target name t)) [
    | inr (k, r) ↦ inr (some k, sym (ok-injective (rw (e, r) at h)))
    | inl r ↦ elim (Bool-cases (is_ambiguous_agent_name name t)) [
      | inl a ↦ absurd (raised-ne-ok (rw (e, r, a) at h))
      | inr a ↦ inl (sym (ok-injective (rw (e, r, a) at h)))
    ]
  ]
]

-- The message is a direct one that the agent has sent or received.
abbrev pub is_own_data : String → MsgData → Bool
is_own_data agent d = is_null d.room_id && ((d.from_agent == agent) || opt_eq d.to_agent agent)

own_rows :
    (t : Tables) (agent : String) (rows : List MessageRow)
    → All (λ m. is_own agent m ≡ true) rows
    → All (λ d. is_own_data agent d ≡ true) (map (msg_data t) rows)
unfolding msg_data
own_rows t agent [] a = tt
own_rows t agent (m ∷ rows) a = (a.0, own_rows t agent rows a.1)

-- An agent is shown no message but direct ones of its own, whatever peer it asks for, and at most
-- `limit` of them.
pub get_messages_private :
    (t : Tables) (agent : String) (peer : Option String) (since : Option ℕ) (limit : ℕ)
    {msgs : List MsgData}
    → get_messages t agent peer since limit ≡ ok msgs
    → All (λ d. is_own_data agent d ≡ true) msgs × (length msgs ≤ limit)
get_messages_private t agent peer since limit h =
    elim (get_messages_cases t agent peer since limit h) [
      | inl e ↦ rw e (tt, omega arith)
      | inr (p, e) ↦ rw e (
        own_rows t agent (history_rows t agent p since limit)
            (history_rows-own t agent p since limit),
        omega (
          arith,
          length-map (msg_data t) (history_rows t agent p since limit),
          (history_rows_lem t agent p since limit).0,
        ),
      )
    ]
