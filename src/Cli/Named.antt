-- ===== src/Cli/Named.antt =====
-- A peer that is added by its name (src/claw_msg/cli/main.py).
use claw_msg.Prelude.{◌≡◌, refl, ap, ◌∙◌, String, Bool, true, false, none, some, List, [], ◌∷◌, All}
use claw_msg.Json.{Json, null, boolean, number, str, array, object, Items, nil, cons}
use claw_msg.Client.Connection.{fields_of}
use claw_msg.Client.Calls.{
  Outcome, returns, raises, returned, raises-ne-returns, returns-injective, Transport, text_at,
}
use claw_msg.Client.Agent.{Host}
use claw_msg.Client.Agent.Methods.{search_agents}
use claw_msg.Cli.Commands.{Printer}
use claw_msg.Cli.ContactAdd.{
  contact_added, exits, exact_matches, exact_in, result_named, keep_if, choose, add_resolved,
  add_by_name,
}

abbrev pub HasName : (String → String) → String → Json → Type 0
HasName lower name a = result_named lower name (fields_of a) ≡ returns true

keep_if-All :
    (P : Json → Type 0) (r : Outcome Bool) (a : Json) (rest : Outcome (List Json))
    {exact : List Json}
    → (r ≡ returns true → P a)
    → ((found : List Json) → rest ≡ returns found → All P found)
    → keep_if r a rest ≡ returns exact
    → All P exact
keep_if-All P (raises e) a rest p q h = absurd (raises-ne-returns h)
keep_if-All P (returns b) a (raises e) p q h = absurd (raises-ne-returns h)
keep_if-All P (returns true) a (returns found) p q h =
    let same = returns-injective h in rw (← same) (p refl, q found refl)
keep_if-All P (returns false) a (returns found) p q h =
    let same = returns-injective h in rw (← same) (q found refl)

-- Each of the exact matches has the name, up to case.
exact_matches-All :
    (lower : String → String) (name : String) (items : Items) {exact : List Json}
    → exact_matches lower name items ≡ returns exact
    → All (HasName lower name) exact
unfolding exact_matches
exact_matches-All lower name nil h = let same = returns-injective h in rw (← same) tt
exact_matches-All lower name (cons a items) h =
    keep_if-All (HasName lower name) (result_named lower name (fields_of a)) a
      (exact_matches lower name items) (λ e. e) (λ found e. exact_matches-All lower name items e) h

exact_in-All :
    (lower : String → String) (name : String) (j : Json) {exact : List Json}
    → exact_in lower name j ≡ returns exact
    → All (HasName lower name) exact
exact_in-All lower name (array items) h = exact_matches-All lower name items h
exact_in-All lower name null h = absurd (raises-ne-returns h)
exact_in-All lower name (boolean b) h = absurd (raises-ne-returns h)
exact_in-All lower name (number n) h = absurd (raises-ne-returns h)
exact_in-All lower name (str s) h = absurd (raises-ne-returns h)
exact_in-All lower name (object fs) h = absurd (raises-ne-returns h)

exits-ne-contact_added : {t : String} {ls : List String} → exits t ≡ contact_added ls → ⊥
exits-ne-contact_added h = cc

-- One choice is left when the command gets on to add a peer.
only_choice :
    {S : Type 0} (broker : Transport S) (p : Printer) (lower : String → String)
    (name alias : String) (exact : List Json) (u v : Host S) {ls : List String}
    → choose broker p lower name alias exact u ≡ (returns (contact_added ls), v)
    → (a : Json) × (id : String) × (exact ≡ a ∷ [])
      × (text_at "id" a ≡ returns id)
      × (add_resolved broker p lower id alias u ≡ (returns (contact_added ls), v))
only_choice broker p lower name alias [] u v h =
    absurd (exits-ne-contact_added (returns-injective (ap (λ x. x.0) h)))
only_choice broker p lower name alias (a ∷ []) u v h =
    let (id, e, k) = returned (text_at "id" a) _ u h in (a, id, refl, e, k)
only_choice broker p lower name alias (a ∷ b ∷ more) u v h =
    absurd (exits-ne-contact_added (returns-injective (ap (λ x. x.0) h)))

-- `contacts add --peer-name` adds a peer only if its search has exactly one result of that name, up
-- to case: the peer that it adds is that result.
pub add_by_name_lem :
    {S : Type 0} (broker : Transport S) (p : Printer) (lower : String → String)
    (name alias : String) (w v : Host S) {ls : List String}
    → add_by_name broker p lower name alias w ≡ (returns (contact_added ls), v)
    → (results : Json) × (u : Host S) × (a : Json) × (id : String) × (search_agents broker
          (some name)
          none
          w
        ≡ (returns results, u))
      × (exact_in lower name results ≡ returns (a ∷ []))
      × HasName lower name a
      × (text_at "id" a ≡ returns id)
      × (add_resolved broker p lower id alias u ≡ (returns (contact_added ls), v))
unfolding add_by_name
add_by_name_lem broker p lower name alias w v h =
    let u = (search_agents broker (some name) none w).1 in
    let (results, e, k) = returned (search_agents broker (some name) none w).0 _ u h in
    let (exact, e', k') =
      returned (exact_in lower name results) (λ exact. choose broker p lower name alias exact) u
        k in
    let (a, id, one, eid, added) = only_choice broker p lower name alias exact u v k' in
    (
      results,
      u,
      a,
      id,
      λ i. (e i, u),
      e' ∙ ap returns one,
      (exact_in-All lower name results (e' ∙ ap returns one)).0,
      eid,
      added,
    )
