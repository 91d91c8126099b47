-- ===== src/Client/Http/Bearer.antt =====
-- The header of a client (src/claw_msg/client/http.py) as a broker reads it
-- (src/claw_msg/server/auth.py).
use Prim.Native.String.{◌++◌}
use text.Mathlib.Text.{starts_with}
use text.Mathlib.TextEquality.{starts_with_iff}
use text.Mathlib.TextLemmas.{cons-append, nil-append}
use claw_msg.Prelude.{
  ◌≡◌, refl, sym, ap, ◌∙◌, String, true, some, ◌==◌, str_truthy, eq_iff, Bool-cases, inl, inr,
}
use mathlib.Core.Bool.{false≢true}
use claw_msg.Schema.{Tables}
use claw_msg.Auth.{
  Crypto, bearer_token, agent_or_401, authenticate_token, get_current_agent, drop_chars,
}
use claw_msg.Client.Http.{authorization_of}

bearer_starts : (token : String) → starts_with ("Bearer " ++ token) "Bearer " ≡ true
bearer_starts token = let w = starts_with_iff ("Bearer " ++ token) "Bearer " in w.1 (token, refl)

bearer_truthy : (token : String) → str_truthy ("Bearer " ++ token) ≡ true
bearer_truthy token = elim (Bool-cases (("Bearer " ++ token) == "")) [
  | inl e ↦
      let w = eq_iff ("Bearer " ++ token) "" in
      absurd (false≢true (ap (λ s. starts_with s "Bearer ") (sym (w.0 e)) ∙ bearer_starts token))
  | inr e ↦ rw e refl
]

drop_bearer : (token : String) → drop_chars 7 ("Bearer " ++ token) ≡ token
unfolding drop_chars
drop_bearer token =
    ap (drop_chars 7) (cons-append "B" "earer " token)
    ∙ ap (drop_chars 6) (cons-append "e" "arer " token)
    ∙ ap (drop_chars 5) (cons-append "a" "rer " token)
    ∙ ap (drop_chars 4) (cons-append "r" "er " token)
    ∙ ap (drop_chars 3) (cons-append "e" "r " token)
    ∙ ap (drop_chars 2) (cons-append "r" " " token)
    ∙ ap (drop_chars 1) (cons-append " " "" token)
    ∙ nil-append token

pub bearer-authorization_of :
    (token : String) → bearer_token (some (authorization_of token)) ≡ some token
unfolding authorization_of
bearer-authorization_of token = rw (bearer_truthy, bearer_starts) (ap some (drop_bearer token))

-- The broker takes the agent of a client's request from the very token that the client was made
-- with: the header that it writes is read back whole.
pub get_current_agent-authorization_of :
    (c : Crypto) (token : String) (t : Tables)
    → get_current_agent c (some (authorization_of token)) t
      ≡ agent_or_401 (authenticate_token c token t)
unfolding get_current_agent
get_current_agent-authorization_of c token t = rw (bearer-authorization_of token) refl
