-- ===== src/Client/Calls.antt =====
-- How the client's calls end (src/claw_msg/client): with a value or an exception of httpx or of
-- Python. What a call has changed stays changed when it raises.
use claw_msg.Prelude.{◌≡◌, refl, ap, ℕ, String, Option, none, some, leb, ◌&&◌, if◌then◌else◌}
use claw_msg.Json.{Json, null, boolean, number, str, array, object, get_field}
use claw_msg.Client.Http.{Request}

-- `httpx.HTTPStatusError`, another error of httpx, and Python's own.
pub data ClientError : Type 0 where
  http_status_error : ℕ → ClientError
  request_error key_error type_error : ClientError
  runtime_error value_error : String → ClientError

pub data Outcome (A : Type 0) : Type 0 where
  returns : A → Outcome A
  raises : ClientError → Outcome A

pub record Response : Type 0 where
  pub status : ℕ
  pub body : Json

-- `httpx`: the reply to a request, or none when it raises.
abbrev pub Transport : Type 0 → Type 0
Transport S = Request → S → Option Response × S

abbrev pub Call : Type 0 → Type 0 → Type 0
Call W A = W → Outcome A × W

module _ {W : Type 0} where
  module _ {A : Type 0} where
    abbrev pub done : A → Call W A
    done a w = (returns a, w)

    abbrev pub fail : ClientError → Call W A
    fail e w = (raises e, w)

  abbrev pub proceed : {A B : Type 0} → Outcome A → (A → Call W B) → Call W B
  proceed (returns a) f w = f a w
  proceed (raises e) f w = (raises e, w)

  infixl 5 ◌>>=◌ ◌>>◌
  abbrev pub ◌>>=◌ : {A B : Type 0} → Call W A → (A → Call W B) → Call W B
  ◌>>=◌ m f w = let (r, w') = m w in proceed r f w'

  abbrev pub ◌>>◌ : {B : Type 0} → Call W (Unit {0}) → Call W B → Call W B
  m >> k = m >>= λ _. k

-- `raise_for_status` and `json`
abbrev pub json_of : Option Response → Outcome Json
json_of none = raises request_error
json_of (some r) =
    if leb 200 r.status && leb r.status 299
    then returns r.body
    else raises (http_status_error r.status)

-- `result[key]` of a text
abbrev pub text_of : Option Json → Outcome String
text_of none = raises key_error
text_of (some null) = raises type_error
text_of (some (boolean b)) = raises type_error
text_of (some (number n)) = raises type_error
text_of (some (str s)) = returns s
text_of (some (array xs)) = raises type_error
text_of (some (object fs)) = raises type_error

unfoldable pub text_at : String → Json → Outcome String
text_at key null = raises type_error
text_at key (boolean b) = raises type_error
text_at key (number n) = raises type_error
text_at key (str s) = raises type_error
text_at key (array xs) = raises type_error
text_at key (object fs) = text_of (get_field key fs)

pub raises-ne-returns : {A : Type 0} {e : ClientError} {a : A} → raises e ≡ returns a → ⊥
raises-ne-returns h = cc

pub returns-injective : {A : Type 0} {a b : A} → returns a ≡ returns b → a ≡ b
returns-injective h = cc

-- A call that has returned has returned from its first part and from the rest.
pub returned :
    {A B W : Type 0} (r : Outcome A) (f : A → Call W B) (w : W) {b : B} {w' : W}
    → proceed r f w ≡ (returns b, w')
    → (a : A) × (r ≡ returns a) × (f a w ≡ (returns b, w'))
returned (returns a) f w h = (a, refl, h)
returned (raises e) f w h = absurd (raises-ne-returns (ap (λ p. p.0) h))
