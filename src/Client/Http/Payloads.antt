-- ===== src/Client/Http/Payloads.antt =====
-- The bodies of the two PATCH requests (src/claw_msg/client/http.py).
use claw_msg.Prelude.{
  ◌≡◌, refl, ap, ◌∙◌, String, true, Option, none, some, [], ◌∷◌, ◌==◌, arith, if◌then◌else◌,
  is_empty, sym, eq_iff, ◌&&◌, Bool-cases, inl, inr,
}
use mathlib.Core.Bool.{false≢true}
use claw_msg.Prelude.Dict.{Dict, get, get-put}
use claw_msg.Models.{Patch, unset, nulled, given, is_unset}
use claw_msg.Client.Http.{
  Value, null, text, HttpClient, put_set, put_given, profile_payload, update_profile_request,
  get_profile_request,
}

-- How a broker reads a field of the body: missing, null, or there.
abbrev pub written : Patch String → Option Value
written unset = none
written nulled = some null
written (given s) = some (text s)

get-put_set :
    (key j : String) (p : Patch String) (d : Dict Value)
    → get d key ≡ none
    → get (put_set key p d) j ≡ (if key == j then written p else get d j)
get-put_set key j unset d h = elim (Bool-cases (key == j)) [
  | inl e ↦ let w = eq_iff key j in rw e (ap (get d) (sym (w.0 e)) ∙ h)
  | inr e ↦ rw e refl
]
get-put_set key j nulled d h = get-put d key j null
get-put_set key j (given s) d h = get-put d key j (text s)

get-put_given :
    (key j : String) (o : Option Value) (d : Dict Value)
    → get d key ≡ none
    → get (put_given key o d) j ≡ (if key == j then o else get d j)
get-put_given key j none d h = elim (Bool-cases (key == j)) [
  | inl e ↦ let w = eq_iff key j in rw e (ap (get d) (sym (w.0 e)) ∙ h)
  | inr e ↦ rw e refl
]
get-put_given key j (some v) d h = get-put d key j v

-- What an update says of a key.
abbrev pub profile_field : Patch String → Patch String → Patch String → String → Option Value
profile_field owner dm_policy public_key j =
    if "public_key" == j
    then written public_key
    else (if "dm_policy" == j
        then written dm_policy
        else (if "owner" == j then written owner else none))

get-profile_payload :
    (o d p : Patch String) (j : String) → get (profile_payload o d p) j ≡ profile_field o d p j
unfolding profile_payload ◌==◌ get
get-profile_payload o d p j =
    let e1 = get-put_set "owner" j o [] refl in
    let n1 = get-put_set "owner" "dm_policy" o [] refl in
    let e2 = get-put_set "dm_policy" j d (put_set "owner" o []) n1 in
    let n2 =
      get-put_set "dm_policy" "public_key" d (put_set "owner" o []) n1
      ∙ get-put_set "owner" "public_key" o [] refl in
    get-put_set "public_key" j p _ n2 ∙ rw (e2, e1) refl

-- The body of a request; a missing one says nothing.
abbrev pub body_of : Option (Dict Value) → Dict Value
body_of none = []
body_of (some d) = d

no_payload : (d : Dict Value) (j : String) → is_empty d ≡ true → get d j ≡ none
unfolding get
no_payload [] j h = refl
no_payload (e ∷ d) j h = absurd (false≢true h)

unset_lem : (p : Patch String) → is_unset p ≡ true → p ≡ unset
unset_lem unset h = refl
unset_lem nulled h = absurd (false≢true h)
unset_lem (given s) h = absurd (false≢true h)

all_unset :
    (o d p : Patch String)
    → (is_unset o && (is_unset d && is_unset p)) ≡ true
    → is_empty (profile_payload o d p) ≡ true
unfolding profile_payload
all_unset o d p h =
    let eo : is_unset o ≡ true = ground arith in
    let ed : is_unset d ≡ true = ground arith in
    let ep : is_unset p ≡ true = ground arith in
    rw (unset_lem o eo, unset_lem d ed, unset_lem p ep) refl

-- The request of `update_profile` says of every field what its caller gave: a field that is not
-- given is not in the body, `None` is a null, and a text is itself. Without any field it is the GET
-- of the profile.
pub update_profile_request_lem :
    (c : HttpClient) (o d p : Patch String) (j : String)
    → let r = update_profile_request c o d p in
      (get (body_of r.json) j ≡ profile_field o d p j)
      × (r.authorization ≡ some c.authorization)
      × ((is_unset o && (is_unset d && is_unset p)) ≡ true → r ≡ get_profile_request c)
unfolding update_profile_request get_profile_request get
update_profile_request_lem c o d p j = elim (Bool-cases (is_empty (profile_payload o d p))) [
  | inl e ↦
      rw e (
        sym (no_payload (profile_payload o d p) j e) ∙ get-profile_payload o d p j,
        refl,
        λ h. refl,
      )
  | inr e ↦
      rw e (get-profile_payload o d p j, refl, λ h. absurd (false≢true (sym e ∙ all_unset o d p h)))
]
