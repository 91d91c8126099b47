-- ===== src/RateLimit/Limiter.antt =====
-- The limiter keeps the agents' buckets apart (src/claw_msg/server/rate_limit.py).
use claw_msg.Prelude.{
  ℕ, ◌+◌, ◌-◌, ◌*◌, ◌≤◌, ◌≡◌, refl, sym, ap, ◌∙◌, true, String, Option, none, some, List, [], ◌∷◌,
  arith, ◌==◌, eq_iff, if◌then◌else◌, Bool-cases, inl, inr,
}
use mathlib.Core.Path.{subst}
use claw_msg.Prelude.Dict.{get, get-put}
use claw_msg.RateLimit.{TokenBucket, Buckets, token, new_bucket, consume, or_new, allow}
use claw_msg.RateLimit.Bucket.{
  consume_all, IsMonotone, end_of, consume_all_bound, consume_spend, consume-refilled, consume_new,
}

-- A run of calls, each with its time and its agent.
abbrev pub Calls : Type 0
Calls = List (ℕ × String)

-- The times of the calls of one agent.
unfoldable pub times_of : String → Calls → List ℕ
times_of k [] = []
times_of k ((now, a) ∷ calls) = let rest = times_of k calls in if a == k then now ∷ rest else rest

-- How many calls of one agent a run allows, among those of all the others.
unfoldable pub allowed_for : ℕ → String → Calls → Buckets → ℕ
allowed_for rate k [] d = 0
allowed_for rate k ((now, a) ∷ calls) d =
    let (d', ok) = allow rate now a d in
    let n = allowed_for rate k calls d' in if a == k then (if ok then n + 1 else n) else n

-- The same count for a bucket of the agent's own, made at its first call if there is none.
unfoldable pub allowed_alone : ℕ → List ℕ → Option TokenBucket → ℕ
allowed_alone rate [] o = 0
allowed_alone rate (now ∷ times) none = (consume_all (now ∷ times) (new_bucket rate now)).1
allowed_alone rate (now ∷ times) (some b) = (consume_all (now ∷ times) b).1

-- A call writes the bucket of its own agent.
pub get-allow :
    (rate now : ℕ) (a k : String) (d : Buckets)
    → get (allow rate now a d).0 k
      ≡ (if a == k then some (consume now (or_new rate now (get d a))).0 else get d k)
unfolding allow
get-allow rate now a k d = get-put d a k (consume now (or_new rate now (get d a))).0

allowed_alone-some :
    (rate : ℕ) (times : List ℕ) (b : TokenBucket)
    → allowed_alone rate times (some b) ≡ (consume_all times b).1
unfolding allowed_alone consume_all
allowed_alone-some rate [] b = refl
allowed_alone-some rate (now ∷ times) b = refl

allowed_alone_step :
    (rate now : ℕ) (times : List ℕ) (o : Option TokenBucket)
    → allowed_alone rate (now ∷ times) o ≡ (
        let (b, ok) = consume now (or_new rate now o) in
        let n = allowed_alone rate times (some b) in if ok then n + 1 else n)
unfolding allowed_alone consume_all
allowed_alone_step rate now times none = simp allowed_alone-some
allowed_alone_step rate now times (some b) = simp allowed_alone-some

allow_answer :
    (rate now : ℕ) (a : String) (d : Buckets)
    → (allow rate now a d).1 ≡ (consume now (or_new rate now (get d a))).1
unfolding allow
allow_answer rate now a d = refl

none_allowed : (rate : ℕ) (o : Option TokenBucket) → 0 ≡ allowed_alone rate [] o
unfolding allowed_alone
none_allowed rate none = refl
none_allowed rate (some b) = refl

own_call :
    (rate : ℕ) (k : String) (now : ℕ) (a : String) (calls : Calls) (d : Buckets)
    → a ≡ k
    → allowed_for rate k calls (allow rate now a d).0
      ≡ allowed_alone rate (times_of k calls) (some (consume now (or_new rate now (get d a))).0)
    → (let n = allowed_for rate k calls (allow rate now a d).0 in
        if (allow rate now a d).1 then n + 1 else n)
      ≡ allowed_alone rate (now ∷ times_of k calls) (get d k)
own_call rate k now a calls d e ih = rw (ih, allow_answer, e, allowed_alone_step)

-- What the others call changes nothing for an agent.
pub allowed_for-eq-allowed_alone :
    (rate : ℕ) (k : String) (calls : Calls) (d : Buckets)
    → allowed_for rate k calls d ≡ allowed_alone rate (times_of k calls) (get d k)
unfolding allowed_for times_of
allowed_for-eq-allowed_alone rate k [] d = none_allowed rate (get d k)
allowed_for-eq-allowed_alone rate k ((now, a) ∷ calls) d =
    let d' = (allow rate now a d).0 in
    let ih = allowed_for-eq-allowed_alone rate k calls d' in
    let w = get-allow rate now a k d in
    elim (Bool-cases (a == k)) [
      | inl e ↦ rw e (
          own_call rate k now a calls d ((eq_iff a k).0 e)
            (ih ∙ ap (allowed_alone rate (times_of k calls)) (rw e at w)))
      | inr e ↦ rw e (ih ∙ ap (allowed_alone rate (times_of k calls)) (rw e at w))
    ]

mul_le_mul_right : (a b c : ℕ) → a ≤ b → a * c ≤ b * c
mul_le_mul_right a b c h = grind arith

allowed_alone_bound :
    (rate start : ℕ) (times : List ℕ)
    → IsMonotone start times
    → allowed_alone rate times none * token ≤ rate * token + (end_of start times - start) * rate
unfolding allowed_alone
allowed_alone_bound rate start [] m = omega arith
allowed_alone_bound rate start (now ∷ times) m =
    let h = consume_all_bound rate now (now ∷ times) (omega arith, m.1) in
    let later : end_of now times - now ≤ end_of start (now ∷ times) - start = omega arith in
    let more = mul_le_mul_right (end_of now times - now) (end_of now times - start) rate later in
    omega arith

-- An agent that has no bucket yet is allowed at most `rate` calls at once and, beyond them, what
-- the time of its calls refills, however its calls stand among those of the others: in shares,
-- `token` to a call, at most rate * token and rate for each tick from `start` to its last call.
-- Its calls are not before `start` and are in the order of their times.
pub allowed_for_bound :
    (rate start : ℕ) (k : String) (calls : Calls) (d : Buckets)
    → get d k ≡ none
    → IsMonotone start (times_of k calls)
    → allowed_for rate k calls d * token
      ≤ rate * token + (end_of start (times_of k calls) - start) * rate
allowed_for_bound rate start k calls d new m =
    rw (allowed_for-eq-allowed_alone, new) (allowed_alone_bound rate start (times_of k calls) m)

-- The buckets after a run.
unfoldable pub after_calls : ℕ → Calls → Buckets → Buckets
after_calls rate [] d = d
after_calls rate ((now, a) ∷ calls) d = after_calls rate calls (allow rate now a d).0

-- The bucket of an agent whose last call was at `t`.
abbrev LastAt : ℕ → ℕ → Option TokenBucket → Type 0
LastAt rate t none = Unit
LastAt rate t (some b) = (b.capacity ≡ rate) × (b.last_refill ≡ t)

consume-LastAt :
    (rate t now : ℕ) (o : Option TokenBucket)
    → LastAt rate t o
    → t ≤ now
    → LastAt rate now (some (consume now (or_new rate now o)).0)
unfolding new_bucket
consume-LastAt rate t now none l h =
    let s = consume_spend now (new_bucket rate now) (omega arith) in (s.1, s.2)
consume-LastAt rate t now (some b) l h =
    let s = consume_spend now b (omega (arith, l.1)) in (s.1 ∙ l.0, s.2)

after_calls-LastAt :
    (rate t : ℕ) (k : String) (calls : Calls) (d : Buckets)
    → LastAt rate t (get d k)
    → IsMonotone t (times_of k calls)
    → LastAt rate (end_of t (times_of k calls)) (get (after_calls rate calls d) k)
unfolding after_calls times_of
after_calls-LastAt rate t k [] d l m = l
after_calls-LastAt rate t k ((now, a) ∷ calls) d l m =
    let d' = (allow rate now a d).0 in
    let w = get-allow rate now a k d in
    elim (Bool-cases (a == k)) [
      | inl e ↦
          let (first, rest) : (t ≤ now) × IsMonotone now (times_of k calls) = rw e at m in
          rw e (
            after_calls-LastAt rate now k calls d'
              (subst (λ (o : Option TokenBucket). LastAt rate now o) (sym (rw e at w))
                (consume-LastAt rate t now (get d a)
                  (subst (λ (j : String). LastAt rate t (get d j)) (sym ((eq_iff a k).0 e)) l)
                  first))
              rest)
      | inr e ↦ rw e (
          after_calls-LastAt rate t k calls d'
            (subst (λ (o : Option TokenBucket). LastAt rate t o) (sym (rw e at w)) l) (rw e at m))
    ]

allow-LastAt :
    (rate t now : ℕ) (o : Option TokenBucket)
    → 1 ≤ rate
    → LastAt rate t o
    → token ≤ (now - t) * rate
    → (consume now (or_new rate now o)).1 ≡ true
allow-LastAt rate t now none c l h = consume_new rate now c
allow-LastAt rate t now (some b) c l h =
    consume-refilled now b (omega (arith, l.0)) (rw (l.0, l.1) h)

-- No agent is locked out: however often it has called, and however many of the calls were refused
-- or were those of others, its next call is allowed if the time since its last call refills one
-- token. The rate is not 0, the agent had no bucket at `start`, its calls are not before `start` and
-- in the order of their times; if it has not called, its last call counts as one at `start`.
pub allow_after_pause :
    (rate start now : ℕ) (k : String) (calls : Calls) (d : Buckets)
    → 1 ≤ rate
    → get d k ≡ none
    → IsMonotone start (times_of k calls)
    → token ≤ (now - end_of start (times_of k calls)) * rate
    → (allow rate now k (after_calls rate calls d)).1 ≡ true
allow_after_pause rate start now k calls d c new m h =
    allow_answer rate now k (after_calls rate calls d)
    ∙ allow-LastAt rate _ now (get (after_calls rate calls d) k) c
        (after_calls-LastAt rate start k calls d
          (subst (λ (o : Option TokenBucket). LastAt rate start o) (sym new) tt) m)
        h
