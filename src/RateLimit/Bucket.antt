-- ===== src/RateLimit/Bucket.antt =====
-- What a token bucket promises (src/claw_msg/server/rate_limit.py).
use claw_msg.Prelude.{
  ℕ, ◌+◌, ◌-◌, ◌*◌, ◌≤◌, ◌≡◌, true, List, [], ◌∷◌, arith, ◌∙◌, refl, Bool, false, if◌then◌else◌,
}
use claw_msg.RateLimit.{TokenBucket, token, new_bucket, consume}

-- A bucket never holds more than its capacity.
abbrev pub IsBounded : TokenBucket → Type 0
IsBounded b = b.tokens ≤ b.capacity * token

pub new_bucket-IsBounded : (c now : ℕ) → IsBounded (new_bucket c now)
unfolding new_bucket
new_bucket-IsBounded c now = omega arith

-- A run of calls at the times of the list; the count of the calls that were allowed.
unfoldable pub consume_all : List ℕ → TokenBucket → TokenBucket × ℕ
consume_all [] b = (b, 0)
consume_all (now ∷ times) b =
    let (b', ok) = consume now b in
    let (b'', n) = consume_all times b' in (b'', if ok then n + 1 else n)

-- The times of a run never go back, as `time.monotonic()` does not.
abbrev pub IsMonotone : ℕ → List ℕ → Type 0
IsMonotone t [] = Unit
IsMonotone t (now ∷ times) = (t ≤ now) × IsMonotone now times

abbrev pub end_of : ℕ → List ℕ → ℕ
end_of t [] = t
end_of t (now ∷ times) = end_of now times

pub consume_spend :
    (now : ℕ) (b : TokenBucket)
    → b.last_refill ≤ now
    → let (b', ok) = consume now b in
      (b'.tokens + (if ok then token else 0) ≤ b.tokens + (now - b.last_refill) * b.capacity)
      × (b'.capacity ≡ b.capacity)
      × (b'.last_refill ≡ now)
unfolding consume
consume_spend now b h = ground arith

pub consume-IsBounded : (now : ℕ) (b : TokenBucket) → IsBounded (consume now b).0
unfolding consume
consume-IsBounded now b = ground arith

-- A token is there if the time since the last call has refilled one.
pub consume-refilled :
    (now : ℕ) (b : TokenBucket)
    → 1 ≤ b.capacity
    → token ≤ (now - b.last_refill) * b.capacity
    → (consume now b).1 ≡ true
unfolding consume
consume-refilled now b c h = ground arith

pub consume_new : (rate now : ℕ) → 1 ≤ rate → (consume now (new_bucket rate now)).1 ≡ true
unfolding consume new_bucket
consume_new rate now c = ground arith

le-end_of : (t : ℕ) (times : List ℕ) → IsMonotone t times → t ≤ end_of t times
le-end_of t [] m = omega arith
le-end_of t (now ∷ times) m = omega (arith, le-end_of now times m.1)

-- The time of a run is the time to its first call and the rest.
elapsed_split :
    (t now last c : ℕ) → t ≤ now → now ≤ last → (last - t) * c ≡ (now - t) * c + (last - now) * c
elapsed_split t now last c h k =
    let e : last - t ≡ (now - t) + (last - now) = omega arith in rw e (omega arith)

spend_join :
    (ok : Bool) (n kept mid start gained more : ℕ)
    → mid + (if ok then token else 0) ≤ start + gained
    → kept + n * token ≤ mid + more
    → kept + (if ok then n + 1 else n) * token ≤ start + (gained + more)
spend_join true n kept mid start gained more h k = omega arith
spend_join false n kept mid start gained more h k = omega arith

-- The shares that a run leaves and spends are at most those that it began with and was refilled.
pub consume_all_spend :
    (times : List ℕ) (t c : ℕ) (b : TokenBucket)
    → b.last_refill ≡ t
    → b.capacity ≡ c
    → IsMonotone t times
    → (consume_all times b).0.tokens + (consume_all times b).1 * token
      ≤ b.tokens + (end_of t times - t) * c
unfolding consume_all
consume_all_spend [] t c b et ec m = omega arith
consume_all_spend (now ∷ times) t c b et ec m =
    let s = consume_spend now b (omega arith) in
    let rest = consume_all_spend times now c (consume now b).0 s.2 (s.1 ∙ ec) m.1 in
    let gained : b.tokens + (now - b.last_refill) * b.capacity ≡ b.tokens + (now - t) * c =
      rw (et, ec) in
    rw (elapsed_split t now (end_of now times) c m.0 (le-end_of now times m.1)) (
      spend_join (consume now b).1 _ _ (consume now b).0.tokens b.tokens _ _ (rw gained at (s.0))
        rest)

-- In any run on a new bucket the allowed calls are at most the burst and the refill of its time.
pub consume_all_bound :
    (c start : ℕ) (times : List ℕ)
    → IsMonotone start times
    → (consume_all times (new_bucket c start)).1 * token
      ≤ c * token + (end_of start times - start) * c
unfolding new_bucket
consume_all_bound c start times m =
    let h = consume_all_spend times start c (new_bucket c start) refl refl m in omega arith
