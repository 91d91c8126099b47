-- ===== src/Tests/RateLimit.antt =====
-- Runs of the rate limiter.
use claw_msg.Prelude.{◌+◌, ◌-◌, ◌*◌, ◌≤◌, ◌≡◌, refl, true, none, [], ◌∷◌, arith, ◌==◌}
use claw_msg.Prelude.Dict.{get, put}
use claw_msg.RateLimit.{TokenBucket, token, new_bucket, allow}
use claw_msg.RateLimit.Bucket.{IsMonotone, end_of}
use claw_msg.RateLimit.Limiter.{
  Calls, times_of, allowed_for, allowed_for_bound, after_calls, allow_after_pause,
}

abbrev calls : Calls
calls = (10, "a") ∷ (11, "b") ∷ (12, "a") ∷ (13, "a") ∷ []

two_of_three : allowed_for 2 "a" calls [] ≡ 2
unfolding allowed_for allow get put ◌==◌ new_bucket
two_of_three = refl

calls-IsMonotone : IsMonotone 5 (times_of "a" calls)
unfolding times_of ◌==◌
calls-IsMonotone = omega arith

no_bucket : get {V = TokenBucket} [] "a" ≡ none
unfolding get
no_bucket = refl

allowed_for_bound_example :
    allowed_for 2 "a" calls [] * token ≤ 2 * token + (end_of 5 (times_of "a" calls) - 5) * 2
allowed_for_bound_example = allowed_for_bound 2 5 "a" calls [] no_bucket calls-IsMonotone

paused : token ≤ (30000000013 - end_of 5 (times_of "a" calls)) * 2
unfolding times_of ◌==◌
paused = omega arith

-- The third call of "a" is refused, the one after the pause is not.
allow_after_pause_example : (allow 2 30000000013 "a" (after_calls 2 calls [])).1 ≡ true
allow_after_pause_example =
    allow_after_pause 2 5 30000000013 "a" calls [] (omega arith) no_bucket calls-IsMonotone paused
