-- ===== src/Config/Endpoint/Retry.antt =====
-- src/config.c: the retried lookup of `parse_endpoint` ends, and how long it pauses.
use wireguard_tools.Config.Endpoint.{
  next_timeout, Lookup, pause, stop, last_try, less_retries, lookup_from, first_timeout,
}
use wireguard_tools.Config.Outcome.{done, fail, waiting}
use wireguard_tools.Config.System.{
  System, Answer, resolved, eai_noname, eai_fail, eai_nodata, eai_other,
}
use wireguard_tools.Prelude.{
  ℕ, zero, suc, ◌+◌, ◌<◌, ◌≤◌, ◌≢◌, arith, Option, none, some, Bytes, All, length, Bool-cases, inl,
  inr, if◌then◌else◌,
}

-- The lookup after `r` more retries is decided, with at most `r` pauses.
abbrev Ends : ℕ → Lookup → Type 0
Ends r l = (l.answer ≢ waiting) × (length l.pauses ≤ r)

-- What one answer leads to.
abbrev after_answer : Option ℕ → Lookup → Answer → Lookup
after_answer retries again a = elim a [
  | resolved r ↦ stop (done r)
  | eai_noname ↦ stop fail
  | eai_fail ↦ stop fail
  | eai_nodata ↦ stop fail
  | eai_other ↦ if last_try retries then stop fail else again
]

last_answer-Ends : (a : Answer) (again : Lookup) → Ends 0 (after_answer (some 0) again a)
last_answer-Ends (resolved r) again = (λ e. cc, omega arith)
last_answer-Ends _ again = (λ e. cc, omega arith)

answer-Ends :
    (a : Answer) (r t : ℕ) (rest : Lookup)
    → Ends r rest
    → Ends (suc r) (after_answer (some (suc r)) (pause t rest) a)
answer-Ends (resolved _) r t rest h = (λ e. cc, omega arith)
answer-Ends eai_other r t rest h = (h.0, omega (arith, h.1))
answer-Ends _ r t rest h = (λ e. cc, omega arith)

-- With `r` retries the loop is decided within `r + 1` attempts and pauses at most `r` times.
pub lookup_from_ends :
    (sys : System) (host port : Bytes) (more k r t : ℕ)
    → r < more
    → ((lookup_from sys host port more k (some r) t).answer ≢ waiting)
      × (length (lookup_from sys host port more k (some r) t).pauses ≤ r)
unfolding lookup_from
lookup_from_ends sys host port zero k r t h = absurd (omega arith)
lookup_from_ends sys host port (suc more) k zero t h =
    last_answer-Ends (sys.lookup k host port)
      (pause t (lookup_from sys host port more (k + 1) none (next_timeout t)))
lookup_from_ends sys host port (suc more) k (suc r) t h =
    answer-Ends (sys.lookup k host port) r t _
      (lookup_from_ends sys host port more (k + 1) r (next_timeout t) (omega arith))

-- Every pause is at least the first one and at most 20 seconds.
abbrev InRange : ℕ → Type 0
InRange t = (first_timeout ≤ t) × (t ≤ 20000000)

next_timeout-InRange : (t : ℕ) → InRange t → InRange (next_timeout t)
unfolding next_timeout
next_timeout-InRange t h = ground arith

answer-InRange :
    (a : Answer) (retries : Option ℕ) (t : ℕ) (rest : Lookup)
    → InRange t
    → All InRange rest.pauses
    → All InRange (after_answer retries (pause t rest) a).pauses
answer-InRange (resolved _) retries t rest h k = tt
answer-InRange eai_other retries t rest h k = elim (Bool-cases (last_try retries)) [
  | inl e ↦ rw e tt
  | inr e ↦ rw e (h, k)
]
answer-InRange _ retries t rest h k = tt

pauses-InRange :
    (sys : System) (host port : Bytes) (more k : ℕ) (retries : Option ℕ) (t : ℕ)
    → InRange t
    → All InRange (lookup_from sys host port more k retries t).pauses
unfolding lookup_from
pauses-InRange sys host port zero k retries t h = tt
pauses-InRange sys host port (suc more) k retries t h =
    answer-InRange (sys.lookup k host port) retries t _ h (
      pauses-InRange sys host port more (k + 1) (less_retries retries) (next_timeout t)
        (next_timeout-InRange t h))

-- The pauses between attempts are never shorter than the first one of 1 second and never longer
-- than 20 seconds, however often the lookup is repeated.
pub lookup_pauses :
    (sys : System) (host port : Bytes) (more : ℕ) (retries : Option ℕ)
    → All
        (λ t. (first_timeout ≤ t) × (t ≤ 20000000))
        (lookup_from sys host port more 0 retries first_timeout).pauses
lookup_pauses sys host port more retries =
    pauses-InRange sys host port more 0 retries first_timeout (omega arith)
