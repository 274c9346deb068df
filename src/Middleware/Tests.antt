-- ===== src/Middleware/Tests.antt =====
-- Runs of the wrapped stores, and their theorems at concrete ones.
use Prim.Native.Nat.{min}
use noydb.Base.{
  true, false, inr, ℕ, zero, suc, ◌-◌, ◌≡◌, refl, ite, Option, none, some, List, [], ◌∷◌, lookup,
  length, Text, codes, dec_text, ℕ_discrete, arith,
}
use noydb.Dict.{insert, remove}
use noydb.Store.{Envelope, StoreError, failure, ok, thrown, Method, IsLawful}
use noydb.Memory
use noydb.Memory.{Memory}
use noydb.Memory.Lawful.{memory, memory-IsLawful}
use noydb.Sync.{included}
use noydb.Middleware.Retry
use noydb.Middleware.Retry.{RetryOptions, retryable_lem, with_retry-IsLawful}
use noydb.Middleware.Breaker
use noydb.Middleware.Breaker.{
  Breaker, BreakerOptions, CircuitState, IsBelow, guarded-IsBelow, run_lem,
}
use noydb.Middleware.Health.{HealthCheckOptions, Health, IsCounting}
use noydb.Middleware.Cache
use noydb.Middleware.Cache.{CacheOptions, Entries}
use noydb.Middleware.Cache.Coherent.{IsPlain, IsCoherent, Reads, get_cached_lem, put_cached_lem}

program : Unit {0}
unfolding Memory.put Memory.get Memory.set_in Memory.delete insert remove lookup dec_text ℕ_discrete
    included Retry.retryable Retry.with_retry Breaker.guarded Cache.with_cache
program = tt

-- A call that counts its runs and fails while they are few.
abbrev flaky : ℕ → Method ℕ ℕ
flaky zero n = (suc n, ok n)
flaky (suc k) n = ite (ℕ_discrete n 2) (suc n, ok n) (suc n, thrown (failure []))

abbrev no_code : StoreError → Option Text
no_code e = none

retried : Retry.retryable no_code none 3 (flaky 1) 0 ≡ (3, ok 2)
unfolding program
retried = refl

given_up : Retry.retryable no_code none 1 (flaky 1) 0 ≡ (2, thrown (failure []))
unfolding program
given_up = refl

retryable_lem_example :
    Retry.Loop no_code none 3 (flaky 1) 0 (Retry.retryable no_code none 3 (flaky 1) 0)
retryable_lem_example = retryable_lem no_code none 3 (flaky 1) 0

abbrev retrying : RetryOptions
retrying = record { max_retries = 3; retry_on = some (codes "NETWORK" ∷ []) }

with_retry-IsLawful_example : IsLawful (Retry.with_retry no_code retrying memory)
with_retry-IsLawful_example = with_retry-IsLawful no_code retrying memory memory-IsLawful

abbrev down : Method ℕ ℕ
down n = (suc n, thrown (failure []))

abbrev breaking : BreakerOptions
breaking = record { threshold = 2; reset_ms = 100 }

abbrev healthy : Breaker
healthy = record {
  state = CircuitState.closed;
  failures = 0;
  last_failure_time = 0;
  opens = 0;
  closes = 0;
}

abbrev probing : Breaker
probing = record {
  state = CircuitState.half_open;
  failures = 2;
  last_failure_time = 0;
  opens = 1;
  closes = 0;
}

-- A failed probe leaves the circuit half open, and so does every failure after it.
failed_probe :
    (Breaker.guarded breaking 100 101 down 0 (probing, 0)).0.0.state ≡ CircuitState.half_open
unfolding program
failed_probe = refl

abbrev calls : List (ℕ × ℕ)
calls = (10, 11) ∷ (12, 13) ∷ (14, 15) ∷ (16, 17) ∷ []

run_lem_example :
    (Breaker.run breaking down 0 calls (healthy, 0)).1
    ≡ Breaker.reached breaking (min (length calls) (breaking.threshold - healthy.failures)) down 0
run_lem_example =
    run_lem breaking 10 down 0 calls healthy 0 refl (omega arith) (λ t. (failure [], refl))
      ((
        (omega arith, omega arith, omega arith),
        (
          (omega arith, omega arith, omega arith),
          ((omega arith, omega arith, omega arith), ((omega arith, omega arith, omega arith), tt)),
        ),
      ))

abbrev acme : Text
acme = codes "acme"

abbrev envelope : ℕ → Envelope
envelope n = record { noydb = 1; v = n; ts = []; iv = []; data_text = []; by = none }

abbrev caching : CacheOptions
caching = record { max_entries = 2; ttl_ms = 60 }

abbrev one : Memory
one = (acme, (acme, (codes "a", envelope 1) ∷ []) ∷ []) ∷ []

abbrev cached : Entries
cached =
    (Cache.cache_key acme acme (codes "a"), record { envelope = some (envelope 1); cached_at = 5 })
    ∷ []

-- The cache is not told of a write behind it, and `saveAll` is one.
stale : (Cache.get caching memory 6 7 acme acme (codes "a") (cached, [])).1 ≡ ok (some (envelope 1))
unfolding program
stale = refl

acme-IsPlain : IsPlain acme
acme-IsPlain =
    (λ e. ground arith, (λ e. ground arith, (λ e. ground arith, (λ e. ground arith, tt))))

empty-IsCoherent : (s : Memory) → IsCoherent caching memory memory-IsLawful ([], s)
unfolding lookup
empty-IsCoherent s = record { distinct = tt; shown = λ v c id entry pv pc h. cc }

get_cached_lem_example :
    Reads caching memory memory-IsLawful acme acme
      (codes "a")
      one
      (Cache.get caching memory 6 7 acme acme (codes "a") ([], one))
get_cached_lem_example =
    get_cached_lem caching memory memory-IsLawful 6 7 acme acme (codes "a") [] one acme-IsPlain
      acme-IsPlain (empty-IsCoherent one)

abbrev warm : Entries × Memory
warm = (Cache.get caching memory 6 7 acme acme (codes "a") ([], one)).0

put_cached_lem_example :
    IsCoherent caching memory memory-IsLawful
      (Cache.put caching memory 9 acme acme (codes "a") (envelope 4) (some 3) (warm.0, warm.1)).0
    × ((Cache.put caching memory 9 acme acme (codes "a") (envelope 4) (some 3) (warm.0, warm.1)).1
        ≡ (memory.put acme acme (codes "a") (envelope 4) (some 3) warm.1).1)
    × ((Cache.put caching memory 9 acme acme (codes "a") (envelope 4) (some 3) (warm.0, warm.1)).0.1
        ≡ (memory.put acme acme (codes "a") (envelope 4) (some 3) warm.1).0)
put_cached_lem_example =
    put_cached_lem caching memory memory-IsLawful 9 acme acme (codes "a") (envelope 4) (some 3)
      warm.0 warm.1 acme-IsPlain acme-IsPlain
      (get_cached_lem caching memory memory-IsLawful 6 7 acme acme (codes "a") [] one acme-IsPlain
        acme-IsPlain (empty-IsCoherent one)).coherent

abbrev checking : HealthCheckOptions
checking = record { suspend_after_failures = 3; resume_after_success = 1 }

abbrev in_use : Health
in_use = record {
  is_suspended = false;
  consecutive_failures = 1;
  consecutive_successes = 0;
  suspends = 0;
  resumes = 0;
}

abbrev suspended : Health
suspended = record {
  is_suspended = true;
  consecutive_failures = 0;
  consecutive_successes = 0;
  suspends = 1;
  resumes = 0;
}

in_use-IsCounting : IsCounting checking in_use
in_use-IsCounting = record {
  one = inr refl;
  running = λ e. omega arith;
  resting = λ e. absurd (ground (arith, e));
}
