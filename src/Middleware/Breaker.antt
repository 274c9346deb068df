-- ===== src/Middleware/Breaker.antt =====
-- `withCircuitBreaker`. `now` and `later` are the readings of `Date.now()` before and after the
-- wrapped call; `opens` and `closes` count the calls of `onOpen` and `onClose`.
-- The clock does not run backwards.
use Prim.Native.Nat.{min}
use noydb.Base.{
  ℕ, zero, suc, ◌+◌, ◌-◌, ◌≡◌, ◌≤◌, ◌<◌, inl, inr, ◌∙◌, refl, ap, leb, if◌then◌else◌, Bool, true,
  false, Bool-cases, none, List, [], ◌∷◌, length, All, arith,
}
use noydb.Store.{StoreError, Outcome, ok, thrown, Method, NoydbStore}

pub data CircuitState : Type 0 where
  closed opened half_open : CircuitState

pub record Breaker : Type 0 where
  pub state : CircuitState
  pub failures : ℕ
  pub last_failure_time : ℕ
  pub opens : ℕ
  pub closes : ℕ

pub record BreakerOptions : Type 0 where
  pub threshold : ℕ
  pub reset_ms : ℕ

unfoldable pub close_half_open : CircuitState → Breaker → Breaker
close_half_open CircuitState.half_open b = record b {
  state = CircuitState.closed;
  failures = 0;
  closes = b.closes + 1;
}
close_half_open _ b = b

unfoldable pub record_success : Breaker → Breaker
unfolding close_half_open
record_success b = record (close_half_open b.state b) { failures = 0 }

unfoldable pub open_closed : CircuitState → Breaker → Breaker
open_closed CircuitState.closed b = record b { state = CircuitState.opened; opens = b.opens + 1 }
open_closed _ b = b

unfoldable pub record_failure : BreakerOptions → ℕ → Breaker → Breaker
unfolding open_closed
record_failure opts now b =
    let b' = record b { failures = b.failures + 1; last_failure_time = now } in
    if leb opts.threshold b'.failures then open_closed b'.state b' else b'

-- Whether a call may go through, and the breaker then.
unfoldable pub attempt_in : BreakerOptions → CircuitState → ℕ → Breaker → Breaker × Bool
attempt_in opts CircuitState.closed now b = (b, true)
attempt_in opts CircuitState.opened now b =
    if leb opts.reset_ms (now - b.last_failure_time)
    then (record b { state = CircuitState.half_open }, true)
    else (b, false)
attempt_in opts CircuitState.half_open now b = (b, true)

unfoldable pub can_attempt : BreakerOptions → ℕ → Breaker → Breaker × Bool
unfolding attempt_in
can_attempt opts now b = attempt_in opts b.state now b

unfoldable pub after_call :
    {A : Type 0} → BreakerOptions → ℕ → Outcome StoreError A → Breaker → Breaker
unfolding record_success record_failure
after_call opts later (ok _) b = record_success b
after_call opts later (thrown _) b = record_failure opts later b

module _ {S A : Type 0} where
  -- What follows the answer of `canAttempt`.
  unfoldable pub call_if :
      BreakerOptions
      → ℕ
      → Method S A
      → A
      → S
      → Breaker × Bool
      → (Breaker × S) × Outcome StoreError A
  unfolding after_call
  call_if opts later fn fallback s (b, true) =
      let (s1, out) = fn s in ((after_call opts later out b, s1), out)
  call_if opts later fn fallback s (b, false) = ((b, s), ok fallback)

  unfoldable pub guarded :
      BreakerOptions → ℕ → ℕ → Method S A → A → Breaker × S → (Breaker × S) × Outcome StoreError A
  unfolding can_attempt call_if
  guarded opts now later fn fallback (b, s) =
      call_if opts later fn fallback s (can_attempt opts now b)

unfoldable pub with_circuit_breaker :
    {S : Type 0} → BreakerOptions → ℕ → ℕ → NoydbStore S → NoydbStore (Breaker × S)
unfolding guarded
with_circuit_breaker opts now later next = record {
  get = λ v c id. guarded opts now later (next.get v c id) none;
  put = λ v c id env expected. guarded opts now later (next.put v c id env expected) tt;
  delete = λ v c id. guarded opts now later (next.delete v c id) tt;
  list = λ v c. guarded opts now later (next.list v c) [];
  load_all = λ v. guarded opts now later (next.load_all v) [];
  save_all = λ v d. guarded opts now later (next.save_all v d) tt;
}

-- The circuit is closed only below the threshold.
abbrev pub IsBelow : BreakerOptions → Breaker → Type 0
IsBelow opts b = b.state ≡ CircuitState.closed → b.failures < opts.threshold

-- No call is before `start`, and all begin before the reset time has passed since then.
abbrev pub IsWithin : BreakerOptions → ℕ → List (ℕ × ℕ) → Type 0
IsWithin opts start = All (λ c. (start ≤ c.0) × (start ≤ c.1) × (c.0 < start + opts.reset_ms))

opens_lem :
    (opts : BreakerOptions) (later : ℕ) (b : Breaker)
    → b.state ≡ CircuitState.closed
    → leb opts.threshold (b.failures + 1) ≡ true
    → ((record_failure opts later b).state ≡ CircuitState.opened)
      × ((record_failure opts later b).last_failure_time ≡ later)
unfolding record_failure
opens_lem opts later b c full = ground arith

stays_lem :
    (opts : BreakerOptions) (later : ℕ) (b : Breaker)
    → b.state ≡ CircuitState.closed
    → leb opts.threshold (b.failures + 1) ≡ false
    → ((record_failure opts later b).state ≡ CircuitState.closed)
      × ((record_failure opts later b).failures ≡ b.failures + 1)
      × (b.failures + 1 < opts.threshold)
unfolding record_failure
stays_lem opts later b c below = ground arith

module _ {S A : Type 0} (opts : BreakerOptions) where
  -- A call keeps the circuit closed only below the threshold.
  pub guarded-IsBelow :
      (now later : ℕ) (fn : Method S A) (fallback : A) (b : Breaker) (s : S)
      → 0 < opts.threshold
      → IsBelow opts b
      → IsBelow opts (guarded opts now later fn fallback (b, s)).0.0
  unfolding guarded
  guarded-IsBelow now later fn fallback b s h k = ground arith

  -- One call after another, each at its two times.
  abbrev pub run : Method S A → A → List (ℕ × ℕ) → Breaker × S → Breaker × S
  run fn fallback [] p = p
  run fn fallback ((now, later) ∷ calls) p =
      run fn fallback calls (guarded opts now later fn fallback p).0

  -- The wrapped store after a number of calls.
  abbrev pub reached : ℕ → Method S A → S → S
  reached zero fn s = s
  reached (suc k) fn s = reached k fn (fn s).0

  step_open :
      (start now later : ℕ) (fn : Method S A) (fallback : A) (b : Breaker) (s : S)
      → b.state ≡ CircuitState.opened
      → start ≤ b.last_failure_time
      → start ≤ now
      → now < start + opts.reset_ms
      → (guarded opts now later fn fallback (b, s)).0 ≡ (b, s)
  unfolding guarded
  step_open start now later fn fallback b s o h g k =
      let early : leb opts.reset_ms (now - b.last_failure_time) ≡ false = ground arith in
      let refused : attempt_in opts b.state now b ≡ (b, false) =
        ap (λ z. attempt_in opts z now b) o ∙ (rw early) in
      ap (λ p. (call_if opts later fn fallback s p).0) refused

  run_open :
      (start : ℕ) (fn : Method S A) (fallback : A) (calls : List (ℕ × ℕ)) (b : Breaker) (s : S)
      → b.state ≡ CircuitState.opened
      → start ≤ b.last_failure_time
      → IsWithin opts start calls
      → run fn fallback calls (b, s) ≡ (b, s)
  run_open start fn fallback [] b s o h w = refl
  run_open start fn fallback ((now, later) ∷ calls) b s o h w =
      ap (run fn fallback calls) (step_open start now later fn fallback b s o h w.0.0 w.0.2)
      ∙ run_open start fn fallback calls b s o h w.1

  step_closed :
      (now later : ℕ) (fn : Method S A) (fallback : A) (b : Breaker) (s : S) (e : StoreError)
      → b.state ≡ CircuitState.closed
      → (fn s).1 ≡ thrown e
      → (guarded opts now later fn fallback (b, s)).0 ≡ (record_failure opts later b, (fn s).0)
  unfolding guarded
  step_closed now later fn fallback b s e c h =
      ap (λ p. (call_if opts later fn fallback s p).0) (ap (λ z. attempt_in opts z now b) c)
      ∙ ap (λ out. (after_call opts later out b, (fn s).0)) h

  -- From a closed circuit, as long as the wrapped call always fails and the reset time has not
  -- passed, the store is called until the failures reach the threshold and not again.
  pub run_lem :
      (start : ℕ) (fn : Method S A) (fallback : A) (calls : List (ℕ × ℕ)) (b : Breaker) (s : S)
      → b.state ≡ CircuitState.closed
      → b.failures < opts.threshold
      → ((t : S) → (e : StoreError) × ((fn t).1 ≡ thrown e))
      → IsWithin opts start calls
      → (run fn fallback calls (b, s)).1
        ≡ reached (min (length calls) (opts.threshold - b.failures)) fn s
  unfolding record_failure
  run_lem start fn fallback [] b s c h f w =
      let none_left : 0 ≡ min 0 (opts.threshold - b.failures) = omega arith in
      ap (λ k. reached k fn s) none_left
  run_lem start fn fallback ((now, later) ∷ calls) b s c h f w =
      let b' = record_failure opts later b in
      let (e, failed) = f s in
      let step = step_closed now later fn fallback b s e c failed in
      ap (λ p. (run fn fallback calls p).1) step
      ∙ elim (Bool-cases (leb opts.threshold (b.failures + 1))) [
        | inl full ↦
            let (o, t) = opens_lem opts later b c full in
            let one : 1 ≡ min (suc (length calls)) (opts.threshold - b.failures) = ground arith in
            ap (λ p. p.1)
              (run_open start fn fallback calls b' (fn s).0 o (omega (arith, t, w.0.1)) w.1)
            ∙ ap (λ k. reached k fn s) one
        | inr below ↦
            let (o, n, lt) = stays_lem opts later b c below in
            let more : suc (min (length calls) (opts.threshold - b'.failures))
                ≡ min (suc (length calls)) (opts.threshold - b.failures) =
              omega (arith, n, lt) in
            run_lem start fn fallback calls b' (fn s).0 o (omega (arith, n, lt)) f w.1
            ∙ ap (λ k. reached k fn s) more
      ]
