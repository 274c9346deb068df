-- ===== src/Middleware/Health.antt =====
-- `withHealthCheck`. A check is what `checkFn` settles to; the timer that starts the checks is
-- left out. `suspends` and `resumes` count the calls of `onSuspend` and `onResume`.
use noydb.Base.{
  ℕ, suc, ◌+◌, ◌≡◌, ◌<◌, ◌∙◌, refl, ap, leb, if◌then◌else◌, Bool, true, false, not, none, List, [],
  ◌∷◌, All, length, ◌⊎◌, inl, inr, Bool-cases, arith,
}
use noydb.Store.{StoreError, Outcome, ok, thrown, Method, NoydbStore}

pub record HealthCheckOptions : Type 0 where
  pub suspend_after_failures : ℕ
  pub resume_after_success : ℕ

pub record Health : Type 0 where
  pub is_suspended : Bool
  pub consecutive_failures : ℕ
  pub consecutive_successes : ℕ
  pub suspends : ℕ
  pub resumes : ℕ

unfoldable pub check_passed : HealthCheckOptions → Health → Health
check_passed opts h =
    let n = h.consecutive_successes + 1 in
    if (if h.is_suspended then leb opts.resume_after_success n else false)
    then (record h {
      consecutive_failures = 0;
      consecutive_successes = 0;
      is_suspended = false;
      resumes = h.resumes + 1;
    })
    else (record h { consecutive_failures = 0; consecutive_successes = n })

unfoldable pub check_failed : HealthCheckOptions → Health → Health
check_failed opts h =
    let n = h.consecutive_failures + 1 in
    if (if h.is_suspended then false else leb opts.suspend_after_failures n)
    then (record h {
      consecutive_successes = 0;
      consecutive_failures = 0;
      is_suspended = true;
      suspends = h.suspends + 1;
    })
    else (record h { consecutive_successes = 0; consecutive_failures = n })

unfoldable pub do_check : HealthCheckOptions → Outcome StoreError Bool → Health → Health
unfolding check_passed check_failed
do_check opts (ok true) h = check_passed opts h
do_check opts (ok false) h = check_failed opts h
do_check opts (thrown err) h = check_failed opts h

-- A method of the wrapped store, which a suspended store does not reach.
unfoldable pub unless_suspended : {S A : Type 0} → Method S A → A → Method (Health × S) A
unless_suspended fn fallback (h, s) =
    let (s1, out) = fn s in if h.is_suspended then ((h, s), ok fallback) else ((h, s1), out)

unfoldable pub with_health_check : {S : Type 0} → NoydbStore S → NoydbStore (Health × S)
unfolding unless_suspended
with_health_check next = record {
  get = λ v c id. unless_suspended (next.get v c id) none;
  put = λ v c id env expected. unless_suspended (next.put v c id env expected) tt;
  delete = λ v c id. unless_suspended (next.delete v c id) tt;
  list = λ v c. unless_suspended (next.list v c) [];
  load_all = λ v. unless_suspended (next.load_all v) [];
  save_all = λ v d. unless_suspended (next.save_all v d) tt;
}

module _ (opts : HealthCheckOptions) where
  -- One check after another.
  abbrev pub run_checks : List (Outcome StoreError Bool) → Health → Health
  run_checks [] h = h
  run_checks (out ∷ l) h = run_checks l (do_check opts out h)

  abbrev pub has_failed : Outcome StoreError Bool → Bool
  has_failed (ok true) = false
  has_failed (ok false) = true
  has_failed (thrown err) = true

  -- At most one counter runs, and below its threshold: the failures while the store is in use,
  -- the successes while it is suspended.
  pub record IsCounting (h : Health) : Type 0 where
    pub one : (h.consecutive_failures ≡ 0) ⊎ (h.consecutive_successes ≡ 0)
    pub running : h.is_suspended ≡ false → h.consecutive_failures < opts.suspend_after_failures
    pub resting : h.is_suspended ≡ true → h.consecutive_successes < opts.resume_after_success

  -- With positive thresholds, a check keeps the counters so.
  pub do_check-IsCounting :
      (out : Outcome StoreError Bool) (h : Health)
      → 0 < opts.suspend_after_failures
      → 0 < opts.resume_after_success
      → IsCounting h
      → IsCounting (do_check opts out h)
  unfolding do_check
  do_check-IsCounting (ok true) h p q c = record {
    one = ground arith;
    running = λ e. ground (arith, e, c.running);
    resting = λ e. ground (arith, e, c.resting);
  }
  do_check-IsCounting (ok false) h p q c = record {
    one = ground arith;
    running = λ e. ground (arith, e, c.running);
    resting = λ e. ground (arith, e, c.resting);
  }
  do_check-IsCounting (thrown x) h p q c = record {
    one = ground arith;
    running = λ e. ground (arith, e, c.running);
    resting = λ e. ground (arith, e, c.resting);
  }

  failed_step :
      (out : Outcome StoreError Bool) (h : Health)
      → has_failed out ≡ true
      → do_check opts out h ≡ check_failed opts h
  unfolding do_check
  failed_step (ok true) h e = absurd (ground (arith, e))
  failed_step (ok false) h e = refl
  failed_step (thrown x) h e = refl

  passed_step :
      (out : Outcome StoreError Bool) (h : Health)
      → has_failed out ≡ false
      → do_check opts out h ≡ check_passed opts h
  unfolding do_check
  passed_step (ok true) h e = refl
  passed_step (ok false) h e = absurd (ground (arith, e))
  passed_step (thrown x) h e = absurd (ground (arith, e))

  stays_suspended :
      (l : List (Outcome StoreError Bool)) (h : Health)
      → All (λ out. has_failed out ≡ true) l
      → h.is_suspended ≡ true
      → (run_checks l h).is_suspended ≡ true
  unfolding check_failed
  stays_suspended [] h f e = e
  stays_suspended (out ∷ l) h f e =
      ap (λ z. (run_checks l z).is_suspended) (failed_step out h f.0)
      ∙ stays_suspended l (check_failed opts h) f.1 (ground arith)

  -- From a store in use, failing checks suspend it exactly when they reach the threshold together
  -- with the failures before them.
  pub run_checks_failed :
      (l : List (Outcome StoreError Bool)) (h : Health)
      → All (λ out. has_failed out ≡ true) l
      → h.is_suspended ≡ false
      → h.consecutive_failures < opts.suspend_after_failures
      → (run_checks l h).is_suspended
        ≡ leb opts.suspend_after_failures (h.consecutive_failures + length l)
  unfolding check_failed
  run_checks_failed [] h f e b = ground arith
  run_checks_failed (out ∷ l) h f e b =
      ap (λ z. (run_checks l z).is_suspended) (failed_step out h f.0)
      ∙ elim (Bool-cases (leb opts.suspend_after_failures (h.consecutive_failures + 1))) [
        | inl full ↦ stays_suspended l (check_failed opts h) f.1 (ground arith) ∙ (ground arith)
        | inr below ↦
            let more : (check_failed opts h).consecutive_failures + length l
                ≡ h.consecutive_failures + suc (length l) =
              ground arith in
            run_checks_failed l (check_failed opts h) f.1 (ground arith) (ground arith)
            ∙ ap (leb opts.suspend_after_failures) more
      ]

  stays_running :
      (l : List (Outcome StoreError Bool)) (h : Health)
      → All (λ out. has_failed out ≡ false) l
      → h.is_suspended ≡ false
      → (run_checks l h).is_suspended ≡ false
  unfolding check_passed
  stays_running [] h f e = e
  stays_running (out ∷ l) h f e =
      ap (λ z. (run_checks l z).is_suspended) (passed_step out h f.0)
      ∙ stays_running l (check_passed opts h) f.1 (ground arith)

  -- From a suspended store, passing checks resume it exactly when they reach the other threshold
  -- together with the successes before them.
  pub run_checks_passed :
      (l : List (Outcome StoreError Bool)) (h : Health)
      → All (λ out. has_failed out ≡ false) l
      → h.is_suspended ≡ true
      → h.consecutive_successes < opts.resume_after_success
      → (run_checks l h).is_suspended
        ≡ not (leb opts.resume_after_success (h.consecutive_successes + length l))
  unfolding check_passed
  run_checks_passed [] h f e b = ground arith
  run_checks_passed (out ∷ l) h f e b =
      ap (λ z. (run_checks l z).is_suspended) (passed_step out h f.0)
      ∙ elim (Bool-cases (leb opts.resume_after_success (h.consecutive_successes + 1))) [
        | inl full ↦ stays_running l (check_passed opts h) f.1 (ground arith) ∙ (ground arith)
        | inr below ↦
            let more : (check_passed opts h).consecutive_successes + length l
                ≡ h.consecutive_successes + suc (length l) =
              ground arith in
            run_checks_passed l (check_passed opts h) f.1 (ground arith) (ground arith)
            ∙ ap (λ n. not (leb opts.resume_after_success n)) more
      ]
