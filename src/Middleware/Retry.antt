-- ===== src/Middleware/Retry.antt =====
-- `withRetry`. An attempt is a run of the wrapped method; the delays between attempts are left
-- out. The code of an error, if it has one, is a parameter.
use mathlib.Core.Path.{subst}
use noydb.Base.{
  ℕ, zero, suc, ◌≡◌, ◌≤◌, ◌<◌, ◌-◌, inl, inr, ◌∙◌, sym, refl, ap, if◌then◌else◌, Bool, true, false,
  Bool-cases, Option, none, some, List, Text, arith,
}
use noydb.Store.Views.{if_ok_same}
use noydb.Store.{
  Envelope, StoreError, Outcome, ok, thrown, Method, NoydbStore, IsLawful, at_key, if_ok,
}
use noydb.Sync.{included}

pub record RetryOptions : Type 0 where
  pub max_retries : ℕ
  pub retry_on : Option (List Text)

module _ (code_of : StoreError → Option Text) where
  unfoldable pub should_retry : Option (List Text) → StoreError → Bool
  should_retry none err = true
  should_retry (some codes) err = elim (code_of err) [ none ↦ true | some c ↦ included c codes ]

  module _ {S A : Type 0} where
    -- What follows an attempt that is not the last one, with what the rest of the loop answers.
    unfoldable pub after_attempt :
        Option (List Text)
        → S × Outcome StoreError A
        → S
        → Outcome StoreError A
        → S × Outcome StoreError A
    unfolding should_retry
    after_attempt codes again s (ok a) = (s, ok a)
    after_attempt codes again s (thrown err) =
        if should_retry codes err then again else (s, thrown err)

    -- With `n` attempts left after this one.
    unfoldable pub retryable : Option (List Text) → ℕ → Method S A → Method S A
    unfolding after_attempt
    retryable codes zero fn s = fn s
    retryable codes (suc n) fn s =
        let (s1, out) = fn s in after_attempt codes (retryable codes n fn s1) s1 out

    -- The state after a number of attempts.
    abbrev pub after_tries : ℕ → Method S A → S → S
    after_tries zero fn s = s
    after_tries (suc k) fn s = after_tries k fn (fn s).0

    -- The attempt at this state failed with an error that is worth another one.
    abbrev pub Retried : Option (List Text) → Method S A → S → Type 0
    Retried codes fn s =
        (err : StoreError) × ((fn s).1 ≡ thrown err) × (should_retry codes err ≡ true)

    -- The attempt at this state ends the loop with `n` attempts left: it settled, or its error is
    -- not worth another one, or it was the last.
    pub data Ends (codes : Option (List Text)) (n : ℕ) (fn : Method S A) (s : S) : Type 0 where
      settled : (a : A) → (fn s).1 ≡ ok a → Ends codes n fn s
      final :
          (err : StoreError)
          → (fn s).1 ≡ thrown err
          → should_retry codes err ≡ false
          → Ends codes n fn s
      last : n ≡ 0 → Ends codes n fn s

    -- A loop with `n` retries that starts at `s` has answered `result`.
    pub record Loop (codes : Option (List Text)) (n : ℕ) (fn : Method S A) (s : S)
        (result : S × Outcome StoreError A) : Type 0 where
      pub tries : ℕ
      pub bound : tries ≤ n
      pub answer : result ≡ fn (after_tries tries fn s)
      pub before : (j : ℕ) → j < tries → Retried codes fn (after_tries j fn s)
      pub ends : Ends codes (n - tries) fn (after_tries tries fn s)

    first-Retried :
        (codes : Option (List Text)) (fn : Method S A) (s : S) (k : ℕ)
        → Retried codes fn s
        → ((j : ℕ) → j < k → Retried codes fn (after_tries j fn (fn s).0))
        → (j : ℕ) → j < suc k
        → Retried codes fn (after_tries j fn s)
    first-Retried codes fn s k r before zero h = r
    first-Retried codes fn s k r before (suc j) h = before j (omega arith)

    attempt_lem :
        (codes : Option (List Text)) (n : ℕ) (fn : Method S A) (s : S) (out : Outcome StoreError A)
        (again : S × Outcome StoreError A)
        → (fn s).1 ≡ out
        → Loop codes n fn (fn s).0 again
        → Loop codes (suc n) fn s (after_attempt codes again (fn s).0 out)
    unfolding after_attempt
    attempt_lem codes n fn s (ok a) again e ih = record {
      tries = 0;
      bound = omega arith;
      answer = ap (λ o. ((fn s).0, o)) (sym e);
      before = λ j h. absurd (omega arith);
      ends = settled a e;
    }
    attempt_lem codes n fn s (thrown err) again e ih = elim (Bool-cases (should_retry codes err)) [
      | inr stop ↦ record {
        tries = 0;
        bound = omega arith;
        answer = rw stop (ap (λ o. ((fn s).0, o)) (sym e));
        before = λ j h. absurd (omega arith);
        ends = final err e stop;
      }
      | inl go ↦ record {
        tries = suc ih.tries;
        bound = omega (arith, ih.bound);
        answer = rw go ih.answer;
        before = first-Retried codes fn s ih.tries (err, e, go) ih.before;
        ends =
            subst (λ m. Ends codes m fn (after_tries ih.tries fn (fn s).0)) (omega arith) ih.ends;
      }
    ]

    -- The loop answers what one attempt answers, the first that settles, fails for good or is the
    -- last one allowed; every attempt before it failed with an error worth another one.
    pub retryable_lem :
        (codes : Option (List Text)) (n : ℕ) (fn : Method S A) (s : S)
        → Loop codes n fn s (retryable codes n fn s)
    unfolding retryable
    retryable_lem codes zero fn s = record {
      tries = 0;
      bound = omega arith;
      answer = refl;
      before = λ j h. absurd (omega arith);
      ends = last refl;
    }
    retryable_lem codes (suc n) fn s =
        attempt_lem codes n fn s (fn s).1 (retryable codes n fn (fn s).0) refl
          (retryable_lem codes n fn (fn s).0)

    -- A view that a method changes only when it settles: so it is for the loop.
    attempt_view :
        {B : Type 0} (view : S → B) (x y : B) (codes : Option (List Text)) (s1 : S)
        (out : Outcome StoreError A) (again : S × Outcome StoreError A)
        → view s1 ≡ if_ok out x y
        → (view s1 ≡ y → view again.0 ≡ if_ok again.1 x y)
        → view (after_attempt codes again s1 out).0 ≡ if_ok (after_attempt codes again s1 out).1 x y
    unfolding after_attempt
    attempt_view view x y codes s1 (ok a) again e ih = e
    attempt_view view x y codes s1 (thrown err) again e ih =
        elim (Bool-cases (should_retry codes err)) [ inl go ↦ rw go (ih e) | inr stop ↦ rw stop e ]

    pub retryable_view :
        {B : Type 0} (view : S → B) (x y : B) (codes : Option (List Text)) (n : ℕ) (fn : Method S A)
        → ((s : S) → view s ≡ y → view (fn s).0 ≡ if_ok (fn s).1 x y)
        → (s : S) → view s ≡ y
        → view (retryable codes n fn s).0 ≡ if_ok (retryable codes n fn s).1 x y
    unfolding retryable
    retryable_view view x y codes zero fn h s e = h s e
    retryable_view view x y codes (suc n) fn h s e =
        attempt_view view x y codes (fn s).0 (fn s).1 (retryable codes n fn (fn s).0) (h s e)
          (retryable_view view x y codes n fn h (fn s).0)

  unfoldable pub with_retry : {S : Type 0} → RetryOptions → NoydbStore S → NoydbStore S
  unfolding retryable
  with_retry opts next =
      let codes = opts.retry_on in
      let n = opts.max_retries in
      record {
        get = λ v c id. retryable codes n (next.get v c id);
        put = λ v c id env expected. retryable codes n (next.put v c id env expected);
        delete = λ v c id. retryable codes n (next.delete v c id);
        list = λ v c. retryable codes n (next.list v c);
        load_all = λ v. retryable codes n (next.load_all v);
        save_all = λ v d. retryable codes n (next.save_all v d);
      }

  module _ {S : Type 0} (opts : RetryOptions) (next : NoydbStore S) (l : IsLawful next) where
    get_same :
        (v c id w d j : Text) (s s0 : S)
        → l.view w d j s ≡ l.view w d j s0
        → l.view w d j (next.get v c id s).0
          ≡ if_ok (next.get v c id s).1 (l.view w d j s0) (l.view w d j s0)
    get_same v c id w d j s s0 e = l.get_view v c id w d j s ∙ e ∙ sym (if_ok_same _ _)

    tries_same :
        (v c id : Text) (k : ℕ) (s : S)
        → l.view v c id (after_tries k (next.get v c id) s) ≡ l.view v c id s
    tries_same v c id zero s = refl
    tries_same v c id (suc k) s =
        tries_same v c id k (next.get v c id s).0 ∙ l.get_view v c id v c id s

    get_ok_lem :
        (v c id : Text) (n : ℕ) (s : S) (o : Option Envelope)
        → (retryable opts.retry_on n (next.get v c id) s).1 ≡ ok o
        → o ≡ l.view v c id s
    get_ok_lem v c id n s o h =
        let r = retryable_lem opts.retry_on n (next.get v c id) s in
        l.get_ok v c id (after_tries r.tries (next.get v c id) s) o
          (sym (ap (λ p. p.1) r.answer) ∙ h)
        ∙ tries_same v c id r.tries s

    -- A store with retries keeps the contract that the store it wraps keeps.
    pub with_retry-IsLawful : IsLawful (with_retry opts next)
    unfolding with_retry
    with_retry-IsLawful = record {
      view = l.view;
      get_view = λ v c id w d j s.
          retryable_view (l.view w d j) (l.view w d j s) (l.view w d j s) opts.retry_on
            opts.max_retries (next.get v c id) (λ t e. get_same v c id w d j t s e) s refl
          ∙ if_ok_same _ _;
      get_ok = λ v c id s o h. get_ok_lem v c id opts.max_retries s o h;
      put_view = λ v c id e expected w d j s.
          retryable_view (l.view w d j) (at_key v c id w d j (some e) (l.view w d j s))
            (l.view w d j s) opts.retry_on opts.max_retries (next.put v c id e expected)
            (λ t k. rw k at (l.put_view v c id e expected w d j t)) s refl;
      delete_view = λ v c id w d j s.
          retryable_view (l.view w d j) (at_key v c id w d j none (l.view w d j s)) (l.view w d j s)
            opts.retry_on opts.max_retries (next.delete v c id)
            (λ t k. rw k at (l.delete_view v c id w d j t)) s refl;
    }
