-- ===== src/Scheduler/Single.antt =====
-- Pushes in flight: without pulls, without debouncing and before the page is left there is at
-- most one.
use mathlib.Core.Path.{subst}
use noydb.Base.{
  ℕ, suc, ◌+◌, ◌-◌, ◌≡◌, ◌≢◌, ◌⊎◌, inl, inr, refl, sym, ◌∙◌, ◌==◌, ltb, if◌then◌else◌, Bool, true,
  false, Bool-cases, Text, arith,
}
use noydb.Store.{StoreError, Outcome}
use noydb.Scheduler.{
  State, PushMode, PushPolicy, Scheduler, begin_push, end_push, notify_change, notify_in, put_off,
  or_default, is_state_pushing,
}

-- The scheduler with the number of pushes that it has called and that have not settled.
pub record World : Type 0 where
  pub scheduler : Scheduler
  pub pushes : ℕ

abbrev pub launched : Scheduler × Bool → ℕ → World
launched (s, b) n = record { scheduler = s; pushes = if b then n + 1 else n }

-- The steps of a policy without debouncing, at any time and any number of dirty records.
pub data Step (policy : PushPolicy) : World → World → Type 0 where
  notified :
      (dirty now : ℕ) (w : World)
      → Step policy w (launched (notify_change policy dirty now w.scheduler) w.pushes)
  timed :
      (dirty now : ℕ) (w : World)
      → Step policy w (launched (begin_push policy dirty now w.scheduler) w.pushes)
  settled :
      (out : Outcome StoreError Unit) (at : Text) (now dirty n : ℕ) (w : World)
      → w.pushes ≡ suc n
      → Step policy w (record { scheduler = end_push out at now dirty w.scheduler; pushes = n })

pub data Reaches (policy : PushPolicy) : World → World → Type 0 where
  none_left : (w : World) → Reaches policy w w
  one_more : (u v w : World) → Step policy u v → Reaches policy v w → Reaches policy u w

-- A push is in flight exactly in the state `pushing`, and then only one.
abbrev pub IsSingle : World → Type 0
IsSingle w =
    ((w.pushes ≡ 0) × (is_state_pushing w.scheduler.state ≡ false))
    ⊎ ((w.pushes ≡ 1) × (is_state_pushing w.scheduler.state ≡ true))

put_off_lem :
    (m : PushMode) (ms : ℕ) (s : Scheduler)
    → is_state_pushing (put_off m ms s).state ≡ is_state_pushing s.state
unfolding put_off
put_off_lem PushMode.manual ms s = refl
put_off_lem PushMode.on_change ms s = refl
put_off_lem PushMode.debounce ms s = refl
put_off_lem PushMode.interval ms s = refl

begin_push-IsSingle :
    (policy : PushPolicy) (dirty now n : ℕ) (s : Scheduler)
    → IsSingle (record { scheduler = s; pushes = n })
    → IsSingle (launched (begin_push policy dirty now s) n)
unfolding begin_push
begin_push-IsSingle policy dirty now n s (inr h) =
    let busy : begin_push policy dirty now s ≡ (s, false) = rw h.1 in
    subst (λ p. IsSingle (launched p n)) (sym busy) (inr h)
begin_push-IsSingle policy dirty now n s (inl h) =
    let min_interval = or_default policy.min_interval_ms 0 in
    let elapsed = now - s.last_push_time in
    let early : Bool = if ltb 0 min_interval then ltb elapsed min_interval else false in
    elim (Bool-cases early) [
      | inl soon ↦
          let later : begin_push policy dirty now s
              ≡ (put_off policy.mode (min_interval - elapsed) s, false) =
            rw (h.1, soon) in
          subst (λ p. IsSingle (launched p n)) (sym later)
            (inl (h.0, put_off_lem policy.mode (min_interval - elapsed) s ∙ h.1))
      | inr due ↦ elim (Bool-cases (dirty == 0)) [
        | inl clean ↦
            let rest : begin_push policy dirty now s ≡ (record s { state = State.idle }, false) =
              rw (h.1, due, clean) in
            subst (λ p. IsSingle (launched p n)) (sym rest) (inl (h.0, refl))
        | inr some_dirty ↦
            let go : begin_push policy dirty now s ≡ (record s { state = State.pushing }, true) =
              rw (h.1, due, some_dirty) in
            subst (λ p. IsSingle (launched p n)) (sym go) (inr (omega (arith, h.0), refl))
      ]
    ]

single_left : (w : World) (n : ℕ) → IsSingle w → w.pushes ≡ suc n → n ≡ 0
single_left w n (inl h) e = absurd (omega (arith, h.0, e))
single_left w n (inr h) e = omega (arith, h.0, e)

end_push-IsSingle :
    (out : Outcome StoreError Unit) (at : Text) (now dirty n : ℕ) (w : World)
    → IsSingle w
    → w.pushes ≡ suc n
    → IsSingle (record { scheduler = end_push out at now dirty w.scheduler; pushes = n })
unfolding end_push
end_push-IsSingle (Outcome.ok u) at now dirty n w h e = elim (Bool-cases (ltb 0 dirty)) [
  | inl more ↦ inl (single_left w n h e, rw more)
  | inr none_dirty ↦ inl (single_left w n h e, rw none_dirty)
]
end_push-IsSingle (Outcome.thrown x) at now dirty n w h e = inl (single_left w n h e, refl)

notify_in-IsSingle :
    (m : PushMode) (policy : PushPolicy) (dirty now : ℕ) (w : World)
    → m ≢ PushMode.debounce
    → IsSingle w
    → IsSingle (launched (notify_in m policy dirty now w.scheduler) w.pushes)
unfolding notify_in
notify_in-IsSingle PushMode.manual policy dirty now w d h = h
notify_in-IsSingle PushMode.on_change policy dirty now w d h =
    begin_push-IsSingle policy dirty now w.pushes w.scheduler h
notify_in-IsSingle PushMode.debounce policy dirty now w d h = absurd (d refl)
notify_in-IsSingle PushMode.interval policy dirty now w d h = h

notify_change-IsSingle :
    (policy : PushPolicy) (dirty now : ℕ) (w : World)
    → policy.mode ≢ PushMode.debounce
    → IsSingle w
    → IsSingle (launched (notify_change policy dirty now w.scheduler) w.pushes)
unfolding notify_change
notify_change-IsSingle policy dirty now w m h =
    elim w.scheduler.started
      as (λ b. IsSingle (
        launched
          (if b then notify_in policy.mode policy dirty now w.scheduler else (w.scheduler, false))
          w.pushes)) [ true ↦ notify_in-IsSingle policy.mode policy dirty now w m h | false ↦ h ]

Step-IsSingle :
    (policy : PushPolicy) (u w : World)
    → policy.mode ≢ PushMode.debounce
    → IsSingle u
    → Step policy u w
    → IsSingle w
Step-IsSingle policy u _ m h (notified dirty now _) = notify_change-IsSingle policy dirty now u m h
Step-IsSingle policy u _ m h (timed dirty now _) =
    begin_push-IsSingle policy dirty now u.pushes u.scheduler h
Step-IsSingle policy u _ m h (settled out at now dirty n _ e) =
    end_push-IsSingle out at now dirty n u h e

-- Without debouncing, and as long as no pull begins, however the calls, the timer and the answers
-- of the pushes follow one another: a push is in flight exactly in the state `pushing`, and then
-- only one.
pub Reaches-IsSingle :
    (policy : PushPolicy) (u w : World)
    → policy.mode ≢ PushMode.debounce
    → IsSingle u
    → Reaches policy u w
    → IsSingle w
Reaches-IsSingle policy u _ m h (none_left _) = h
Reaches-IsSingle policy u w m h (one_more _ v _ s r) =
    Reaches-IsSingle policy v w m (Step-IsSingle policy u v m h s) r
