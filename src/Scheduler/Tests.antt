-- ===== src/Scheduler/Tests.antt =====
-- Runs of the scheduler, and its theorem at a short series of steps.
use noydb.Base.{[], ◌≡◌, refl, inl, true, none, some, codes, arith}
use noydb.Store.{failure, thrown}
use noydb.Scheduler.{
  State, PushMode, PushPolicy, Scheduler, begin_push, end_push, begin_pull, end_pull, notify_change,
}
use noydb.Scheduler.Single.{
  World, Reaches, notified, settled, none_left, one_more, launched, IsSingle, Reaches-IsSingle,
}

program : Unit {0}
unfolding begin_push end_push begin_pull end_pull notify_change
program = tt

abbrev on_change : PushPolicy
on_change = record {
  mode = PushMode.on_change;
  debounce_ms = none;
  min_interval_ms = some 0;
  on_unload = some true;
}

abbrev fresh : Scheduler
fresh = record {
  state = State.idle;
  last_push_at = none;
  last_pull_at = none;
  last_error = none;
  last_push_time = 0;
  debounce_timer = none;
  started = true;
}

abbrev first : Scheduler
first = (notify_change on_change 1 10 fresh).0

-- A pull that begins while a push is in flight hides it, and a second push begins.
second_push : (notify_change on_change 1 12 (begin_pull first).0).1 ≡ true
unfolding program
second_push = refl

abbrev start : World
start = record { scheduler = fresh; pushes = 0 }

abbrev pushing_one : World
pushing_one = launched (notify_change on_change 1 10 fresh) 0

abbrev pushed : World
pushed = record {
  scheduler = end_push (thrown (failure [])) (codes "T") 20 1 pushing_one.scheduler;
  pushes = 0;
}

two_steps : Reaches on_change start pushed
unfolding program
two_steps = one_more start pushing_one pushed (notified 1 10 start) (
    one_more pushing_one pushed pushed
      (settled (thrown (failure [])) (codes "T") 20 1 0 pushing_one refl) (none_left pushed))

Reaches-IsSingle_example : IsSingle pushed
Reaches-IsSingle_example =
    Reaches-IsSingle on_change start pushed (λ e. ground (arith, e)) (inl (refl, refl)) two_steps
