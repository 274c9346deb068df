-- ===== src/Scheduler.antt =====
-- packages/hub/src/sync-policy.ts: `SyncScheduler`, when to push and to pull. `executePush` and
-- `executePull` are each two steps, before and after the call that they await, so that other
-- steps can come between. `dirty` is what `getDirtyCount` answers; the timers of `start` and the
-- listeners of the browser are left out.
pub mod Single
mod Tests
use noydb.Base.{
  ℕ, zero, suc, ◌+◌, ◌-◌, ltb, ◌==◌, if◌then◌else◌, Bool, true, false, Option, none, some, List, [],
  ◌∷◌, Text,
}
use noydb.Store.{StoreError, Outcome, ok, thrown}

pub data State : Type 0 where
  idle pending pushing pulling error : State

pub data PushMode : Type 0 where
  manual on_change debounce interval : PushMode

pub record PushPolicy : Type 0 where
  pub mode : PushMode
  pub debounce_ms : Option ℕ
  pub min_interval_ms : Option ℕ
  pub on_unload : Option Bool

pub record Scheduler : Type 0 where
  pub state : State
  pub last_push_at : Option Text
  pub last_pull_at : Option Text
  pub last_error : Option StoreError
  pub last_push_time : ℕ
  pub debounce_timer : Option ℕ
  pub started : Bool

pub record Status : Type 0 where
  pub state : State
  pub last_push_at : Option Text
  pub last_pull_at : Option Text
  pub last_error : Option StoreError
  pub pending_writes : ℕ

unfoldable pub status : ℕ → Scheduler → Status
status dirty s = record {
  state = s.state;
  last_push_at = s.last_push_at;
  last_pull_at = s.last_pull_at;
  last_error = s.last_error;
  pending_writes = dirty;
}

abbrev pub or_default : Option ℕ → ℕ → ℕ
or_default none d = d
or_default (some n) d = n

abbrev pub is_state_pushing : State → Bool
is_state_pushing State.pushing = true
is_state_pushing _ = false

abbrev pub is_state_pulling : State → Bool
is_state_pulling State.pulling = true
is_state_pulling _ = false

abbrev pub is_state_pending : State → Bool
is_state_pending State.pending = true
is_state_pending _ = false

-- A new timer takes the place of the one that runs.
unfoldable pub schedule_debounce : ℕ → Scheduler → Scheduler
schedule_debounce ms s = record s { debounce_timer = some ms }

-- Too early for a push: in debounce mode it is put off.
unfoldable pub put_off : PushMode → ℕ → Scheduler → Scheduler
unfolding schedule_debounce
put_off PushMode.debounce ms s = schedule_debounce ms s
put_off _ ms s = s

-- `executePush` up to the call of `push`, and whether it is called.
unfoldable pub begin_push : PushPolicy → ℕ → ℕ → Scheduler → Scheduler × Bool
unfolding put_off
begin_push policy dirty now s =
    let min_interval = or_default policy.min_interval_ms 0 in
    let elapsed = now - s.last_push_time in
    if is_state_pushing s.state
    then (s, false)
    else (if (if ltb 0 min_interval then ltb elapsed min_interval else false)
        then (put_off policy.mode (min_interval - elapsed) s, false)
        else (if dirty == 0
            then (record s { state = State.idle }, false)
            else (record s { state = State.pushing }, true)))

-- What follows the call of `push`.
unfoldable pub end_push : Outcome StoreError Unit → Text → ℕ → ℕ → Scheduler → Scheduler
end_push (ok _) at now dirty s = record s {
  last_push_at = some at;
  last_push_time = now;
  last_error = none;
  state = if ltb 0 dirty then State.pending else State.idle;
}
end_push (thrown err) at now dirty s = record s { last_error = some err; state = State.error }

-- `executePull` up to the call of `pull`, and whether it is called.
unfoldable pub begin_pull : Scheduler → Scheduler × Bool
begin_pull s =
    if is_state_pulling s.state then (s, false) else (record s { state = State.pulling }, true)

-- What follows the call of `pull`; `previous` is the state before it.
unfoldable pub end_pull : Outcome StoreError Unit → State → Text → Scheduler → Scheduler
end_pull (ok _) previous at s = record s {
  last_pull_at = some at;
  last_error = none;
  state = if is_state_pending previous then State.pending else State.idle;
}
end_pull (thrown err) previous at s = record s { last_error = some err; state = State.error }

unfoldable pub reset_debounce : PushPolicy → Scheduler → Scheduler
unfolding schedule_debounce
reset_debounce policy s =
    schedule_debounce (or_default policy.debounce_ms 30000) (record s { state = State.pending })

-- The callback of the debounce timer.
unfoldable pub fire_debounce : PushPolicy → ℕ → ℕ → Scheduler → Scheduler × Bool
unfolding begin_push
fire_debounce policy dirty now s = begin_push policy dirty now (record s { debounce_timer = none })

unfoldable pub notify_in : PushMode → PushPolicy → ℕ → ℕ → Scheduler → Scheduler × Bool
unfolding begin_push reset_debounce
notify_in PushMode.on_change policy dirty now s = begin_push policy dirty now s
notify_in PushMode.debounce policy dirty now s = (reset_debounce policy s, false)
notify_in _ policy dirty now s = (s, false)

unfoldable pub notify_change : PushPolicy → ℕ → ℕ → Scheduler → Scheduler × Bool
unfolding notify_in
notify_change policy dirty now s =
    let r = notify_in policy.mode policy dirty now s in if s.started then r else (s, false)

-- What `stop` does to the fields.
unfoldable pub stop : Scheduler → Scheduler
stop s = if s.started then (record s { started = false; debounce_timer = none }) else s

-- `shouldRegisterUnload`
unfoldable pub should_register_unload : PushPolicy → Bool
should_register_unload policy = elim policy.on_unload [
  | some b ↦ b
  | none ↦ elim policy.mode [
    | manual ↦ false
    | on_change ↦ true
    | debounce ↦ true
    | interval ↦ true
  ]
]
