-- ===== src/Lifecycle.antt =====
-- When the background work of backend/src/worker runs: `start`, `stop` and `poke` of
-- outboxPublisher.ts, `start` and `stop` of retryScheduler.ts and of shardLeaseCoordinator.ts. What Node
-- does later, the callbacks of setInterval and setImmediate, is an act of its own.
pub mod Stopped
pub mod Shutdown
mod Tests
use event_relay.Base.{ℕ, zero, suc, ◌+◌, ◌-◌, Bool, true, false, if◌then◌else◌, List, [], ◌∷◌}

-- `isRunning`, whether `this.timer` is set, the intervals that Node has, the callbacks of setImmediate
-- that wait, and the runs (`drain`, `pollAndReenqueue`) that were begun.
pub record Timed : Type 0 where
  pub is_running : Bool
  pub timer : Bool
  pub intervals : ℕ
  pub immediates : ℕ
  pub runs : ℕ

abbrev pub idle : Timed
idle = record { is_running = false; timer = false; intervals = 0; immediates = 0; runs = 0 }

pub data Act : Type 0 where
  start stop poke tick immediate : Act

-- `clearInterval(this.timer)`.
abbrev pub cleared : Bool → ℕ → ℕ
cleared true n = n - 1
cleared false n = n

unfoldable pub stop_timer : Timed → Timed
stop_timer s = record s {
  is_running = false;
  timer = false;
  intervals = cleared s.timer s.intervals;
}

unfoldable pub poke_timer : Timed → Timed
poke_timer s = if s.is_running then record s { immediates = s.immediates + 1 } else s

-- An interval fires, if there is one.
abbrev pub fire : ℕ → Timed → Timed
fire zero s = s
fire (suc n) s = record s { runs = s.runs + 1 }

abbrev pub run_immediate : ℕ → Timed → Timed
run_immediate zero s = s
run_immediate (suc n) s = record s { immediates = n; runs = s.runs + 1 }

-- The publisher begins a run at once (`initial`), the scheduler does not.
module _ (initial : Bool) where
  unfoldable pub start_timer : Timed → Timed
  start_timer s = if s.is_running then s else record s {
    is_running = true;
    timer = true;
    intervals = s.intervals + 1;
    runs = if initial then s.runs + 1 else s.runs;
  }

  unfoldable pub act : Act → Timed → Timed
  unfolding start_timer stop_timer poke_timer
  act start s = start_timer s
  act stop s = stop_timer s
  act poke s = poke_timer s
  act tick s = fire s.intervals s
  act immediate s = run_immediate s.immediates s

  unfoldable pub acts : List Act → Timed → Timed
  unfolding act
  acts [] s = s
  acts (a ∷ as') s = acts as' (act a s)

-- The coordinator of the leases sets its interval only after the first claims, for which `start` waits.
-- `starting` counts the calls of `start` that wait.
pub record LeaseTimer : Type 0 where
  pub is_running : Bool
  pub timer : Bool
  pub intervals : ℕ
  pub starting : ℕ

pub data LeaseAct : Type 0 where
  begin_start claims_done stop_lease : LeaseAct

abbrev pub finish_start : ℕ → LeaseTimer → LeaseTimer
finish_start zero s = s
finish_start (suc n) s = record s { timer = true; intervals = s.intervals + 1; starting = n }

unfoldable pub lease_act : LeaseAct → LeaseTimer → LeaseTimer
lease_act begin_start s =
    if s.is_running then s else record s { is_running = true; starting = s.starting + 1 }
lease_act claims_done s = finish_start s.starting s
lease_act stop_lease s = record s {
  is_running = false;
  timer = false;
  intervals = cleared s.timer s.intervals;
}
