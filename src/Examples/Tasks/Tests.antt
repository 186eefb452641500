-- ===== src/Examples/Tasks/Tests.antt =====
-- A run of examples/tasks.rs: the timers expire while the executor waits for the first time.
use epox.Base.{
  ℕ, ◌≡◌, refl, true, false, Option, none, some, [], ◌∷◌, leb, Bool-cases, inl, inr, if◌then◌else◌,
}
use mathlib.Core.Option
use epox.Queue.Links.{Ptr}
use epox.Flags.{Bits, bits, bits_flags}
use epox.Waker.{noop}
use epox.EpollWaker.{EpollWaker}
use epox.EpollWaker
use epox.Timers.{TimerSetup, start_timer, new_timer, set_timer, poll_tick}
use epox.Fd
use epox.Executor.{new, spawn, enqueue, sleep, highest_priority_runnable_task}
use epox.Executor.Events.{
  Kernel, never, now, fine, events, wake_here, epoll_wait, answered, deliver_all, notify,
  wake_if_task, wake_weak,
}
use epox.Executor.Register.{new_fd, drop_fd, register, add_or_drop, epoll_add, epoll_del}
use epox.Executor.Join.{result}
use epox.Executor.Run.{
  round, after_task, when_idle, check, run_task, act, act_all, finish, suspend, complete,
  wake_waker,
}
use epox.Programs.{System, Ended, ended, panicked, run_system, system_round, trace}
use epox.Examples.Tasks.{
  Value, number, Stage, Reading, not_yet, fired, t1, t2, t4, timer_of, value, body, main, timed,
  started, tick, ticked, after_tick, sum, await_first, first_got, await_second, second_got, printed,
}
use epox.Examples.Tasks.Polls.{Work}
use epox.Examples.Tasks.Results.{main-IsPrinted}

abbrev well : Ptr → TimerSetup
well t = record {
  make = fine;
  setup = record { get_flags = fine; set_flags = fine; add = fine; undo = fine };
  set = fine;
  undo = fine;
}

abbrev clock : ℕ → Ptr → Reading
clock n t = if leb 4 n then fired 1 else not_yet

abbrev expiring : Kernel Bits
expiring n now room = record { answer = events []; arrived = [] }
expiring n never room = record {
  answer = events (
      record { key = timer_of t1; flags = bits true false false }
      ∷ record { key = timer_of t2; flags = bits true false false }
      ∷ record { key = timer_of t4; flags = bits true false false }
      ∷ []);
  arrived = [];
}

abbrev idle : EpollWaker Bits
idle = record { waker = noop; events = bits false false false; burst = 0 }

abbrev finally : Option (Ended Bits Value Stage)
finally = run_system expiring (body well clock) 12 (main 3 idle)

clock-Work : Work well clock
clock-Work = record {
  make = λ t. refl;
  get_flags = λ t. refl;
  set_flags = λ t. refl;
  add = λ t. refl;
  set = λ t. refl;
  reads = λ n t. elim (Bool-cases (leb 4 n)) [ inl b ↦ rw b tt | inr b ↦ rw b tt ];
}

abbrev system_of : Option (Ended Bits Value Stage) → System Bits Value Stage
system_of none = main 3 idle
system_of (some panicked) = main 3 idle
system_of (some (ended s status)) = s

finally_fine : finally ≡ some (ended (system_of finally) fine)
unfolding run_system system_round trace round after_task when_idle check run_task act act_all finish
    suspend complete wake_waker highest_priority_runnable_task spawn new enqueue sleep epoll_wait
    wake_here answered deliver_all notify wake_if_task wake_weak new_fd drop_fd register add_or_drop
    epoll_add epoll_del result start_timer new_timer set_timer poll_tick Fd.poll_with
    EpollWaker.poll_with EpollWaker.retry EpollWaker.finish EpollWaker.new body main timed started
    tick ticked after_tick sum await_first first_got await_second second_got printed Option.bind
finally_fine = refl

main-IsPrinted_example : printed (system_of finally) ≡ some (number 42, value)
main-IsPrinted_example = main-IsPrinted expiring well clock clock-Work 12 3 idle finally_fine
