-- ===== src/Timers/Tests.antt =====
-- A timer that expires while the future is pending, and one that cannot be set.
use epox.Base.{ℕ, ◌+◌, ◌≡◌, refl, some, true, false}
use epox.Flags.{Bits, bits, bits_flags}
use epox.Waker.{Waker, noop, task, Poll, pending, ready, Result, ok, err}
use epox.EpollWaker.{IoError, EpollWaker, retry, finish}
use epox.EpollWaker
use epox.Fd
use epox.Executor.{Executor, new}
use epox.Executor.Events.{fine, fails}
use epox.Executor.Slots.{held, first_failure}
use epox.Timers.{TimerSetup, TimeoutPolled, poll_timeout, after_future, poll_tick, start_timer}
use epox.Timers.Outcome.{TimeoutOutcome, poll_timeout-TimeoutOutcome}
use epox.Timers.Slots.{start_timer-slots}

abbrev waits : Waker → ℕ → Poll ℕ × ℕ
waits cx i = (pending, i + 1)

abbrev expires : ℕ → Result ℕ IoError × ℕ
expires s = (ok 1, s + 1)

abbrev timer : EpollWaker Bits
timer = record { waker = noop; events = bits true false false; burst = 0 }

abbrev timed_out : TimeoutPolled Bits ℕ ℕ ℕ
timed_out = record {
  poll = ready (err tt);
  future = 1;
  epoll_waker = record timer { burst = 1 };
  state = 1;
  woken = false;
}

polled : poll_timeout 0 waits expires (task 5) 0 timer 0 ≡ some timed_out
unfolding poll_timeout after_future poll_tick Fd.poll_with EpollWaker.poll_with retry finish
polled = refl

poll_timeout-TimeoutOutcome_example :
    TimeoutOutcome expires (task 5) (waits (task 5) 0) timer 0 timed_out
poll_timeout-TimeoutOutcome_example =
    poll_timeout-TimeoutOutcome 0 waits expires (task 5) 0 timer 0 polled

abbrev fresh : Executor Bits ℕ
fresh = new 3 timer

abbrev setup : TimerSetup
setup = record {
  make = fine;
  setup = record { get_flags = fine; set_flags = fine; add = fine; undo = fine };
  set = fails 22;
  undo = fine;
}

start_timer-slots_example :
    ((start_timer 20 setup fresh).1
      ≡ first_failure fine
          (first_failure (first_failure fine (first_failure fine fine)) (fails 22)))
    × ((start_timer 20 setup fresh).0.slots ≡ held (start_timer 20 setup fresh).1 + fresh.slots)
    × ((start_timer 20 setup fresh).0.queues ≡ fresh.queues)
start_timer-slots_example = start_timer-slots 20 setup fresh
