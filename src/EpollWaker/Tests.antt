-- ===== src/EpollWaker/Tests.antt =====
-- Polls of a concrete registration.
use epox.Base.{ℕ, ◌+◌, ◌≤◌, ◌≡◌, refl, some, true, false, arith, ltb, if◌then◌else◌}
use epox.Flags.{Bits, bits, bits_flags}
use epox.Waker.{task, pending, ready, Result, ok, err}
use epox.EpollWaker.{
  IoError, interrupted, would_block, EpollWaker, burst_limit, normal, yields, Polled, poll_with,
  retry, finish,
}
use epox.EpollWaker.Calls.{IsAnswered, poll_with-IsAnswered}
use epox.EpollWaker.Burst.{Readies, here, next, Readies-bound}

-- A closure that is interrupted twice, then reads one value, then has to wait.
abbrev read : ℕ → Bits → Result ℕ IoError × ℕ
read s e = (if ltb s 2 then err interrupted else if ltb s 3 then ok 7 else err would_block, s + 1)

abbrev readable : EpollWaker Bits
readable = record { waker = task 5; events = bits true false false; burst = 19 }

abbrev once : Polled Bits ℕ ℕ
once = record {
  flow = normal (ready (ok 7));
  epoll_waker = record readable { burst = 20 };
  state = 3;
}

polled_once : poll_with 2 read (task 6) readable 0 ≡ some once
unfolding poll_with retry finish
polled_once = refl

full :
    poll_with 2 read (task 6) once.epoll_waker 3
    ≡ some (record { flow = yields; epoll_waker = record readable { burst = 0 }; state = 3 })
unfolding poll_with
full = refl

drained :
    poll_with 2 read (task 6) readable 3
    ≡ some (record {
      flow = normal pending;
      epoll_waker = record { waker = task 6; events = bits false false false; burst = 0 };
      state = 4;
    })
unfolding poll_with retry finish
drained = refl

poll_with-IsAnswered_example : IsAnswered read (task 6) readable 0 once
poll_with-IsAnswered_example = poll_with-IsAnswered 2 read (task 6) readable 0 polled_once

one_ready : Readies 1 readable once.epoll_waker
one_ready = next 2 read (task 6) 0 once (ok 7) here polled_once refl

Readies-bound_example : 20 ≤ burst_limit
Readies-bound_example = Readies-bound (omega arith) one_ready
