-- ===== src/Fd/Tests.antt =====
-- A poll of a concrete descriptor that meets the limit of its burst.
use epox.Base.{ℕ, ◌+◌, ◌≡◌, refl, some, true, false}
use epox.Flags.{Bits, bits, bits_flags}
use epox.Waker.{task, pending, Result, ok}
use epox.EpollWaker.{IoError, EpollWaker}
use epox.EpollWaker
use epox.Fd.{FdPolled, poll_with}
use epox.Fd.Progress.{HasProgress, poll_with-Progress}

abbrev read : ℕ → Bits → Result ℕ IoError × ℕ
read s e = (ok 7, s + 1)

abbrev full : EpollWaker Bits
full = record { waker = task 5; events = bits true false false; burst = 20 }

abbrev yielded : FdPolled Bits ℕ ℕ
yielded = record {
  poll = pending;
  epoll_waker = record full { burst = 0 };
  state = 0;
  woken = true;
}

polled : poll_with 0 read (task 5) full 0 ≡ some yielded
unfolding poll_with EpollWaker.poll_with
polled = refl

poll_with-Progress_example : HasProgress read (task 5) full 0 yielded
poll_with-Progress_example = poll_with-Progress 0 read (task 5) full 0 polled
