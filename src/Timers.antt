-- ===== src/Timers.antt =====
-- `Timer` of src/timer.rs, and `timeout` and `sleep` of src/time.rs.
--
-- The timerfd is of the system: what `TimerFd::new` and `TimerFd::set` answer are arguments, and a
-- read is a function of the timer's state to a count of expirations or an error, and a new state.
pub mod Outcome
pub mod Slots
mod Tests
use epox.Base.{ℕ, ◌≡◌, Bool, true, false, Option, none, some}
use epox.Queue.Links.{Ptr}
use epox.Flags.{Flags}
use epox.Waker.{Waker, Poll, pending, ready, Result, ok, err}
use epox.EpollWaker.{IoError, EpollWaker}
use epox.Fd.{FdPolled}
use epox.Fd
use epox.Executor.{Executor}
use epox.Executor.Events.{Status, fine, fails}
use epox.Executor.Register.{Setup, new_fd, drop_fd}

-- The answers of the system while a timer is made and set. `undo` answers the `epoll_ctl` of the drop
-- of a timer that could not be set.
pub record TimerSetup : Type 0 where
  pub make : Status
  pub setup : Setup
  pub set : Status
  pub undo : Status

module _ {F V : Type 0} ⦃flags : Flags F⦄ where
  -- `Timer::new`, over the answer of `TimerFd::new`.
  unfoldable pub new_timer : Ptr → Setup → (make : Status) → Executor F V → Executor F V × Status
  new_timer key setup fine e = new_fd key flags.input setup e
  new_timer key setup (fails n) e = (e, fails n)

  -- `Timer::set` after a `Timer::new`, each with `?`: an error of the second drops the timer.
  unfoldable pub set_timer : (set undo : Status) → Executor F V × Status → Executor F V × Status
  unfolding drop_fd
  set_timer fine undo (e, fine) = (e, fine)
  set_timer (fails n) undo (e, fine) = (drop_fd undo e, fails n)
  set_timer set undo (e, fails n) = (e, fails n)

  -- The start of `timeout` and of `sleep`.
  unfoldable pub start_timer : Ptr → TimerSetup → Executor F V → Executor F V × Status
  unfolding new_timer set_timer
  start_timer key s e = set_timer s.set s.undo (new_timer key s.setup s.make e)

-- `Timer::tick`, which is `Fd::with` over a read: a poll of its future.
unfoldable pub poll_tick :
    {F S : Type 0} ⦃flags : Flags F⦄
    → ℕ
    → (read : S → Result ℕ IoError × S) → Waker
    → EpollWaker F
    → S
    → Option (FdPolled F S ℕ)
poll_tick fuel read cx w s = Fd.poll_with fuel (λ s events. read s) cx w s

-- What a poll of a `Timeout` leaves. `woken` says that the waker of the context was woken by the timer.
pub record TimeoutPolled (F S I A : Type 0) : Type 0 where
  pub poll : Poll (Result A (Unit {0}))
  pub future : I
  pub epoll_waker : EpollWaker F
  pub state : S
  pub woken : Bool

-- `is_ready` of the timer's answer, which may be an error.
abbrev pub expired : {A : Type 0} → Poll (Result ℕ IoError) → Poll (Result A (Unit {0}))
expired (ready r) = ready (err tt)
expired pending = pending

module _ {F S I A : Type 0} where
  abbrev pub ticked : I → Option (FdPolled F S ℕ) → Option (TimeoutPolled F S I A)
  ticked i none = none
  ticked i (some p) = some (record {
    poll = expired p.poll;
    future = i;
    epoll_waker = p.epoll_waker;
    state = p.state;
    woken = p.woken;
  })

-- `Timeout::poll`, over the answer of the inner future.
unfoldable pub after_future :
    {F S I A : Type 0} ⦃flags : Flags F⦄
    → ℕ
    → (read : S → Result ℕ IoError × S) → Waker
    → Poll A × I
    → EpollWaker F
    → S
    → Option (TimeoutPolled F S I A)
unfolding poll_tick
after_future fuel read cx (ready a, i) w s =
    some (record { poll = ready (ok a); future = i; epoll_waker = w; state = s; woken = false })
after_future fuel read cx (pending, i) w s = ticked i (poll_tick fuel read cx w s)

unfoldable pub poll_timeout :
    {F S I A : Type 0} ⦃flags : Flags F⦄
    → ℕ
    → (future : Waker → I → Poll A × I) → (read : S → Result ℕ IoError × S) → Waker
    → I
    → EpollWaker F
    → S
    → Option (TimeoutPolled F S I A)
unfolding after_future
poll_timeout fuel future read cx i w s = after_future fuel read cx (future cx i) w s

-- `sleep` after its start: `timer.tick().await?`.
abbrev pub slept : Poll (Result ℕ IoError) → Poll (Result (Unit {0}) IoError)
slept pending = pending
slept (ready (ok n)) = ready (ok tt)
slept (ready (err x)) = ready (err x)
