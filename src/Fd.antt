-- ===== src/Fd.antt =====
-- `Fd` of src/fd.rs: the polls of a registered descriptor.
--
-- `poll_with` and `poll_with_mut` have one body; they differ in whether the closure may write to the
-- inner object, which is part of the closure's state here.
pub mod Progress
mod Tests
use epox.Base.{ℕ, Bool, true, false, Option, none, some}
use epox.Flags.{Flags}
use epox.Waker.{Waker, Poll, pending, Result}
use epox.EpollWaker.{IoError, EpollWaker, ControlFlow, normal, yields, Polled}
use epox.EpollWaker

-- What one poll of a descriptor leaves. `woken` says that the waker of the context was woken.
pub record FdPolled (F S A : Type 0) : Type 0 where
  pub poll : Poll (Result A IoError)
  pub epoll_waker : EpollWaker F
  pub state : S
  pub woken : Bool

module _ {F S A : Type 0} where
  abbrev answer_flow : ControlFlow (Result A IoError) → EpollWaker F → S → FdPolled F S A
  answer_flow (normal poll) w s = record { poll = poll; epoll_waker = w; state = s; woken = false }
  answer_flow yields w s = record { poll = pending; epoll_waker = w; state = s; woken = true }

  abbrev answer : Option (Polled F S A) → Option (FdPolled F S A)
  answer none = none
  answer (some p) = some (answer_flow p.flow p.epoll_waker p.state)

-- `Fd::poll_with` and `Fd::poll_with_mut`, which `FdWithFuture::poll` and `FdWithMutFuture::poll` call.
unfoldable pub poll_with :
    {F : Type 0} ⦃flags : Flags F⦄ {S A : Type 0}
    → ℕ
    → (func : S → F → Result A IoError × S) → Waker
    → EpollWaker F
    → S
    → Option (FdPolled F S A)
poll_with fuel func cx w s = answer (EpollWaker.poll_with fuel func cx w s)
