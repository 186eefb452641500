-- ===== src/EpollWaker.antt =====
-- `EpollWaker` of src/executor.rs.
--
-- The closure that `poll_with` calls is code of the caller: a function from its own state and the
-- events to an answer and a new state. Its errors are told apart as the code does, by their kind.
pub mod Burst
pub mod Outcome
pub mod Calls
mod Tests
use epox.Base.{ℕ, zero, suc, ◌+◌, Bool, Option, none, some, leb, if◌then◌else◌}
use epox.Flags.{Flags}
use epox.Waker.{Waker, noop, Poll, pending, ready, Result, ok, err}

-- `std::io::Error` by its kind.
pub data IoError : Type 0 where
  interrupted : IoError
  would_block : IoError
  other : ℕ → IoError

pub record EpollWaker (F : Type 0) : Type 0 where
  pub waker : Waker
  pub events : F
  pub burst : ℕ  -- usize, at most `burst_limit`

pub data ControlFlow (A : Type 0) : Type 0 where
  normal : Poll A → ControlFlow A
  yields : ControlFlow A

abbrev pub burst_limit : ℕ
burst_limit = 20

-- `EpollWaker::new`
unfoldable pub new : {F : Type 0} → F → EpollWaker F
new events = record { waker = noop; events = events; burst = 0 }

-- What one poll leaves: the answer, the waker and the state of the closure.
pub record Polled (F S A : Type 0) : Type 0 where
  pub flow : ControlFlow (Result A IoError)
  pub epoll_waker : EpollWaker F
  pub state : S

module _ {F : Type 0} ⦃flags : Flags F⦄ {S A : Type 0} where
  -- The arms of `poll_with` that leave the loop.
  unfoldable pub finish : Waker → EpollWaker F → Result A IoError → S → Polled F S A
  finish cx w (err would_block) s = record {
    flow = normal pending;
    epoll_waker = record { waker = cx; events = flags.empty; burst = 0 };
    state = s;
  }
  finish cx w res s = record {
    flow = normal (ready res);
    epoll_waker = record w { burst = w.burst + 1 };
    state = s;
  }

  -- The loop of `poll_with`, over the answer of the call just made. `none` means that the fuel ran
  -- out, which only a run of EINTR can do.
  unfoldable pub retry :
      Result A IoError × S
      → ℕ
      → (func : S → F → Result A IoError × S) → Waker
      → EpollWaker F
      → Option (Polled F S A)
  unfolding finish
  retry (err interrupted, s) zero func cx w = none
  retry (err interrupted, s) (suc fuel) func cx w = retry (func s w.events) fuel func cx w
  retry (res, s) fuel func cx w = some (finish cx w res s)

  -- `EpollWaker::poll_with`, with the waker of the context.
  unfoldable pub poll_with :
      ℕ → (func : S → F → Result A IoError × S) → Waker → EpollWaker F → S → Option (Polled F S A)
  unfolding retry
  poll_with fuel func cx w s =
      if flags.is_empty w.events
      then some (record {
        flow = normal pending;
        epoll_waker = record w { waker = cx; burst = 0 };
        state = s;
      })
      else if leb burst_limit w.burst
      then some (record { flow = yields; epoll_waker = record w { burst = 0 }; state = s })
      else retry (func s w.events) fuel func cx w
