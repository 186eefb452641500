-- ===== src/Signals.antt =====
-- `AsyncSignal` of src/signal.rs: its constructor, a poll of `receive`, and its drop.
--
-- A `SigSet` is the list of its signals, in the order of its iterator. The signal mask of the thread
-- belongs to the system: an interface with the documented laws of `pthread_sigmask`.
mod Mask
mod Tests
use epox.Base.{
  ℕ, ◌≡◌, refl, Bool, true, false, ◌||◌, ◌&&◌, not, Option, List, [], ◌∷◌, if◌then◌else◌, mem,
  arith,
}
use epox.Queue.Links.{Ptr}
use epox.Flags.{Flags}
use epox.Waker.{Waker, Result, ok, err}
use epox.EpollWaker.{IoError, EpollWaker}
use epox.Fd.{FdPolled}
use epox.Fd
use epox.Executor.{Executor}
use epox.Executor.Events.{Status, fine, fails}
use epox.Executor.Register.{Setup, new_fd}

pub record Masks (M : Type 0) : Type 0 where
  pub contains : M → ℕ → Bool
  pub block : List ℕ → M → M  -- SIG_BLOCK
  pub unblock : List ℕ → M → M  -- SIG_UNBLOCK
  pub can_block : ℕ → Bool  -- all but SIGKILL and SIGSTOP, which SIG_BLOCK leaves alone
  pub contains-block :
      (ss : List ℕ) (m : M) (s : ℕ)
      → contains (block ss m) s ≡ (contains m s || (mem s ss && can_block s))
  pub contains-unblock :
      (ss : List ℕ) (m : M) (s : ℕ) → contains (unblock ss m) s ≡ (contains m s && not (mem s ss))

-- The errors of `AsyncSignal::new`. `unregistered` are those of `Fd::new`.
pub data SignalError : Type 0 where
  empty_sigset signal_is_blocked : SignalError
  os unregistered : ℕ → SignalError

-- The answers of the system: to the read of the mask, `signalfd`, and the change of the mask.
pub record Answers : Type 0 where
  pub get_mask : Status
  pub make_fd : Status
  pub set_mask : Status

-- What a constructor leaves.
pub record Opening (M F V : Type 0) : Type 0 where
  pub answer : Result (Unit {0}) SignalError
  pub mask : M
  pub executor : Executor F V

module _ {M : Type 0} ⦃masks : Masks M⦄ where
  -- The loop that leaves with an error at a signal that is blocked.
  unfoldable pub any_blocked : M → List ℕ → Bool
  any_blocked m [] = false
  any_blocked m (s ∷ ss) = masks.contains m s || any_blocked m ss

  -- `AsyncSignal::drop`, before its descriptor is dropped.
  unfoldable pub drop_signal : List ℕ → M → M
  drop_signal ss m = masks.unblock ss m

module _ {M F V : Type 0} ⦃masks : Masks M⦄ ⦃flags : Flags F⦄ where
  abbrev pub give_up : SignalError → M → Executor F V → Opening M F V
  give_up x m e = record { answer = err x; mask = m; executor = e }

  unfoldable pub opened_fd : M → Executor F V × Status → Opening M F V
  opened_fd m (e, fine) = record { answer = ok tt; mask = m; executor = e }
  opened_fd m (e, fails n) = give_up (unregistered n) m e

  -- The steps of `AsyncSignal::new`, each over the answer of the one before.
  unfoldable pub open_fd : Ptr → List ℕ → Setup → Status → M → Executor F V → Opening M F V
  unfolding opened_fd
  open_fd key ss setup fine m e = opened_fd (masks.block ss m) (new_fd key flags.input setup e)
  open_fd key ss setup (fails n) m e = give_up (os n) m e

  unfoldable pub block_signals :
      Ptr → List ℕ → Setup → (set_mask : Status) → Status → M → Executor F V → Opening M F V
  unfolding open_fd
  block_signals key ss setup set_mask fine m e = open_fd key ss setup set_mask m e
  block_signals key ss setup set_mask (fails n) m e = give_up (os n) m e

  unfoldable pub unless_blocked :
      Ptr → List ℕ → Setup → Answers → (blocked : Bool) → M → Executor F V → Opening M F V
  unfolding block_signals
  unless_blocked key ss setup a true m e = give_up signal_is_blocked m e
  unless_blocked key ss setup a false m e = block_signals key ss setup a.set_mask a.make_fd m e

  unfoldable pub check_mask :
      Ptr → List ℕ → Setup → Answers → Status → M → Executor F V → Opening M F V
  unfolding unless_blocked
  check_mask key ss setup a fine m e = unless_blocked key ss setup a (any_blocked m ss) m e
  check_mask key ss setup a (fails n) m e = give_up (os n) m e

  -- `AsyncSignal::new`
  unfoldable pub new_signal : Ptr → List ℕ → Setup → Answers → M → Executor F V → Opening M F V
  unfolding check_mask
  new_signal key [] setup a m e = give_up empty_sigset m e
  new_signal key (s ∷ ss) setup a m e = check_mask key (s ∷ ss) setup a a.get_mask m e

-- A poll of `AsyncSignal::receive`, with the read of one `signalfd_siginfo`.
unfoldable pub poll_receive :
    {F S A : Type 0} ⦃flags : Flags F⦄
    → ℕ
    → (read : S → Result A IoError × S) → Waker
    → EpollWaker F
    → S
    → Option (FdPolled F S A)
poll_receive fuel read cx w s = Fd.poll_with fuel (λ s events. read s) cx w s
