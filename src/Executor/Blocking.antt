-- ===== src/Executor/Blocking.antt =====
-- How `block_on` of src/executor.rs ends.
pub mod Keeps
use epox.Base.{ℕ, suc, ◌≡◌, Bool, true, false, Option, none, some}
use epox.Queue.Links.{Ptr}
use epox.Flags.{Flags}
use epox.Waker.{pending, ready}
use epox.Executor.{Executor, highest_priority_runnable_task}
use epox.Executor.Events.{Kernel, Status, fine, fails}
use epox.Executor.Run.{
  Turn, Futures, Blocked, returned, panicked, hangs, act_all, block_round, is_stuck, block_on_loop,
}

module _ {F V : Type 0} ⦃flags : Flags F⦄ (kernel : Kernel F) (silent : ℕ → Bool)
    (futures : Futures F V) (future : ℕ → Turn F V) where
  -- What there is to run after the n-th poll of the future.
  abbrev pub next_task : ℕ → Executor F V → Option Ptr × Executor F V
  next_task n e = highest_priority_runnable_task (act_all kernel (future n).actions e)

  abbrev pub after_poll : ℕ → Executor F V → Executor F V × Status
  after_poll n e = block_round kernel futures (next_task n e)

  -- From the n-th poll in one state to the m-th in another: the future is pending in between, and
  -- every wait returns well.
  pub data Passes : ℕ → Executor F V → ℕ → Executor F V → Type 0 where
    arrived : {n : ℕ} {e : Executor F V} → Passes n e n e
    waited :
        {n m : ℕ} {e e' : Executor F V}
        → (future n).poll ≡ pending
        → is_stuck kernel silent (next_task n e) ≡ false
        → (after_poll n e).1 ≡ fine
        → Passes (suc n) (after_poll n e).0 m e'
        → Passes n e m e'

  -- The ends of a `block_on` whose future gives `v`: at the poll that is ready, or after a pending poll
  -- with a wait that fails or that no event ends.
  pub data EndsWith (v : V) (n : ℕ) (e : Executor F V) : Blocked F V → Type 0 where
    answers :
        (m : ℕ) (e' : Executor F V)
        → Passes n e m e'
        → (future m).poll ≡ ready v
        → EndsWith v n e (returned v (act_all kernel (future m).actions e'))
    fails_at :
        (m code : ℕ) (e' : Executor F V)
        → Passes n e m e'
        → (future m).poll ≡ pending
        → is_stuck kernel silent (next_task m e') ≡ false
        → (after_poll m e').1 ≡ fails code
        → EndsWith v n e (panicked (after_poll m e').0)
    hangs_at :
        (m : ℕ) (e' : Executor F V)
        → Passes n e m e'
        → (future m).poll ≡ pending
        → is_stuck kernel silent (next_task m e') ≡ true
        → EndsWith v n e (hangs (next_task m e').1)

  abbrev pub HasEnd : V → ℕ → ℕ → Executor F V → Type 0
  HasEnd v fuel n e =
      (b : Blocked F V) × (block_on_loop kernel fuel silent futures future n e ≡ some b)
      × EndsWith v n e b
