-- ===== src/Waker.antt =====
-- `std::task::Waker` and `Poll` as src/executor.rs tells them apart: by the vtable and the data of
-- the raw waker.
use epox.Base.{ℕ}
use epox.Queue.Links.{Ptr}

pub data Waker : Type 0 where
  -- `Waker::noop()`
  noop : Waker
  -- built by `task_waker::build`: a weak reference to the task at this address
  task : Ptr → Waker
  -- built by `block_on`: the file descriptor of the executor's pipe
  block_on : ℕ → Waker
  -- any other, such as one that a combinator of futures built
  foreign : ℕ → Waker

pub data Poll {ℓ} (A : Type ℓ) : Type ℓ where
  pending : Poll A
  ready : A → Poll A

pub data Result {ℓ κ} (A : Type ℓ) (E : Type κ) : Type (ℓ ⊔ κ) where
  ok : A → Result A E
  err : E → Result A E
