-- ===== src/Tasks/Inner.antt =====
-- `Inner` of src/task.rs: a future with the cell for its output, which the executor polls and a
-- handle takes.
use epox.Base.{◌≡◌, Option, none, some, arith, ◌==◌, true}
use epox.Queue.Links.{Ptr}
use epox.Waker.{Waker, Poll, pending, ready}
use epox.Executor.{Executor}
use epox.Executor.Join.{result}

pub record Inner (V I : Type 0) : Type 0 where
  pub output : Option V
  pub future : I

module _ {V I : Type 0} where
  -- The match of `Inner::poll` on the answer of the future.
  abbrev pub stored : Option V → Poll V × I → Poll (Unit {0}) × Inner V I
  stored o (ready v, i) = (ready tt, record { output = some v; future = i })
  stored o (pending, i) = (pending, record { output = o; future = i })

  -- `Inner::poll`
  unfoldable pub poll_inner :
      (poll : Waker → I → Poll V × I) → Waker → Inner V I → Poll (Unit {0}) × Inner V I
  poll_inner poll cx inner = stored inner.output (poll cx inner.future)

  -- `Inner::take_output`, into an `Option` of the type of the output.
  unfoldable pub take_output : Inner V I → Option V × Inner V I
  take_output inner = (inner.output, record inner { output = none })

  -- `Handle::result` of the executor's task is `take_output` of its `Inner`.
  result-take_output :
      {F : Type 0} (t : Ptr) (inner : Inner V I) (e : Executor F V)
      → (e.cell t).output ≡ inner.output
      → ((result t e).0 ≡ (take_output inner).0)
        × (((result t e).1.cell t).output ≡ (take_output inner).1.output)
  unfolding result take_output
  result-take_output t inner e same = let self : (t == t) ≡ true = ground arith in (same, rw self)
