-- ===== src/Executor/Aborted.antt =====
-- What `Handle::abort` does to a task.
use epox.Base.{◌≡◌, refl, subst, true, false, arith, ◌==◌, ltb, mem, mem-without}
use epox.Queue.Links.{Ptr}
use epox.Flags.{Flags}
use epox.Executor.{Executor, runq, cloned, abort}
use epox.Executor.Events.{wake_weak}
use epox.Executor.Yielding.{enqueued}

module _ {F V : Type 0} where
  abort-mem : (t : Ptr) (e : Executor F V) (q : Ptr) → mem t ((abort t e).queues.contents q) ≡ false
  unfolding abort
  abort-mem t e q = ground (arith, mem-without t t (e.queues.contents q))

  abort-others :
      (t : Ptr) (e : Executor F V) (q u : Ptr)
      → (t == u) ≡ false
      → mem u ((abort t e).queues.contents q) ≡ mem u (e.queues.contents q)
  unfolding abort
  abort-others t e q u ne = ground (arith, mem-without u t (e.queues.contents q))

  abort-refs : (t : Ptr) (e : Executor F V) (p : Ptr) → (abort t e).queues.refs p ≡ e.queues.refs p
  unfolding abort
  abort-refs t e p = ground arith

  abort-cell : (t : Ptr) (e : Executor F V) → (abort t e).cell ≡ e.cell
  unfolding abort
  abort-cell t e = refl

  woken :
      ⦃flags : Flags F⦄ (t : Ptr) (e : Executor F V)
      → ltb 0 (e.queues.refs t) ≡ true
      → (e.cell t).has_completed ≡ false
      → mem t ((wake_weak t e).queues.contents (runq (e.cell t).priority)) ≡ true
  unfolding wake_weak
  woken t e held live = rw held (enqueued t (cloned t e) live)

  -- `abort` takes a task out of every queue, leaves the others where they are, and keeps every
  -- reference that is held elsewhere. While such a reference to the task is held, as its `Handle`, a
  -- wake puts an aborted task that had not completed back into the run queue of its priority.
  pub abort-wake_weak :
      ⦃flags : Flags F⦄ (t : Ptr) (e : Executor F V)
      → ltb 0 (e.queues.refs t) ≡ true
      → (e.cell t).has_completed ≡ false
      → ((q : Ptr) → mem t ((abort t e).queues.contents q) ≡ false)
        × ((q u : Ptr)
            → (t == u) ≡ false
            → mem u ((abort t e).queues.contents q) ≡ mem u (e.queues.contents q))
        × ((p : Ptr) → (abort t e).queues.refs p ≡ e.queues.refs p)
        × (mem t ((wake_weak t (abort t e)).queues.contents (runq (e.cell t).priority)) ≡ true)
  abort-wake_weak t e held live = (
    abort-mem t e,
    abort-others t e,
    abort-refs t e,
    subst (λ c. mem t ((wake_weak t (abort t e)).queues.contents (runq (c t).priority)) ≡ true)
        (abort-cell t e)
        (woken t (abort t e) (rw (abort-refs t e t) held) (rw (abort-cell t e) live)),
  )
