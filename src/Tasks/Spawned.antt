-- ===== src/Tasks/Spawned.antt =====
-- What `spawn_with_priority` and `spawn_checked_with_priority` leave.
use epox.Base.{ℕ, ◌≡◌, refl, true, false, [], ◌∷◌, ◌++◌, ◌==◌, arith, mem, without_absent}
use epox.Queue.Links.{Ptr}
use epox.Queue.Push.{pushed}
use epox.Executor.{
  Executor, Priority, high, normal, low, runq, is_alive, is_queued, enqueue, cloned, allocated,
}
use epox.Executor
use epox.Executor.Order.{tasks}
use epox.Tasks.{
  Future, Machine, new, with_priority, into_parts, spawn_parts, build, spawn_with_priority,
}

module _ {F V : Type 0} where
  absent :
      (a : Ptr) (p : Priority) (e : Executor F V)
      → is_alive e a ≡ false
      → mem a (tasks e (runq p)) ≡ false
  absent a high e gone = ground arith
  absent a normal e gone = ground arith
  absent a low e gone = ground arith

  enqueue_live :
      (t : Ptr) (e : Executor F V)
      → (e.cell t).has_completed ≡ false
      → enqueue t e ≡ record e { queues = pushed (runq (e.cell t).priority) t e.queues }
  unfolding enqueue
  enqueue_live t e live = rw live

  spawned_last :
      (a : Ptr) (p : Priority) (e : Executor F V)
      → is_alive e a ≡ false
      → (tasks (Executor.spawn a p e) (runq p) ≡ tasks e (runq p) ++ a ∷ [])
        × ((Executor.spawn a p e).queues.refs a ≡ 1)
        × (((Executor.spawn a p e).cell a).priority ≡ p)
  unfolding Executor.spawn
  spawned_last a p e gone =
      let self : (a == a) ≡ true = ground arith in
      let same : (runq p == runq p) ≡ true = ground arith in
      let e1 : Executor F V = cloned a (allocated a p e) in
      rw (enqueue_live a e1 (rw self)) (
        rw (self, same) (rw (without_absent a (tasks e (runq p)) (absent a p e gone)) refl),
        rw self,
        rw self,
      )

  -- A task that `spawn_with_priority` puts at an unused address is the last of the run queue of its
  -- priority, is held by its handle besides, and is polled as its future does. The futures of the
  -- other tasks stay.
  pub spawn_with_priority-last :
      (a : Ptr) (location : ℕ) (future : Future F V) (p : Priority) (m : Machine F V)
      → is_alive m.executor a ≡ false
      → let m' = spawn_with_priority a location future p m in
        (tasks m'.executor (runq p) ≡ tasks m.executor (runq p) ++ a ∷ [])
        × (m'.executor.queues.refs a ≡ 1)
        × ((m'.executor.cell a).priority ≡ p)
        × ((n : ℕ) → m'.futures n a ≡ future n)
        × ((n : ℕ) (t : Ptr) → (a == t) ≡ false → m'.futures n t ≡ m.futures n t)
  unfolding spawn_with_priority build with_priority new into_parts spawn_parts
  spawn_with_priority-last a location future p m gone =
      let self : (a == a) ≡ true = ground arith in
      let r = spawned_last a p m.executor gone in (r.0, r.1, r.2, λ n. rw self, λ n t ne. rw ne)
