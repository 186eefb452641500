-- ===== src/Wakers.antt =====
-- The wakers of tasks as weak references: `task_waker` of src/executor.rs, and the weak references
-- that `wake_from_pipe` and `epoll_wait` take from raw pointers.
--
-- A waker is a raw pointer that owns one weak reference. `weak` counts the weak references of each
-- task, and `pipe` has the pointers that other threads have written and that own one as well.
pub mod Balance
mod Tests
use epox.Base.{
  ℕ, ◌+◌, ◌-◌, ◌≡◌, Bool, true, false, Option, none, some, List, [], ◌∷◌, ◌++◌, ◌==◌, if◌then◌else◌,
  update,
}
use epox.Queue.Links.{Ptr, null}
use epox.Waker.{Waker, noop, task, block_on, foreign}
use epox.Executor.Events.{Written, whole, bad_descriptor, refused}

pub record Weaks : Type 0 where
  pub weak : Ptr → ℕ
  pub alive : Ptr → Bool  -- an Arc of the task is held
  pub pipe : List Ptr

-- `Arc::downgrade` or the clone of a Weak, and the drop of a Weak.
abbrev pub downgraded : Ptr → Weaks → Weaks
downgraded t s = record s { weak = update s.weak t (s.weak t + 1) }

abbrev pub weak_dropped : Ptr → Weaks → Weaks
weak_dropped t s = record s { weak = update s.weak t (s.weak t - 1) }

-- `task_waker::build`
unfoldable pub build_waker : Ptr → Weaks → Waker × Weaks
build_waker t s = (task t, downgraded t s)

-- `task_waker::clone`: `weak_from_raw` and `Weak::into_raw` neither add nor drop a reference.
unfoldable pub clone_waker : Ptr → Weaks → Waker × Weaks
clone_waker t s = if s.alive t then (task t, downgraded t s) else (noop, s)

-- The branches of `task_waker::wake` for a task of another thread. `none` is the panic.
unfoldable pub send_weak : Written → Ptr → Weaks → Option Weaks
send_weak whole t s = some (record (downgraded t s) { pipe = s.pipe ++ t ∷ [] })
send_weak bad_descriptor t s = some (downgraded t s)
send_weak (refused n) t s = none

-- `task_waker::wake`: on the thread of the task the weak references stay as they are.
unfoldable pub wake_weakly : (here : Bool) → Written → Ptr → Weaks → Option Weaks
unfolding send_weak
wake_weakly here written t s =
    if s.alive t then if here then some s else send_weak written t s else some s

-- `task_waker::wake_by_ref`
unfoldable pub wake_by_ref : (here : Bool) → Written → Ptr → Weaks → Option Weaks
unfolding wake_weakly
wake_by_ref here written t s = wake_weakly here written t s

-- `task_waker::wake_by_val`, which drops its weak reference at the end.
abbrev pub then_dropped : Ptr → Option Weaks → Option Weaks
then_dropped t none = none
then_dropped t (some s) = some (weak_dropped t s)

unfoldable pub wake_by_val : (here : Bool) → Written → Ptr → Weaks → Option Weaks
unfolding wake_weakly
wake_by_val here written t s = then_dropped t (wake_weakly here written t s)

-- `task_waker::drop`
unfoldable pub drop_waker : Ptr → Weaks → Weaks
drop_waker t s = weak_dropped t s

-- `Executor::wake_from_pipe`: the weak reference that the pipe owned is dropped at the end.
unfoldable pub read_weak : List Ptr → Weaks → Weaks
read_weak [] s = s
read_weak (p ∷ ps) s =
    let s' = record s { pipe = ps } in if p == null then s' else weak_dropped p s'
