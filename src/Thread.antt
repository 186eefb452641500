-- ===== src/Thread.antt =====
-- Threads that a task can wait for: src/thread.rs.
--
-- The closure of the thread and `std::thread` are code of others: what the closure does is an argument,
-- and `JoinHandle::join` answers what it did.
pub mod Schedule
mod Tests
use epox.Base.{ℕ, ◌≡◌, refl, Bool, true, false, Option, none, some, List, [], ◌∷◌, ◌++◌}
use epox.Waker.{Waker, noop, Poll, pending, ready, Result, ok, err}

-- `State`, behind the mutex that the thread and its handle share.
pub data State : Type 0 where
  running : Waker → State
  complete : State

-- The end of the closure.
pub data Closure (T : Type 0) : Type 0 where
  returns : T → Closure T
  panics : ℕ → Closure T

pub record Handle : Type 0 where
  pub state : State
  pub join_handle : Bool  -- it was not taken yet

-- The handle that `spawn_with_builder` returns.
abbrev pub spawned : Handle
spawned = record { state = running noop; join_handle = true }

-- The thread that `spawn_with_builder` starts, from the end of its closure: the new state and the
-- waker that it wakes. A closure that panics unwinds before the state is changed. `none` is a panic
-- of the thread itself.
unfoldable pub thread_main : {T : Type 0} → Closure T → State → Option (State × Option Waker)
thread_main (returns v) (running w) = some (complete, some w)
thread_main (returns v) complete = none
thread_main (panics n) s = some (s, none)

-- `JoinHandle::join` of a thread that has ended.
abbrev pub joined : {T : Type 0} → Closure T → Result T ℕ
joined (returns v) = ok v
joined (panics n) = err n

-- The arms of `JoinFuture::poll`. `none` is the panic of a poll after completion.
unfoldable pub poll_state :
    {T : Type 0}
    → Closure T
    → Waker
    → State
    → (join_handle : Bool) → Option (Poll (Result T ℕ) × Handle)
poll_state closure cx (running w) joins =
    some (pending, record { state = running cx; join_handle = joins })
poll_state closure cx complete true =
    some (ready (joined closure), record { state = complete; join_handle = false })
poll_state closure cx complete false = none

-- `JoinFuture::poll`
unfoldable pub poll :
    {T : Type 0} → Closure T → Waker → Handle → Option (Poll (Result T ℕ) × Handle)
unfolding poll_state
poll closure cx h = poll_state closure cx h.state h.join_handle

-- A list of polls that all answer `Pending`. `none` when one of them does not.
unfoldable pub wait_all : {T : Type 0} → Closure T → List Waker → Handle → Option Handle
unfolding poll
wait_all closure [] h = some h
wait_all closure (w ∷ ws) h = elim (poll closure w h) [
  | none ↦ none
  | some r ↦ elim r.0 [ pending ↦ wait_all closure ws r.1 | ready v ↦ none ]
]

-- A handle while the thread runs.
abbrev waiting : Waker → Handle
waiting w = record { state = running w; join_handle = true }

wait_all-running :
    {T : Type 0} (closure : Closure T) (ws : List Waker) (w w0 : Waker)
    → wait_all closure (ws ++ w ∷ []) (waiting w0) ≡ some (waiting w)
unfolding wait_all
wait_all-running closure [] w w0 = refl
wait_all-running closure (u ∷ ws) w w0 = wait_all-running closure ws w u

-- However often the handle of a running thread was polled, the end of a closure that returns wakes
-- the waker of the last poll and no other. The next poll answers the value, and one more panics.
thread_main-poll :
    {T : Type 0} (v : T) (ws : List Waker) (w u : Waker)
    → (h : Handle) × (wait_all (returns v) (ws ++ w ∷ []) spawned ≡ some h)
      × (thread_main (returns v) h.state ≡ some (complete, some w))
      × (poll (returns v) u (record h { state = complete })
          ≡ some (ready (ok v), record { state = complete; join_handle = false }))
      × (poll (returns v) u (record { state = complete; join_handle = false }) ≡ none)
unfolding thread_main poll
thread_main-poll v ws w u = (waiting w, wait_all-running (returns v) ws w noop, refl, refl, refl)

abbrev pub panicking : (T : Type 0) → ℕ → Closure T
panicking T n = panics n

-- The end of a closure that panics wakes nobody, and every poll of the handle is pending, before and
-- after that end, as often as it is polled.
pub thread_main-panics :
    (T : Type 0) (n : ℕ) (ws us : List Waker) (w u : Waker)
    → (h h' : Handle) × (wait_all (panicking T n) (ws ++ w ∷ []) spawned ≡ some h)
      × (thread_main (panicking T n) h.state ≡ some (h.state, none))
      × (wait_all (panicking T n) (us ++ u ∷ []) h ≡ some h')
unfolding thread_main
thread_main-panics T n ws us w u = (
  waiting w,
  waiting u,
  wait_all-running (panicking T n) ws w noop,
  refl,
  wait_all-running (panicking T n) us u w,
)
