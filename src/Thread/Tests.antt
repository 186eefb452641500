-- ===== src/Thread/Tests.antt =====
-- A thread that is polled twice before it ends.
use epox.Base.{ℕ, ◌≡◌, none, some, [], ◌∷◌, true, false}
use epox.Waker.{task, ok}
use epox.Thread.Schedule.{World}
use epox.Thread.{
  complete, Closure, returns, panicking, Handle, spawned, thread_main, wait_all, thread_main-panics,
}

abbrev returned : Closure ℕ
returned = returns 7

thread_main-panics_example :
    (h h' : Handle) × (wait_all (panicking ℕ 1) (task 5 ∷ task 6 ∷ []) spawned ≡ some h)
    × (thread_main (panicking ℕ 1) h.state ≡ some (h.state, none))
    × (wait_all (panicking ℕ 1) (task 8 ∷ task 9 ∷ []) h ≡ some h')
thread_main-panics_example = thread_main-panics ℕ 1 (task 5 ∷ []) (task 8 ∷ []) (task 6) (task 9)

-- Two polls, the end of the thread, a third poll, and only then the wake.
abbrev raced : World ℕ
raced = record {
  handle = record { state = complete; join_handle = false };
  last = some (task 6);
  taken = none;
  woken = task 6 ∷ [];
  ended = true;
  answers = ok 7 ∷ [];
}
