-- ===== src/Executor/Blocking/Keeps.antt =====
-- What `block_on` of src/executor.rs keeps of the tasks that it lets run.
use epox.Base.{Bool, true, false, ℕ, zero, suc, ◌≡◌, refl, subst, none, some, some_eq, Option}
use epox.Queue.Links.{Ptr}
use epox.Flags.{Flags}
use epox.Waker.{Poll, pending, ready}
use epox.Executor.{Executor, highest_priority_runnable_task}
use epox.Executor.Events.{Kernel, now, never, Status, fine, fails}
use epox.Executor.Order.{Chosen, highest_priority_runnable_task-Chosen}
use epox.Executor.Tidy.{IsTidy, next-IsTidy}
use epox.Executor.Keeps.{act_all-IsTidy, run_task-IsTidy, epoll_wait-IsTidy}
use epox.Executor.Remain.{
  AreSparing, Remains, act_all-Remains, run_task-Remains, epoll_wait-Remains, next-Remains,
}
use epox.Executor.Run.{
  Turn, Futures, Blocked, returned, panicked, hangs, is_stuck, act_all, run_task, block_round,
  block_on_loop,
}

module _ {F V : Type 0} where
  -- The executor that `block_on` leaves, also where it panics or hangs.
  abbrev pub left : Blocked F V → Executor F V
  left (returned v e) = e
  left (panicked e) = e
  left (hangs e) = e

  abbrev pub IsKept : Ptr → Executor F V → Type 0
  IsKept u e = IsTidy e × Remains u e

module _ {F V : Type 0} ⦃flags : Flags F⦄ (kernel : Kernel F) (u : Ptr) (futures : Futures F V)
    (spared : (n : ℕ) (t : Ptr) → AreSparing u (futures n t).actions) where
  block_round-IsKept :
      (e : Executor F V) (c : Option Ptr × Executor F V)
      → Chosen e c
      → IsKept u e
      → IsKept u (block_round kernel futures c).0
  unfolding block_round
  block_round-IsKept e (some t, e') (p, n) (tidy, there) = (
    epoll_wait-IsTidy kernel now (run_task kernel futures t e')
        (run_task-IsTidy kernel futures t e' (next-IsTidy n tidy)),
    epoll_wait-Remains kernel u now (run_task kernel futures t e') (
        run_task-Remains kernel u futures t e' (spared e'.polls t)
          (λ other. next-Remains n other there)),
  )
  block_round-IsKept e (none, e') (_, _, _, same) (tidy, there) = (
    epoll_wait-IsTidy kernel never e' (rw same tidy),
    epoll_wait-Remains kernel u never e' (rw same there),
  )

  module _ (silent : ℕ → Bool) (future : ℕ → Turn F V)
      (spares : (n : ℕ) → AreSparing u (future n).actions) where
    acted-IsKept :
        (n : ℕ) (e : Executor F V) → IsKept u e → IsKept u (act_all kernel (future n).actions e)
    acted-IsKept n e (tidy, there) = (
      act_all-IsTidy kernel (future n).actions e tidy,
      act_all-Remains kernel u (future n).actions e (spares n) there,
    )

    abbrev next_task : ℕ → Executor F V → Option Ptr × Executor F V
    next_task n e = highest_priority_runnable_task (act_all kernel (future n).actions e)

    abbrev after_poll : ℕ → Executor F V → Executor F V × Status
    after_poll n e = block_round kernel futures (next_task n e)

    idle-IsKept :
        (e : Executor F V) (c : Option Ptr × Executor F V)
        → Chosen e c
        → is_stuck kernel silent c ≡ true
        → IsKept u e
        → IsKept u c.1
    unfolding is_stuck
    idle-IsKept e (some t, e') chosen stuck k = cc
    idle-IsKept e (none, e') (_, _, _, same) stuck k = rw same k

    after_poll-IsKept : (n : ℕ) (e : Executor F V) → IsKept u e → IsKept u (after_poll n e).0
    after_poll-IsKept n e k =
        block_round-IsKept _ _
          (highest_priority_runnable_task-Chosen (act_all kernel (future n).actions e))
          (acted-IsKept n e k)

    any_round :
        (fuel n : ℕ) (e : Executor F V) {r : Blocked F V}
        → ((e' : Executor F V)
            → IsKept u e'
            → block_on_loop kernel fuel silent futures future (suc n) e' ≡ some r
            → IsKept u (left r))
        → IsKept u e
        → (p : Poll V) → (future n).poll ≡ p
        → (b : Bool) → is_stuck kernel silent (next_task n e) ≡ b
        → (s : Status) → (after_poll n e).1 ≡ s
        → block_on_loop kernel (suc fuel) silent futures future n e ≡ some r
        → IsKept u (left r)
    unfolding block_on_loop
    any_round fuel n e rest k (ready v) ends b stuck s goes h =
        subst (λ r. IsKept u (left r)) (some_eq (rw (block_on_loop, ends) at h))
          (acted-IsKept n e k)
    any_round fuel n e rest k pending waits true stuck s goes h =
        subst (λ r. IsKept u (left r)) (some_eq (rw (block_on_loop, waits, stuck) at h))
          (idle-IsKept (act_all kernel (future n).actions e) (next_task n e)
            (highest_priority_runnable_task-Chosen (act_all kernel (future n).actions e)) stuck
            (acted-IsKept n e k))
    any_round fuel n e rest k pending waits false stuck fine goes h =
        rest (after_poll n e).0 (after_poll-IsKept n e k)
          (rw (block_on_loop, waits, stuck, goes) at h)
    any_round fuel n e rest k pending waits false stuck (fails c) goes h =
        subst (λ r. IsKept u (left r)) (some_eq (rw (block_on_loop, waits, stuck, goes) at h))
          (after_poll-IsKept n e k)

    -- When `block_on` ends, by an answer or a panic, or hangs, every task stands in at most one place of one
    -- queue, the sleep queue or the run queue of its priority, and a task that stood in a queue and
    -- that nobody aborts has completed or stands in a queue. It is so at the start.
    pub block_on_loop-IsKept :
        (fuel n : ℕ) (e : Executor F V) {r : Blocked F V}
        → IsTidy e
        → Remains u e
        → block_on_loop kernel fuel silent futures future n e ≡ some r
        → IsTidy (left r) × Remains u (left r)
    unfolding block_on_loop
    block_on_loop-IsKept zero n e tidy there h = cc
    block_on_loop-IsKept (suc fuel) n e tidy there h =
        any_round fuel n e (λ e' k. block_on_loop-IsKept fuel (suc n) e' k.0 k.1) (tidy, there)
          (future n).poll refl (is_stuck kernel silent (next_task n e)) refl (after_poll n e).1 refl
          h
