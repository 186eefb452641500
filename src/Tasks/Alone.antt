-- ===== src/Tasks/Alone.antt =====
-- `block_on` of src/executor.rs with a future that awaits `yield_now` of src/task.rs.
use epox.Base.{
  ℕ, zero, suc, ◌≡◌, refl, ◌∙◌, ap, Bool, true, false, Option, none, some, [], ◌==◌, if◌then◌else◌,
  sym,
}
use epox.Queue.Links.{Ptr}
use epox.Flags.{Flags}
use epox.Waker.{Waker, block_on}
use epox.Executor.{Executor, runq_high, runq_normal, runq_low, highest_priority_runnable_task}
use epox.Executor.Events.{Kernel, never, Status, fine, fails, epoll_wait}
use epox.Executor.Order.{tasks}
use epox.Executor.Run.{
  Turn, Futures, Blocked, returned, panicked, hangs, wake_waker, act, act_all, block_round,
  is_stuck, block_on_loop,
}
use epox.Tasks.{yield_poll}

module _ {F : Type 0} where
  -- The polls of a future that awaits `yield_now` and then answers.
  abbrev pub yields_now : Waker → ℕ → Turn F (Unit {0})
  yields_now w zero = record {
    actions = (yield_poll false w).1;
    poll = (yield_poll {F = F} false w).0;
  }
  yields_now w (suc n) = record {
    actions = (yield_poll (yield_poll {F = F} false w).2 w).1;
    poll = (yield_poll {F = F} (yield_poll {F = F} false w).2 w).0;
  }

  -- How `block_on` ends after the answer of a wait for events.
  abbrev pub after_wait : Executor F (Unit {0}) × Status → Option (Blocked F (Unit {0}))
  after_wait r = elim r.1 [ fine ↦ some (returned tt r.0) | fails n ↦ some (panicked r.0) ]

module _ {F : Type 0} ⦃flags : Flags F⦄ (kernel : Kernel F) (silent : ℕ → Bool)
    (futures : Futures F (Unit {0})) (fd : ℕ) where
  abbrev blocks : ℕ → ℕ → Executor F (Unit {0}) → Option (Blocked F (Unit {0}))
  blocks fuel n e = block_on_loop kernel fuel silent futures (yields_now (block_on fd)) n e

  none_runnable :
      (e : Executor F (Unit {0}))
      → tasks e runq_high ≡ []
      → tasks e runq_normal ≡ []
      → tasks e runq_low ≡ []
      → highest_priority_runnable_task e ≡ (none, e)
  unfolding highest_priority_runnable_task
  none_runnable e h n l = rw (h, n, l) refl

  abbrev after_first : Option Ptr × Executor F (Unit {0}) → Option (Blocked F (Unit {0}))
  after_first c =
      if is_stuck kernel silent c
      then some (hangs c.1)
      else after_wait (block_round kernel futures c)

  abbrev first_round : Executor F (Unit {0}) → Executor F (Unit {0}) × Status
  first_round e = block_round kernel futures (highest_priority_runnable_task e)

  first_poll :
      (fuel : ℕ) (e : Executor F (Unit {0}))
      → (s : Status) → (first_round e).1 ≡ s
      → (b : Bool) → is_stuck kernel silent (highest_priority_runnable_task e) ≡ b
      → blocks (suc (suc fuel)) 0 e ≡ after_first (highest_priority_runnable_task e)
  unfolding block_on_loop yield_poll act_all act wake_waker
  first_poll fuel e s goes true stuck = rw stuck refl
  first_poll fuel e fine goes false free =
      rw (free, goes) (sym (ap (λ s. after_wait ((first_round e).0, s)) goes))
  first_poll fuel e (fails c) goes false free =
      rw (free, goes) (sym (ap (λ s. after_wait ((first_round e).0, s)) goes))

  -- With no task in a run queue and room for events, `block_on` of `yield_now` hangs where no event
  -- ends its next wait, though the future has woken its own waker. Otherwise it waits for events without
  -- a timeout before it answers, and panics where that wait fails.
  pub block_on_loop-yield_poll :
      (fuel : ℕ) (e : Executor F (Unit {0}))
      → tasks e runq_high ≡ []
      → tasks e runq_normal ≡ []
      → tasks e runq_low ≡ []
      → (e.slots == 0) ≡ false
      → block_on_loop kernel (suc (suc fuel)) silent futures (yields_now (block_on fd)) 0 e
        ≡ (if silent e.waits then some (hangs e) else after_wait (epoll_wait kernel never e))
  unfolding is_stuck block_round
  block_on_loop-yield_poll fuel e h n l room =
      first_poll fuel e _ refl _ refl ∙ ap after_first (none_runnable e h n l) ∙ rw room refl
