-- ===== src/Executor/Slots.antt =====
-- The slots for events, of which an executor has one for its pipe and one for each of its descriptors.
use epox.Base.{ℕ, zero, suc, ◌+◌, ◌≡◌, refl, ap, false, none, [], arith, is_nil}
use epox.Queue.Links.{Ptr}
use epox.Flags.{Flags}
use epox.Executor.{
  Executor, runq_high, runq_normal, runq_low, sleepq, highest_priority_runnable_task,
}
use epox.Executor.Events.{Kernel, Timeout, never, Status, fine, fails, epoll_wait}
use epox.Executor.Register.{epoll_add, epoll_del, drop_fd, Setup, register, add_or_drop, new_fd}
use epox.Executor.Run.{Futures, check, when_idle, round, run_loop}
use epox.Executor.Order.{tasks}

-- The slots that a registration holds, by its answer.
unfoldable pub held : Status → ℕ
held fine = 1
held (fails n) = 0

unfoldable pub first_failure : Status → Status → Status
first_failure fine then' = then'
first_failure (fails n) then' = fails n

module _ {F V : Type 0} ⦃flags : Flags F⦄ where
  register-slots :
      (key : Ptr) (events : F) (add undo : Status) (e : Executor F V)
      → ((register key events add undo e).0.slots
          ≡ held (register key events add undo e).1 + e.slots)
        × ((register key events add undo e).1 ≡ add)
        × ((register key events add undo e).0.queues ≡ e.queues)
  unfolding register add_or_drop held drop_fd epoll_del epoll_add
  register-slots key events fine undo e = (omega arith, refl, refl)
  register-slots key events (fails n) undo e = (omega arith, refl, refl)

  -- `Fd::new` ends with the first failure of its system calls, in the order of the calls. It takes one
  -- slot for events when it succeeds and none when any call fails, also the last, and it leaves the
  -- queues as they were.
  pub new_fd-slots :
      (key : Ptr) (events : F) (s : Setup) (e : Executor F V)
      → ((new_fd key events s e).1 ≡ first_failure s.get_flags (first_failure s.set_flags s.add))
        × ((new_fd key events s e).0.slots ≡ held (new_fd key events s e).1 + e.slots)
        × ((new_fd key events s e).0.queues ≡ e.queues)
  unfolding new_fd held first_failure
  new_fd-slots key events s e =
      split s.get_flags refl s.set_flags refl (register-slots key events s.add s.undo e)
    where
      split :
          (get : Status)
          → s.get_flags ≡ get
          → (set : Status) → s.set_flags ≡ set
          → ((register key events s.add s.undo e).0.slots
              ≡ held (register key events s.add s.undo e).1 + e.slots)
            × ((register key events s.add s.undo e).1 ≡ s.add)
            × ((register key events s.add s.undo e).0.queues ≡ e.queues)
          → ((new_fd key events s e).1
              ≡ first_failure s.get_flags (first_failure s.set_flags s.add))
            × ((new_fd key events s e).0.slots ≡ held (new_fd key events s e).1 + e.slots)
            × ((new_fd key events s e).0.queues ≡ e.queues)
      split fine g fine f r = rw (g, f) (r.1, r.0, r.2)
      split fine g (fails n) f r = rw (g, f) (refl, omega arith, refl)
      split (fails n) g set f r = rw g (refl, omega arith, refl)

module _ {F V : Type 0} ⦃flags : Flags F⦄ (kernel : Kernel F) where
  blind :
      (timeout : Timeout) (e : Executor F V) → e.slots ≡ 0 → epoll_wait kernel timeout e ≡ (e, fine)
  unfolding epoll_wait
  blind timeout e none_left = rw none_left

  none_runnable :
      (e : Executor F V)
      → tasks e runq_high ≡ []
      → tasks e runq_normal ≡ []
      → tasks e runq_low ≡ []
      → highest_priority_runnable_task e ≡ (none, e)
  unfolding highest_priority_runnable_task
  none_runnable e h n l = rw (h, n, l)

  -- A round of `run` that finds nothing to run and no event changes nothing.
  idle_round :
      (futures : Futures F V) (e : Executor F V)
      → e.slots ≡ 0
      → tasks e runq_high ≡ []
      → tasks e runq_normal ≡ []
      → tasks e runq_low ≡ []
      → is_nil (tasks e sleepq) ≡ false
      → round kernel futures (highest_priority_runnable_task e) ≡ (e, none)
  unfolding round when_idle check
  idle_round futures e slots h n l s = rw (none_runnable e h n l) (rw s (rw (blind never e slots)))

  run_loop_spins :
      (fuel : ℕ) (futures : Futures F V) (e : Executor F V)
      → e.slots ≡ 0
      → tasks e runq_high ≡ []
      → tasks e runq_normal ≡ []
      → tasks e runq_low ≡ []
      → is_nil (tasks e sleepq) ≡ false
      → run_loop kernel fuel futures e ≡ none
  unfolding run_loop
  run_loop_spins zero futures e slots h n l s = refl
  run_loop_spins (suc fuel) futures e slots h n l s =
      let r = idle_round futures e slots h n l s in
      rw (ap (λ x. x.1) r, run_loop)
        (rw (ap (λ x. x.0) r) (run_loop_spins fuel futures e slots h n l s))

  -- The drop of a descriptor takes the only slot of an executor that has no other, also when the
  -- descriptor was not registered with it. With no runnable task and a sleeping one, `run` then runs
  -- out of any fuel, and no wait asks the kernel or changes the executor.
  pub run_loop-drop_fd :
      (fuel : ℕ) (futures : Futures F V) (ctl : Status) (e : Executor F V)
      → e.slots ≡ 1
      → tasks e runq_high ≡ []
      → tasks e runq_normal ≡ []
      → tasks e runq_low ≡ []
      → is_nil (tasks e sleepq) ≡ false
      → (run_loop kernel fuel futures (drop_fd ctl e) ≡ none)
        × ((timeout : Timeout) → epoll_wait kernel timeout (drop_fd ctl e) ≡ (drop_fd ctl e, fine))
  unfolding drop_fd epoll_del
  run_loop-drop_fd fuel futures ctl e slots h n l s =
      let gone : (drop_fd ctl e).slots ≡ 0 = rw slots in
      (
        run_loop_spins fuel futures (drop_fd ctl e) gone h n l s,
        λ timeout. blind timeout (drop_fd ctl e) gone,
      )
