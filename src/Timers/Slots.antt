-- ===== src/Timers/Slots.antt =====
-- The slots for events after the start of `timeout` and `sleep`.
use epox.Base.{◌+◌, ◌≡◌, refl, ◌∙◌, subst, arith}
use epox.Queue.Links.{Ptr}
use epox.Flags.{Flags}
use epox.Executor.{Executor}
use epox.Executor.Events.{Status, fine, fails}
use epox.Executor.Register.{Setup, drop_fd, epoll_del}
use epox.Executor.Slots.{held, first_failure, new_fd-slots}
use epox.Timers.{TimerSetup, new_timer, set_timer, start_timer}

module _ {F V : Type 0} ⦃flags : Flags F⦄ where
  -- The answer is `f`, and the slots and the queues are as it says.
  abbrev Registers : Status → Executor F V → Executor F V × Status → Type 0
  Registers f e r = (r.1 ≡ f) × (r.0.slots ≡ held r.1 + e.slots) × (r.0.queues ≡ e.queues)

  new_timer-Registers :
      (key : Ptr) (setup : Setup) (make : Status) (e : Executor F V)
      → Registers
          (first_failure make
            (first_failure setup.get_flags (first_failure setup.set_flags setup.add)))
          e
          (new_timer key setup make e)
  unfolding new_timer first_failure held
  new_timer-Registers key setup fine e = new_fd-slots key flags.input setup e
  new_timer-Registers key setup (fails n) e = (refl, omega arith, refl)

  set_timer-Registers :
      (set undo f : Status) (e : Executor F V) (r : Executor F V × Status)
      → Registers f e r
      → Registers (first_failure f set) e (set_timer set undo r)
  unfolding set_timer first_failure held drop_fd epoll_del
  set_timer-Registers fine undo f e (e1, fine) (a, s, q) =
      (subst (λ x. fine ≡ first_failure x fine) a refl, s, q)
  set_timer-Registers (fails n) undo f e (e1, fine) (a, s, q) =
      (subst (λ x. fails n ≡ first_failure x (fails n)) a refl, omega (arith, s), q)
  set_timer-Registers fine undo f e (e1, fails m) (a, s, q) =
      (subst (λ x. fails m ≡ first_failure x fine) a refl, s, q)
  set_timer-Registers (fails n) undo f e (e1, fails m) (a, s, q) =
      (subst (λ x. fails m ≡ first_failure x (fails n)) a refl, s, q)

  -- `timeout` and `sleep` start with the first failure of their system calls. They take one slot for
  -- events when all succeed and none otherwise, also when the timer cannot be set.
  pub start_timer-slots :
      (key : Ptr) (s : TimerSetup) (e : Executor F V)
      → ((start_timer key s e).1
          ≡ first_failure s.make (
              first_failure
                (first_failure s.setup.get_flags (first_failure s.setup.set_flags s.setup.add))
                s.set))
        × ((start_timer key s e).0.slots ≡ held (start_timer key s e).1 + e.slots)
        × ((start_timer key s e).0.queues ≡ e.queues)
  unfolding start_timer first_failure
  start_timer-slots key s e =
      let r =
        set_timer-Registers s.set s.undo _ e (new_timer key s.setup s.make e)
          (new_timer-Registers key s.setup s.make e) in
      (r.0 ∙ assoc s.make _ _, r.1, r.2)
    where
      assoc :
          (make a b : Status)
          → first_failure (first_failure make a) b ≡ first_failure make (first_failure a b)
      assoc fine a b = refl
      assoc (fails n) a b = refl
