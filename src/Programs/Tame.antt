-- ===== src/Programs/Tame.antt =====
-- Programs whose polls never panic and are mild.
use epox.Base.{ℕ, ◌≡◌, refl, Bool, true, Option, none, some, [], ◌∷◌, ◌==◌}
use mathlib.Core.Option
use epox.Queue.Links.{Ptr}
use epox.Flags.{Flags}
use epox.Waker.{Poll, pending}
use epox.Executor.{Executor, highest_priority_runnable_task}
use epox.Executor.Events.{Kernel, fine, fails}
use epox.Executor.Order.{Chosen, highest_priority_runnable_task-Chosen}
use epox.Executor.Run.{Action, Turn, act}
use epox.Executor.Fit.{is_ready}
use epox.Programs.{
  Code, does, Body, System, Ended, ended, panicked, begun, turn_of, system_round, run_system,
}
use epox.Programs.Mild.{is_mild, AreMild}
use epox.Programs.Kept.{Ensures, Ensures_mono, trace-Ensures, Leaves, EndsIn, run_system_rule}
use epox.Programs.Going.{IsGoing, polled-IsGoing, idle-IsGoing, over-has_completed}

module _ {F V S : Type 0} ⦃flags : Flags F⦄ (kernel : Kernel F) where
  -- The code of a poll of a task does not panic, and is mild.
  abbrev pub IsTame : Ptr → Code F V (Poll V × S) → Executor F V → Type 0
  IsTame t c e = Ensures kernel c e (λ as' r e'. AreMild (λ s. t == s) (is_ready r.0) as')

  pub does-IsTame :
      (t : Ptr) (a : Action F) (c : Code F V (Poll V × S)) (e : Executor F V)
      → ((away : Bool) → is_mild (λ s. t == s) away a ≡ true)
      → IsTame t c (act kernel a e)
      → IsTame t (does a c) e
  does-IsTame t a c e mild tame =
      Ensures_mono kernel c (act kernel a e) (λ as' r e'. AreMild (λ s. t == s) (is_ready r.0) as')
        (λ as' r e'. AreMild (λ s. t == s) (is_ready r.0) (a ∷ as'))
        (λ as' r e' m. (mild (is_ready r.0), m)) tame

-- No task has panicked, and the task has completed, unless `run` has failed.
abbrev pub HasRun : {F V S : Type 0} → Ptr → Ended F V S → Type 0
HasRun u panicked = ⊥
HasRun u (ended s (fails n)) = Unit {0}
HasRun u (ended s fine) = (s.executor.cell u).has_completed ≡ true

module _ {F V S : Type 0} ⦃flags : Flags F⦄ (kernel : Kernel F) (body : Body F V S)
    (tame : (t : Ptr) (stage : S) (e : Executor F V) → IsTame kernel t (body t stage) e)
    (watched : Ptr → Bool) where
  polled-Leaves :
      (s : System F V S) (t : Ptr) (e : Executor F V)
      → Chosen s.executor (some t, e)
      → e.shutdown ≡ s.executor.shutdown
      → IsGoing watched s.executor
      → Leaves kernel body
          (λ x. IsGoing watched x.executor)
          (system_round kernel body (some t, e) s.stage)
  unfolding system_round
  polled-Leaves s t e chosen same v =
      let r =
        trace-Ensures kernel (body t (s.stage t)) (begun kernel t e)
          (λ as' r e'. AreMild (λ s. t == s) (is_ready r.0) as')
          (tame t (s.stage t) (begun kernel t e)) in
      let turn : Turn F V = turn_of kernel body r.0 in
      rw (r.1, Option.map) (polled-IsGoing kernel watched turn t s.executor e chosen same r.2 v)

  round-Leaves :
      (s : System F V S)
      → IsGoing watched s.executor
      → Leaves kernel body
          (λ x. IsGoing watched x.executor)
          (system_round kernel body (highest_priority_runnable_task s.executor) s.stage)
  unfolding highest_priority_runnable_task system_round
  round-Leaves s v =
      split (highest_priority_runnable_task s.executor)
        (highest_priority_runnable_task-Chosen s.executor) refl
    where
      split :
          (c : Option Ptr × Executor F V)
          → Chosen s.executor c
          → c.1.shutdown ≡ s.executor.shutdown
          → Leaves kernel body
              (λ x. IsGoing watched x.executor)
              (system_round kernel body c s.stage)
      split (some t, e) chosen same = polled-Leaves s t e chosen same v
      split (none, e) chosen same =
          idle-IsGoing kernel watched (record { actions = []; poll = pending }) s.executor e refl
            chosen v

  -- `run` of a tame program does not panic, and ends well only when the watched tasks have completed.
  pub run_system-HasRun :
      (fuel : ℕ) (u : Ptr) (s : System F V S) {x : Ended F V S}
      → watched u ≡ true
      → IsGoing watched s.executor
      → run_system kernel body fuel s ≡ some x
      → HasRun u x
  run_system-HasRun fuel u s {x} is v h =
      split x
        (run_system_rule kernel body (λ y. IsGoing watched y.executor) round-Leaves fuel s v h)
    where
      split :
          (x : Ended F V S) → EndsIn kernel body (λ y. IsGoing watched y.executor) x → HasRun u x
      split panicked v = absurd v
      split (ended s (fails n)) v = tt
      split (ended s fine) (v, over) = over-has_completed watched s.executor u v (over refl) is
