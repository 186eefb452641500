-- ===== src/Examples/Yields/Rounds.antt =====
-- A round of `run` of tasks that only yield.
use epox.Base.{ℕ, zero, suc, ◌≡◌, refl, ◌⊎◌, inl, inr, Bool, Option, none, some, [], arith}
use epox.Queue.Links.{Ptr}
use epox.Queue.Push.{pushed}
use epox.Flags.{Flags}
use epox.Executor.{Executor, Priority, runq, highest_priority_runnable_task}
use epox.Executor.Events.{Kernel, Timeout, events, Status, fine}
use epox.Executor.Order.{tasks, IsNext, Chosen, highest_priority_runnable_task-Chosen}
use epox.Executor.Rest.{next-absent}
use epox.Executor.Run.{round, when_idle}
use epox.Programs.{System, system_round, trace}
use epox.Executor.End.{IsOver}
use epox.Programs.Going.{IsGoing, polled-IsGoing}
use epox.Examples.Yields.{blocking_task, loads}
use epox.Examples.Yields.Turns.{yields, ends, round-yields, round-ends}
use epox.Examples.Yields.Kept.{
  IsYielding, IsChoice, IsChoiceOf, highest_priority_runnable_task-IsChoiceOf, sleepq_apart,
  pushed_from, chosen-IsTaken, left-IsYielding,
}
use epox.Examples.Yields.Loads.{next-loads, yields-loads, ends-loads}

module _ {F V : Type 0} (watched : Ptr → Bool) where
  -- A round of `run` goes on, and is one of the polls that are to come.
  abbrev pub StepsOn : (Ptr → ℕ) → Executor F V → Option (System F V ℕ × Option Status) → Type 0
  StepsOn steps e none = ⊥
  StepsOn steps e (some (s, status)) =
      (status ≡ none)
      × IsYielding watched s.executor
      × (loads steps e ≡ suc (loads s.stage s.executor))

  -- With no task left a round ends `run`.
  abbrev pub EndsThen : (Ptr → ℕ) → Executor F V → Option (System F V ℕ × Option Status) → Type 0
  EndsThen steps e none = ⊥
  EndsThen steps e (some (s, status)) =
      (status ≡ some fine) × IsGoing watched s.executor × IsOver s.executor × (loads steps e ≡ 0)

  abbrev pub Goes : System F V ℕ → Option (System F V ℕ × Option Status) → Type 0
  Goes s x = EndsThen s.stage s.executor x ⊎ StepsOn s.stage s.executor x

module _ {F V : Type 0} ⦃flags : Flags F⦄ (kernel : Kernel F) (answer : Ptr → V) where
  abbrev pub next : System F V ℕ → Option (System F V ℕ × Option Status)
  next s =
      system_round kernel (blocking_task answer) (highest_priority_runnable_task s.executor) s.stage

module _ {F V : Type 0} ⦃flags : Flags F⦄ (kernel : Kernel F)
    (quiet : (n : ℕ) (timeout : Timeout) (room : ℕ)
      → kernel n timeout room ≡ record { answer = events []; arrived = [] })
    (answer : Ptr → V) (watched : Ptr → Bool) where
  polled-StepsOn :
      (k : ℕ) (steps : Ptr → ℕ) (t : Ptr) (p : Priority) (e e' : Executor F V)
      → steps t ≡ k
      → IsNext t p e e'
      → IsChoice e t e'
      → IsYielding watched e
      → StepsOn watched steps e (system_round kernel (blocking_task answer) (some t, e') steps)
  unfolding system_round blocking_task trace
  polled-StepsOn zero steps t p e e' is n c v =
      let r =
        round-ends kernel quiet (answer t) t e' (chosen-IsTaken n c v)
          (rw n.cells (v.unwatched t)) in
      let left : Executor F V = (round kernel (λ n u. ends (answer t)) (some t, e')).0 in
      rw is (
        r.1,
        left-IsYielding (tasks e') left n c (λ u q i. inr i) (λ h. h) v r.0
            (polled-IsGoing kernel watched (ends (answer t)) t e e' (p, n) c.shutdown tt v.going),
        omega (
          arith,
          next-loads p steps n,
          is,
          ends-loads t zero e' left steps (next-absent n v.going.tidy) r.0.contents,
        ),
      )
  polled-StepsOn (suc k) steps t p e e' is n c v =
      let r = round-yields kernel quiet t e' (chosen-IsTaken n c v) in
      let left : Executor F V = (round kernel (λ n u. yields t) (some t, e')).0 in
      let away = next-absent n v.going.tidy in
      rw is (
        r.1,
        left-IsYielding (λ q. (pushed (runq (e'.cell t).priority) t e'.queues).contents q) left n c
            (λ u q i. pushed_from (runq (e'.cell t).priority) t u q e' i)
            (λ h. rw (sleepq_apart (e'.cell t).priority, h) refl) v r.0
            (polled-IsGoing kernel watched (yields t) t e e' (p, n) c.shutdown (refl, tt) v.going),
        omega (
          arith,
          next-loads p steps n,
          is,
          yields-loads t k (e'.cell t).priority e' left steps away r.0.contents,
        ),
      )

  idle-EndsThen :
      (steps : Ptr → ℕ) (e e' : Executor F V)
      → Chosen e (none, e')
      → IsYielding watched e
      → EndsThen watched steps e (system_round kernel (blocking_task answer) (none, e') steps)
  unfolding system_round round when_idle
  idle-EndsThen steps e e' (h, n, l, same) v =
      rw (same, v.awake) (refl, v.going, inr (h, n, l, v.awake), rw (h, n, l) refl)

  pub next-Goes :
      (s : System F V ℕ) → IsYielding watched s.executor → Goes watched s (next kernel answer s)
  next-Goes s v =
      split (highest_priority_runnable_task s.executor)
        (highest_priority_runnable_task-Chosen s.executor)
        (highest_priority_runnable_task-IsChoiceOf s.executor)
    where
      split :
          (c : Option Ptr × Executor F V)
          → Chosen s.executor c
          → IsChoiceOf s.executor c
          → Goes watched s (system_round kernel (blocking_task answer) c s.stage)
      split (none, e) chosen i = inl (idle-EndsThen s.stage s.executor e chosen v)
      split (some t, e) (p, n) i =
          inr (polled-StepsOn (s.stage t) s.stage t p s.executor e refl n i v)
