-- ===== src/Examples/Yields/Ends.antt =====
-- `run` of tasks that only yield: it ends, and how many polls it takes.
use epox.Base.{
  ℕ, zero, suc, ◌≡◌, refl, ◌∙◌, ap, subst, inl, inr, Bool, true, Option, none, some, [], ◌==◌,
  arith, Option-cases,
}
use epox.Queue.Links.{Ptr}
use epox.Flags.{Flags}
use epox.Executor.{Executor}
use epox.Executor.Events.{Kernel, Timeout, events, Status, fine}
use epox.Programs.{System, ended, run_system}
use epox.Executor.End.{IsOver}
use epox.Programs.Going.{IsGoing, over-has_completed}
use epox.Examples.Yields.{blocking_task, loads}
use epox.Examples.Yields.Kept.{IsYielding}
use epox.Examples.Yields.Rounds.{Goes, next, next-Goes}

module _ {F V : Type 0} ⦃flags : Flags F⦄ (kernel : Kernel F)
    (quiet : (n : ℕ) (timeout : Timeout) (room : ℕ)
      → kernel n timeout room ≡ record { answer = events []; arrived = [] })
    (answer : Ptr → V) (watched : Ptr → Bool) where
  -- `run` takes as many rounds as polls are to come, and one more.
  abbrev Takes : ℕ → System F V ℕ → Type 0
  Takes n s =
      (run_system kernel (blocking_task answer) n s ≡ none)
      × ((s' : System F V ℕ) × (run_system kernel (blocking_task answer) (suc n) s
            ≡ some (ended s' fine))
          × IsGoing watched s'.executor
          × IsOver s'.executor)

  over-Takes :
      (s r : System F V ℕ)
      → next kernel answer s ≡ some (r, some fine)
      → IsGoing watched r.executor
      → IsOver r.executor
      → Takes zero s
  unfolding run_system
  over-Takes s r done going over = (refl, (r, rw (done, run_system) refl, going, over))

  step-Takes :
      (n : ℕ) (s r : System F V ℕ)
      → next kernel answer s ≡ some (r, none)
      → Takes n r
      → Takes (suc n) s
  unfolding run_system
  step-Takes n s r done (out, (s', in_time, going, over)) =
      (rw (done, run_system) out, (s', rw (done, run_system) in_time, going, over))

  -- The next round with its equation.
  round_of :
      (s : System F V ℕ)
      → IsYielding watched s.executor
      → (r : System F V ℕ) × (status : Option Status) × (next kernel answer s ≡ some (r, status))
        × Goes watched s (some (r, status))
  round_of s v = elim (Option-cases (next kernel answer s)) [
    | inl out ↦
        absurd (elim (subst (Goes watched s) out (next-Goes kernel quiet answer watched s v)) [
          | inl x ↦ x
          | inr x ↦ x
        ])
    | inr (r, done) ↦
        (r.0, r.1, done, subst (Goes watched s) done (next-Goes kernel quiet answer watched s v))
  ]

  run_system-Takes :
      (n : ℕ) (s : System F V ℕ)
      → IsYielding watched s.executor
      → loads s.stage s.executor ≡ n
      → Takes n s
  run_system-Takes zero s v is =
      let (r, status, done, next) = round_of s v in
      elim next [
        | inl (well, going, over, empty) ↦
            over-Takes s r (done ∙ ap (λ x. some (r, x)) well) going over
        | inr (on, yielding, less) ↦ absurd (omega (arith, is, less))
      ]
  run_system-Takes (suc n) s v is =
      let (r, status, done, next) = round_of s v in
      elim next [
        | inl (well, going, over, empty) ↦ absurd (omega (arith, is, empty))
        | inr (on, yielding, less) ↦
            step-Takes n s r (done ∙ ap (λ x. some (r, x)) on)
              (run_system-Takes n r yielding (omega (arith, is, less)))
      ]

module _ {F V : Type 0} ⦃flags : Flags F⦄ (kernel : Kernel F)
    (quiet : (n : ℕ) (timeout : Timeout) (room : ℕ)
      → kernel n timeout room ≡ record { answer = events []; arrived = [] })
    (answer : Ptr → V) where
  -- Where the kernel has no events, and every task in a queue has a number of steps to take, yields by
  -- `yield_now` after each of them and then ends, `run` ends well after one poll for each step and
  -- one more for each task, and a round that finds no task, and not before. Every task that stood in a
  -- queue has completed then. At the start no task sleeps, is polled, is awaited or is of another thread,
  -- the executor was not shut down, every task stands in at most one place of one queue, the run queue of
  -- its priority, and none that has completed stands in one.
  pub run_system-ends :
      (steps : Ptr → ℕ) (u : Ptr) (e : Executor F V)
      → IsYielding (λ x. u == x) e
      → let s : System F V ℕ = record { executor = e; stage = steps } in
        (run_system kernel (blocking_task answer) (loads steps e) s ≡ none)
        × ((s' : System F V ℕ) × (run_system kernel (blocking_task answer) (suc (loads steps e)) s
              ≡ some (ended s' fine))
            × ((s'.executor.cell u).has_completed ≡ true))
  run_system-ends steps u e v =
      let (out, (s', in_time, going, over)) =
        run_system-Takes kernel quiet answer (λ x. u == x) (loads steps e)
          (record { executor = e; stage = steps }) v refl in
      (out, (s', in_time, over-has_completed (λ x. u == x) s'.executor u going over (ground arith)))
