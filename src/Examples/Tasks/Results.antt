-- ===== src/Examples/Tasks/Results.antt =====
-- What examples/tasks.rs prints.
use epox.Base.{
  ℕ, ◌≡◌, refl, sym, ◌∙◌, ap, subst, inl, inr, true, false, Option, none, some, [], ◌==◌, ==_iff,
  arith, Bool-cases, is_nil,
}
use mathlib.Core.Option
use epox.Queue.Links.{Ptr}
use epox.Flags.{Flags}
use epox.Waker.{pending}
use epox.EpollWaker.{EpollWaker}
use epox.Timers.{TimerSetup}
use epox.Executor.{Executor, sleepq, highest_priority_runnable_task}
use epox.Executor.Events.{Kernel, fine, fails}
use epox.Executor.Order.{Chosen, highest_priority_runnable_task-Chosen}
use epox.Executor.Join.{result}
use epox.Executor.Run.{Turn, act_all, round}
use epox.Executor.Rest.{next-lives}
use epox.Programs.{System, Ended, ended, panicked, begun, turn_of, system_round, run_system}
use epox.Programs.Going.{over-has_completed, polled-IsGoing, idle-IsGoing}
use epox.Programs.Kept.{Ensures, trace-Ensures, Leaves, EndsIn, run_system_rule}
use epox.Programs.View.{output_of, completed, with_output, with_completed, idle-cell, round_view}
use epox.Examples.Tasks.{
  Value, number, Stage, Reading, t1, t2, t3, t4, value, body, main, printed, IsPrinted,
}
use epox.Examples.Tasks.Polls.{Work}
use epox.Examples.Tasks.Start.{is_task, IsSound, main-IsSound}
use epox.Examples.Tasks.Steps.{Summed-over, Timed-over, Holds, Holds-ext, sum-After, After}
use epox.Examples.Tasks.Waiting.{timed_one-After, timed_two-After, timed_four-After}

module _ {F : Type 0} ⦃flags : Flags F⦄ (kernel : Kernel F) (setup : Ptr → TimerSetup)
    (reading : ℕ → Ptr → Reading) (work : Work setup reading) where
  -- A poll of any task that has not completed.
  body-After :
      (stage : Ptr → Stage) (t : Ptr) (e : Executor F Value)
      → completed e t ≡ false
      → Holds (output_of e) (completed e) stage
      → Ensures kernel (body setup reading t (stage t)) e (After t stage)
  unfolding body
  body-After stage t e live h = elim (Bool-cases (t == t1)) [
    | inl is ↦ as_task t1 is (λ l. timed_one-After kernel setup reading work stage e l h)
    | inr n1 ↦ elim (Bool-cases (t == t2)) [
      | inl is ↦ as_task t2 is (λ l. timed_two-After kernel setup reading work stage e l h)
      | inr n2 ↦ elim (Bool-cases (t == t3)) [
        | inl is ↦ as_task t3 is (λ l.
            sum-After kernel stage (stage t3) e l
              (record { one = h.one; two = h.two; three = h.three; four = h.four }))
        | inr n3 ↦ elim (Bool-cases (t == t4)) [
          | inl is ↦ as_task t4 is (λ l. timed_four-After kernel setup reading work stage e l h)
          | inr n4 ↦
              rw (n1, n2, n3, n4)
                (
                  tt,
                  record {
                    one = rw (n1, n3) h.one;
                    two = rw (n2, n3) h.two;
                    three = rw n3 h.three;
                    four = rw n4 h.four;
                  },
                )
        ]
      ]
    ]
  ]
    where
      as_task :
          (u : Ptr)
          → (t == u) ≡ true
          → (completed e u ≡ false
              → Ensures kernel (body setup reading u (stage u)) e (After u stage))
          → Ensures kernel (body setup reading t (stage t)) e (After t stage)
      as_task u is after =
          subst
            (λ x.
              completed e x ≡ false
              → Ensures kernel (body setup reading x (stage x)) e (After x stage))
            (sym ((==_iff t u).0 is)) after live

  -- A round that polls a task.
  polled-IsSound :
      (s : System F Value Stage) (t : Ptr) (e : Executor F Value)
      → Chosen s.executor (some t, e)
      → e.shutdown ≡ s.executor.shutdown
      → IsSound s
      → Leaves kernel
          (body setup reading)
          IsSound
          (system_round kernel (body setup reading) (some t, e) s.stage)
  unfolding system_round
  polled-IsSound s t e (p, n) same v =
      let b : Executor F Value = begun kernel t e in
      let live : completed e t ≡ false = rw n.cells (next-lives n v.going.at_rest) in
      let h =
        Holds-ext (output_of s.executor) (output_of b) (completed s.executor) (completed b) s.stage
          (λ u. begun-output t u e ∙ ap (λ c. (c u).output) n.cells)
          (λ u. begun-completed t u e ∙ ap (λ c. (c u).has_completed) n.cells) v.holds in
      let r =
        trace-Ensures kernel (body setup reading t (s.stage t)) b (After t s.stage)
          (body-After s.stage t b (begun-completed t t e ∙ live) h) in
      let turn : Turn F Value = turn_of kernel (body setup reading) r.0 in
      let acted : Executor F Value = act_all kernel turn.actions b in
      let left : Executor F Value = (round kernel (λ n u. turn) (some t, e)).0 in
      rw (r.1, Option.map)
        (record {
          going = polled-IsGoing kernel is_task turn t s.executor e (p, n) same r.2.0 v.going;
          holds =
              Holds-ext (with_output t turn.poll (output_of acted)) (output_of left)
                (with_completed t turn.poll (completed acted)) (completed left) _
                (λ u. (round_view kernel turn t u e).0) (λ u. (round_view kernel turn t u e).1)
                r.2.1;
        })
    where
      begun-output :
          (t u : Ptr) (e : Executor F Value) → output_of (begun kernel t e) u ≡ output_of e u
      begun-output t u e = ground arith

      begun-completed :
          (t u : Ptr) (e : Executor F Value) → completed (begun kernel t e) u ≡ completed e u
      begun-completed t u e = ground arith

  idle-IsSound :
      (s : System F Value Stage) (e : Executor F Value)
      → Chosen s.executor (none, e)
      → IsSound s
      → Leaves kernel
          (body setup reading)
          IsSound
          (system_round kernel (body setup reading) (none, e) s.stage)
  unfolding system_round round
  idle-IsSound s e chosen v =
      let turn : Turn F Value = record { actions = []; poll = pending } in
      let left : Executor F Value = (round kernel (λ n u. turn) (none, e)).0 in
      let cells : left.cell ≡ s.executor.cell =
        idle-cell kernel (is_nil (e.queues.contents sleepq)) e ∙ ap (λ f. f.cell) chosen.3 in
      record {
        going = idle-IsGoing kernel is_task turn s.executor e refl chosen v.going;
        holds =
            Holds-ext (output_of s.executor) (output_of left) (completed s.executor)
              (completed left) s.stage (λ u. ap (λ c. (c u).output) cells)
              (λ u. ap (λ c. (c u).has_completed) cells) v.holds;
      }

  round-IsSound :
      (s : System F Value Stage)
      → IsSound s
      → Leaves kernel (body setup reading) IsSound (
          system_round kernel
            (body setup reading)
            (highest_priority_runnable_task s.executor)
            s.stage)
  unfolding highest_priority_runnable_task
  round-IsSound s v =
      split (highest_priority_runnable_task s.executor)
        (highest_priority_runnable_task-Chosen s.executor) refl
    where
      split :
          (c : Option Ptr × Executor F Value)
          → Chosen s.executor c
          → c.1.shutdown ≡ s.executor.shutdown
          → Leaves kernel
              (body setup reading)
              IsSound
              (system_round kernel (body setup reading) c s.stage)
      split (some t, e) chosen same = polled-IsSound s t e chosen same v
      split (none, e) chosen same = idle-IsSound s e chosen v

  -- When the timers of the example can be made, set and read, no read of one is interrupted, and the
  -- thread had no other task, then `run` does not end by a panic of a task, and where its loops end,
  -- `main` prints 42 for `t3` and "value" for `t4`, unless `epoll_wait` has failed. This holds whatever
  -- events the kernel gives and whenever the timers expire.
  pub main-IsPrinted :
      (fuel fd : ℕ) (idle : EpollWaker F) {x : Ended F Value Stage}
      → run_system kernel (body setup reading) fuel (main fd idle) ≡ some x
      → IsPrinted (number 42) value x
  unfolding printed result Option.bind
  main-IsPrinted fuel fd idle {x} h = split x (
      run_system_rule kernel (body setup reading) IsSound round-IsSound fuel (main fd idle)
        (main-IsSound fd idle) h)
    where
      split :
          (x : Ended F Value Stage)
          → EndsIn kernel (body setup reading) IsSound x
          → IsPrinted (number 42) value x
      split panicked v = absurd v
      split (ended s (fails n)) v = tt
      split (ended s fine) (v, finally) =
          let three =
            Summed-over _ _ (s.stage t3)
              (over-has_completed is_task s.executor t3 v.going (finally refl) refl)
              v.holds.three in
          let four =
            Timed-over value _ _ (s.stage t4)
              (over-has_completed is_task s.executor t4 v.going (finally refl) refl) v.holds.four in
          rw (three, four, Option.map) refl
