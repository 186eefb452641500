-- ===== src/Examples/Tasks/Waiting.antt =====
-- The polls of the tasks that wait for their timers keep what the outputs and the bodies are.
use epox.Base.{ℕ, ◌≡◌, ◌⊎◌, refl, sym, subst, Bool, true, false, Option, none, some, update}
use epox.Queue.Links.{Ptr}
use epox.Flags.{Flags}
use epox.Waker.{Poll, pending, ready}
use epox.Timers.{TimerSetup}
use epox.Executor.{Executor}
use epox.Executor.Events.{Kernel}
use epox.Programs.Kept.{Ensures, Ensures_mono}
use epox.Programs.View.{output_of, completed, with_output, with_completed}
use epox.Examples.Tasks.{
  Value, number, Stage, starting, ticking, Reading, t1, t2, t3, t4, value, timed,
}
use epox.Examples.Tasks.Polls.{Work, TimedEnd, IsTimed, timed-IsTimed}
use epox.Examples.Tasks.Steps.{Timed, Timed-lives, took_first, took_second, Holds, After}

-- The view of the polled task after its poll.
abbrev given : Poll Value → Option Value → Option Value
given pending o = o
given (ready w) o = some w

abbrev has_ended : Poll Value → Bool → Bool
has_ended pending d = d
has_ended (ready w) d = true

Timed-given :
    (v : Value) (taken : Bool) (o : Option Value) (d : Bool) (p : Poll Value) (st : Stage)
    → d ≡ false
    → taken ≡ false
    → o ≡ none
    → TimedEnd v p st
    → Timed v taken (given p o) (has_ended p d) st
Timed-given v taken o d pending st live left no_output i = rw i (live, left, no_output)
Timed-given v taken o d (ready w) st live left no_output (i, j) = rw (i, j, left) (refl, refl)

module _ {F : Type 0} ⦃flags : Flags F⦄ (kernel : Kernel F) (setup : Ptr → TimerSetup)
    (reading : ℕ → Ptr → Reading) (work : Work setup reading) (stage : Ptr → Stage) where
  -- The poll of a task `t`, when its end keeps what `Holds` says.
  timed-After :
      (v : Value) (t : Ptr) (e : Executor F Value)
      → (stage t ≡ starting) ⊎ (stage t ≡ ticking)
      → ((p : Poll Value) (st : Stage)
          → TimedEnd v p st
          → Holds
              (with_output t p (output_of e))
              (with_completed t p (completed e))
              (update stage t st))
      → Ensures kernel (timed setup reading v t (stage t)) e (After t stage)
  timed-After v t e at_work ends =
      Ensures_mono kernel (timed setup reading v t (stage t)) e (IsTimed v t e) (After t stage)
        (λ as' r e' i. (
          i.0,
          subst
              (λ c.
                Holds (with_output t r.0 (λ u. (c u).output))
                  (with_completed t r.0 (λ u. (c u).has_completed)) (update stage t r.1))
              (sym i.1) (ends r.0 r.1 i.2),
        ))
        (timed-IsTimed kernel setup reading work v t (stage t) e at_work)

  pub timed_one-After :
      (e : Executor F Value)
      → completed e t1 ≡ false
      → Holds (output_of e) (completed e) stage
      → Ensures kernel (timed setup reading (number 20) t1 (stage t1)) e (After t1 stage)
  timed_one-After e live h =
      let l = Timed-lives (number 20) _ _ _ (stage t1) live h.one in
      timed-After (number 20) t1 e l.0 (ends l)
    where
      ends :
          ((stage t1 ≡ starting) ⊎ (stage t1 ≡ ticking))
            × (took_first (stage t3) ≡ false)
            × (output_of e t1 ≡ none)
          → (p : Poll Value) (st : Stage) → TimedEnd (number 20) p st
          → Holds
              (with_output t1 p (output_of e))
              (with_completed t1 p (completed e))
              (update stage t1 st)
      ends l pending st i = record {
        one = Timed-given (number 20) _ _ _ pending st live l.1 l.2 i;
        two = h.two;
        three = h.three;
        four = h.four;
      }
      ends l (ready w) st i = record {
        one = Timed-given (number 20) _ _ _ (ready w) st live l.1 l.2 i;
        two = h.two;
        three = h.three;
        four = h.four;
      }

  pub timed_two-After :
      (e : Executor F Value)
      → completed e t2 ≡ false
      → Holds (output_of e) (completed e) stage
      → Ensures kernel (timed setup reading (number 22) t2 (stage t2)) e (After t2 stage)
  timed_two-After e live h =
      let l = Timed-lives (number 22) _ _ _ (stage t2) live h.two in
      timed-After (number 22) t2 e l.0 (ends l)
    where
      ends :
          ((stage t2 ≡ starting) ⊎ (stage t2 ≡ ticking))
            × (took_second (stage t3) ≡ false)
            × (output_of e t2 ≡ none)
          → (p : Poll Value) (st : Stage) → TimedEnd (number 22) p st
          → Holds
              (with_output t2 p (output_of e))
              (with_completed t2 p (completed e))
              (update stage t2 st)
      ends l pending st i = record {
        one = h.one;
        two = Timed-given (number 22) _ _ _ pending st live l.1 l.2 i;
        three = h.three;
        four = h.four;
      }
      ends l (ready w) st i = record {
        one = h.one;
        two = Timed-given (number 22) _ _ _ (ready w) st live l.1 l.2 i;
        three = h.three;
        four = h.four;
      }

  pub timed_four-After :
      (e : Executor F Value)
      → completed e t4 ≡ false
      → Holds (output_of e) (completed e) stage
      → Ensures kernel (timed setup reading value t4 (stage t4)) e (After t4 stage)
  timed_four-After e live h =
      let l = Timed-lives value _ _ _ (stage t4) live h.four in timed-After value t4 e l.0 (ends l)
    where
      ends :
          ((stage t4 ≡ starting) ⊎ (stage t4 ≡ ticking)) × (false ≡ false) × (output_of e t4 ≡ none)
          → (p : Poll Value) (st : Stage) → TimedEnd value p st
          → Holds
              (with_output t4 p (output_of e))
              (with_completed t4 p (completed e))
              (update stage t4 st)
      ends l pending st i = record {
        one = h.one;
        two = h.two;
        three = h.three;
        four = Timed-given value _ _ _ pending st live l.1 l.2 i;
      }
      ends l (ready w) st i = record {
        one = h.one;
        two = h.two;
        three = h.three;
        four = Timed-given value _ _ _ (ready w) st live l.1 l.2 i;
      }
