-- ===== src/Programs/Going.antt =====
-- What a round of a mild turn keeps of an executor whose tasks are to run to their ends.
use epox.Base.{◌≡◌, ◌∙◌, inl, inr, Bool, true, false, none, some, some_eq, subst, [], ◌==◌}
use epox.Queue.Links.{Ptr}
use epox.Flags.{Flags}
use epox.Executor.{Executor}
use epox.Executor.Events.{Kernel}
use epox.Executor.Order.{Chosen}
use epox.Executor.Tidy.{IsTidy}
use epox.Executor.Keeps.{round-IsTidy}
use epox.Executor.Remain.{Remains, round-Remains}
use epox.Executor.Completion.{emptied}
use epox.Executor.End.{IsOver}
use epox.Executor.Run.{Turn, round}
use epox.Executor.Rest.{IsAtRest}
use epox.Executor.Retired.{round-IsAtRest}
use epox.Executor.Fit.{AreFit, is_ready}
use epox.Programs.Mild.{IsMild, AreMild-AreFit, AreMild-AreSparing, round-shutdown}

-- The executor runs, and each of the tasks that are `watched` stands in a queue or has completed.
pub record IsGoing {F V : Type 0} (watched : Ptr → Bool) (e : Executor F V) : Type 0 where
  pub tidy : IsTidy e
  pub at_rest : IsAtRest e
  pub running : e.shutdown ≡ false
  pub remains : (u : Ptr) → watched u ≡ true → Remains u e

module _ {F V : Type 0} where
  -- Where the loops of `run` have ended, every task that is watched has completed.
  pub over-has_completed :
      (watched : Ptr → Bool) (e : Executor F V) (u : Ptr)
      → IsGoing watched e
      → IsOver e
      → watched u ≡ true
      → (e.cell u).has_completed ≡ true
  over-has_completed watched e u v (inl down) is = absurd (let k = v.running in cc)
  over-has_completed watched e u v (inr empty) is = emptied u e v.tidy empty (v.remains u is)

module _ {F V : Type 0} ⦃flags : Flags F⦄ (kernel : Kernel F) (watched : Ptr → Bool) where
  pub polled-IsGoing :
      (turn : Turn F V) (t : Ptr) (e e' : Executor F V)
      → Chosen e (some t, e')
      → e'.shutdown ≡ e.shutdown
      → IsMild t turn
      → IsGoing watched e
      → IsGoing watched (round kernel (λ n u. turn) (some t, e')).0
  polled-IsGoing turn t e e' chosen same mild v = record {
    tidy = round-IsTidy kernel (λ n u. turn) e (some t, e') chosen v.tidy;
    at_rest =
        round-IsAtRest kernel (λ n u. turn) e (some t, e')
          (λ u is.
            subst (λ x. AreFit (λ s. x == s) (is_ready turn.poll) turn.actions) (some_eq is)
              (AreMild-AreFit (λ s. t == s) (is_ready turn.poll) turn.actions mild))
          chosen v.tidy v.at_rest;
    running =
        round-shutdown kernel turn (some t, e')
          (λ u is. subst (λ x. IsMild x turn) (some_eq is) mild)
        ∙ same
        ∙ v.running;
    remains = λ u is.
        round-Remains kernel u (λ n s. turn) e (some t, e')
          (λ n s. AreMild-AreSparing (λ s. t == s) (is_ready turn.poll) u turn.actions mild) chosen
          (v.remains u is);
  }

  pub idle-IsGoing :
      (turn : Turn F V) (e e' : Executor F V)
      → turn.actions ≡ []
      → Chosen e (none, e')
      → IsGoing watched e
      → IsGoing watched (round kernel (λ n u. turn) (none, e')).0
  idle-IsGoing turn e e' still chosen v = record {
    tidy = round-IsTidy kernel (λ n u. turn) e (none, e') chosen v.tidy;
    at_rest = round-IsAtRest kernel (λ n u. turn) e (none, e') (λ u is. cc) chosen v.tidy v.at_rest;
    running = round-shutdown kernel turn (none, e') (λ u is. cc) ∙ rw chosen.3 v.running;
    remains = λ u is.
        round-Remains kernel u (λ n s. turn) e (none, e') (λ n s. rw still tt) chosen
          (v.remains u is);
  }
