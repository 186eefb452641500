-- ===== src/Examples/Tasks/Start.antt =====
-- The executor and the bodies between the rounds of `run`, and where `main` calls it.
use epox.Base.{ℕ, ◌≡◌, refl, Bool, true, ◌||◌, ◌==◌, arith}
use epox.Queue.Links.{Ptr}
use epox.EpollWaker.{EpollWaker}
use epox.Executor.{normal, runq_normal, new, spawn, enqueue}
use epox.Executor.Tidy.{IsTidy, spawn-IsTidy}
use epox.Executor.Keeps.{new-IsTidy}
use epox.Executor.Clean.{spawn-IsClean}
use epox.Executor.Remain.{Remains, stands}
use epox.Executor.Rest.{IsAtRest, new-IsAtRest}
use epox.Programs.{System}
use epox.Programs.Going.{IsGoing}
use epox.Programs.View.{output_of, completed}
use epox.Examples.Tasks.{Value, Stage, t1, t2, t3, t4, main}
use epox.Examples.Tasks.Steps.{Holds}

abbrev pub is_task : Ptr → Bool
is_task u = (t1 == u || t2 == u) || (t3 == u || t4 == u)

-- The executor and the bodies of the four tasks, between the rounds.
pub record IsSound {F : Type 0} (s : System F Value Stage) : Type 0 where
  pub going : IsGoing is_task s.executor
  pub holds : Holds (output_of s.executor) (completed s.executor) s.stage

module _ {F : Type 0} (fd : ℕ) (idle : EpollWaker F) where
  main-IsTidy : IsTidy (main fd idle).executor
  unfolding main new spawn enqueue
  main-IsTidy = spawn-IsTidy t4 normal _ refl (
      spawn-IsTidy t3 normal _ refl
        (spawn-IsTidy t2 normal _ refl (spawn-IsTidy t1 normal _ refl (new-IsTidy fd idle))))

  main-IsAtRest : IsAtRest (main fd idle).executor
  unfolding main new
  main-IsAtRest = spawn-IsClean t4 normal _ refl (
      spawn-IsClean t3 normal _ refl (
        spawn-IsClean t2 normal _ refl
          (spawn-IsClean t1 normal (new fd idle) refl (new-IsAtRest fd idle))))

  main-Remains : (u : Ptr) → is_task u ≡ true → Remains u (main fd idle).executor
  unfolding main new spawn enqueue
  main-Remains u is = stands runq_normal (ground (arith, is))

  pub main-IsSound : IsSound (main fd idle)
  unfolding main new spawn enqueue
  main-IsSound = record {
    going = record {
      tidy = main-IsTidy;
      at_rest = main-IsAtRest;
      running = refl;
      remains = main-Remains;
    };
    holds = record {
      one = (refl, refl, refl);
      two = (refl, refl, refl);
      three = (refl, refl);
      four = (refl, refl, refl);
    };
  }
