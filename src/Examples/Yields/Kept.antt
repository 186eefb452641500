-- ===== src/Examples/Yields/Kept.antt =====
-- Tasks that only yield, through the choice of one and its poll.
use epox.Base.{
  ◌+◌, ◌≡◌, refl, sym, ◌∙◌, ◌⊎◌, inl, inr, Bool, true, false, Option, none, some, List, [], ◌∷◌,
  ◌==◌, ==_iff, arith, mem, mem-append, mem-without, without, update, ltb, Bool-cases,
}
use epox.Queue.Links.{Ptr}
use epox.Queue.Push.{pushed}
use epox.Waker.{noop}
use epox.Executor.{
  Executor, Priority, high, normal, low, runq, runq_high, runq_normal, runq_low, sleepq,
  highest_priority_runnable_task,
}
use epox.Executor.Order.{tasks, IsNext}
use epox.Executor.Tidy.{next_mem}
use epox.Executor.Rest.{next-lives}
use epox.Programs.Going.{IsGoing}
use epox.Examples.Yields.Turns.{IsTaken, Leaves}

-- No task sleeps, is awaited, or is of another thread.
pub record IsYielding {F V : Type 0} (watched : Ptr → Bool) (e : Executor F V) : Type 0 where
  pub going : IsGoing watched e
  pub awake : tasks e sleepq ≡ []
  pub unwatched : (u : Ptr) → (e.cell u).handle_waker ≡ noop
  pub own : (u q : Ptr) → mem u (tasks e q) ≡ true → (e.cell u).pipe_wr ≡ e.pipe_wr

pub sleepq_apart : (p : Priority) → (runq p == sleepq) ≡ false
sleepq_apart high = refl
sleepq_apart normal = refl
sleepq_apart low = refl

module _ {F V : Type 0} where
  -- What the choice of a task leaves, besides the queues.
  pub record IsChoice (e : Executor F V) (t : Ptr) (e' : Executor F V) : Type 0 where
    pub held : ltb 0 (e'.queues.refs t) ≡ true
    pub shutdown : e'.shutdown ≡ e.shutdown
    pub pipe_wr : e'.pipe_wr ≡ e.pipe_wr

  abbrev pub IsChoiceOf : Executor F V → Option Ptr × Executor F V → Type 0
  IsChoiceOf e (none, e') = Unit {0}
  IsChoiceOf e (some t, e') = IsChoice e t e'

  pub highest_priority_runnable_task-IsChoiceOf :
      (e : Executor F V) → IsChoiceOf e (highest_priority_runnable_task e)
  unfolding highest_priority_runnable_task
  highest_priority_runnable_task-IsChoiceOf e =
      split (tasks e runq_high) refl (tasks e runq_normal) refl (tasks e runq_low) refl
    where
      counted : (t : Ptr) → ltb 0 (update e.queues.refs t (e.queues.refs t + 1) t) ≡ true
      counted t = let self : (t == t) ≡ true = ground arith in rw self (ground arith)

      split :
          (hs : List Ptr)
          → tasks e runq_high ≡ hs
          → (ns : List Ptr) → tasks e runq_normal ≡ ns
          → (ls : List Ptr) → tasks e runq_low ≡ ls
          → IsChoiceOf e (highest_priority_runnable_task e)
      split [] h [] n [] l = rw (h, n, l) tt
      split [] h [] n (t ∷ ls) l =
          rw (h, n, l) (record { held = counted t; shutdown = refl; pipe_wr = refl })
      split [] h (t ∷ ns) n ls l =
          rw (h, n) (record { held = counted t; shutdown = refl; pipe_wr = refl })
      split (t ∷ hs) h ns n ls l =
          rw h (record { held = counted t; shutdown = refl; pipe_wr = refl })

  -- A chosen task is one of this thread.
  chosen-own :
      {t : Ptr} {p : Priority} {e e' : Executor F V} {watched : Ptr → Bool}
      → IsNext t p e e'
      → IsYielding watched e
      → (e.cell t).pipe_wr ≡ e.pipe_wr
  chosen-own {t} {p} {e} {e'} n v = v.own t (runq p) (rw n.oldest (ground arith))

  pub chosen-IsTaken :
      {t : Ptr} {p : Priority} {e e' : Executor F V} {watched : Ptr → Bool}
      → IsNext t p e e'
      → IsChoice e t e'
      → IsYielding watched e
      → IsTaken t e'
  chosen-IsTaken n c v = record {
    live = rw n.cells (next-lives n v.going.at_rest);
    own = rw (n.cells, c.pipe_wr) (chosen-own n v);
    held = c.held;
    running = c.shutdown ∙ v.going.running;
  }

  -- After a round that leaves the tasks in some of the queues that they were in.
  pub left-IsYielding :
      {t : Ptr} {p : Priority} {e e' : Executor F V} {watched : Ptr → Bool}
      (queues : Ptr → List Ptr) (left : Executor F V)
      → IsNext t p e e'
      → IsChoice e t e'
      → ((u q : Ptr) → mem u (queues q) ≡ true → (u ≡ t) ⊎ (mem u (tasks e' q) ≡ true))
      → (tasks e' sleepq ≡ [] → queues sleepq ≡ [])
      → IsYielding watched e
      → Leaves queues e' left
      → IsGoing watched left
      → IsYielding watched left
  left-IsYielding {t} {p} {e} {e'} queues left n c from awake v l g = record {
    going = g;
    awake = l.contents sleepq ∙ awake (n.others sleepq (sleepq_apart p) ∙ v.awake);
    unwatched = λ u. l.handle_waker u (rw n.cells (v.unwatched u));
    own = λ u q i.
        l.own u
        ∙ elim (from u q (rw (l.contents q) at i)) [
          | inl same ↦ rw (n.cells, same) (chosen-own n v)
          | inr there ↦ rw n.cells (v.own u q (next_mem q u n there))
        ]
        ∙ sym (l.pipe_wr ∙ c.pipe_wr);
  }

  pub pushed_from :
      (q t u r : Ptr) (e : Executor F V)
      → mem u ((pushed q t e.queues).contents r) ≡ true
      → (u ≡ t) ⊎ (mem u (tasks e r) ≡ true)
  pushed_from q t u r e i = elim (Bool-cases (t == u)) [
    | inl same ↦ inl (sym ((==_iff t u).0 same))
    | inr other ↦ inr (
        ground (
          arith,
          i,
          other,
          mem-append u (without t (tasks e q)) (t ∷ []),
          mem-without u t (tasks e q),
          mem-without u t (tasks e r),
        ))
  ]
