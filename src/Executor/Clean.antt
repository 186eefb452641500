-- ===== src/Executor/Clean.antt =====
-- Which tasks stand in a queue, are borrowed or are watched, while one task may be polled.
use epox.Base.{
  ◌≡◌, refl, sym, ◌∙◌, subst, inl, inr, Bool, true, false, ◌&&◌, [], ◌∷◌, ◌==◌, ==_iff, arith, mem,
  mem-append, mem-without, without, Bool-cases,
}
use epox.Queue.Links.{Ptr}
use epox.Queue.Push.{pushed}
use epox.Executor.{
  Executor, TaskCell, Priority, runq, sleepq, cloned, set_cell, enqueue, sleep, abort, spawn,
  allocated,
}
use epox.Executor.Order.{tasks}
use epox.Executor.InLine.{is_of}

-- Of the tasks that are `polled`, which are away from the queues when `away` says so. Outside of a
-- poll none is.
pub record IsClean {F V : Type 0} (polled : Ptr → Bool) (away : Bool) (e : Executor F V)
    : Type 0 where
  -- a task that has completed stands in no queue
  pub retired : (t q : Ptr) → (e.cell t).has_completed ≡ true → mem t (tasks e q) ≡ false
  pub unborrowed : (t : Ptr) → polled t ≡ false → (e.cell t).borrowed ≡ false
  -- no handle wakes the task that it is the handle of
  pub unwatched : (t : Ptr) → is_of t (e.cell t).handle_waker ≡ false
  pub absent : (t q : Ptr) → (away && polled t) ≡ true → mem t (tasks e q) ≡ false
  pub running : (t : Ptr) → polled t ≡ true → (e.cell t).has_completed ≡ false

pushed-absent :
    {F V : Type 0} (u t : Ptr) (q r : Ptr) (e : Executor F V)
    → (t == u) ≡ false
    → mem u (tasks e r) ≡ false
    → mem u (tasks e q) ≡ false
    → mem u ((pushed q t e.queues).contents r) ≡ false
pushed-absent u t q r e ne o p = ground (
  arith,
  mem-append u (without t (tasks e q)) (t ∷ []),
  mem-without u t (tasks e q),
  mem-without u t (tasks e r),
)

module _ {F V : Type 0} {polled : Ptr → Bool} {away : Bool} where
  pub same-IsClean :
      {e e' : Executor F V}
      → IsClean polled away e
      → e'.queues.contents ≡ e.queues.contents
      → e'.cell ≡ e.cell
      → IsClean polled away e'
  same-IsClean v c k = record {
    retired = λ t q done. rw c (v.retired t q (rw k at done));
    unborrowed = λ t i. rw k (v.unborrowed t i);
    unwatched = λ t. rw k (v.unwatched t);
    absent = λ t q i. rw c (v.absent t q i);
    running = λ t i. rw k (v.running t i);
  }

  -- Tasks are taken out of the queues.
  pub fewer-IsClean :
      {e e' : Executor F V}
      → IsClean polled away e
      → ((t q : Ptr) → mem t (tasks e q) ≡ false → mem t (tasks e' q) ≡ false)
      → e'.cell ≡ e.cell
      → IsClean polled away e'
  fewer-IsClean v less k = record {
    retired = λ t q done. less t q (v.retired t q (rw k at done));
    unborrowed = λ t i. rw k (v.unborrowed t i);
    unwatched = λ t. rw k (v.unwatched t);
    absent = λ t q i. less t q (v.absent t q i);
    running = λ t i. rw k (v.running t i);
  }

  pub pushed-IsClean :
      (q t : Ptr) (e : Executor F V)
      → (e.cell t).has_completed ≡ false
      → (away && polled t) ≡ false
      → IsClean polled away e
      → IsClean polled away (record e { queues = pushed q t e.queues })
  pushed-IsClean q t e live here v = record {
    retired = λ u r done. elim (Bool-cases (t == u)) [
      | inl it ↦
          absurd (let x : (e.cell t).has_completed ≡ true = rw ((==_iff t u).0 it) done in cc)
      | inr ne ↦ pushed-absent u t q r e ne (v.retired u r done) (v.retired u q done)
    ];
    unborrowed = v.unborrowed;
    unwatched = v.unwatched;
    absent = λ u r i. elim (Bool-cases (t == u)) [
      | inl it ↦ absurd (let x : (away && polled t) ≡ true = rw ((==_iff t u).0 it) i in cc)
      | inr ne ↦ pushed-absent u t q r e ne (v.absent u r i) (v.absent u q i)
    ];
    running = v.running;
  }

  pub enqueue-IsClean :
      (t : Ptr) (e : Executor F V)
      → (away && polled t) ≡ false
      → IsClean polled away e
      → IsClean polled away (enqueue t e)
  unfolding enqueue
  enqueue-IsClean t e here v = elim (Bool-cases (e.cell t).has_completed) [
    | inl done ↦ rw done (same-IsClean v refl refl)
    | inr live ↦ rw live (pushed-IsClean (runq (e.cell t).priority) t e live here v)
  ]

  pub sleep-IsClean :
      (t : Ptr) (e : Executor F V)
      → (e.cell t).has_completed ≡ false
      → (away && polled t) ≡ false
      → IsClean polled away e
      → IsClean polled away (sleep t e)
  unfolding sleep
  sleep-IsClean t e live here v = pushed-IsClean sleepq t e live here v

  pub abort-IsClean :
      (t : Ptr) (e : Executor F V) → IsClean polled away e → IsClean polled away (abort t e)
  unfolding abort
  abort-IsClean t e v =
      fewer-IsClean v (λ u q o. ground (arith, mem-without u t (tasks e q), o)) refl

  pub set_cell-IsClean :
      (t : Ptr) (c : TaskCell V) (e : Executor F V)
      → c.has_completed ≡ (e.cell t).has_completed
      → (polled t ≡ false → c.borrowed ≡ false)
      → is_of t c.handle_waker ≡ false
      → IsClean polled away e
      → IsClean polled away (set_cell t c e)
  set_cell-IsClean t c e completed free own v = record {
    retired = λ u q done. v.retired u q (was u done);
    unborrowed = λ u i. elim (Bool-cases (t == u)) [
      | inl it ↦ rw it (free (rw ((==_iff t u).0 it) i))
      | inr ne ↦ rw ne (v.unborrowed u i)
    ];
    unwatched = λ u. elim (Bool-cases (t == u)) [
      | inl it ↦ rw it (subst (λ x. is_of x c.handle_waker ≡ false) ((==_iff t u).0 it) own)
      | inr ne ↦ rw ne (v.unwatched u)
    ];
    absent = v.absent;
    running = λ u i. elim (Bool-cases (t == u)) [
      | inl it ↦ rw (it, completed, (==_iff t u).0 it) (v.running u i)
      | inr ne ↦ rw ne (v.running u i)
    ];
  }
    where
      was :
          (u : Ptr)
          → ((set_cell t c e).cell u).has_completed ≡ true
          → (e.cell u).has_completed ≡ true
      was u done = elim (Bool-cases (t == u)) [
        | inl it ↦ rw ((==_iff t u).0 it) at (sym completed ∙ (rw it at done))
        | inr ne ↦ rw ne at done
      ]

  pub spawn-IsClean :
      (a : Ptr) (p : Priority) (e : Executor F V)
      → polled a ≡ false
      → IsClean polled away e
      → IsClean polled away (spawn a p e)
  unfolding spawn
  spawn-IsClean a p e here v =
      enqueue-IsClean a (cloned a (allocated a p e)) (rw here (ground arith)) (record {
        retired = λ u q done. v.retired u q (was u done);
        unborrowed = λ u i. elim (Bool-cases (a == u)) [
          | inl it ↦ rw it refl
          | inr ne ↦ rw ne (v.unborrowed u i)
        ];
        unwatched = λ u. elim (Bool-cases (a == u)) [
          | inl it ↦ rw it refl
          | inr ne ↦ rw ne (v.unwatched u)
        ];
        absent = v.absent;
        running = λ u i. elim (Bool-cases (a == u)) [
          | inl it ↦ rw it refl
          | inr ne ↦ rw ne (v.running u i)
        ];
      })
    where
      was :
          (u : Ptr)
          → ((cloned a (allocated a p e)).cell u).has_completed ≡ true
          → (e.cell u).has_completed ≡ true
      was u done = elim (Bool-cases (a == u)) [
        | inl it ↦ absurd (let x : false ≡ true = rw it at done in cc)
        | inr ne ↦ rw ne at done
      ]
