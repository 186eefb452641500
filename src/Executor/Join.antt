-- ===== src/Executor/Join.antt =====
-- `Handle::result` and `Handle::poll` of src/task.rs: how a task waits for the output of another.
use epox.Base.{
  ◌≡◌, refl, true, false, Option, none, some, arith, ◌==◌, subst, ap, [], ◌∷◌, ◌++◌, without, ◌∙◌,
  if◌then◌else◌, List, suc, Bool-cases, inl, inr, sym,
}
use epox.Queue.Links.{Ptr}
use epox.Flags.{Flags}
use epox.Waker.{Waker, noop, task, Poll, pending, ready}
use epox.Executor.{Executor, runq, cloned, set_cell, is_alive, enqueue, is_queued, sleep}
use epox.Executor.Events.{Kernel, wake_here}
use epox.Executor.Run.{
  Action, awaits, Futures, await_output, wake_waker, complete, suspend, finish, act, act_all,
  run_task,
}
use epox.Executor.Wakeups.{IsLast, enqueue-IsLast, enqueue-cell}

abbrev pub poll_of : {V : Type 0} → Option V → Poll V
poll_of none = pending
poll_of (some v) = ready v

module _ {F V : Type 0} where
  -- The state when `complete` wakes: the output is there, and the waker is taken.
  abbrev output_set : Ptr → V → Executor F V → Executor F V
  output_set t v e = set_cell t (record (e.cell t) { output = some v; handle_waker = noop }) e

  -- `Handle::result`: `Cell::take` of the output.
  unfoldable pub result : Ptr → Executor F V → Option V × Executor F V
  result t e = ((e.cell t).output, set_cell t (record (e.cell t) { output = none }) e)

module _ {F V : Type 0} ⦃flags : Flags F⦄ (kernel : Kernel F) where
  -- `Handle::poll`. `none` is the panic of the borrow of a task that is being polled.
  unfoldable pub poll_handle : Ptr → Waker → Executor F V → Option (Poll V × Executor F V)
  unfolding result
  poll_handle t w e =
      if (e.cell t).borrowed
      then none
      else some (poll_of (result t e).0, await_output kernel (result t e).0 t w e)

  wake_here_idle :
      (p : Ptr) (e e1 : Executor F V)
      → e1.queues ≡ e.queues
      → is_alive e p ≡ true
      → (e1.cell p).priority ≡ (e.cell p).priority
      → (e1.cell p).has_completed ≡ false
      → (e1.cell p).borrowed ≡ false
      → IsLast p e (wake_here kernel p e1) × ((wake_here kernel p e1).cell ≡ e1.cell)
  unfolding wake_here
  wake_here_idle p e e1 q alive same live idle =
      let l = enqueue-IsLast p e1 (cloned p e1) refl refl live in
      let alive1 : is_alive e1 p ≡ true = rw q alive in
      rw (alive1, idle)
        (
          record {
            last =
                subst
                  (λ x.
                    (enqueue p (cloned p e1)).queues.contents (runq x)
                    ≡ without p (e.queues.contents (runq x)) ++ p ∷ [])
                  same
                  (subst
                    (λ m.
                      (enqueue p (cloned p e1)).queues.contents (runq (e1.cell p).priority)
                      ≡ without p (m.contents (runq (e1.cell p).priority)) ++ p ∷ [])
                    q l.last);
            others = λ r o.
                subst (λ m. (enqueue p (cloned p e1)).queues.contents r ≡ without p (m.contents r))
                  q (l.others r (rw same o));
          },
          enqueue-cell p (cloned p e1),
        )

  IsLast-contents :
      (p : Ptr) (e e1 e2 : Executor F V)
      → e2.queues.contents ≡ e1.queues.contents
      → IsLast p e e1
      → IsLast p e e2
  IsLast-contents p e e1 e2 same l = record {
    last = rw same l.last;
    others = λ q o. rw same (l.others q o);
  }

  -- With the waker of a task of this thread in the handle, `complete` wakes that task.
  complete-task :
      (t p : Ptr) (v : V) (e : Executor F V)
      → (e.cell t).handle_waker ≡ task p
      → (t == p) ≡ false
      → (e.cell p).pipe_wr ≡ e.pipe_wr
      → ((complete kernel t v e).queues.contents
          ≡ (wake_here kernel p (output_set t v e)).queues.contents)
        × (((complete kernel t v e).cell t).output
            ≡ ((wake_here kernel p (output_set t v e)).cell t).output)
  unfolding complete wake_waker
  complete-task t p v e watched ne own =
      let self : (t == t) ≡ true = ground arith in
      let mine : (((output_set t v e).cell p).pipe_wr == (output_set t v e).pipe_wr) ≡ true =
        rw (ne, own) (ground arith) in
      (rw (watched, mine), rw (watched, mine, self))

  complete-borrowed :
      (t : Ptr) (v : V) (e : Executor F V) → ((complete kernel t v e).cell t).borrowed ≡ false
  unfolding complete
  complete-borrowed t v e = let self : (t == t) ≡ true = ground arith in rw self refl

  poll_handle-answers :
      (t : Ptr) (o : Option V) (w : Waker) (e : Executor F V)
      → (e.cell t).borrowed ≡ false
      → (e.cell t).output ≡ o
      → poll_handle t w e ≡ some (poll_of o, await_output kernel o t w e)
  unfolding poll_handle result
  poll_handle-answers t o w e free has =
      rw free (ap (λ x. some (poll_of x, await_output kernel x t w e)) has)

  poll_handle-ready :
      (t : Ptr) (v : V) (w : Waker) (e : Executor F V)
      → (e.cell t).borrowed ≡ false
      → (e.cell t).output ≡ some v
      → (e1 : Executor F V) × (poll_handle t w e ≡ some (ready v, e1))
        × (e2 : Executor F V) × (poll_handle t w e1 ≡ some (pending, e2))
  poll_handle-ready t v w e free has =
      let self : (t == t) ≡ true = ground arith in
      let taken : Executor F V = await_output kernel (some v) t w e in
      (
        taken,
        poll_handle-answers t (some v) w e free has,
        await_output kernel none t w taken,
        poll_handle-answers t none w taken (rw self free) (rw self refl),
      )

  act-awaits :
      (t : Ptr) (w : Waker) (e : Executor F V)
      → (e.cell t).output ≡ none
      → act kernel (awaits t w) e ≡ await_output kernel none t w e
  unfolding act
  act-awaits t w e no_output = ap (λ o. await_output kernel o t w e) no_output

  suspend-other :
      (t p : Ptr) (e : Executor F V) → (p == t) ≡ false → (suspend kernel p e).cell t ≡ e.cell t
  unfolding suspend sleep
  suspend-other t p e ne =
      let e1 : Executor F V = set_cell p (record (e.cell p) { borrowed = false }) e in
      elim (Bool-cases (is_queued e1 p)) [
        | inl queued ↦ rw (queued, ne) refl
        | inr out ↦ rw (out, ne) refl
      ]

  -- The state in which the poll of a task starts, and that after actions of its future.
  abbrev pub polling : Ptr → Executor F V → Executor F V
  polling t e =
      set_cell t (record (e.cell t) { borrowed = true }) (record e { polls = suc e.polls })

  abbrev pub acted : List (Action F) → Ptr → Executor F V → Executor F V
  acted as' t e = act_all kernel as' (polling t e)

  run_task-suspend :
      (futures : Futures F V) (p : Ptr) (a : Action F) (e : Executor F V)
      → futures e.polls p ≡ record { actions = a ∷ []; poll = pending }
      → run_task kernel futures p e ≡ suspend kernel p (act kernel a (polling p e))
  unfolding run_task finish act_all
  run_task-suspend futures p a e turn = rw turn refl

  run_task-awaits :
      (futures : Futures F V) (t p : Ptr) (e : Executor F V)
      → (p == t) ≡ false
      → (e.cell t).output ≡ none
      → futures e.polls p ≡ record { actions = awaits t (task p) ∷ []; poll = pending }
      → ((run_task kernel futures p e).cell t).handle_waker ≡ task p
  run_task-awaits futures t p e ne no_output turn =
      let self : (t == t) ≡ true = ground arith in
      let e1 : Executor F V = act kernel (awaits t (task p)) (polling p e) in
      ap (λ x. (x.cell t).handle_waker) (run_task-suspend futures p (awaits t (task p)) e turn)
      ∙ ap (λ c. c.handle_waker) (suspend-other t p e1 ne)
      ∙ ap (λ x. (x.cell t).handle_waker) (act-awaits t (task p) (polling p e) (rw ne no_output))
      ∙ rw self refl

  run_task-complete :
      (futures : Futures F V) (t : Ptr) (v : V) (as' : List (Action F)) (e : Executor F V)
      → futures e.polls t ≡ record { actions = as'; poll = ready v }
      → run_task kernel futures t e ≡ complete kernel t v (acted as' t e)
  unfolding run_task finish
  run_task-complete futures t v as' e turn = rw turn refl

  -- A task `p` that polls the handle of another task `t` without output in its own poll has to wait.
  -- When a later poll of `t` ends `Ready`, `p` is put behind the others in the run queue of its
  -- priority, and polls of the handle then answer the output of `t` once; none of them panics. The
  -- conditions are that `t` is not being polled at the first poll, and that when `t` ends, the handle
  -- still has the waker that `p` has left, and `p` is a live task of this thread that is not being
  -- polled.
  pub poll_handle-run_task :
      (futures : Futures F V) (t p : Ptr) (v : V) (w : Waker) (as' : List (Action F))
      (e e2 : Executor F V)
      → (p == t) ≡ false
      → (e.cell t).output ≡ none
      → (e.cell t).borrowed ≡ false
      → futures e.polls p ≡ record { actions = awaits t (task p) ∷ []; poll = pending }
      → futures e2.polls t ≡ record { actions = as'; poll = ready v }
      → ((acted as' t e2).cell t).handle_waker ≡ ((run_task kernel futures p e).cell t).handle_waker
      → is_alive (acted as' t e2) p ≡ true
      → ((acted as' t e2).cell p).has_completed ≡ false
      → ((acted as' t e2).cell p).borrowed ≡ false
      → ((acted as' t e2).cell p).pipe_wr ≡ (acted as' t e2).pipe_wr
      → (poll_handle t (task p) (polling p e)
          ≡ some (pending, act kernel (awaits t (task p)) (polling p e)))
        × IsLast p (acted as' t e2) (run_task kernel futures t e2)
        × (e5 : Executor F V) × (poll_handle t w (run_task kernel futures t e2)
            ≡ some (ready v, e5))
        × (e6 : Executor F V) × (poll_handle t w e5 ≡ some (pending, e6))
  poll_handle-run_task futures t p v w as' e e2 ne no_output free turn ends kept alive live idle
        own =
      let self : (t == t) ≡ true = ground arith in
      let ne' : (t == p) ≡ false = ground (arith, ne) in
      let e3 : Executor F V = acted as' t e2 in
      let watched : (e3.cell t).handle_waker ≡ task p =
        kept ∙ run_task-awaits futures t p e ne no_output turn in
      let woken =
        wake_here_idle p e3 (output_set t v e3) refl alive (rw ne') (rw (ne', live))
          (rw (ne', idle)) in
      let over = complete-task t p v e3 watched ne' own in
      let there : ((complete kernel t v e3).cell t).output ≡ some v = rw (over.1, woken.1, self) in
      let answers =
        poll_handle-ready t v w (complete kernel t v e3) (complete-borrowed t v e3) there in
      rw (run_task-complete futures t v as' e2 ends) (
        poll_handle-answers t none (task p) (polling p e) (rw ne free) (rw ne no_output)
            ∙ ap (λ x. some (pending, x))
                (sym (act-awaits t (task p) (polling p e) (rw ne no_output))),
        IsLast-contents p e3 (wake_here kernel p (output_set t v e3)) (complete kernel t v e3)
            over.0 woken.0,
        answers.0,
        answers.1,
        answers.2,
        answers.3,
      )
