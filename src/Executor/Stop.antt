-- ===== src/Executor/Stop.antt =====
-- `Shutdown::poll` of src/executor.rs, and how `run` ends when a task shuts the executor down.
use epox.Base.{
  ℕ, suc, ◌≡◌, refl, ap, ◌∙◌, subst, sym, Bool, true, false, Option, none, some, List, [], ◌∷◌,
  ◌++◌, ◌==◌, ==_iff, Bool-cases, inl, inr,
}
use epox.Queue.Links.{Ptr}
use epox.Flags.{Flags}
use epox.Waker.{Waker, noop, task, block_on, foreign, pending}
use epox.Executor.{
  Executor, Priority, TaskCell, allocated, set_cell, cloned, is_queued, is_alive, enqueue, sleep,
  abort, spawn, set_shutdown, highest_priority_runnable_task,
}
use epox.Executor.Events.{Kernel, fine}
use epox.Executor.Run.{
  Action, wakes, spawns, aborts, drops, awaits, shuts_down, registers, deregisters, polls_fd,
  Futures, wake_waker, await_output, act, act_all, suspend, finish, run_task, after_task, round,
  run_loop,
}
use epox.Executor.Register.Same.{new_fd-AreSame, drop_fd-AreSame}
use epox.Executor.Rule.{wake_here_rule}
use epox.Executor.Join.{result}

module _ {F V : Type 0} where
  -- The executor is shutting down, where `s` says so, and the task has no output.
  record IsSilent (s : Bool) (t : Ptr) (e : Executor F V) : Type 0 where
    down : s ≡ true → e.shutdown ≡ true
    no_output : (e.cell t).output ≡ none

  enqueue-IsSilent :
      {s : Bool} {t : Ptr} (u : Ptr) (e : Executor F V)
      → IsSilent s t e
      → IsSilent s t (enqueue u e)
  unfolding enqueue
  enqueue-IsSilent u e k = elim (Bool-cases (e.cell u).has_completed) [
    | inl b ↦ rw b (record { down = k.down; no_output = k.no_output })
    | inr b ↦ rw b (record { down = k.down; no_output = k.no_output })
  ]

  -- A change of a cell that does not add an output.
  set_cell-IsSilent :
      {s : Bool} {t : Ptr} (u : Ptr) (c : TaskCell V) (e : Executor F V)
      → ((e.cell u).output ≡ none → c.output ≡ none)
      → IsSilent s t e
      → IsSilent s t (set_cell u c e)
  set_cell-IsSilent {s} {t} u c e keep k = record {
    down = k.down;
    no_output = elim (Bool-cases (u == t)) [
      | inl b ↦
          rw b (keep (subst (λ x. (e.cell x).output ≡ none) (sym ((==_iff u t).0 b)) k.no_output))
      | inr b ↦ rw b k.no_output
    ];
  }

module _ {F V : Type 0} ⦃flags : Flags F⦄ (kernel : Kernel F) where
  wake_waker-IsSilent :
      {s : Bool} {t : Ptr} (w : Waker) (e : Executor F V)
      → IsSilent s t e
      → IsSilent s t (wake_waker kernel w e)
  unfolding wake_waker
  wake_waker-IsSilent {s} {t} (task u) e k = elim (Bool-cases ((e.cell u).pipe_wr == e.pipe_wr)) [
    | inl mine ↦ rw mine (
        wake_here_rule (IsSilent s t) (λ x f j. record { down = j.down; no_output = j.no_output })
          enqueue-IsSilent (λ ev f j. record { down = j.down; no_output = j.no_output })
          (λ ps n f j. record { down = j.down; no_output = j.no_output }) kernel u e k)
    | inr other ↦ rw other k
  ]
  wake_waker-IsSilent noop e k = k
  wake_waker-IsSilent (block_on n) e k = k
  wake_waker-IsSilent (foreign n) e k = k

  await_output-IsSilent :
      {s : Bool} {t : Ptr} (o : Option V) (u : Ptr) (w : Waker) (e : Executor F V)
      → IsSilent s t e
      → IsSilent s t (await_output kernel o u w e)
  await_output-IsSilent none u w e k = set_cell-IsSilent u _ e (λ i. i) k
  await_output-IsSilent (some v) u w e k = set_cell-IsSilent u _ e (λ i. refl) k

  spawn-IsSilent :
      {s : Bool} {t : Ptr} (a : Ptr) (p : Priority) (e : Executor F V)
      → IsSilent s t e
      → IsSilent s t (spawn a p e)
  unfolding spawn
  spawn-IsSilent {s} {t} a p e k = enqueue-IsSilent a (cloned a (allocated a p e)) (record {
    down = k.down;
    no_output = elim (Bool-cases (a == t)) [ inl b ↦ rw b refl | inr b ↦ rw b k.no_output ];
  })

  act-IsSilent :
      {s : Bool} {t : Ptr} (a : Action F) (e : Executor F V)
      → IsSilent s t e
      → IsSilent s t (act kernel a e)
  unfolding act set_shutdown abort
  act-IsSilent (wakes w) e k = wake_waker-IsSilent w e k
  act-IsSilent (spawns a p) e k = elim (Bool-cases (is_alive e a)) [
    | inl used ↦ rw used k
    | inr free ↦ rw free (spawn-IsSilent a p e k)
  ]
  act-IsSilent (aborts u) e k = record { down = k.down; no_output = k.no_output }
  act-IsSilent (drops u) e k = record { down = k.down; no_output = k.no_output }
  act-IsSilent (awaits u w) e k = await_output-IsSilent (e.cell u).output u w e k
  act-IsSilent shuts_down e k = record { down = λ i. refl; no_output = k.no_output }
  act-IsSilent (registers key events x) e k =
      let s = new_fd-AreSame key events x e in
      record { down = λ i. s.shutdown ∙ k.down i; no_output = rw s.cell k.no_output }
  act-IsSilent (deregisters ctl) e k =
      let s = drop_fd-AreSame ctl e in
      record { down = λ i. s.shutdown ∙ k.down i; no_output = rw s.cell k.no_output }
  act-IsSilent (polls_fd key x) e k = record { down = k.down; no_output = k.no_output }

  act_all-IsSilent :
      {s : Bool} {t : Ptr} (as' : List (Action F)) (e : Executor F V)
      → IsSilent s t e
      → IsSilent s t (act_all kernel as' e)
  unfolding act_all
  act_all-IsSilent [] e k = k
  act_all-IsSilent (a ∷ as') e k = act_all-IsSilent as' (act kernel a e) (act-IsSilent a e k)

  -- Once `shuts_down` was done, whatever is done before and after it.
  act_all-shuts_down :
      {t : Ptr} (xs ys : List (Action F)) (e : Executor F V)
      → IsSilent false t e
      → IsSilent true t (act_all kernel (xs ++ shuts_down ∷ ys) e)
  unfolding act_all act set_shutdown
  act_all-shuts_down [] ys e k =
      act_all-IsSilent ys (set_shutdown e) (record { down = λ i. refl; no_output = k.no_output })
  act_all-shuts_down (a ∷ xs) ys e k =
      act_all-shuts_down xs ys (act kernel a e) (act-IsSilent a e k)

  suspend-IsSilent :
      {s : Bool} {t : Ptr} (u : Ptr) (e : Executor F V)
      → IsSilent s t e
      → IsSilent s t (suspend kernel u e)
  unfolding suspend sleep
  suspend-IsSilent {s} {t} u e k =
      let e1 : Executor F V = set_cell u (record (e.cell u) { borrowed = false }) e in
      let k1 : IsSilent s t e1 = set_cell-IsSilent u _ e (λ i. i) k in
      elim (Bool-cases (is_queued e1 u)) [
        | inl b ↦ rw b (record { down = k1.down; no_output = k1.no_output })
        | inr b ↦ rw b (record { down = k1.down; no_output = k1.no_output })
      ]

  run_task-shuts_down :
      (futures : Futures F V) (t : Ptr) (xs ys : List (Action F)) (e : Executor F V)
      → (e.cell t).output ≡ none
      → (futures e.polls t).actions ≡ xs ++ shuts_down ∷ ys
      → (futures e.polls t).poll ≡ pending
      → IsSilent true t (run_task kernel futures t e)
  unfolding run_task finish
  run_task-shuts_down futures t xs ys e no_output does waits =
      rw (does, waits)
        (suspend-IsSilent t _ (
          act_all-shuts_down xs ys
            (set_cell t (record (e.cell t) { borrowed = true }) (record e { polls = suc e.polls }))
            (set_cell-IsSilent t _ (record e { polls = suc e.polls }) (λ i. i)
              (record { down = λ i. cc; no_output = no_output }))))

  round-some :
      (futures : Futures F V) (t : Ptr) (c : Option Ptr × Executor F V)
      → c.0 ≡ some t
      → (run_task kernel futures t c.1).shutdown ≡ true
      → round kernel futures c ≡ (run_task kernel futures t c.1, some fine)
  unfolding round after_task
  round-some futures t (o, e) h down = rw (h, down)

  -- When the task that is to run next shuts the executor down during a poll that answers `Pending`,
  -- whatever else that poll does before and after it, then `run` ends well with what this poll left:
  -- it does not look for events and polls no other task. The handle of the task has no output after
  -- it when it had none before.
  pub run_loop-shuts_down :
      (fuel : ℕ) (futures : Futures F V) (t : Ptr) (xs ys : List (Action F)) (e : Executor F V)
      → let c : Option Ptr × Executor F V = highest_priority_runnable_task e in
        c.0 ≡ some t
        → (c.1.cell t).output ≡ none
        → (futures c.1.polls t).actions ≡ xs ++ shuts_down ∷ ys
        → (futures c.1.polls t).poll ≡ pending
        → let left : Executor F V = run_task kernel futures t c.1 in
          (run_loop kernel (suc fuel) futures e ≡ some (left, fine)) × ((result t left).0 ≡ none)
  unfolding run_loop result
  run_loop-shuts_down fuel futures t xs ys e next no_output does waits =
      let c = highest_priority_runnable_task e in
      let k = run_task-shuts_down futures t xs ys c.1 no_output does waits in
      let r = round-some futures t c next (k.down refl) in
      (rw (ap (λ x. x.1) r, run_loop, ap (λ x. x.0) r), k.no_output)
