-- ===== src/Executor/Remain.antt =====
-- No task is lost: it stands in a queue until it has completed, unless it is aborted.
use epox.Base.{
  ℕ, zero, suc, ◌≡◌, refl, sym, subst, ap, inl, inr, Bool, true, false, not, Option, none, some,
  List, [], ◌∷◌, ◌==◌, ==_iff, arith, mem, without, mem-append, mem-without, Bool-cases,
}
use epox.Queue.Links.{Ptr}
use epox.Queue.Push.{pushed}
use epox.Flags.{Flags}
use epox.Waker.{Waker, noop, task, block_on, foreign, Poll, pending, ready}
use epox.Executor.{
  Executor, TaskCell, Priority, runq, runq_high, runq_normal, runq_low, sleepq, cloned, set_cell,
  is_queued, is_alive, enqueue, sleep, abort, spawn, allocated, set_shutdown,
  highest_priority_runnable_task,
}
use epox.Executor.Events.{Kernel, Timeout, now, never, Status, fine, fails, epoll_wait}
use epox.Executor.Run.{
  Action, wakes, spawns, aborts, drops, awaits, shuts_down, registers, deregisters, polls_fd,
  Futures, wake_waker, await_output, act, act_all, complete, suspend, finish, run_task, check,
  after_task, when_idle, round,
}
use epox.Executor.Register.Same.{new_fd-AreSame, drop_fd-AreSame}
use epox.Executor.Rule.{epoll_wait_rule, wake_here_rule}
use epox.Executor.Order.{tasks, IsNext, Chosen, highest_priority_runnable_task-Chosen}
use epox.Executor.Keeps.{rounds}
use epox.Executor.Yielding.{enqueued}

-- The action does not abort `u`.
abbrev pub spares : {F : Type 0} → Ptr → Action F → Bool
spares u (aborts t) = not (t == u)
spares u _ = true

abbrev pub AreSparing : {F : Type 0} → Ptr → List (Action F) → Type 0
AreSparing u [] = Unit {0}
AreSparing u (a ∷ as') = (spares u a ≡ true) × AreSparing u as'

module _ {F V : Type 0} where
  -- A task stands in a queue, or has completed.
  pub data Remains (u : Ptr) (e : Executor F V) : Type 0 where
    stands : (q : Ptr) → mem u (tasks e q) ≡ true → Remains u e
    ended : (e.cell u).has_completed ≡ true → Remains u e

  same-Remains :
      {u : Ptr} {e e' : Executor F V}
      → Remains u e
      → e'.queues.contents ≡ e.queues.contents
      → ((e.cell u).has_completed ≡ true → (e'.cell u).has_completed ≡ true)
      → Remains u e'
  same-Remains (stands q i) c k = stands q (rw c i)
  same-Remains (ended done) c k = ended (k done)

  pushed-Remains :
      {u : Ptr} (q t : Ptr) {e e' : Executor F V}
      → Remains u e
      → e'.queues.contents ≡ (pushed q t e.queues).contents
      → ((e.cell u).has_completed ≡ true → (e'.cell u).has_completed ≡ true)
      → Remains u e'
  pushed-Remains {u} q t {e} (stands r i) c k = elim (Bool-cases (t == u)) [
    | inl same ↦ stands q (rw c (ground (arith, mem-append u (without t (tasks e q)) (t ∷ []))))
    | inr other ↦ stands r (
        rw c (
          ground (
            arith,
            mem-append u (without t (tasks e q)) (t ∷ []),
            mem-without u t (tasks e q),
            mem-without u t (tasks e r),
          )))
  ]
  pushed-Remains q t (ended done) c k = ended (k done)

  pub enqueue-Remains : (u t : Ptr) (e : Executor F V) → Remains u e → Remains u (enqueue t e)
  unfolding enqueue
  enqueue-Remains u t e v = elim (Bool-cases (e.cell t).has_completed) [
    | inl done ↦ rw done (same-Remains v refl (λ x. x))
    | inr live ↦ rw live (pushed-Remains (runq (e.cell t).priority) t v refl (λ x. x))
  ]

  -- The cell of a task that has completed says so afterwards.
  set_cell-Remains :
      (u t : Ptr) (c : TaskCell V) (e : Executor F V)
      → ((e.cell t).has_completed ≡ true → c.has_completed ≡ true)
      → Remains u e
      → Remains u (set_cell t c e)
  set_cell-Remains u t c e k v = elim (Bool-cases (t == u)) [
    | inl same ↦ same-Remains v refl (λ done. rw same (k (rw ((==_iff t u).0 same) done)))
    | inr other ↦ same-Remains v refl (λ done. rw (other, done))
  ]

  spawn-Remains :
      (u a : Ptr) (p : Priority) (e : Executor F V) → Remains u e → Remains u (spawn a p e)
  unfolding spawn
  spawn-Remains u a p e v =
      let e1 : Executor F V = cloned a (allocated a p e) in
      let self : (a == a) ≡ true = ground arith in
      elim (Bool-cases (a == u)) [
        | inl same ↦
            subst (λ x. Remains x (enqueue a e1)) ((==_iff a u).0 same)
              (stands (runq (e1.cell a).priority) (enqueued a e1 (rw self)))
        | inr other ↦ enqueue-Remains u a e1 (same-Remains v refl (λ done. rw (other, done)))
      ]

  abort-Remains :
      (u t : Ptr) (e : Executor F V) → (t == u) ≡ false → Remains u e → Remains u (abort t e)
  unfolding abort
  abort-Remains u t e ne (stands q i) = stands q (ground (arith, mem-without u t (tasks e q)))
  abort-Remains u t e ne (ended done) = ended done

  -- A task that is put to sleep stands in the sleep queue.
  sleep_own : (t : Ptr) (e : Executor F V) → mem t (tasks (sleep t e) sleepq) ≡ true
  unfolding sleep
  sleep_own t e = ground (arith, mem-append t (without t (tasks e sleepq)) (t ∷ []))

  queued-Remains : (t : Ptr) (e : Executor F V) → is_queued e t ≡ true → Remains t e
  queued-Remains t e b = elim (Bool-cases (mem t (tasks e runq_high))) [
    | inl i ↦ stands runq_high i
    | inr h ↦ elim (Bool-cases (mem t (tasks e runq_normal))) [
      | inl i ↦ stands runq_normal i
      | inr n ↦ elim (Bool-cases (mem t (tasks e runq_low))) [
        | inl i ↦ stands runq_low i
        | inr l ↦ stands sleepq (ground arith)
      ]
    ]
  ]

  pub next-Remains :
      {u t : Ptr} {p : Priority} {e e' : Executor F V}
      → IsNext t p e e'
      → (t == u) ≡ false
      → Remains u e
      → Remains u e'
  next-Remains {u} {t} {p} {e} {e'} n other (stands q i) = elim (Bool-cases (runq p == q)) [
    | inl here ↦
        let same = (==_iff (runq p) q).0 here in
        stands (runq p)
          (ground (arith, ap (mem u) n.oldest, subst (λ x. mem u (tasks e x) ≡ true) (sym same) i))
    | inr away ↦ stands q (rw (n.others q away) i)
  ]
  next-Remains n other (ended done) = ended (rw n.cells done)

module _ {F V : Type 0} ⦃flags : Flags F⦄ (kernel : Kernel F) where
  pub epoll_wait-Remains :
      (u : Ptr) (timeout : Timeout) (e : Executor F V)
      → Remains u e
      → Remains u (epoll_wait kernel timeout e).0
  epoll_wait-Remains u timeout e v =
      epoll_wait_rule (Remains u) (λ t f k. same-Remains k refl (λ x. x)) (enqueue-Remains u)
        (λ ev f k. same-Remains k refl (λ x. x)) (λ ps n f k. same-Remains k refl (λ x. x)) kernel
        timeout e v

  wake_waker-Remains :
      (u : Ptr) (w : Waker) (e : Executor F V) → Remains u e → Remains u (wake_waker kernel w e)
  unfolding wake_waker
  wake_waker-Remains u (task t) e v = elim (Bool-cases ((e.cell t).pipe_wr == e.pipe_wr)) [
    | inl mine ↦ rw mine (
        wake_here_rule (Remains u) (λ t f k. same-Remains k refl (λ x. x)) (enqueue-Remains u)
          (λ ev f k. same-Remains k refl (λ x. x)) (λ ps n f k. same-Remains k refl (λ x. x)) kernel
          t e v)
    | inr other ↦ rw other v
  ]
  wake_waker-Remains u noop e v = v
  wake_waker-Remains u (block_on n) e v = v
  wake_waker-Remains u (foreign n) e v = v

  await_output-Remains :
      (u : Ptr) (o : Option V) (t : Ptr) (w : Waker) (e : Executor F V)
      → Remains u e
      → Remains u (await_output kernel o t w e)
  await_output-Remains u none t w e v = set_cell-Remains u t _ e (λ x. x) v
  await_output-Remains u (some o) t w e v = set_cell-Remains u t _ e (λ x. x) v

  act-Remains :
      (u : Ptr) (a : Action F) (e : Executor F V)
      → spares u a ≡ true
      → Remains u e
      → Remains u (act kernel a e)
  unfolding act set_shutdown
  act-Remains u (wakes w) e s v = wake_waker-Remains u w e v
  act-Remains u (spawns a p) e s v = elim (Bool-cases (is_alive e a)) [
    | inl used ↦ rw used v
    | inr free ↦ rw free (spawn-Remains u a p e v)
  ]
  act-Remains u (aborts t) e s v = abort-Remains u t e (ground arith) v
  act-Remains u (drops t) e s v = same-Remains v refl (λ x. x)
  act-Remains u (awaits t w) e s v = await_output-Remains u (e.cell t).output t w e v
  act-Remains u shuts_down e s v = same-Remains v refl (λ x. x)
  act-Remains u (registers key events x) e s v =
      let k = new_fd-AreSame key events x e in same-Remains v (rw k.queues) (λ done. rw k.cell done)
  act-Remains u (deregisters ctl) e s v =
      let k = drop_fd-AreSame ctl e in same-Remains v (rw k.queues) (λ done. rw k.cell done)
  act-Remains u (polls_fd key x) e s v = same-Remains v refl (λ x. x)

  pub act_all-Remains :
      (u : Ptr) (as' : List (Action F)) (e : Executor F V)
      → AreSparing u as'
      → Remains u e
      → Remains u (act_all kernel as' e)
  unfolding act_all
  act_all-Remains u [] e s v = v
  act_all-Remains u (a ∷ as') e s v =
      act_all-Remains u as' (act kernel a e) s.1 (act-Remains u a e s.0 v)

  -- The task that was polled ends in a queue or has completed, also if it was aborted meanwhile.
  finish_own : (t : Ptr) (p : Poll V) (e : Executor F V) → Remains t (finish kernel t p e)
  unfolding finish complete suspend
  finish_own t (ready x) e = let self : (t == t) ≡ true = ground arith in ended (rw self)
  finish_own t pending e =
      let e1 : Executor F V = set_cell t (record (e.cell t) { borrowed = false }) e in
      elim (Bool-cases (is_queued e1 t)) [
        | inl b ↦ rw b (same-Remains (queued-Remains t e1 b) refl (λ x. x))
        | inr b ↦ rw b (stands sleepq (sleep_own t e1))
      ]

  finish-Remains :
      (u t : Ptr) (p : Poll V) (e : Executor F V) → Remains u e → Remains u (finish kernel t p e)
  unfolding finish complete suspend sleep
  finish-Remains u t (ready x) e v =
      let e1 : Executor F V =
        set_cell t (record (e.cell t) { output = some x; handle_waker = noop }) e in
      let v1 : Remains u e1 = set_cell-Remains u t _ e (λ x. x) v in
      let e2 : Executor F V = wake_waker kernel (e.cell t).handle_waker e1 in
      let v2 : Remains u e2 = wake_waker-Remains u (e.cell t).handle_waker e1 v1 in
      same-Remains
        (set_cell-Remains u t (record (e2.cell t) { has_completed = true; borrowed = false }) e2
          (λ x. refl) v2)
        refl (λ x. x)
  finish-Remains u t pending e v =
      let e1 : Executor F V = set_cell t (record (e.cell t) { borrowed = false }) e in
      let v1 : Remains u e1 = set_cell-Remains u t _ e (λ x. x) v in
      elim (Bool-cases (is_queued e1 t)) [
        | inl b ↦ rw b (same-Remains v1 refl (λ x. x))
        | inr b ↦ rw b (pushed-Remains sleepq t v1 refl (λ x. x))
      ]

  pub run_task-Remains :
      (u : Ptr) (futures : Futures F V) (t : Ptr) (e : Executor F V)
      → AreSparing u (futures e.polls t).actions
      → ((t == u) ≡ false → Remains u e)
      → Remains u (run_task kernel futures t e)
  unfolding run_task
  run_task-Remains u futures t e s v =
      let e1 : Executor F V =
        set_cell t (record (e.cell t) { borrowed = true }) (record e { polls = suc e.polls }) in
      elim (Bool-cases (t == u)) [
        | inl same ↦
            subst (λ x. Remains x (run_task kernel futures t e)) ((==_iff t u).0 same)
              (finish_own t (futures e.polls t).poll _)
        | inr other ↦ finish-Remains u t (futures e.polls t).poll _ (
            act_all-Remains u (futures e.polls t).actions e1 s (
              set_cell-Remains u t _ (record e { polls = suc e.polls }) (λ x. x)
                (same-Remains (v other) refl (λ x. x))))
      ]

  check-Remains :
      (u : Ptr) (r : Executor F V × Status) → Remains u r.0 → Remains u (check kernel r).0
  unfolding check
  check-Remains u (e, fine) v = v
  check-Remains u (e, fails n) v = v

  after_task-Remains :
      (u : Ptr) (b : Bool) (e : Executor F V) → Remains u e → Remains u (after_task kernel b e).0
  unfolding after_task
  after_task-Remains u true e v = v
  after_task-Remains u false e v =
      check-Remains u (epoll_wait kernel now e) (epoll_wait-Remains u now e v)

  when_idle-Remains :
      (u : Ptr) (b : Bool) (e : Executor F V) → Remains u e → Remains u (when_idle kernel b e).0
  unfolding when_idle
  when_idle-Remains u true e v = v
  when_idle-Remains u false e v =
      check-Remains u (epoll_wait kernel never e) (epoll_wait-Remains u never e v)

  pub round-Remains :
      (u : Ptr) (futures : Futures F V) (e : Executor F V) (c : Option Ptr × Executor F V)
      → ((n : ℕ) (t : Ptr) → AreSparing u (futures n t).actions)
      → Chosen e c
      → Remains u e
      → Remains u (round kernel futures c).0
  unfolding round
  round-Remains u futures e (some t, e') s (p, n) v =
      after_task-Remains u (run_task kernel futures t e').shutdown (run_task kernel futures t e')
        (run_task-Remains u futures t e' (s e'.polls t) (λ other. next-Remains n other v))
  round-Remains u futures e (none, e') s (_, _, _, same) v = when_idle-Remains u _ e' (rw same v)

  -- A task that stands in a queue or has completed does so after any number of rounds of the loops of
  -- `run`, when no future aborts it: no poll, wake, event or answer of the kernel loses it.
  pub rounds-Remains :
      (n : ℕ) (u : Ptr) (futures : Futures F V) (e : Executor F V)
      → ((n : ℕ) (t : Ptr) → AreSparing u (futures n t).actions)
      → Remains u e
      → Remains u (rounds kernel n futures e)
  rounds-Remains zero u futures e s v = v
  rounds-Remains (suc n) u futures e s v =
      let c = highest_priority_runnable_task e in
      rounds-Remains n u futures (round kernel futures c).0 s
        (round-Remains u futures e c s (highest_priority_runnable_task-Chosen e) v)
