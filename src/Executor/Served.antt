-- ===== src/Executor/Served.antt =====
-- A task of high priority that nobody wakes or aborts meanwhile gets its turn.
use epox.Base.{
  ℕ, zero, suc, ◌≤◌, ◌≡◌, refl, ap, subst, ◌⊎◌, inl, inr, Bool, true, false, some, none, Option,
  List, [], ◌∷◌, ◌==◌, ==_iff, arith, mem, Bool-cases,
}
use epox.Queue.Links.{Ptr}
use epox.Flags.{Flags}
use epox.Waker.{Waker, noop, task, block_on, foreign, Poll, pending, ready}
use epox.Executor.{
  Executor, runq_high, cloned, set_cell, is_queued, is_alive, sleep, abort, spawn, allocated,
  set_shutdown, highest_priority_runnable_task,
}
use epox.Executor.Events.{events, Kernel, Timeout, now, Status, fine, fails, epoll_wait, wake_here}
use epox.Executor.Register.Same.{new_fd-AreSame, drop_fd-AreSame}
use epox.Executor.Order.{Chosen, highest_priority_runnable_task-Chosen}
use epox.Executor.Lists.{quiet_wait}
use epox.Executor.Keeps.{rounds}
use epox.Executor.Run.{
  Action, wakes, spawns, aborts, drops, awaits, shuts_down, registers, deregisters, polls_fd,
  Futures, wake_waker, await_output, act, act_all, complete, suspend, finish, run_task, check,
  after_task, round,
}
use epox.Executor.InLine.{
  leaves_be, AreLeavingBe, is_of, InLine, same-InLine, without-InLine, enqueue-InLine,
  set_cell-InLine, allocated-InLine, fresh_other, next-InLine, front,
}

module _ {F V : Type 0} ⦃flags : Flags F⦄ (kernel : Kernel F)
    (quiet : (n : ℕ) (timeout : Timeout) (room : ℕ)
      → kernel n timeout room ≡ record { answer = events []; arrived = [] }) where
  epoll_wait-InLine :
      {k : ℕ} {u : Ptr} (timeout : Timeout) (e : Executor F V)
      → InLine k u e
      → InLine k u (epoll_wait kernel timeout e).0
  epoll_wait-InLine timeout e w =
      let q = quiet_wait kernel quiet timeout e in
      same-InLine w (ap (λ m. m.contents runq_high) q.0) (λ s. rw q.1.cell (w.unwatched s))

  wake_here-InLine :
      {k : ℕ} {u : Ptr} (t : Ptr) (e : Executor F V)
      → (t == u) ≡ false
      → InLine k u e
      → InLine k u (wake_here kernel t e)
  unfolding wake_here
  wake_here-InLine {k} {u} t e ne w =
      let w1 : InLine k u (cloned t e) = same-InLine w refl w.unwatched in
      elim (Bool-cases (is_alive e t)) [
        | inr gone ↦ rw gone w
        | inl live ↦ rw live (elim (Bool-cases (e.cell t).borrowed) [
          | inl self ↦ rw self (enqueue-InLine t _ ne (epoll_wait-InLine now (cloned t e) w1))
          | inr other ↦ rw other (enqueue-InLine t (cloned t e) ne w1)
        ])
      ]

  wake_waker-InLine :
      {k : ℕ} {u : Ptr} (x : Waker) (e : Executor F V)
      → is_of u x ≡ false
      → InLine k u e
      → InLine k u (wake_waker kernel x e)
  unfolding wake_waker
  wake_waker-InLine (task t) e ne w = elim (Bool-cases ((e.cell t).pipe_wr == e.pipe_wr)) [
    | inl mine ↦ rw mine (wake_here-InLine t e ne w)
    | inr other ↦ rw other w
  ]
  wake_waker-InLine noop e ne w = w
  wake_waker-InLine (block_on n) e ne w = w
  wake_waker-InLine (foreign n) e ne w = w

  await_output-InLine :
      {k : ℕ} {u : Ptr} (o : Option V) (t : Ptr) (x : Waker) (e : Executor F V)
      → is_of u x ≡ false
      → InLine k u e
      → InLine k u (await_output kernel o t x e)
  await_output-InLine none t x e ne w = set_cell-InLine t _ e ne w
  await_output-InLine (some v) t x e ne w = set_cell-InLine t _ e (w.unwatched t) w

  act-InLine :
      {k : ℕ} {u : Ptr} (a : Action F) (e : Executor F V)
      → leaves_be u a ≡ true
      → InLine k u e
      → InLine k u (act kernel a e)
  unfolding act set_shutdown abort spawn
  act-InLine (wakes x) e s w = wake_waker-InLine x e (ground arith) w
  act-InLine (spawns a p) e s w = elim (Bool-cases (is_alive e a)) [
    | inl used ↦ rw used w
    | inr free ↦ rw free (
        enqueue-InLine a (cloned a (allocated a p e)) (fresh_other a e free w)
          (allocated-InLine a p e w))
  ]
  act-InLine (aborts t) e s w = without-InLine t w (ground arith) refl w.unwatched
  act-InLine (drops t) e s w = same-InLine w refl w.unwatched
  act-InLine (awaits t x) e s w = await_output-InLine (e.cell t).output t x e (ground arith) w
  act-InLine shuts_down e s w = same-InLine w refl w.unwatched
  act-InLine (registers key fs x) e s w =
      let k = new_fd-AreSame key fs x e in
      same-InLine w (ap (λ m. m.contents runq_high) k.queues) (λ t. rw k.cell (w.unwatched t))
  act-InLine (deregisters ctl) e s w =
      let k = drop_fd-AreSame ctl e in
      same-InLine w (ap (λ m. m.contents runq_high) k.queues) (λ t. rw k.cell (w.unwatched t))
  act-InLine (polls_fd key x) e s w = same-InLine w refl w.unwatched

  act_all-InLine :
      {k : ℕ} {u : Ptr} (as' : List (Action F)) (e : Executor F V)
      → AreLeavingBe u as'
      → InLine k u e
      → InLine k u (act_all kernel as' e)
  unfolding act_all
  act_all-InLine [] e s w = w
  act_all-InLine (a ∷ as') e s w = act_all-InLine as' (act kernel a e) s.1 (act-InLine a e s.0 w)

  finish-InLine :
      {k : ℕ} {u : Ptr} (t : Ptr) (p : Poll V) (e : Executor F V)
      → (t == u) ≡ false
      → InLine k u e
      → InLine k u (finish kernel t p e)
  unfolding finish complete suspend sleep
  finish-InLine {k} {u} t (ready v) e ne w =
      let e1 : Executor F V =
        set_cell t (record (e.cell t) { output = some v; handle_waker = noop }) e in
      let w1 : InLine k u e1 = set_cell-InLine t _ e refl w in
      let e2 : Executor F V = wake_waker kernel (e.cell t).handle_waker e1 in
      let w2 : InLine k u e2 = wake_waker-InLine (e.cell t).handle_waker e1 (w.unwatched t) w1 in
      let w3 =
        set_cell-InLine t (record (e2.cell t) { has_completed = true; borrowed = false }) e2
          (w2.unwatched t) w2 in
      same-InLine w3 refl w3.unwatched
  finish-InLine {k} {u} t pending e ne w =
      let e1 : Executor F V = set_cell t (record (e.cell t) { borrowed = false }) e in
      let w1 : InLine k u e1 = set_cell-InLine t _ e (w.unwatched t) w in
      elim (Bool-cases (is_queued e1 t)) [
        | inl b ↦ rw b (same-InLine w1 refl w1.unwatched)
        | inr b ↦ rw b (without-InLine t w1 ne refl w1.unwatched)
      ]

  run_task-InLine :
      {k : ℕ} {u : Ptr} (futures : Futures F V) (t : Ptr) (e : Executor F V)
      → (t == u) ≡ false
      → AreLeavingBe u (futures e.polls t).actions
      → InLine k u e
      → InLine k u (run_task kernel futures t e)
  unfolding run_task
  run_task-InLine futures t e ne s w = finish-InLine t (futures e.polls t).poll _ ne (
      act_all-InLine (futures e.polls t).actions _ s (
        set_cell-InLine t (record (e.cell t) { borrowed = true }) (record e { polls = suc e.polls })
          (w.unwatched t) (same-InLine w refl w.unwatched)))

  check-InLine :
      {k : ℕ} {u : Ptr} (r : Executor F V × Status) → InLine k u r.0 → InLine k u (check kernel r).0
  unfolding check
  check-InLine (e, fine) w = w
  check-InLine (e, fails n) w = w

  after_task-InLine :
      {k : ℕ} {u : Ptr} (b : Bool) (e : Executor F V)
      → InLine k u e
      → InLine k u (after_task kernel b e).0
  unfolding after_task
  after_task-InLine true e w = w
  after_task-InLine false e w = check-InLine (epoll_wait kernel now e) (epoll_wait-InLine now e w)

  -- A round polls `u`, or brings it nearer.
  round-InLine :
      {k : ℕ} {u : Ptr} (futures : Futures F V) (e : Executor F V) (c : Option Ptr × Executor F V)
      → ((n : ℕ) (t : Ptr) → (t == u) ≡ false → AreLeavingBe u (futures n t).actions)
      → Chosen e c
      → InLine (suc k) u e
      → (c.0 ≡ some u) ⊎ InLine k u (round kernel futures c).0
  unfolding round
  round-InLine {k} {u} futures e (some t, e') s (p, n) w = elim (Bool-cases (t == u)) [
    | inl same ↦ inl (ap some ((==_iff t u).0 same))
    | inr ne ↦ inr (
        after_task-InLine (run_task kernel futures t e').shutdown (run_task kernel futures t e')
          (run_task-InLine futures t e' ne (s e'.polls t ne) (next-InLine p n ne w)))
  ]
  round-InLine {k} {u} futures e (none, e') s (h, _, _, _) w =
      absurd (let i : mem u [] ≡ true = subst (λ ts. mem u ts ≡ true) h w.stands in cc)

  -- With nobody before it, `u` is next.
  first-InLine :
      {u : Ptr} (e : Executor F V) (c : Option Ptr × Executor F V)
      → Chosen e c
      → InLine zero u e
      → c.0 ≡ some u
  first-InLine {u} e (some t, e') (p, n) w = ap some ((==_iff t u).0 (front p n w))
  first-InLine {u} e (none, e') (h, _, _, _) w =
      absurd (let i : mem u [] ≡ true = subst (λ ts. mem u ts ≡ true) h w.stands in cc)

  -- A task that waits in the run queue of high priority with at most `k` tasks before it is chosen
  -- in the first `k + 1` rounds of the loops of `run`, if these do not end before, whatever the other
  -- tasks do, where no events arrive, and neither a wake nor an abort of the task comes meanwhile.
  pub rounds-served :
      (k : ℕ) (u : Ptr) (futures : Futures F V) (e : Executor F V)
      → ((n : ℕ) (t : Ptr) → (t == u) ≡ false → AreLeavingBe u (futures n t).actions)
      → InLine k u e
      → (j : ℕ) × (j ≤ k)
        × ((highest_priority_runnable_task (rounds kernel j futures e)).0 ≡ some u)
  rounds-served zero u futures e s w =
      (0, omega arith, first-InLine e _ (highest_priority_runnable_task-Chosen e) w)
  rounds-served (suc k) u futures e s w =
      let c = highest_priority_runnable_task e in
      elim (round-InLine futures e c s (highest_priority_runnable_task-Chosen e) w) [
        | inl chosen ↦ (0, omega arith, chosen)
        | inr nearer ↦
            let rest = rounds-served k u futures (round kernel futures c).0 s nearer in
            (suc rest.0, omega (arith, rest.1), rest.2)
      ]
