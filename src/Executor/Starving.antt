-- ===== src/Executor/Starving.antt =====
-- A task that is woken again and again while it waits.
use epox.Base.{
  ℕ, zero, suc, ◌≡◌, refl, sym, ap, ◌∙◌, subst, ◌⊎◌, inl, inr, true, false, some, List, [], ◌∷◌,
  ◌==◌, arith, mem, ltb,
}
use epox.Queue.Links.{Ptr}
use epox.Flags.{Flags}
use epox.Waker.{task, pending}
use epox.Executor.{
  Executor, runq_high, runq_normal, is_queued, set_cell, highest_priority_runnable_task,
}
use epox.Executor.Events.{events, Kernel, Timeout, now, Status, fine, fails}
use epox.Executor.Order.{tasks}
use epox.Executor.Run.{
  wakes, Turn, Futures, wake_waker, act, act_all, suspend, finish, run_task, check, after_task,
  round,
}
use epox.Executor.Keeps.{rounds}
use epox.Executor.Lists.{
  IsReady, SameTasks, HasLists, alive_normal, recelled, chosen, same-IsReady, quiet_wait,
  wake_lists,
}

-- The turn of a task that wakes `a` and then yields.
abbrev pub pushes_back : {F V : Type 0} → (a t : Ptr) → Turn F V
pushes_back a t = record { actions = wakes (task a) ∷ wakes (task t) ∷ []; poll = pending }

module _ {F V : Type 0} where
  -- The tasks `b`, `a` and `c` wait, in this order, for `run` to go on.
  pub record Waits (b a c : Ptr) (e : Executor F V) : Type 0 where
    pub high_empty : tasks e runq_high ≡ []
    pub in_order : tasks e runq_normal ≡ b ∷ a ∷ c ∷ []
    pub ready_b : IsReady b e
    pub ready_a : IsReady a e
    pub ready_c : IsReady c e
    pub running : e.shutdown ≡ false

module _ {F V : Type 0} ⦃flags : Flags F⦄ (kernel : Kernel F)
    (quiet : (n : ℕ) (timeout : Timeout) (room : ℕ)
      → kernel n timeout room ≡ record { answer = events []; arrived = [] }) where
  after_popped :
      (b a c : Ptr) (e : Executor F V)
      → (a == b) ≡ false
      → (a == c) ≡ false
      → (b == c) ≡ false
      → HasLists [] (a ∷ c ∷ []) e
      → ltb 0 (e.queues.refs b) ≡ true
      → IsReady b e
      → IsReady a e
      → let e0 : Executor F V =
          set_cell b (record (e.cell b) { borrowed = true }) (record e { polls = suc e.polls }) in
        HasLists [] (c ∷ a ∷ b ∷ []) (act_all kernel (pushes_back {V = V} a b).actions e0)
        × SameTasks e0 (act_all kernel (pushes_back {V = V} a b).actions e0)
  unfolding act_all act
  after_popped b a c e ab ac bc l held rb ra =
      let e0 : Executor F V =
        set_cell b (record (e.cell b) { borrowed = true }) (record e { polls = suc e.polls }) in
      let ready : (t : Ptr) → IsReady t e → IsReady t e0 =
        λ t r. recelled t b true (suc e.polls) e r in
      let w1 =
        wake_lists kernel quiet a [] (a ∷ c ∷ []) e0 (ready a ra)
          (alive_normal a e0 (rw l.normals (ground arith)))
          (record { highs = l.highs; normals = l.normals }) in
      let e1 : Executor F V = wake_waker kernel (task a) e0 in
      let l1 : HasLists [] (c ∷ a ∷ []) e1 = subst (λ ns. HasLists [] ns e1) (ground arith) w1.0 in
      let w2 =
        wake_lists kernel quiet b [] (c ∷ a ∷ []) e1 (same-IsReady kernel quiet w1.1 (ready b rb))
          (rw (w1.2 b, held)) l1 in
      (
        subst (λ ns. HasLists [] ns (wake_waker kernel (task b) e1)) (ground arith) w2.0,
        record {
          cell = w2.1.cell ∙ w1.1.cell;
          pipe_wr = w2.1.pipe_wr ∙ w1.1.pipe_wr;
          shutdown = w2.1.shutdown ∙ w1.1.shutdown;
        },
      )

  suspended :
      (b : Ptr) (ns : List Ptr) (e : Executor F V)
      → HasLists [] ns e
      → mem b ns ≡ true
      → HasLists [] ns (suspend kernel b e)
        × ((t : Ptr) → IsReady t e → IsReady t (suspend kernel b e))
        × ((suspend kernel b e).shutdown ≡ e.shutdown)
  unfolding suspend
  suspended b ns e l i =
      let queued : is_queued (set_cell b (record (e.cell b) { borrowed = false }) e) b ≡ true =
        (let j : mem b (tasks e runq_normal) ≡ true = rw l.normals i in ground arith) in
      rw queued (
        record { highs = l.highs; normals = l.normals },
        λ t r.
            (let k = recelled t b false e.polls e r in
              record { normal_priority = k.normal_priority; live = k.live; own = k.own }),
        refl,
      )

  check_state : (r : Executor F V × Status) → (check kernel r).0 ≡ r.0
  unfolding check
  check_state (e, fine) = refl
  check_state (e, fails n) = refl

  after_round :
      (b a c : Ptr) (e : Executor F V)
      → HasLists [] (b ∷ a ∷ c ∷ []) e
      → IsReady b e
      → IsReady a e
      → IsReady c e
      → e.shutdown ≡ false
      → Waits b a c (after_task kernel e.shutdown e).0
  unfolding after_task
  after_round b a c e l rb ra rc running =
      let q = quiet_wait kernel quiet now e in
      let same = λ (t : Ptr) (r : IsReady t e). same-IsReady kernel quiet q.1 r in
      subst (λ s. Waits b a c (after_task kernel s e).0) (sym running)
        (rw check_state (record {
          high_empty = ap (λ m. m.contents runq_high) q.0 ∙ l.highs;
          in_order = ap (λ m. m.contents runq_normal) q.0 ∙ l.normals;
          ready_b = same b rb;
          ready_a = same a ra;
          ready_c = same c rc;
          running = q.1.shutdown ∙ running;
        }))

  round-Waits :
      (futures : Futures F V) (b a c : Ptr) (e : Executor F V)
      → ((n : ℕ) → futures n b ≡ pushes_back a b)
      → (a == b) ≡ false
      → (a == c) ≡ false
      → (b == c) ≡ false
      → Waits b a c e
      → Waits c a b (round kernel futures (highest_priority_runnable_task e)).0
  unfolding round run_task finish
  round-Waits futures b a c e turn ab ac bc w =
      let n = chosen b (a ∷ c ∷ []) e (record { highs = w.high_empty; normals = w.in_order }) in
      let e1 : Executor F V = n.0 in
      let ready : (t : Ptr) → IsReady t e → IsReady t e1 = λ t r. same-IsReady kernel quiet n.3 r in
      let acted = after_popped b a c e1 ab ac bc n.2 n.4 (ready b w.ready_b) (ready a w.ready_a) in
      let e2 : Executor F V = act_all kernel (pushes_back {V = V} a b).actions (
        set_cell b (record (e1.cell b) { borrowed = true }) (record e1 { polls = suc e1.polls })) in
      let slept = suspended b (c ∷ a ∷ b ∷ []) e2 acted.0 (ground arith) in
      let e3 : Executor F V = suspend kernel b e2 in
      let polled : run_task kernel futures b e1 ≡ e3 = rw (turn e1.polls) refl in
      let still : (t : Ptr) → IsReady t e → IsReady t e3 = λ t r.
        slept.1 t
          (same-IsReady kernel quiet acted.1 (recelled t b true (suc e1.polls) e1 (ready t r))) in
      rw n.1 (
        rw polled (
          after_round c a b e3 slept.0 (still c w.ready_c) (still a w.ready_a) (still b w.ready_b)
            (slept.2 ∙ acted.1.shutdown ∙ n.3.shutdown ∙ w.running)))

  -- A task `a` that waits between two tasks, each of which wakes `a` and yields when it
  -- is polled, is never chosen: after any number of rounds of `run` it still waits, and the next task
  -- is one of the two. The three are normal tasks of this executor that have not completed, no task
  -- of high priority waits, and the kernel has no events.
  pub rounds-starve :
      (n : ℕ) (futures : Futures F V) (b a c : Ptr) (e : Executor F V)
      → ((n : ℕ) → futures n b ≡ pushes_back a b)
      → ((n : ℕ) → futures n c ≡ pushes_back a c)
      → (a == b) ≡ false
      → (a == c) ≡ false
      → (b == c) ≡ false
      → Waits b a c e
      → (mem a (tasks (rounds kernel n futures e) runq_normal) ≡ true)
        × (((highest_priority_runnable_task (rounds kernel n futures e)).0 ≡ some b)
            ⊎ ((highest_priority_runnable_task (rounds kernel n futures e)).0 ≡ some c))
  rounds-starve zero futures b a c e turn_b turn_c ab ac bc w =
      let n = chosen b (a ∷ c ∷ []) e (record { highs = w.high_empty; normals = w.in_order }) in
      (rw w.in_order (ground arith), inl (ap (λ x. x.0) n.1))
  rounds-starve (suc n) futures b a c e turn_b turn_c ab ac bc w =
      let r =
        rounds-starve n futures c a b (round kernel futures (highest_priority_runnable_task e)).0
          turn_c turn_b ac ab (ground arith) (round-Waits futures b a c e turn_b ab ac bc w) in
      (r.0, elim r.1 [ inl x ↦ inr x | inr x ↦ inl x ])
