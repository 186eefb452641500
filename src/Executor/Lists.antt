-- ===== src/Executor/Lists.antt =====
-- What the operations do to the lists of the run queues of high and normal tasks, where the kernel has
-- no events.
use epox.Base.{
  ℕ, ◌+◌, ◌-◌, ◌≡◌, refl, ap, ◌∙◌, inl, inr, Bool, true, false, some, List, [], ◌∷◌, ◌++◌, ◌==◌,
  ==_iff, arith, Bool-cases, update, mem, without, ltb,
}
use epox.Queue.Links.{Ptr}
use epox.Flags.{Flags}
use epox.Waker.{task}
use epox.Executor.{
  Executor, normal, runq_high, runq_normal, is_alive, cloned, set_cell, enqueue,
  highest_priority_runnable_task,
}
use epox.Executor.Events.{
  events, Kernel, Timeout, now, fine, deliver_all, answered, epoll_wait, wake_here,
}
use epox.Executor.Order.{tasks}
use epox.Executor.Run.{wake_waker}

-- An Arc is cloned and the clone goes to a queue.
put_back :
    (t p : Ptr) (refs : Ptr → ℕ)
    → update (update refs t (refs t + 1)) t (update refs t (refs t + 1) t - 1) p ≡ refs p
put_back t p refs = ground arith

module _ {F V : Type 0} where
  -- A normal task of this executor that has not completed.
  pub record IsReady (t : Ptr) (e : Executor F V) : Type 0 where
    pub normal_priority : (e.cell t).priority ≡ normal
    pub live : (e.cell t).has_completed ≡ false
    pub own : (e.cell t).pipe_wr ≡ e.pipe_wr

  pub record SameTasks (e e' : Executor F V) : Type 0 where
    pub cell : e'.cell ≡ e.cell
    pub pipe_wr : e'.pipe_wr ≡ e.pipe_wr
    pub shutdown : e'.shutdown ≡ e.shutdown

  pub record HasLists (hs ns : List Ptr) (e : Executor F V) : Type 0 where
    pub highs : tasks e runq_high ≡ hs
    pub normals : tasks e runq_normal ≡ ns

  pub alive_normal :
      (t : Ptr) (e : Executor F V) → mem t (tasks e runq_normal) ≡ true → is_alive e t ≡ true
  alive_normal t e i = ground arith

  pub recelled :
      (t b : Ptr) (polling : Bool) (n : ℕ) (e : Executor F V)
      → IsReady t e
      → IsReady t (set_cell b (record (e.cell b) { borrowed = polling }) (record e { polls = n }))
  recelled t b polling n e r = elim (Bool-cases (b == t)) [
    | inl same ↦
        let it = (==_iff b t).0 same in
        record {
          normal_priority = rw (same, it) r.normal_priority;
          live = rw (same, it) r.live;
          own = rw (same, it) r.own;
        }
    | inr other ↦ record {
      normal_priority = rw other r.normal_priority;
      live = rw other r.live;
      own = rw other r.own;
    }
  ]

  pub enqueue_lists :
      (t : Ptr) (hs ns : List Ptr) (e : Executor F V)
      → IsReady t e
      → HasLists hs ns e
      → HasLists (without t hs) (without t ns ++ t ∷ []) (enqueue t e)
        × SameTasks e (enqueue t e)
        × ((p : Ptr) → (enqueue t e).queues.refs p ≡ update e.queues.refs t (e.queues.refs t - 1) p)
  unfolding enqueue
  enqueue_lists t hs ns e r l =
      rw (r.live, r.normal_priority)
        (
          record {
            highs = ap (without t) l.highs;
            normals = ap (λ x. without t x ++ t ∷ []) l.normals;
          },
          record { cell = refl; pipe_wr = refl; shutdown = refl },
          λ p. refl,
        )

  pub chosen :
      (b : Ptr) (rest : List Ptr) (e : Executor F V)
      → HasLists [] (b ∷ rest) e
      → (e' : Executor F V) × (highest_priority_runnable_task e ≡ (some b, e'))
        × HasLists [] rest e'
        × SameTasks e e'
        × (ltb 0 (e'.queues.refs b) ≡ true)
  unfolding highest_priority_runnable_task
  chosen b rest e l =
      let self : (b == b) ≡ true = ground arith in
      (
        record e {
          queues = record {
            contents = update e.queues.contents runq_normal rest;
            refs = update e.queues.refs b (e.queues.refs b + 1);
          };
        },
        rw (l.highs, l.normals) refl,
        record { highs = l.highs; normals = refl },
        record { cell = refl; pipe_wr = refl; shutdown = refl },
        rw self (ground arith),
      )

module _ {F V : Type 0} ⦃flags : Flags F⦄ (kernel : Kernel F)
    (quiet : (n : ℕ) (timeout : Timeout) (room : ℕ)
      → kernel n timeout room ≡ record { answer = events []; arrived = [] }) where
  pub quiet_wait :
      (timeout : Timeout) (e : Executor F V)
      → ((epoll_wait kernel timeout e).0.queues ≡ e.queues)
        × SameTasks e (epoll_wait kernel timeout e).0
        × ((epoll_wait kernel timeout e).1 ≡ fine)
  unfolding epoll_wait answered deliver_all
  quiet_wait timeout e = elim (Bool-cases (e.slots == 0)) [
    | inl b ↦ rw b (refl, record { cell = refl; pipe_wr = refl; shutdown = refl }, refl)
    | inr b ↦
        rw (b, quiet e.waits timeout e.slots)
          (refl, record { cell = refl; pipe_wr = refl; shutdown = refl }, refl)
  ]

  pub same-IsReady : {t : Ptr} {e e' : Executor F V} → SameTasks e e' → IsReady t e → IsReady t e'
  same-IsReady s r = record {
    normal_priority = rw s.cell r.normal_priority;
    live = rw s.cell r.live;
    own = rw (s.cell, s.pipe_wr) r.own;
  }

  -- A wake of a task of this executor, by itself or not, puts it behind the others.
  pub wake_lists :
      (t : Ptr) (hs ns : List Ptr) (e : Executor F V)
      → IsReady t e
      → is_alive e t ≡ true
      → HasLists hs ns e
      → HasLists (without t hs) (without t ns ++ t ∷ []) (wake_waker kernel (task t) e)
        × SameTasks e (wake_waker kernel (task t) e)
        × ((p : Ptr) → (wake_waker kernel (task t) e).queues.refs p ≡ e.queues.refs p)
  unfolding wake_waker wake_here
  wake_lists t hs ns e r alive l =
      let mine : ((e.cell t).pipe_wr == e.pipe_wr) ≡ true = rw r.own (ground arith) in
      elim (Bool-cases (e.cell t).borrowed) [
        | inr other ↦
            let w =
              enqueue_lists t hs ns (cloned t e)
                (record { normal_priority = r.normal_priority; live = r.live; own = r.own })
                (record { highs = l.highs; normals = l.normals }) in
            rw (mine, alive, other)
              (
                w.0,
                record { cell = w.1.cell; pipe_wr = w.1.pipe_wr; shutdown = w.1.shutdown },
                λ p. w.2 p ∙ put_back t p e.queues.refs,
              )
        | inl self ↦
            let q = quiet_wait now (cloned t e) in
            let e1 : Executor F V = (epoll_wait kernel now (cloned t e)).0 in
            let same : SameTasks e e1 = record {
              cell = q.1.cell;
              pipe_wr = q.1.pipe_wr;
              shutdown = q.1.shutdown;
            } in
            let w = enqueue_lists t hs ns e1 (same-IsReady same r) (record {
              highs = ap (λ m. m.contents runq_high) q.0 ∙ l.highs;
              normals = ap (λ m. m.contents runq_normal) q.0 ∙ l.normals;
            }) in
            rw (mine, alive, self)
              (
                w.0,
                record {
                  cell = w.1.cell ∙ same.cell;
                  pipe_wr = w.1.pipe_wr ∙ same.pipe_wr;
                  shutdown = w.1.shutdown ∙ same.shutdown;
                },
                λ p.
                    w.2 p
                    ∙ ap (λ m. update m.refs t (m.refs t - 1) p) q.0
                    ∙ put_back t p e.queues.refs,
              )
      ]
