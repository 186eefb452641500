-- ===== src/Executor/Tidy.antt =====
-- Every task stands in at most one place of one queue: the sleep queue or that of its priority.
use epox.Base.{
  ==_iff, ◌≡◌, refl, ◌⊎◌, inl, inr, true, false, [], ◌∷◌, arith, ◌==◌, mem, without, Distinct,
  mem-append, mem-without, without-Distinct, append-Distinct, Bool-cases, subst,
}
use epox.Queue.Links.{Ptr}
use epox.Queue.Push.{pushed}
use epox.Executor.{
  Executor, TaskCell, Priority, high, normal, low, runq, sleepq, cloned, set_cell, is_alive,
  allocated, enqueue, sleep, abort, spawn,
}
use epox.Executor.Order.{IsNext}

pub record IsTidy {F V : Type 0} (e : Executor F V) : Type 0 where
  pub distinct : (q : Ptr) → Distinct (e.queues.contents q)
  pub apart :
      (q r t : Ptr)
      → mem t (e.queues.contents q) ≡ true
      → mem t (e.queues.contents r) ≡ true
      → q ≡ r
  pub placed :
      (q t : Ptr)
      → mem t (e.queues.contents q) ≡ true
      → (q ≡ sleepq) ⊎ (q ≡ runq (e.cell t).priority)

module _ {F V : Type 0} where
  pushed-IsTidy :
      (e : Executor F V) (q t : Ptr)
      → IsTidy e
      → (q ≡ sleepq) ⊎ (q ≡ runq (e.cell t).priority)
      → IsTidy (record e { queues = pushed q t e.queues })
  pushed-IsTidy e q t v ok = record {
    distinct = λ r. ground (
      arith,
      without-Distinct t (e.queues.contents r) (v.distinct r),
      append-Distinct t (without t (e.queues.contents r)),
      mem-without t t (e.queues.contents r),
    );
    apart = λ r s x i j. ground (
      arith,
      mem-append x (without t (e.queues.contents q)) (t ∷ []),
      mem-without x t (e.queues.contents q),
      mem-without x t (e.queues.contents r),
      mem-without x t (e.queues.contents s),
      v.apart r s x,
      v.apart q s x,
      v.apart r q x,
    );
    placed = λ r x i. ground (
      arith,
      mem-append x (without t (e.queues.contents q)) (t ∷ []),
      mem-without x t (e.queues.contents q),
      mem-without x t (e.queues.contents r),
      v.placed r x,
      ok,
    );
  }

  pub enqueue-IsTidy : (t : Ptr) (e : Executor F V) → IsTidy e → IsTidy (enqueue t e)
  unfolding enqueue
  enqueue-IsTidy t e v = elim (Bool-cases (e.cell t).has_completed) [
    | inl done ↦ rw done (record { distinct = v.distinct; apart = v.apart; placed = v.placed })
    | inr live ↦ rw live (pushed-IsTidy e _ t v (inr refl))
  ]

  pub sleep-IsTidy : (t : Ptr) (e : Executor F V) → IsTidy e → IsTidy (sleep t e)
  unfolding sleep
  sleep-IsTidy t e v = pushed-IsTidy e sleepq t v (inl refl)

  pub abort-IsTidy : (t : Ptr) (e : Executor F V) → IsTidy e → IsTidy (abort t e)
  unfolding abort
  abort-IsTidy t e v = record {
    distinct = λ r. without-Distinct t (e.queues.contents r) (v.distinct r);
    apart = λ r s x i j. ground (
      arith,
      mem-without x t (e.queues.contents r),
      mem-without x t (e.queues.contents s),
      v.apart r s x,
    );
    placed = λ r x i. ground (arith, mem-without x t (e.queues.contents r), v.placed r x);
  }

  -- A step that moves no task and keeps the priorities.
  pub same-IsTidy :
      {e e' : Executor F V}
      → IsTidy e
      → e'.queues.contents ≡ e.queues.contents
      → ((t : Ptr) → (e'.cell t).priority ≡ (e.cell t).priority)
      → IsTidy e'
  same-IsTidy v c p = record {
    distinct = λ r. rw c (v.distinct r);
    apart = λ r s x. rw c (v.apart r s x);
    placed = λ r x. rw (c, p x) (v.placed r x);
  }

  pub set_cell-IsTidy :
      (t : Ptr) (c : TaskCell V) (e : Executor F V)
      → c.priority ≡ (e.cell t).priority
      → IsTidy e
      → IsTidy (set_cell t c e)
  set_cell-IsTidy t c e same v = same-IsTidy v refl (λ x. ground arith)

  not_queued :
      (e : Executor F V) (a r : Ptr)
      → is_alive e a ≡ false
      → IsTidy e
      → mem a (e.queues.contents r) ≡ false
  not_queued e a r gone v = elim (Bool-cases (mem a (e.queues.contents r))) [
    | inl i ↦ absurd (queued_somewhere (e.cell a).priority (v.placed r a i) i)
    | inr o ↦ o
  ]
    where
      queued_somewhere :
          (p : Priority) → (r ≡ sleepq) ⊎ (r ≡ runq p) → mem a (e.queues.contents r) ≡ true → ⊥
      queued_somewhere high w i = ground arith
      queued_somewhere normal w i = ground arith
      queued_somewhere low w i = ground arith

  pub spawn-IsTidy :
      (a : Ptr) (p : Priority) (e : Executor F V)
      → is_alive e a ≡ false
      → IsTidy e
      → IsTidy (spawn a p e)
  unfolding spawn
  spawn-IsTidy a p e gone v = enqueue-IsTidy a (cloned a (allocated a p e)) (record {
    distinct = v.distinct;
    apart = v.apart;
    placed = λ r x i. ground (arith, v.placed r x, not_queued e a r gone v);
  })

  pub next_mem :
      {t : Ptr} {p : Priority} {e e' : Executor F V} (r x : Ptr)
      → IsNext t p e e'
      → mem x (e'.queues.contents r) ≡ true
      → mem x (e.queues.contents r) ≡ true
  next_mem {t} {p} {e} {e'} r x n i = ground (arith, n.oldest, n.others r)

  pub next-IsTidy :
      {t : Ptr} {p : Priority} {e e' : Executor F V} → IsNext t p e e' → IsTidy e → IsTidy e'
  next-IsTidy {t} {p} {e} {e'} n v = record {
    distinct = λ r. elim (Bool-cases (runq p == r)) [
      | inl same ↦
          let d : Distinct (t ∷ e'.queues.contents (runq p)) =
            subst Distinct n.oldest (v.distinct (runq p)) in
          subst (λ q. Distinct (e'.queues.contents q)) ((==_iff (runq p) r).0 same) d.1
      | inr other ↦ rw (n.others r other) (v.distinct r)
    ];
    apart = λ r s x i j. v.apart r s x (next_mem r x n i) (next_mem s x n j);
    placed = λ r x i. rw n.cells (v.placed r x (next_mem r x n i));
  }
