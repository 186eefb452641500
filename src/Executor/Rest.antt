-- ===== src/Executor/Rest.antt =====
-- The tasks between the polls, and where a poll begins and ends.
use epox.Base.{
  ℕ, suc, ◌≡◌, refl, subst, inl, inr, Bool, true, false, ◌∷◌, ◌==◌, ==_iff, arith, mem, Distinct,
  Bool-cases,
}
use epox.Queue.Links.{Ptr}
use epox.EpollWaker.{EpollWaker}
use epox.Executor.{new, Executor, TaskCell, Priority, runq, set_cell}
use epox.Executor.Order.{tasks, IsNext}
use epox.Executor.Tidy.{IsTidy, next_mem}
use epox.Executor.InLine.{is_of}
use epox.Executor.Clean.{IsClean, fewer-IsClean}
use epox.Executor.Fit.{nobody}

module _ {F V : Type 0} where
  -- No task is polled, and none that has completed stands in a queue.
  abbrev pub IsAtRest : Executor F V → Type 0
  IsAtRest e = IsClean nobody false e

  -- The task `t` is polled.
  abbrev pub InPoll : Ptr → Bool → Executor F V → Type 0
  InPoll t away e = IsClean (λ s. t == s) away e

  -- A task that is chosen has not completed, and stands in no queue then.
  pub next-lives :
      {t : Ptr} {p : Priority} {e e' : Executor F V}
      → IsNext t p e e'
      → IsAtRest e
      → (e.cell t).has_completed ≡ false
  next-lives {t} {p} {e} n v = elim (Bool-cases (e.cell t).has_completed) [
    | inr live ↦ live
    | inl done ↦ absurd (
        let x : mem t (tasks e (runq p)) ≡ true = rw n.oldest (ground arith) in
        let y = v.retired t (runq p) done in cc)
  ]

  pub next-absent :
      {t : Ptr} {p : Priority} {e e' : Executor F V}
      → IsNext t p e e'
      → IsTidy e
      → (q : Ptr) → mem t (tasks e' q) ≡ false
  next-absent {t} {p} {e} {e'} n v q = elim (Bool-cases (runq p == q)) [
    | inl same ↦
        let d : Distinct (t ∷ tasks e' (runq p)) = subst Distinct n.oldest (v.distinct (runq p)) in
        subst (λ r. mem t (tasks e' r) ≡ false) ((==_iff (runq p) q).0 same) d.0
    | inr other ↦ elim (Bool-cases (mem t (tasks e' q))) [
      | inr away ↦ away
      | inl i ↦
          let here : mem t (tasks e (runq p)) ≡ true = rw n.oldest (ground arith) in
          let there : mem t (tasks e q) ≡ true = rw (n.others q other) at i in
          absurd (ground (arith, v.apart (runq p) q t here there, other))
    ]
  ]

  pub next-IsAtRest :
      {t : Ptr} {p : Priority} {e e' : Executor F V} → IsNext t p e e' → IsAtRest e → IsAtRest e'
  next-IsAtRest {t} {p} {e} {e'} n v =
      fewer-IsClean v
        (λ u q o. elim (Bool-cases (mem u (tasks e' q))) [
          | inr away ↦ away
          | inl i ↦ absurd (let x = next_mem q u n i in cc)
        ])
        n.cells

  -- The poll of a task begins.
  pub begun-InPoll :
      (t : Ptr) (away : Bool) (e : Executor F V)
      → (e.cell t).has_completed ≡ false
      → ((q : Ptr) → mem t (tasks e q) ≡ false)
      → IsAtRest e
      → InPoll t away
          (set_cell t (record (e.cell t) { borrowed = true }) (record e { polls = suc e.polls }))
  begun-InPoll t away e live gone v = record {
    retired = λ u q done. v.retired u q (elim (Bool-cases (t == u)) [
      | inl it ↦ subst (λ x. (e.cell x).has_completed ≡ true) ((==_iff t u).0 it) (rw it at done)
      | inr ne ↦ rw ne at done
    ]);
    unborrowed = λ u ne. rw ne (v.unborrowed u refl);
    unwatched = λ u. elim (Bool-cases (t == u)) [
      | inl it ↦
          rw it (
            subst (λ x. is_of x (e.cell t).handle_waker ≡ false) ((==_iff t u).0 it)
              (v.unwatched t))
      | inr ne ↦ rw ne (v.unwatched u)
    ];
    absent = λ u q i.
        subst (λ x. mem x (tasks e q) ≡ false) ((==_iff t u).0 (ground (arith, i))) (gone q);
    running = λ u it. rw it live;
  }

  -- The poll of a task ends, and it has not completed or stands in no queue.
  pub over-IsAtRest :
      (t : Ptr) (away : Bool) (c : TaskCell V) (e : Executor F V)
      → c.borrowed ≡ false
      → c.handle_waker ≡ (e.cell t).handle_waker
      → (c.has_completed ≡ true → away ≡ true)
      → InPoll t away e
      → IsAtRest (set_cell t c e)
  over-IsAtRest t away c e free same gone v = record {
    retired = λ u q done. elim (Bool-cases (t == u)) [
      | inl it ↦ v.absent u q (ground (arith, it, gone (rw it at done)))
      | inr ne ↦ v.retired u q (rw ne at done)
    ];
    unborrowed = λ u i. elim (Bool-cases (t == u)) [
      | inl it ↦ rw it free
      | inr ne ↦ rw ne (v.unborrowed u ne)
    ];
    unwatched = λ u. elim (Bool-cases (t == u)) [
      | inl it ↦
          rw (it, same)
            (subst (λ x. is_of x (e.cell t).handle_waker ≡ false) ((==_iff t u).0 it)
              (v.unwatched t))
      | inr ne ↦ rw ne (v.unwatched u)
    ];
    absent = λ u q i. cc;
    running = λ u i. cc;
  }

pub new-IsAtRest :
    {F V : Type 0} (fd : ℕ) (idle : EpollWaker F) → IsAtRest (new {F = F} {V = V} fd idle)
unfolding new
new-IsAtRest fd idle = record {
  retired = λ t q done. refl;
  unborrowed = λ t i. refl;
  unwatched = λ t. refl;
  absent = λ t q i. refl;
  running = λ t i. cc;
}
