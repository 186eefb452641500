-- ===== src/Queue/Release.antt =====
-- `Queue::release` and the loop of `Queue::drop`.
use epox.Base.{
  subst, sym, ◌∙◌, ◌-◌, ◌<◌, ◌≡◌, refl, true, false, not, List, [], ◌∷◌, arith, ◌==◌, update,
  without, some, Bool-cases, inl, inr, ℕ, zero, suc, length,
}
use epox.Queue.{Heap, is_live, is_queued, unqueue, drop_ref, release, drop_loop, drop}
use epox.Queue.Links.{Ptr, null}
use epox.Queue.Model.{Model, Represents, Represents-ext}
use epox.Queue.Unqueue.{taken, is_queued_live, unqueue-taken}
use epox.Queue.Push.{drop_ref-Represents}
use epox.Queue.Pop.{pop_run_empty, prev_end, first_mem, pop-first}

-- `e` is in no list, and the caller's Arc is dropped.
abbrev pub released : Ptr → Model → Model
released e m = record {
  contents = λ q. without e (m.contents q);
  refs = update m.refs e (m.refs e - 1);
}

release_run :
    (h h1 h2 h3 : Heap) (e : Ptr)
    → is_queued e h ≡ some (true, h)
    → drop_ref e h ≡ some (tt, h1)
    → unqueue e h1 ≡ some (tt, h2)
    → drop_ref e h2 ≡ some (tt, h3)
    → release e h ≡ some (tt, h3)
unfolding release
release_run h h1 h2 h3 e asked run1 run2 run3 = rw (asked, run1, run2, run3)

release_run_idle :
    (h h1 h2 : Heap) (e : Ptr)
    → is_queued e h ≡ some (false, h)
    → unqueue e h ≡ some (tt, h1)
    → drop_ref e h1 ≡ some (tt, h2)
    → release e h ≡ some (tt, h2)
unfolding release
release_run_idle h h1 h2 e asked run1 run2 = rw (asked, run1, run2)

-- `Queue::release` of an Arc that the caller holds does not fault. It takes the entry off whatever
-- list it was in, drops the list's Arc if there was one, and drops the caller's.
pub release-released :
    (m : Model) (h : Heap) (e : Ptr)
    → Represents m h
    → h.pinned e ≡ false
    → 0 < m.refs e
    → (h' : Heap) × (release e h ≡ some (tt, h'))
      × Represents (released e m) h'
      × (h'.pinned ≡ h.pinned)
release-released m h e v u held =
    let live : is_live h e ≡ true = ground (arith, v.counted e u) in
    elim (Bool-cases (h.prev e == null)) [
      | inl idle ↦
          let (h1, run1, v1, _, pin1, _) = unqueue-taken v e u (ground (arith, v.counted e u)) in
          let w : Represents (taken e false m) h1 =
            subst (λ b. Represents (taken e (not b) m) h1) idle v1 in
          let (h2, run2, v2, pin2, _) = drop_ref-Represents w e (rw pin1 u) (ground arith) in
          (
            h2,
            release_run_idle h h1 h2 e
                (subst (λ b. is_queued e h ≡ some (not b, h)) idle (is_queued_live e h live)) run1
                run2,
            Represents-ext v2 (λ r s. refl) (λ x. ground arith),
            pin2 ∙ pin1,
          )
      | inr b ↦
          let (h1, run1, v1, pin1, prev1) = drop_ref-Represents v e u held in
          let u1 : h1.pinned e ≡ false = rw pin1 u in
          let b1 : (h1.prev e == null) ≡ false = rw prev1 b in
          let (h2, run2, v2, _, pin2, _) =
            unqueue-taken v1 e u1 (ground (arith, v1.counted e u1)) in
          let w : Represents (taken e true (record m { refs = update m.refs e (m.refs e - 1) }))
              h2 =
            subst
              (λ c.
                Represents (taken e (not c) (record m { refs = update m.refs e (m.refs e - 1) }))
                  h2)
              b1 v2 in
          let (h3, run3, v3, pin3, _) =
            drop_ref-Represents w e (subst (λ f. f e ≡ false) (sym pin2) u1) (ground arith) in
          (
            h3,
            release_run h h1 h2 h3 e
                (subst (λ c. is_queued e h ≡ some (not c, h)) b (is_queued_live e h live)) run1 run2
                run3,
            Represents-ext v3 (λ r s. refl) (λ x. ground arith),
            pin3 ∙ pin2 ∙ pin1,
          )
    ]

-- Every entry of `q` is taken off, and its Arc dropped.
abbrev pub emptied : Ptr → Model → Model
emptied q m = record m { contents = update m.contents q [] }

drop_loop-emptied :
    (k : ℕ) (xs : List Ptr) (m : Model) (h : Heap) (q : Ptr)
    → Represents m h
    → h.pinned q ≡ true
    → m.contents q ≡ xs
    → length xs < k
    → (h' : Heap) × (drop_loop k q h ≡ some (tt, h')) × Represents (emptied q m) h'
unfolding drop_loop
drop_loop-emptied zero xs m h q v p e fuel = absurd (omega arith)
drop_loop-emptied (suc k) [] m h q v p e fuel =
    let t : (q == q) ≡ true = ground arith in
    (
      h,
      rw (pop_run_empty h q (ground arith) (prev_end v q p e)),
      Represents-ext v (λ r s. ground arith) (λ x. refl),
    )
drop_loop-emptied (suc k) (x ∷ xs) m h q v p e fuel =
    let (h1, run1, v1, pin1) = pop-first v q p x xs e in
    let u : h1.pinned x ≡ false = rw pin1 (v.unpinned q x p (first_mem v q p x xs e)) in
    let (h2, run2, v2, pin2, _) = drop_ref-Represents v1 x u (ground arith) in
    let (h3, run3, v3) =
      drop_loop-emptied k xs _ h2 q v2 (rw (pin2 ∙ pin1) p) (ground arith) (omega arith) in
    (h3, rw (run1, run2, run3), Represents-ext v3 (λ r s. ground arith) (λ y. ground arith))

-- `Queue::drop` of an initialised queue with fuel for one more round than it has entries does not
-- fault. It takes every entry off the list and drops the list's Arcs, and leaves the other queues and
-- the callers' Arcs alone.
pub drop-emptied :
    (m : Model) (h : Heap) (q : Ptr) (fuel : ℕ)
    → Represents m h
    → h.pinned q ≡ true
    → length (m.contents q) < fuel
    → (h' : Heap) × (drop fuel q h ≡ some (tt, h')) × Represents (emptied q m) h'
unfolding drop
drop-emptied m h q fuel v p f = drop_loop-emptied fuel (m.contents q) m h q v p refl f
