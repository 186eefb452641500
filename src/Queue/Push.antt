-- ===== src/Queue/Push.antt =====
-- `Queue::push`: the five pointer writes, the drop of an Arc, and the two after `unqueue`.
use epox.Base.{
  ◌∙◌, ◌-◌, ◌<◌, ◌≡◌, refl, Bool, true, false, [], ◌∷◌, ◌++◌, arith, ltb, ◌==◌, ==_iff, update, mem,
  without, some, mem-append, append-Distinct, Bool-cases, inl, inr,
}
use epox.Queue.{
  Heap, is_live, is_queued, unqueue, link, push, drop_ref, read_next_live, set_prev_live,
  set_next_live,
}
use epox.Queue.Links.{
  Ptr, null, Linked, Linked-frame, next-mem, prev_pushed, next_pushed, pushed-Linked,
}
use epox.Queue.Model.{
  Model, Represents, Represents-ext, head_nonnull, head_absent, prev_nonnull, absent_of_null,
  links_live, rings_apart,
}
use epox.Queue.Unqueue.{taken, is_queued_live, unqueue-taken}

-- The caller's Arc is given up, and `e` is the youngest of `q`.
abbrev pub linked : Ptr → Ptr → Model → Model
linked q e m = record {
  contents = update m.contents q (m.contents q ++ e ∷ []);
  refs = update m.refs e (m.refs e - 1);
}

abbrev written : Ptr → Ptr → Heap → Heap
written q e h = record h {
  prev = prev_pushed h.prev h.next e q;
  next = next_pushed h.prev h.next e q;
}

link-written :
    (h : Heap) (q e : Ptr)
    → is_live h q ≡ true
    → is_live h e ≡ true
    → is_live h (h.next q) ≡ true
    → (e == q) ≡ false
    → link q e h ≡ some (tt, written q e h)
unfolding link
link-written h q e lq le ln ne =
    let h1 : Heap = record h { next = update h.next e (h.next q) } in
    let h2 : Heap = record h1 { prev = update h.prev e q } in
    let h3 : Heap = record h2 { prev = update (update h.prev e q) (h.next q) e } in
    rw (
      read_next_live q h lq,
      set_next_live e h le (h.next q),
      set_prev_live e h1 le q,
      read_next_live q h2 lq,
      ne,
      set_prev_live (h.next q) h2 ln e,
      set_next_live q h3 lq e,
    )

module _ {m : Model} {h : Heap} (v : Represents m h) where
  -- A live entry that is not queued joins a queue.
  module _ (q e : Ptr) (p : h.pinned q ≡ true) (u : h.pinned e ≡ false)
      (idle : (h.prev e == null) ≡ true) (held : 0 < m.refs e) where
    next_in : mem (h.next q) (q ∷ m.contents q) ≡ true
    next_in = next-mem h.prev h.next q (m.contents q) q (v.ring q p)

    written-ring :
        (r : Ptr)
        → h.pinned r ≡ true
        → Linked
            (prev_pushed h.prev h.next e q)
            (next_pushed h.prev h.next e q)
            r
            ((linked q e m).contents r)
            r
    written-ring r s = elim (Bool-cases (q == r)) [
      | inl same ↦
          rw (same, (==_iff q r).0 same)
            (pushed-Linked h.prev h.next e r (m.contents r) r (v.ring r s)
              (ground (arith, absent_of_null v r e s idle)) (v.distinct r s) (head_absent v r r s s)
              (head_absent v r r s s))
      | inr other ↦ rw other (
          Linked-frame h.prev h.next _ _ r (m.contents r) r (v.ring r s)
            (λ x j. ground (arith, next_in, rings_apart v q r x p s, absent_of_null v r e s idle))
            (λ x j. ground (arith, absent_of_null v r e s idle, head_absent v q r p s)))
    ]

    e_nonnull : (e == null) ≡ false
    e_nonnull = ground (arith, v.counted e u, v.null_dead)

    written-queued :
        (x : Ptr)
        → h.pinned x ≡ false
        → ((written q e h).prev x == null) ≡ false
        → (r : Ptr) × (h.pinned r ≡ true) × (mem x ((linked q e m).contents r) ≡ true)
    written-queued x ux bx = elim (Bool-cases (e == x)) [
      | inl same ↦ (q, p, ground (arith, mem-append x (m.contents q) (e ∷ [])))
      | inr other ↦
          let old : (h.prev x == null) ≡ false = ground (arith, next_in, prev_nonnull v q x p) in
          let (r, s, j) = v.queued x ux old in
          (r, s, ground (arith, mem-append x (m.contents q) (e ∷ [])))
    ]

    link-Represents : Represents (linked q e m) (written q e h)
    link-Represents = record {
      null_unpinned = v.null_unpinned;
      null_dead = v.null_dead;
      ring = λ r s. written-ring r s;
      distinct = λ r s. ground (
        arith,
        v.distinct r s,
        append-Distinct e (m.contents q),
        absent_of_null v q e p idle,
        v.distinct q p,
      );
      unpinned = λ r x s j.
          ground (arith, mem-append x (m.contents q) (e ∷ []), v.unpinned r x s, v.unpinned q x p);
      nonnull = λ r x s j. ground (
        arith,
        mem-append x (m.contents q) (e ∷ []),
        v.nonnull r x s,
        v.nonnull q x p,
        e_nonnull,
      );
      apart = λ r s x pr ps i j. ground (
        arith,
        mem-append x (m.contents q) (e ∷ []),
        v.apart r s x pr ps,
        v.apart q s x p ps,
        v.apart r q x pr p,
        absent_of_null v r e pr idle,
        absent_of_null v s e ps idle,
      );
      queued = written-queued;
      counted = λ x ux.
          ground
            (arith, next_in, prev_nonnull v q x p, v.counted x ux, head_nonnull v q p, e_nonnull);
    }

    pub link-linked :
        (link q e h ≡ some (tt, written q e h)) × Represents (linked q e m) (written q e h)
    link-linked = (
      link-written h q e (ground arith) (ground (arith, v.counted e u))
          (links_live v q (h.next q) p next_in) (ground arith),
      link-Represents,
    )

  pub drop_ref-Represents :
      (e : Ptr)
      → h.pinned e ≡ false
      → 0 < m.refs e
      → (h' : Heap) × (drop_ref e h ≡ some (tt, h'))
        × Represents (record m { refs = update m.refs e (m.refs e - 1) }) h'
        × (h'.pinned ≡ h.pinned)
        × (h'.prev ≡ h.prev)
  unfolding drop_ref
  drop_ref-Represents e u held =
      let some_left : ltb 0 (h.strong e) ≡ true = ground (arith, v.counted e u) in
      (
        record h { strong = update h.strong e (h.strong e - 1) },
        rw some_left,
        record {
          null_unpinned = v.null_unpinned;
          null_dead = ground (arith, v.null_dead);
          ring = v.ring;
          distinct = v.distinct;
          unpinned = v.unpinned;
          nonnull = v.nonnull;
          apart = v.apart;
          queued = v.queued;
          counted = λ x ux. ground (arith, v.counted x ux);
        },
        refl,
        refl,
      )

-- `e` moves to the end of `q` from whatever list it was in, and the caller's Arc is given up.
abbrev pub pushed : Ptr → Ptr → Model → Model
pushed q e m = record {
  contents = update (λ r. without e (m.contents r)) q (without e (m.contents q) ++ e ∷ []);
  refs = update m.refs e (m.refs e - 1);
}

push_after_unqueue :
    (m : Model) (h h1 : Heap) (q e : Ptr) (was_queued : Bool)
    → is_queued e h ≡ some (was_queued, h)
    → unqueue e h ≡ some (tt, h1)
    → Represents (taken e was_queued m) h1
    → h1.pinned q ≡ true
    → h1.pinned e ≡ false
    → (h1.prev e == null) ≡ true
    → 0 < m.refs e
    → (h' : Heap) × (push q e h ≡ some (tt, h'))
      × Represents (pushed q e m) h'
      × (h'.pinned ≡ h1.pinned)
unfolding push
push_after_unqueue m h h1 q e false asked run v p u idle held =
    let (run', v') = link-linked v q e p u idle (ground arith) in
    (
      written q e h1,
      rw (asked, run, run'),
      Represents-ext v' (λ r s. refl) (λ x. ground arith),
      refl,
    )
push_after_unqueue m h h1 q e true asked run v p u idle held =
    let (run', v') = link-linked v q e p u idle (ground arith) in
    let (h'', run'', v'', pin'', _) = drop_ref-Represents v' e u (ground arith) in
    (h'', rw (asked, run, run', run''), Represents-ext v'' (λ r s. refl) (λ x. ground arith), pin'')

-- `Queue::push` of an Arc that the caller holds does not fault, and moves the entry to the end of
-- the queue from whatever list it was in. The count of the Arc is the callers' plus one for the
-- list, whether or not the entry was queued.
pub push-pushed :
    (m : Model) (h : Heap) (q e : Ptr)
    → Represents m h
    → h.pinned q ≡ true
    → h.pinned e ≡ false
    → 0 < m.refs e
    → (h' : Heap) × (push q e h ≡ some (tt, h'))
      × Represents (pushed q e m) h'
      × (h'.pinned ≡ h.pinned)
push-pushed m h q e v p u held =
    let live : 0 < h.strong e = ground (arith, v.counted e u) in
    let (h1, run, v1, idle, pin, _) = unqueue-taken v e u live in
    let (h', run', v', pin') =
      push_after_unqueue m h h1 q e _ (is_queued_live e h (ground arith)) run v1 (rw pin p)
        (rw pin u) idle held in
    (h', run', v', pin' ∙ pin)
