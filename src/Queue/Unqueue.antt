-- ===== src/Queue/Unqueue.antt =====
-- `QueueEntry::unqueue` and `is_queued`.
use epox.Base.{
  sym, ◌+◌, ◌<◌, ◌≡◌, refl, Bool, true, false, not, arith, ◌==◌, if◌then◌else◌, update, mem,
  without, some, mem-without, without-Distinct, without_absent, Bool-cases, inl, inr,
}
use epox.Queue.{
  Heap, is_live, is_queued, unqueue, unlink, read_prev_live, read_next_live, set_prev_live,
  set_next_live,
}
use epox.Queue.Links.{
  Ptr, null, Linked, Linked-frame, neighbours-mem, prev_ne, prev_unlinked, next_unlinked,
  unlinked-Linked,
}
use epox.Queue.Model.{
  Model, Represents, head_nonnull, head_absent, prev_nonnull, absent_of_null, links_live,
  rings_apart, Represents-ext,
}

-- The lists less `e`, and the list's Arc, if there was one, given to the caller.
abbrev pub taken : Ptr → Bool → Model → Model
taken e was_queued m = record {
  contents = λ q. without e (m.contents q);
  refs = update m.refs e (m.refs e + (if was_queued then 1 else 0));
}

abbrev pub unlinked : Ptr → Heap → Heap
unlinked e h = record h {
  prev = prev_unlinked h.prev h.next e;
  next = next_unlinked h.prev h.next e;
}

unlink-unlinked :
    (h : Heap) (e : Ptr)
    → is_live h e ≡ true
    → is_live h (h.prev e) ≡ true
    → is_live h (h.next e) ≡ true
    → (h.prev e == e) ≡ false
    → unlink e h ≡ some (tt, unlinked e h)
unfolding unlink
unlink-unlinked h e le lp ln ne =
    let h' : Heap = record h { next = update h.next (h.prev e) (h.next e) } in
    let h'' : Heap = record h' { prev = update h.prev (h.next e) (h.prev e) } in
    rw (
      read_prev_live e h le,
      read_next_live e h le,
      set_next_live (h.prev e) h lp (h.next e),
      read_next_live e h' le,
      read_prev_live e h' le,
      ne,
      set_prev_live (h.next e) h' ln (h.prev e),
      set_prev_live e h'' le null,
    )

pub is_queued_live :
    (e : Ptr) (h : Heap) → is_live h e ≡ true → is_queued e h ≡ some (not (h.prev e == null), h)
unfolding is_queued
is_queued_live e h le = rw (read_prev_live e h le)

module _ {m : Model} {h : Heap} (v : Represents m h) (e : Ptr) (u : h.pinned e ≡ false) where
  -- A ring without `e` is not touched when `e` is unlinked from another.
  other_ring :
      (q r : Ptr)
      → h.pinned q ≡ true
      → h.pinned r ≡ true
      → mem e (m.contents q) ≡ true
      → mem e (m.contents r) ≡ false
      → Linked (prev_unlinked h.prev h.next e) (next_unlinked h.prev h.next e) r (m.contents r) r
  other_ring q r p s i o =
      let near = neighbours-mem h.prev h.next e q (m.contents q) q (v.ring q p) i in
      Linked-frame h.prev h.next _ _ r (m.contents r) r (v.ring r s)
        (λ x j. ground (arith, near.0, rings_apart v q r x p s))
        (λ x j. ground (arith, near.1, rings_apart v q r x p s))

  unlinked-ring :
      (q r : Ptr)
      → h.pinned q ≡ true
      → h.pinned r ≡ true
      → mem e (m.contents q) ≡ true
      → Linked
          (prev_unlinked h.prev h.next e)
          (next_unlinked h.prev h.next e)
          r
          (without e (m.contents r))
          r
  unlinked-ring q r p s i = elim (Bool-cases (mem e (m.contents r))) [
    | inl here ↦
        unlinked-Linked h.prev h.next e r (m.contents r) r (v.ring r s) here (v.distinct r s)
          (head_absent v r r s s) (head_absent v r r s s)
    | inr away ↦ rw (without_absent e _ away) (other_ring q r p s i away)
  ]

  unlink-Represents : (h.prev e == null) ≡ false → Represents (taken e true m) (unlinked e h)
  unlink-Represents b =
      let (q, p, i) = v.queued e u b in
      let near = neighbours-mem h.prev h.next e q (m.contents q) q (v.ring q p) i in
      record {
        null_unpinned = v.null_unpinned;
        null_dead = v.null_dead;
        ring = λ r s. unlinked-ring q r p s i;
        distinct = λ r s. without-Distinct e (m.contents r) (v.distinct r s);
        unpinned = λ r x s j. ground (arith, mem-without x e (m.contents r), v.unpinned r x s);
        nonnull = λ r x s j. ground (arith, mem-without x e (m.contents r), v.nonnull r x s);
        apart = λ r s x pr ps i j. ground (
          arith,
          mem-without x e (m.contents r),
          mem-without x e (m.contents s),
          v.apart r s x pr ps,
        );
        queued = λ x ux bx.
            let old : (h.prev x == null) ≡ false = ground (arith, near.0, prev_nonnull v q x p) in
            let (r, s, j) = v.queued x ux old in
            (r, s, ground (arith, mem-without x e (m.contents r)));
        counted = λ x ux. ground (
          arith,
          near.0,
          prev_nonnull v q x p,
          v.counted x ux,
          head_nonnull v q p,
          v.nonnull q (h.prev e) p,
        );
      }

  -- `unqueue` of a live entry takes it out of whatever list it is in.
  pub unqueue-taken :
      0 < h.strong e
      → (h' : Heap) × (unqueue e h ≡ some (tt, h'))
        × Represents (taken e (not (h.prev e == null)) m) h'
        × ((h'.prev e == null) ≡ true)
        × (h'.pinned ≡ h.pinned)
        × (h'.strong ≡ h.strong)
  unfolding unqueue
  unqueue-taken s =
      let le : is_live h e ≡ true = ground arith in
      elim (Bool-cases (h.prev e == null)) [
        | inl idle ↦ (
          h,
          rw (is_queued_live e h le, idle),
          Represents-ext v (λ q p. sym (without_absent e _ (absent_of_null v q e p idle)))
              (λ x. ground arith),
          idle,
          refl,
          refl,
        )
        | inr b ↦
            let (q, p, i) = v.queued e u b in
            let near = neighbours-mem h.prev h.next e q (m.contents q) q (v.ring q p) i in
            (
              unlinked e h,
              rw (is_queued_live e h le, b)
                  (unlink-unlinked h e le (links_live v q (h.prev e) p near.1)
                    (links_live v q (h.next e) p near.0)
                    (prev_ne h.prev h.next e q _ q (v.ring q p) i (v.distinct q p)
                      (head_absent v q q p p))),
              rw b (unlink-Represents b),
              ground arith,
              refl,
              refl,
            )
      ]
