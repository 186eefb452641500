-- ===== src/Queue/Create.antt =====
-- `Queue::new` and `init`, and `QueueEntry::new` in a new Arc.
use epox.Base.{
  ◌≡◌, refl, true, false, [], ◌∷◌, arith, ◌==◌, ==_iff, update, mem, some, Bool-cases, inl, inr,
}
use epox.Queue.{Heap, is_live, init, new, new_entry, set_prev_live, set_next_live}
use epox.Queue.Links.{Ptr, null, Linked, Linked-frame}
use epox.Queue.Model.{Model, Represents, entry_live}

-- The heap of a program that has made no queue and no Arc, and what it stands for.
abbrev pub empty_heap : Heap
empty_heap = record { prev = λ _. null; next = λ _. null; strong = λ _. 0; pinned = λ _. false }

abbrev pub empty_model : Model
empty_model = record { contents = λ _. []; refs = λ _. 0 }

pub empty-Represents : Represents empty_model empty_heap
empty-Represents = record {
  null_unpinned = refl;
  null_dead = refl;
  ring = λ q p. cc;
  distinct = λ q p. tt;
  unpinned = λ q e p i. cc;
  nonnull = λ q e p i. cc;
  apart = λ q r e p s i j. cc;
  queued = λ e u b. cc;
  counted = λ e u. omega arith;
}

-- The queue `q` with nothing in it.
abbrev pub opened : Ptr → Model → Model
opened q m = record m { contents = update m.contents q [] }

-- An Arc that the caller holds, for an entry that is not queued.
abbrev pub entered : Ptr → Model → Model
entered e m = record m { refs = update m.refs e 1 }

-- Nothing is at the address `a` yet.
abbrev pub IsFresh : Heap → Ptr → Type 0
IsFresh h a = (h.pinned a ≡ false) × (h.strong a ≡ 0) × ((a == null) ≡ false)

module _ {m : Model} {h : Heap} (v : Represents m h) (a : Ptr) (f : IsFresh h a) where
  fresh_absent : (q : Ptr) → h.pinned q ≡ true → mem a (q ∷ m.contents q) ≡ false
  fresh_absent q p = ground (arith, entry_live v q a p)

  -- Writes at a fresh address leave the rings alone.
  fresh-ring :
      (prev next : Ptr → Ptr) (q : Ptr)
      → h.pinned q ≡ true
      → ((x : Ptr) → (a == x) ≡ false → (prev x ≡ h.prev x) × (next x ≡ h.next x))
      → Linked prev next q (m.contents q) q
  fresh-ring prev next q p same =
      Linked-frame h.prev h.next _ _ q (m.contents q) q (v.ring q p)
        (λ x j. (same x (ground (arith, fresh_absent q p))).0)
        (λ x j. (same x (ground (arith, fresh_absent q p))).1)

  pub new_entry-Represents : Represents (entered a m) (new_entry a h)
  unfolding new_entry
  new_entry-Represents = record {
    null_unpinned = v.null_unpinned;
    null_dead = ground (arith, v.null_dead);
    ring = λ q p. fresh-ring _ _ q p (λ x o. ground arith);
    distinct = v.distinct;
    unpinned = v.unpinned;
    nonnull = v.nonnull;
    apart = v.apart;
    queued = λ x ux bx. v.queued x ux (ground arith);
    counted = λ x ux. ground (arith, v.counted x ux);
  }

  abbrev created : Heap
  created = record h {
    prev = update (update h.prev a null) a a;
    next = update (update h.next a null) a a;
    pinned = update h.pinned a true;
  }

  init-created : init a (new a h) ≡ some (tt, created)
  unfolding init new
  init-created =
      let h1 : Heap = new a h in
      let h2 : Heap = record h1 { prev = update h1.prev a a } in
      let live : is_live h1 a ≡ true = ground arith in
      rw (set_prev_live a h1 live a, set_next_live a h2 live a)

  created-Represents : Represents (opened a m) created
  created-Represents = record {
    null_unpinned = ground (arith, v.null_unpinned);
    null_dead = v.null_dead;
    ring = λ q p. elim (Bool-cases (a == q)) [
      | inl same ↦ rw (same, (==_iff a q).0 same) (ground arith)
      | inr other ↦ rw other (fresh-ring _ _ q (ground arith) (λ x o. ground arith))
    ];
    distinct = λ q p. ground (arith, v.distinct q);
    unpinned = λ q e p i. ground (arith, v.unpinned q e, fresh_absent q);
    nonnull = λ q e p i. ground (arith, v.nonnull q e);
    apart = λ q r e p s i j. ground (arith, v.apart q r e);
    queued = λ e u b.
        let (q, p, i) = v.queued e (ground arith) (ground arith) in
        (q, ground arith, ground (arith, f.0));
    counted = λ e u. ground (arith, v.counted e);
  }

  -- `init` of a new queue at a fresh address does not fault, and gives an empty queue.
  pub init-opened :
      (h' : Heap) × (init a (new a h) ≡ some (tt, h'))
      × Represents (opened a m) h'
      × (h'.pinned ≡ update h.pinned a true)
  init-opened = (created, init-created, created-Represents, refl)
