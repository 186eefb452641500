-- ===== src/Queue/Refine.antt =====
-- The whole of src/queue.rs against its abstract view, over sequences of calls.
use epox.Base.{
  ◌∙◌, ◌⊎◌, ◌+◌, ◌-◌, ◌<◌, ◌≡◌, refl, sym, Bool, true, false, List, [], ◌∷◌, arith, ◌==◌,
  if◌then◌else◌, update, mem, Option, none, some, Bool-cases, inl, inr, ltb,
}
use epox.Queue.{Heap, Cmd, pure, ◌>>=◌, ◌>>◌, init, new, new_entry, push, pop, release, drop_ref}
use epox.Queue.Links.{Ptr, null}
use epox.Queue.Model.{Model, Represents}
use epox.Queue.Push.{pushed, push-pushed, drop_ref-Represents}
use epox.Queue.Pop.{popped, pop-popped}
use epox.Queue.Release.{released, release-released}
use epox.Queue.Create.{
  opened, entered, IsFresh, init-opened, new_entry-Represents, empty_heap, empty_model,
  empty-Represents,
}

-- What the owners of queues and Arcs do. An address is chosen by whoever pins or allocates.
pub data Call : Type 0 where
  opens : Ptr → Call
  allocates : Ptr → Call
  pushes : Ptr → Ptr → Call
  pops : Ptr → Call
  releases : Ptr → Call
  clones : Ptr → Call
  drops : Ptr → Call

-- `Arc::clone` through a pointer.
unfoldable pub clone_ref : Ptr → Cmd (Unit {0})
clone_ref e h =
    if ltb 0 (h.strong e)
    then some (tt, record h { strong = update h.strong e (h.strong e + 1) })
    else none

-- One call on the pointers. Only `pop` returns something.
unfoldable pub call : Call → Cmd (Option Ptr)
call (opens q) h = (init q >> pure none) (new q h)
call (allocates e) h = some (none, new_entry e h)
call (pushes q e) h = (push q e >> pure none) h
call (pops q) h = pop q h
call (releases e) h = (release e >> pure none) h
call (clones e) h = (clone_ref e >> pure none) h
call (drops e) h = (drop_ref e >> pure none) h

unfoldable pub calls : List Call → Cmd (List (Option Ptr))
calls [] = pure []
calls (c ∷ cs) = do o ← call c; os ← calls cs; pure (o ∷ os)

-- The abstract view: the lists and the callers' Arcs, and which addresses are heads.
pub record Spec : Type 0 where
  pub model : Model
  pub open model use *
  pub heads : Ptr → Bool

abbrev pub spec_call : Call → Spec → Option Ptr × Spec
spec_call (opens q) s = (none, record { model = opened q s.model; heads = update s.heads q true })
spec_call (allocates e) s = (none, record s { model = entered e s.model })
spec_call (pushes q e) s = (none, record s { model = pushed q e s.model })
spec_call (pops q) s = ((popped q s.model).0, record s { model = (popped q s.model).1 })
spec_call (releases e) s = (none, record s { model = released e s.model })
spec_call (clones e) s = (
  none,
  record s { model = record { contents = s.contents; refs = update s.refs e (s.refs e + 1) } },
)
spec_call (drops e) s = (
  none,
  record s { model = record { contents = s.contents; refs = update s.refs e (s.refs e - 1) } },
)

abbrev pub spec_calls : List Call → Spec → List (Option Ptr) × Spec
spec_calls [] s = ([], s)
spec_calls (c ∷ cs) s =
    let r = spec_call c s in let rest = spec_calls cs r.1 in (r.0 ∷ rest.0, rest.1)

-- The address holds no head, no Arc and no entry.
abbrev pub IsUnused : Spec → Ptr → Type 0
IsUnused s a =
    (s.heads a ≡ false)
    × (s.refs a ≡ 0)
    × ((q : Ptr) → s.heads q ≡ true → mem a (s.contents q) ≡ false)
    × ((a == null) ≡ false)

-- The caller holds an Arc of the entry.
abbrev pub IsHeld : Spec → Ptr → Type 0
IsHeld s e = (s.heads e ≡ false) × (0 < s.refs e)

-- What the types of Rust, and `unsafe` at `new` and `init`, ask of a caller.
abbrev pub IsAllowed : Call → Spec → Type 0
IsAllowed (opens q) s = IsUnused s q
IsAllowed (allocates e) s = IsUnused s e
IsAllowed (pushes q e) s = (s.heads q ≡ true) × IsHeld s e
IsAllowed (pops q) s = s.heads q ≡ true
IsAllowed (releases e) s = IsHeld s e
IsAllowed (clones e) s = IsHeld s e
IsAllowed (drops e) s = IsHeld s e

abbrev pub AreAllowed : List Call → Spec → Type 0
AreAllowed [] s = Unit {0}
AreAllowed (c ∷ cs) s = IsAllowed c s × AreAllowed cs (spec_call c s).1

pub record Refines (s : Spec) (h : Heap) : Type 0 where
  pub represents : Represents s.model h
  pub heads_pinned : (a : Ptr) → h.pinned a ≡ s.heads a

unused-IsFresh : {s : Spec} {h : Heap} (a : Ptr) → Refines s h → IsUnused s a → IsFresh h a
unused-IsFresh {s} {h} a v (head, refs, absent, nonnull) =
    let u : h.pinned a ≡ false = v.heads_pinned a ∙ head in
    (u, unlisted u (Bool-cases (h.prev a == null)), nonnull)
  where
    unlisted :
        h.pinned a ≡ false
        → ((h.prev a == null) ≡ true) ⊎ ((h.prev a == null) ≡ false)
        → h.strong a ≡ 0
    unlisted u (inl idle) = ground (arith, v.represents.counted a u)
    unlisted u (inr b) =
        let (q, p, i) = v.represents.queued a u b in cc (absent q (sym (v.heads_pinned q) ∙ p))

clone_ref-Refines :
    {m : Model} {h : Heap} (e : Ptr)
    → Represents m h
    → h.pinned e ≡ false
    → 0 < m.refs e
    → (h' : Heap) × (clone_ref e h ≡ some (tt, h'))
      × Represents (record m { refs = update m.refs e (m.refs e + 1) }) h'
      × (h'.pinned ≡ h.pinned)
unfolding clone_ref
clone_ref-Refines {m} {h} e v u held =
    let some_left : ltb 0 (h.strong e) ≡ true = ground (arith, v.counted e u) in
    (
      record h { strong = update h.strong e (h.strong e + 1) },
      rw some_left,
      record {
        null_unpinned = v.null_unpinned;
        null_dead = ground (arith, v.null_dead);
        ring = v.ring;
        distinct = v.distinct;
        unpinned = v.unpinned;
        nonnull = v.nonnull;
        apart = v.apart;
        queued = v.queued;
        counted = λ x ux. ground (arith, v.counted x ux);
      },
      refl,
    )

call-Refines :
    (c : Call) (s : Spec) (h : Heap)
    → Refines s h
    → IsAllowed c s
    → (h' : Heap) × (call c h ≡ some ((spec_call c s).0, h')) × Refines (spec_call c s).1 h'
unfolding call
call-Refines (opens q) s h v a =
    let (h', run, v', pin) = init-opened v.represents q (unused-IsFresh q v a) in
    (
      h',
      rw run,
      record { represents = v'; heads_pinned = λ x. rw pin (ground (arith, v.heads_pinned x)) },
    )
call-Refines (allocates e) s h v a = (
  new_entry e h,
  refl,
  record {
    represents = new_entry-Represents v.represents e (unused-IsFresh e v a);
    heads_pinned = unfold new_entry in v.heads_pinned;
  },
)
call-Refines (pushes q e) s h v a =
    let (h', run, v', pin) =
      push-pushed s.model h q e v.represents (v.heads_pinned q ∙ a.0) (v.heads_pinned e ∙ a.1.0)
        a.1.1 in
    (h', rw run, record { represents = v'; heads_pinned = λ x. rw pin (v.heads_pinned x) })
call-Refines (pops q) s h v a =
    let (h', run, v', pin) = pop-popped s.model h q v.represents (v.heads_pinned q ∙ a) in
    (h', run, record { represents = v'; heads_pinned = λ x. rw pin (v.heads_pinned x) })
call-Refines (releases e) s h v a =
    let (h', run, v', pin) =
      release-released s.model h e v.represents (v.heads_pinned e ∙ a.0) a.1 in
    (h', rw run, record { represents = v'; heads_pinned = λ x. rw pin (v.heads_pinned x) })
call-Refines (clones e) s h v a =
    let (h', run, v', pin) = clone_ref-Refines e v.represents (v.heads_pinned e ∙ a.0) a.1 in
    (h', rw run, record { represents = v'; heads_pinned = λ x. rw pin (v.heads_pinned x) })
call-Refines (drops e) s h v a =
    let (h', run, v', pin, _) = drop_ref-Represents v.represents e (v.heads_pinned e ∙ a.0) a.1 in
    (h', rw run, record { represents = v'; heads_pinned = λ x. rw pin (v.heads_pinned x) })

calls-Refines :
    (cs : List Call) (s : Spec) (h : Heap)
    → Refines s h
    → AreAllowed cs s
    → (h' : Heap) × (calls cs h ≡ some ((spec_calls cs s).0, h')) × Refines (spec_calls cs s).1 h'
unfolding calls
calls-Refines [] s h v a = (h, refl, v)
calls-Refines (c ∷ cs) s h v a =
    let (h1, run1, v1) = call-Refines c s h v a.0 in
    let (h2, run2, v2) = calls-Refines cs _ h1 v1 a.1 in (h2, rw (run1, run2), v2)

abbrev pub empty_spec : Spec
empty_spec = record { model = empty_model; heads = λ _. false }

-- Any sequence of calls in which a queue or an entry is made at an unused address, a call on a queue
-- names one that was initialised, and an Arc that is passed is held by the caller, runs without an
-- access through a null or dangling pointer. What the pops return, the lists, the links and the
-- counts of the Arcs are those of the abstract view.
pub calls-spec_calls :
    (cs : List Call)
    → AreAllowed cs empty_spec
    → (h : Heap) × (calls cs empty_heap ≡ some ((spec_calls cs empty_spec).0, h))
      × Refines (spec_calls cs empty_spec).1 h
calls-spec_calls cs a =
    calls-Refines cs empty_spec empty_heap
      (record { represents = empty-Represents; heads_pinned = λ x. refl }) a
