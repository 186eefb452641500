-- ===== src/Queue/Tests.antt =====
-- The queue at concrete addresses: heads at 1 and 2, entries at 5 and 6.
use epox.Base.{refl, true, false, List, [], ◌∷◌, arith, none, some, ◌≡◌, Option}
use epox.Queue.{
  Heap, init, new, new_entry, push, pop, drop, is_empty, is_queued, unqueue, unlink, link,
  read_prev, read_next, set_prev, set_next,
}
use epox.Queue.Links.{Ptr}
use epox.Queue.Model.{Model, Represents}
use epox.Queue.Refine.{
  Call, opens, allocates, pushes, pops, clones, calls, call, spec_calls, AreAllowed, Refines,
  empty_spec, calls-spec_calls,
}
use epox.Queue.Release.{emptied, drop-emptied}
use epox.Queue.Create.{empty_heap}

-- Two entries are pushed onto the queue at 1, the older one moves to the queue at 2.
abbrev pub history : List Call
history =
    opens 1
    ∷ opens 2
    ∷ allocates 5
    ∷ allocates 6
    ∷ clones 5
    ∷ clones 5
    ∷ pushes 1 5
    ∷ pushes 1 6
    ∷ pushes 2 5
    ∷ []

abbrev rest : List Call
rest = pops 1 ∷ pops 1 ∷ pops 2 ∷ pops 2 ∷ []

history-AreAllowed : AreAllowed history empty_spec
history-AreAllowed = (
  (refl, refl, λ q p. cc, refl),
  (
    (refl, refl, λ q p. ground arith, refl),
    (
      (refl, refl, λ q p. ground arith, refl),
      (
        (refl, refl, λ q p. ground arith, refl),
        (
          (refl, omega arith),
          (
            (refl, omega arith),
            (
              (refl, (refl, omega arith)),
              ((refl, (refl, omega arith)), ((refl, (refl, omega arith)), tt)),
            ),
          ),
        ),
      ),
    ),
  ),
)

calls-spec_calls_example :
    (h : Heap) × (calls history empty_heap ≡ some ((spec_calls history empty_spec).0, h))
    × Refines (spec_calls history empty_spec).1 h
calls-spec_calls_example = calls-spec_calls history history-AreAllowed

-- The heap after `history`, and what it stands for.
busy : Heap
busy = (calls-spec_calls history history-AreAllowed).0

abbrev listed : Model
listed = (spec_calls history empty_spec).1.model

listed_contents : (listed.contents 1 ≡ 6 ∷ []) × (listed.contents 2 ≡ 5 ∷ [])
listed_contents = (refl, refl)

busy-Represents : Represents listed busy
unfolding busy
busy-Represents = (calls-spec_calls history history-AreAllowed).2.represents

busy_pinned : (busy.pinned 1 ≡ true) × (busy.pinned 5 ≡ false)
unfolding busy
busy_pinned = let f = (calls-spec_calls history history-AreAllowed).2.heads_pinned in (f 1, f 5)

drop-emptied_example :
    (h' : Heap) × (drop 2 1 busy ≡ some (tt, h')) × Represents (emptied 1 listed) h'
drop-emptied_example = drop-emptied listed busy 1 2 busy-Represents busy_pinned.0 (omega arith)

-- The pointers themselves run: two pushes come back in order, and a third pop finds nothing.
abbrev outputs : Option (List (Option Ptr) × Heap) → List (Option Ptr)
outputs none = []
outputs (some (os, h)) = os

fifo :
    outputs (
      calls
        (opens 1
          ∷ allocates 5
          ∷ allocates 6
          ∷ pushes 1 5
          ∷ pushes 1 6
          ∷ pops 1
          ∷ pops 1
          ∷ pops 1
          ∷ [])
        empty_heap)
    ≡ none ∷ none ∷ none ∷ none ∷ none ∷ some 5 ∷ some 6 ∷ none ∷ []
unfolding calls call init new new_entry push pop is_empty is_queued unqueue unlink link read_prev
    read_next set_prev set_next
fifo = refl
