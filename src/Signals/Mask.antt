-- ===== src/Signals/Mask.antt =====
-- The signal mask of the thread after `AsyncSignal::new` and its drop.
use epox.Base.{
  ℕ, ◌≡◌, refl, Bool, true, false, ◌||◌, ◌&&◌, List, [], ◌∷◌, mem, arith, Bool-cases, inl, inr,
  ==_iff,
}
use epox.Queue.Links.{Ptr}
use epox.Flags.{Flags}
use epox.Waker.{Result, ok, err}
use epox.Executor.{Executor}
use epox.Executor.Events.{Status, fine, fails}
use epox.Executor.Register.{Setup, new_fd}
use epox.Signals.{
  Masks, SignalError, unregistered, Answers, Opening, any_blocked, drop_signal, opened_fd,
  block_signals, unless_blocked, check_mask, new_signal,
}

module _ {M : Type 0} ⦃masks : Masks M⦄ where
  abbrev pub MaskAfter : List ℕ → M → Result (Unit {0}) SignalError → M → Type 0
  MaskAfter ss m (ok u) m' = (s : ℕ) → masks.contains (drop_signal ss m') s ≡ masks.contains m s
  MaskAfter ss m (err (unregistered n)) m' =
      (s : ℕ) → masks.contains m' s ≡ (masks.contains m s || (mem s ss && masks.can_block s))
  MaskAfter ss m (err x) m' = m' ≡ m

  unblocked :
      (ss : List ℕ) (m : M) (s : ℕ)
      → any_blocked m ss ≡ false
      → mem s ss ≡ true
      → masks.contains m s ≡ false
  unfolding any_blocked
  unblocked [] m s none_blocked i = cc
  unblocked (t ∷ ss) m s none_blocked i = grind (arith, unblocked ss m s, ==_iff t s, ==_iff s t)

  drop_signal-block :
      (ss : List ℕ) (m : M) (s : ℕ)
      → any_blocked m ss ≡ false
      → masks.contains (drop_signal ss (masks.block ss m)) s ≡ masks.contains m s
  unfolding drop_signal
  drop_signal-block ss m s none_blocked = elim (Bool-cases (mem s ss)) [
    | inl i ↦ ground (
      arith,
      masks.contains-unblock ss (masks.block ss m) s,
      masks.contains-block ss m s,
      i,
      unblocked ss m s none_blocked i,
    )
    | inr o ↦
        ground
          (arith, masks.contains-unblock ss (masks.block ss m) s, masks.contains-block ss m s, o)
  ]

module _ {M F V : Type 0} ⦃masks : Masks M⦄ ⦃flags : Flags F⦄ where
  abbrev pub HasMask : List ℕ → M → Opening M F V → Type 0
  HasMask ss m o = MaskAfter ss m o.answer o.mask

  opened_fd-HasMask :
      (ss : List ℕ) (m : M) (r : Executor F V × Status)
      → any_blocked m ss ≡ false
      → HasMask ss m (opened_fd (masks.block ss m) r)
  unfolding opened_fd
  opened_fd-HasMask ss m (e, fine) b = λ s. drop_signal-block ss m s b
  opened_fd-HasMask ss m (e, fails n) b = masks.contains-block ss m

  unless_blocked-HasMask :
      (key : Ptr) (ss : List ℕ) (setup : Setup) (a : Answers) (b : Bool) (m : M) (e : Executor F V)
      → any_blocked m ss ≡ b
      → HasMask ss m (unless_blocked key ss setup a b m e)
  unfolding unless_blocked
  unless_blocked-HasMask key ss setup a true m e b = refl
  unless_blocked-HasMask key ss setup a false m e b = makes a.make_fd a.set_mask
    where
      makes : (make set : Status) → HasMask ss m (block_signals key ss setup set make m e)
      makes fine fine = opened_fd-HasMask ss m (new_fd key flags.input setup e) b
      makes fine (fails n) = refl
      makes (fails n) set = refl

  -- When `AsyncSignal::new` succeeds, the drop of its value gives the thread the mask that it had. When
  -- it fails the mask is as before, except when `Fd::new` fails at the end: then the signals of the
  -- set that can be blocked stay blocked.
  pub new_signal-HasMask :
      (key : Ptr) (ss : List ℕ) (setup : Setup) (a : Answers) (m : M) (e : Executor F V)
      → HasMask ss m (new_signal key ss setup a m e)
  unfolding new_signal check_mask
  new_signal-HasMask key [] setup a m e = refl
  new_signal-HasMask key (s ∷ ss) setup a m e = reads a.get_mask
    where
      reads : (get : Status) → HasMask (s ∷ ss) m (check_mask key (s ∷ ss) setup a get m e)
      reads fine = unless_blocked-HasMask key (s ∷ ss) setup a (any_blocked m (s ∷ ss)) m e refl
      reads (fails n) = refl
