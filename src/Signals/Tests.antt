-- ===== src/Signals/Tests.antt =====
-- Signals 2 and 9 are to be received while signal 10 is blocked, and the registration fails. Signal 9
-- is SIGKILL, which is not blocked.
use epox.Base.{ℕ, ◌≡◌, refl, Bool, false, ◌||◌, ◌&&◌, not, [], ◌∷◌, mem, ◌==◌}
use epox.Flags.{Bits, bits, bits_flags}
use epox.Waker.{noop, err}
use epox.Executor.{Executor, new}
use epox.Executor.Events.{fine, fails}
use epox.Executor.Register.{Setup, new_fd, register, add_or_drop, epoll_add}
use epox.Signals.{
  Masks, Answers, Opening, unregistered, any_blocked, opened_fd, open_fd, block_signals,
  unless_blocked, check_mask, new_signal,
}
use epox.Signals.Mask.{HasMask, new_signal-HasMask}

instance abbrev mask_of_signals : Masks (ℕ → Bool)
mask_of_signals = record {
  contains = λ m s. m s;
  block = λ ss m s. m s || (mem s ss && not (s == 9 || s == 19));
  unblock = λ ss m s. m s && not (mem s ss);
  can_block = λ s. not (s == 9 || s == 19);
  contains-block = λ ss m s. refl;
  contains-unblock = λ ss m s. refl;
}

abbrev ten : ℕ → Bool
ten s = s == 10

abbrev fresh : Executor Bits ℕ
fresh = new 3 (record { waker = noop; events = bits false false false; burst = 0 })

abbrev refuses : Setup
refuses = record { get_flags = fine; set_flags = fine; add = fails 28; undo = fails 2 }

abbrev answers : Answers
answers = record { get_mask = fine; make_fd = fine; set_mask = fine }

abbrev opening : Opening (ℕ → Bool) Bits ℕ
opening = new_signal 20 (2 ∷ 9 ∷ []) refuses answers ten fresh

opening_fails : opening.answer ≡ err (unregistered 28)
unfolding new_signal check_mask unless_blocked block_signals open_fd opened_fd any_blocked new_fd
    register add_or_drop epoll_add
opening_fails = refl

new_signal-HasMask_example : HasMask (2 ∷ 9 ∷ []) ten opening
new_signal-HasMask_example = new_signal-HasMask 20 (2 ∷ 9 ∷ []) refuses answers ten fresh
