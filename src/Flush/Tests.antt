-- ===== src/Flush/Tests.antt =====
-- An `fsync` that fails, after two polls.
use epox.Base.{◌≡◌, refl, true, false, none, some, [], ◌∷◌}
use epox.Waker.{noop, task, pending, ready, err}
use epox.Thread.{Closure, returns, running, complete, thread_main}
use epox.Flush.{
  FlushStyle, fsync, Flushed, poll_flush, flush_waits, idle, flushing, poll_flush-returns,
}

abbrev work : FlushStyle → Closure Flushed
work style = returns (err 5)

abbrev five : Flushed
five = err 5

poll_flush-returns_example :
    (poll_flush false work noop (idle fsync) ≡ none)
    × (flush_waits work (task 1 ∷ task 2 ∷ []) (idle fsync)
        ≡ some (flushing fsync (running (task 2))))
    × (thread_main (returns five) (running (task 2)) ≡ some (complete, some (task 2)))
    × (poll_flush false work noop (flushing fsync complete) ≡ some (ready (err 5), idle fsync))
    × (poll_flush true work noop (idle fsync) ≡ some (pending, flushing fsync (running noop)))
poll_flush-returns_example =
    poll_flush-returns work fsync five (task 1 ∷ []) (task 2) noop false refl
