-- ===== src/Streams/Tests.antt =====
-- A writer on a terminal.
use epox.Base.{ℕ, true}
use epox.Flags.{Bits, bits, bits_flags}
use epox.Waker.{noop, task, ok, err}
use epox.Executor.{Executor, new}
use epox.Executor.Events.{fine}
use epox.Executor.Register.{Setup}
use epox.Thread.{Closure, returns}
use epox.Flush.{FlushStyle, Flushed}
use epox.Streams.{char_device, new_writer}
use epox.Streams.Created.{IsCreated, new_writer-IsCreated}
use epox.Base.{false}

abbrev work : FlushStyle → Closure Flushed
work style = returns (err 5)

abbrev fresh : Executor Bits ℕ
fresh = new 3 (record { waker = noop; events = bits false false false; burst = 0 })

abbrev setup : Setup
setup = record { get_flags = fine; set_flags = fine; add = fine; undo = fine }

new_writer-IsCreated_example :
    IsCreated work
      (task 5)
      (ok true)
      setup
      fresh
      (new_writer 20 (ok char_device) (ok true) setup fresh)
new_writer-IsCreated_example =
    new_writer-IsCreated work (task 5) 20 (ok char_device) (ok true) setup fresh
