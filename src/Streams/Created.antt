-- ===== src/Streams/Created.antt =====
-- What `AsyncWriteFd::new` makes, and how it flushes.
use epox.Base.{ℕ, ◌+◌, ◌≡◌, refl, subst, Bool, true, false, Option, none, some, arith}
use epox.Queue.Links.{Ptr}
use epox.Flags.{Flags}
use epox.Waker.{Waker, pending, ready, Result, ok, err}
use epox.Executor.{Executor}
use epox.Executor.Events.{Status, fine, fails}
use epox.Executor.Register.{Setup, new_fd}
use epox.Executor.Slots.{held, first_failure, new_fd-slots}
use epox.Thread.{Closure, running, poll}
use epox.Flush.{
  FlushStyle, tcdrain, fsync, AsyncWriteFd, Flushed, poll_flush, flush_by, poll_thread,
  answer_flush, flushing,
}
use epox.Streams.{
  Mode, regular, block_device, directory, char_device, other_mode, style_of, writer_of, with_style,
  new_writer,
}

-- Whether a flush has something to wait for, or the error of `fstat` or `isatty`. It has on files,
-- directories, block devices and terminals.
abbrev pub has_flush : Result Mode ℕ → (isatty : Result Bool ℕ) → Result Bool ℕ
has_flush (err n) tty = err n
has_flush (ok regular) tty = ok true
has_flush (ok block_device) tty = ok true
has_flush (ok directory) tty = ok true
has_flush (ok char_device) tty = tty
has_flush (ok other_mode) tty = ok false

-- The first flush of a writer, by whether there is something to wait for.
abbrev pub FirstFlush : (FlushStyle → Closure Flushed) → Waker → Bool → AsyncWriteFd → Type 0
FirstFlush work cx false w = poll_flush true work cx w ≡ some (ready (ok tt), w)
FirstFlush work cx true w =
    (style : FlushStyle) × (poll_flush true work cx w ≡ some (pending, flushing style (running cx)))

module _ {F V : Type 0} (work : FlushStyle → Closure Flushed) (cx : Waker) where
  -- By the end of `Fd::new`, with the slots for events that are held.
  abbrev pub IsMade : Bool → Status → Executor F V → Result AsyncWriteFd ℕ × Executor F V → Type 0
  IsMade waits fine e (ok w, e') = (e'.slots ≡ 1 + e.slots) × FirstFlush work cx waits w
  IsMade waits (fails n) e (err m, e') = (m ≡ n) × (e'.slots ≡ e.slots)
  IsMade waits _ e _ = ⊥

  abbrev pub IsCreated :
      Result Bool ℕ → Setup → Executor F V → Result AsyncWriteFd ℕ × Executor F V → Type 0
  IsCreated (ok waits) setup e r =
      IsMade waits (first_failure setup.get_flags (first_failure setup.set_flags setup.add)) e r
  IsCreated (err n) setup e r = r ≡ (err n, e)

module _ {F V : Type 0} ⦃flags : Flags F⦄ (work : FlushStyle → Closure Flushed) (cx : Waker) where
  writer_of-IsMade :
      (style : Option FlushStyle) (waits : Bool) (e : Executor F V) (r : Executor F V × Status)
      → r.0.slots ≡ held r.1 + e.slots
      → FirstFlush work cx waits (record { flush_handle = none; flush_style = style })
      → IsMade work cx waits r.1 e (writer_of style r)
  unfolding writer_of held
  writer_of-IsMade style waits e (e', fine) s f = (s, f)
  writer_of-IsMade style waits e (e', fails n) s f = (refl, omega (arith, s))

  with_style-IsCreated :
      (key : Ptr) (setup : Setup) (style : Option FlushStyle) (waits : Bool) (e : Executor F V)
      → FirstFlush work cx waits (record { flush_handle = none; flush_style = style })
      → IsCreated work cx (ok waits) setup e (with_style key setup (ok style) e)
  unfolding with_style
  with_style-IsCreated key setup style waits e f =
      let events = flags.union flags.output flags.edge in
      let made = new_fd-slots key events setup e in
      subst (λ x. IsMade work cx waits x e (with_style key setup (ok style) e)) made.0
        (writer_of-IsMade style waits e (new_fd key events setup e) made.1 f)

  -- `AsyncWriteFd::new` answers the first failure of its system calls: of `fstat`, of `isatty`, which
  -- is asked for a character device only, or of `Fd::new`, and takes a slot for events exactly when
  -- none fails. The first flush of the writer that it makes starts a thread, where one can be started,
  -- and waits for it if the descriptor is a file, a directory, a block device or a terminal, and is
  -- `Ready` at once if not.
  pub new_writer-IsCreated :
      (key : Ptr) (stat : Result Mode ℕ) (tty : Result Bool ℕ) (setup : Setup) (e : Executor F V)
      → IsCreated work cx (has_flush stat tty) setup e (new_writer key stat tty setup e)
  unfolding new_writer style_of with_style poll_flush flush_by poll_thread answer_flush poll
  new_writer-IsCreated key (err n) tty setup e = refl
  new_writer-IsCreated key (ok regular) tty setup e =
      with_style-IsCreated key setup (some fsync) true e (fsync, refl)
  new_writer-IsCreated key (ok block_device) tty setup e =
      with_style-IsCreated key setup (some fsync) true e (fsync, refl)
  new_writer-IsCreated key (ok directory) tty setup e =
      with_style-IsCreated key setup (some fsync) true e (fsync, refl)
  new_writer-IsCreated key (ok char_device) (ok true) setup e =
      with_style-IsCreated key setup (some tcdrain) true e (tcdrain, refl)
  new_writer-IsCreated key (ok char_device) (ok false) setup e =
      with_style-IsCreated key setup none false e refl
  new_writer-IsCreated key (ok char_device) (err n) setup e = refl
  new_writer-IsCreated key (ok other_mode) tty setup e =
      with_style-IsCreated key setup none false e refl
