-- ===== src/Streams.antt =====
-- `AsyncReadFd` and `AsyncWriteFd` of src/futures.rs: how they are made, read and written.
--
-- The answers of `fstat` and `isatty` are arguments, and so are `read` and `write`: functions of the
-- descriptor's state to a number of bytes or an error, told apart by its kind, and a new state.
pub mod Created
mod Tests
use epox.Base.{ℕ, Bool, true, false, Option, none, some}
use epox.Queue.Links.{Ptr}
use epox.Flags.{Flags}
use epox.Waker.{Waker, Poll, pending, ready, Result, ok, err}
use epox.EpollWaker.{IoError, EpollWaker}
use epox.Fd.{FdPolled}
use epox.Fd
use epox.Executor.{Executor}
use epox.Executor.Events.{Status, fine, fails}
use epox.Executor.Register.{Setup, new_fd}
use epox.Flush.{FlushStyle, tcdrain, fsync, AsyncWriteFd}

-- `st_mode & S_IFMT`
pub data Mode : Type 0 where
  regular block_device directory char_device other_mode : Mode

-- The match of `AsyncWriteFd::new`, which asks `isatty` for a character device only.
unfoldable pub style_of : Mode → (isatty : Result Bool ℕ) → Result (Option FlushStyle) ℕ
style_of regular tty = ok (some fsync)
style_of block_device tty = ok (some fsync)
style_of directory tty = ok (some fsync)
style_of char_device (ok true) = ok (some tcdrain)
style_of char_device (ok false) = ok none
style_of char_device (err n) = err n
style_of other_mode tty = ok none

module _ {F V : Type 0} ⦃flags : Flags F⦄ where
  -- `AsyncReadFd::new`
  unfoldable pub new_reader : Ptr → Setup → Executor F V → Executor F V × Status
  new_reader key setup e = new_fd key flags.input setup e

  -- The end of `AsyncWriteFd::new`, over the answer of `Fd::new`.
  unfoldable pub writer_of :
      Option FlushStyle → Executor F V × Status → Result AsyncWriteFd ℕ × Executor F V
  writer_of style (e, fine) = (ok (record { flush_handle = none; flush_style = style }), e)
  writer_of style (e, fails n) = (err n, e)

  unfoldable pub with_style :
      Ptr
      → Setup
      → Result (Option FlushStyle) ℕ
      → Executor F V
      → Result AsyncWriteFd ℕ × Executor F V
  unfolding writer_of
  with_style key setup (ok style) e =
      writer_of style (new_fd key (flags.union flags.output flags.edge) setup e)
  with_style key setup (err n) e = (err n, e)

  -- `AsyncWriteFd::new`
  unfoldable pub new_writer :
      Ptr
      → (fstat : Result Mode ℕ) → (isatty : Result Bool ℕ) → Setup
      → Executor F V
      → Result AsyncWriteFd ℕ × Executor F V
  unfolding with_style style_of
  new_writer key (ok mode) tty setup e = with_style key setup (style_of mode tty) e
  new_writer key (err n) tty setup e = (err n, e)

module _ {F S : Type 0} ⦃flags : Flags F⦄ where
  -- `poll_read` and `poll_write`, with `read` or `write` of the caller's buffer.
  unfoldable pub poll_io :
      ℕ → (S → Result ℕ IoError × S) → Waker → EpollWaker F → S → Option (FdPolled F S ℕ)
  poll_io fuel call cx w s = Fd.poll_with fuel (λ s events. call s) cx w s
