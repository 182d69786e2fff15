-- ===== src/Acceptor.antt =====
-- src/acceptor.cpp, with accept of src/socket_ops.cpp and src/socket.cpp: the handler that takes a new
-- connection, and the reserve descriptor for the time when there are too many.
pub mod Descriptors
pub mod Reserve
pub mod Setup
mod Tests
use benet.Prelude.{
  ℕ, List, [], ◌∷◌, ◌++◌, Bool, true, false, ◌||◌, ◌==◌, if◌then◌else◌, SysResult, returned, failed,
  Outcome, ok, critical, ◌>>=◌,
}
use Descriptors.{Table, emfile}

-- EAGAIN, ECONNABORTED, EINTR, EPROTO, EPERM and EMFILE of <errno.h>, which `sockets::accept` lets
-- pass.
abbrev pub is_passing : ℕ → Bool
is_passing errno =
    errno == 11
    || (errno == 103 || (errno == 4 || (errno == 71 || (errno == 1 || errno == emfile))))

-- `sockets::accept`, after the system call.
unfoldable pub after_accept : SysResult ℕ → Outcome (SysResult ℕ)
after_accept (returned fd) = ok (returned fd)
after_accept (failed errno) = if is_passing errno then ok (failed errno) else critical

module _ (k : Table) where
  open k use {State, close, accept, open_null}

  -- `handed` are the descriptors given to `on_new_connection_`, if the client bound it.
  pub record Acceptor : Type 0 where
    pub idle_fd : ℕ
    pub new_connection_bound : Bool
    pub descriptors : State
    pub handed : List ℕ

  -- `close` of what `accept` returned; of -1 it does nothing.
  abbrev pub close_result : SysResult ℕ → State → State
  close_result (returned fd) s = close fd s
  close_result (failed errno) s = s

  -- `create_idlefd`
  abbrev pub with_idlefd : Acceptor → SysResult ℕ → State → Outcome Acceptor
  with_idlefd a (returned fd) s = ok (record a { idle_fd = fd; descriptors = s })
  with_idlefd a (failed errno) s = critical

  unfoldable pub close_excessfd_with_idlefd : Acceptor → Outcome Acceptor
  close_excessfd_with_idlefd a =
      let s₁ = close a.idle_fd a.descriptors in
      let accepted = accept s₁ in
      let s₃ = close_result accepted.0 accepted.1 in
      let opened = open_null s₃ in with_idlefd a opened.0 opened.1

  -- The handler, after the system call and its errors.
  abbrev pub take_result : Acceptor → SysResult ℕ → Outcome Acceptor
  take_result a (returned fd) = ok (
      if a.new_connection_bound
      then record a { handed = a.handed ++ fd ∷ [] }
      else record a { descriptors = close fd a.descriptors })
  take_result a (failed errno) =
      let dropped = close_excessfd_with_idlefd a in if errno == emfile then dropped else ok a

  unfoldable pub handle_read : Acceptor → Outcome Acceptor
  handle_read a =
      let accepted = accept a.descriptors in
      after_accept accepted.0 >>= λ r. take_result (record a { descriptors = accepted.1 }) r
