-- ===== src/Deps/PortablePty.antt =====
-- The crates `portable_pty` and `libc`: what they hold of a terminal, and the calls the agent makes
-- on it. A call takes the state of the system to an answer, none for an error, and the next state.
use ktty.Base.{ℕ, Text, Bytes, Option}

pub record PtySize : Type 0 where
  pub rows : ℕ
  pub cols : ℕ
  pub pixel_width : ℕ
  pub pixel_height : ℕ

-- `CommandBuilder`
pub record Command : Type 0 where
  pub program : Text
  pub arg : Text
  pub env : Text × Text

pub record PortablePty : Type 1 where
  pub System : Type 0
  pub Master : Type 0
  pub Slave : Type 0
  pub Reader : Type 0
  pub Writer : Type 0
  pub Child : Type 0
  pub openpty : PtySize → System → Option (Master × Slave) × System
  pub spawn_command : Slave → Command → System → Option Child × System
  pub drop_slave : Slave → System → System
  pub try_clone_reader : Master → System → Option Reader × System
  pub take_writer : Master → System → Option Writer × System
  pub resize : Master → PtySize → System → Option (Unit {0}) × System
  pub write_all : Writer → Bytes → System → Option (Unit {0}) × System
  pub flush : Writer → System → Option (Unit {0}) × System
  pub read : Reader → ℕ → System → Option Bytes × System
  pub kill : Child → System → System
  pub process_id : Child → System → Option ℕ
  -- `libc::kill(-(pid as i32), SIGKILL)`, by the pid
  pub kill_group : ℕ → System → System
