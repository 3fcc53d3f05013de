-- ===== src/Agent/Pty.antt =====
-- backend/agent/src/pty.rs. An operation takes the state of the system to a result, none for an
-- error, and the next state.
pub mod Whole
pub mod Write
use ktty.Base.{ℕ, Text, Bytes, lit, Option, none, some}
use ktty.Deps.PortablePty.{PtySize, Command, PortablePty}

abbrev pub go_on {ℓ κ} :
    {W : Type 0} {A : Type ℓ} {B : Type κ} → Option A × W → (A → W → Option B × W) → Option B × W
go_on (none, w) f = (none, w)
go_on (some a, w) f = f a w

-- `?`
infixl 5 ◌>>=◌
abbrev pub ◌>>=◌ {ℓ κ} :
    {W : Type 0} {A : Type ℓ} {B : Type κ}
    → (W → Option A × W)
    → (A → W → Option B × W)
    → W
    → Option B × W
◌>>=◌ m f w = go_on (m w) f

abbrev pub done {ℓ} : {W : Type 0} {A : Type ℓ} → A → W → Option A × W
done a w = (some a, w)

module _ (T : PortablePty) where
  pub record PtyHandle : Type 0 where
    pub master : T.Master
    pub reader : T.Reader
    pub writer : T.Writer
    pub child : T.Child

  pub record PtyWriteHandle : Type 0 where
    pub master : T.Master
    pub writer : T.Writer
    pub child : T.Child

  abbrev pub Io : Type 0 → Type 0
  Io A = T.System → Option A × T.System

  abbrev pub size_of : ℕ → ℕ → PtySize
  size_of cols rows = record { rows = rows; cols = cols; pixel_width = 0; pixel_height = 0 }

  unfoldable pub spawn_tmux : ℕ → ℕ → Io PtyHandle
  spawn_tmux cols rows = do
    (master, slave) ← T.openpty (size_of cols rows)
    child ← T.spawn_command slave (record {
      program = lit "bash";
      arg = lit "--login";
      env = (lit "TERM", lit "xterm-256color");
    })
    _ ← λ w. done {0} tt (T.drop_slave slave w)
    reader ← T.try_clone_reader master
    writer ← T.take_writer master
    done (record { master = master; reader = reader; writer = writer; child = child })

  unfoldable pub read_output : PtyHandle → ℕ → Io Bytes
  read_output h size = T.read h.reader size

  -- Also where cloning the reader fails: then it panics, and there is no handle.
  unfoldable pub from_write_handle : PtyWriteHandle → Io PtyHandle
  from_write_handle wh = do
    reader ← T.try_clone_reader wh.master
    done (record { master = wh.master; reader = reader; writer = wh.writer; child = wh.child })

  unfoldable pub take_reader : PtyHandle → T.Reader × PtyWriteHandle
  take_reader h = (h.reader, record { master = h.master; writer = h.writer; child = h.child })
