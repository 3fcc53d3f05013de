-- ===== src/Agent/Pty/Whole.antt =====
-- The operations of the whole handle.
use ktty.Base.{ℕ, Bytes, none, some}
use ktty.Deps.PortablePty.{PortablePty}
use ktty.Agent.Pty.{◌>>=◌, done, Io, size_of, PtyHandle}

module _ (T : PortablePty) where
  unfoldable pub resize : PtyHandle T → ℕ → ℕ → Io T (Unit {0})
  resize h cols rows = do _ ← T.resize h.master (size_of T cols rows); done tt

  unfoldable pub write_input : PtyHandle T → Bytes → Io T (Unit {0})
  write_input h bytes = do _ ← T.write_all h.writer bytes; _ ← T.flush h.writer; done tt

  -- The child, and then its group, if the child still has an id.
  unfoldable pub kill_process_group : PtyHandle T → T.System → T.System
  kill_process_group h w =
      let killed = T.kill h.child w in
      elim (T.process_id h.child killed) [ none ↦ killed | some pid ↦ T.kill_group pid killed ]
