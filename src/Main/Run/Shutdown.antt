-- ===== src/Main/Run/Shutdown.antt =====
-- What `run` of main.go leaves open.
use cursedns.Prelude.{List}
use cursedns.Resolver.Server.Listen.{Listener, Sockets, IsClosed}
use cursedns.Main.Run.{Process}

module _ {W : Type 0} (p : Process W) where
  -- no socket of the server is left open, and each that was opened was closed
  abbrev pub IsTidy : Sockets W → Type 0
  IsTidy s = (ls : List Listener) × IsClosed ls s
