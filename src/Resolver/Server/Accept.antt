-- ===== src/Resolver/Server/Accept.antt =====
-- The loops of `serveUDP` and `serveTCP` in resolver/server.go, which start a goroutine for each
-- datagram or connection until the socket is closed.
use cursedns.Prelude.{List, [], ◌∷◌}
use cursedns.Resolver.Types.{Error}

-- what a read of a socket or an accept returns: one more, the error of a closed socket, another one
pub data Ready (A : Type 0) : Type 0 where
  ready : A → Ready A
  closed : Ready A
  failed : Error → Ready A

-- those that goroutines are started for
unfoldable pub serve_loop : {A : Type 0} → List (Ready A) → List A
serve_loop [] = []
serve_loop (ready a ∷ more) = a ∷ serve_loop more
serve_loop (closed ∷ more) = []
serve_loop (failed e ∷ more) = serve_loop more
