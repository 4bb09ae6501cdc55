-- ===== src/Main/Run.antt =====
-- `run` and `main` of main.go, from the flags to the exit code.
pub mod Shutdown
use cursedns.Prelude.{
  ℕ, String, Bool, true, false, ◌≡◌, refl, ap, ◌∙◌, Option, none, some, List, [], ◌∷◌, ◌==◌,
  string_eq, inl, inr, Option-cases, Bool-cases, if◌then◌else◌,
}
use cursedns.Resolver.Types.{Addr, NameServer, Error, listen_http, Result, ok, err}
use cursedns.Resolver.RootHints.{root_hints}
use cursedns.Resolver.Server.Listen.{
  Server, Settings, complete, Listener, Sockets, IsClosed, run-IsClosed,
}
use cursedns.Resolver.Server.Listen
use cursedns.Main.{Flags, Handler, Config, configure, server_of}

-- What the process asks of the system: sockets, the socket of the HTTP server, the error of its
-- context, the wait for the context to end, by a signal, and the wait for the goroutine of the
-- HTTP server.
pub record Process (W : Type 0) : Type 0 where
  pub listen : Listener → W → Option Error × W
  pub listen_tcp : String → W → Option Error × W
  pub ctx_err : W → Option Error
  pub await : W → Error × W
  pub await_http : W → W

-- the error returned, unless the context has ended
unfoldable pub unless_ended : Error → Option Error → Option Error
unless_ended e none = some e
unless_ended e (some _) = none

module _ {W : Type 0} (p : Process W) where
  abbrev pub untouched : W → Sockets W
  untouched w = record { listeners = []; log = []; world = w }

  unfoldable pub listen_with : Result (Settings Handler) → List String → W → Error × Sockets W
  listen_with (err e) addrs w = (e, untouched w)
  listen_with (ok settings) addrs w = Listen.run p.listen p.await addrs w

  -- `ListenAndServe`
  unfoldable pub listen_and_serve :
      List NameServer → Server Handler → List String → W → Error × Sockets W
  listen_and_serve hints server addrs = listen_with (complete hints server addrs) addrs

  -- `httpWG.Wait`
  unfoldable pub wait_http : Option ℕ → Sockets W → Sockets W
  wait_http none s = s
  wait_http (some capacity) s = record s { world = p.await_http s.world }

  unfoldable pub serve : List NameServer → Config → W → Option Error × Sockets W
  serve hints c w =
      let (e, s) = listen_and_serve hints (server_of c) c.listen w in
      let s' = wait_http c.trace_capacity s in (unless_ended e (p.ctx_err s'.world), s')

  -- the HTTP listener, if there is one
  unfoldable pub start_http : String → Option ℕ → W → Option Error × W
  start_http addr none w = (none, w)
  start_http addr (some capacity) w = p.listen_tcp addr w

  unfoldable pub after_http :
      List NameServer → Config → String → Option Error × W → Option Error × Sockets W
  after_http hints c addr (some e, w) = (some (listen_http addr e), untouched w)
  after_http hints c addr (none, w) = serve hints c w

  unfoldable pub with_config :
      List NameServer → String → Result Config → W → Option Error × Sockets W
  with_config hints addr (err e) w = (some e, untouched w)
  with_config hints addr (ok c) w = after_http hints c addr (start_http addr c.trace_capacity w)

  -- `run`
  unfoldable pub run :
      (String → Result Addr) → Result (Unit {0}) → Flags → W → Option Error × Sockets W
  run parse_addr new_client flags =
      with_config root_hints flags.trace_http_listen (configure parse_addr new_client flags)

-- `main`
unfoldable pub exit_code : Option Error → ℕ
exit_code none = 0
exit_code (some e) = 1
