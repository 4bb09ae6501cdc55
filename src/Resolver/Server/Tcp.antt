-- ===== src/Resolver/Server/Tcp.antt =====
-- A connection of `serveTCP` in resolver/server.go: `serveTCPConn` handles one message after another,
-- while the goroutines of other connections and datagrams run.
pub mod Messages
pub mod Order
use cursedns.Prelude.{List, [], ◌∷◌, ◌≡◌, Option}
use cursedns.Resolver.Types.{tcp}
use cursedns.Resolver.TraceStore.{TraceStore}
use cursedns.Resolver.Server.{Wire, Host, Received}
use cursedns.Resolver.Server.Goroutine.{Datagram, Job, Traffic, receive, complete}

module _ {S : Type 0} (wire : Wire) (host : Host S) where
  -- One step of the connection, which reads on when the message before is done, or of others, which
  -- change what is shared in any way.
  pub data Step : Traffic S → Traffic S → Type 0 where
    received :
        (t : Traffic S) (d : Datagram) (rest : List Datagram)
        → t.jobs ≡ []
        → t.unread ≡ d ∷ rest
        → Step t (receive wire host tcp d (record t { unread = rest }))
    others_ran :
        (t : Traffic S) (store : Option TraceStore) (h : S)
        → Step t (record t { trace_store = store; host = h })
    completed :
        (t : Traffic S) (j : Job) (r : Received)
        → t.jobs ≡ j ∷ []
        → Step t (complete wire host tcp j r (record t { jobs = [] }))

  pub data Reach (t : Traffic S) : Traffic S → Type 0 where
    here : Reach t t
    next : {u v : Traffic S} → Reach t u → Step u v → Reach t v
