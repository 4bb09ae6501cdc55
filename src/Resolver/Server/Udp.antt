-- ===== src/Resolver/Server/Udp.antt =====
-- `serveUDP` of resolver/server.go: a goroutine for each datagram, which runs `handleMessage` and
-- writes to the address that the datagram came from. What the goroutines do is interleaved.
pub mod Replies
use cursedns.Prelude.{ℕ, List, [], ◌∷◌, ◌++◌, ◌≡◌}
use cursedns.Resolver.Types.{udp}
use cursedns.Resolver.Server.{Wire, Host, Received}
use cursedns.Resolver.Server.Goroutine.{Datagram, Job, Traffic, receive, complete}

module _ {S : Type 0} (wire : Wire) (host : Host S) where
  -- One step of one goroutine. Handlers change what they reach in any way and return anything.
  pub data Step : Traffic S → Traffic S → Type 0 where
    received :
        (t : Traffic S) (d : Datagram) (rest : List Datagram)
        → t.unread ≡ d ∷ rest
        → Step t (receive wire host udp d (record t { unread = rest }))
    handlers_ran : (t : Traffic S) (h : S) → Step t (record t { host = h })
    completed :
        (t : Traffic S) (before : List Job) (j : Job) (after : List Job) (r : Received)
        → t.jobs ≡ before ++ j ∷ after
        → Step t (complete wire host udp j r (record t { jobs = before ++ after }))

  pub data Reach (t : Traffic S) : Traffic S → Type 0 where
    here : Reach t t
    next : {u v : Traffic S} → Reach t u → Step u v → Reach t v
