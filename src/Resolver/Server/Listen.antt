-- ===== src/Resolver/Server/Listen.antt =====
-- `ListenAndServe` of resolver/server.go: its settings, and the sockets from opening to closing. The
-- loops that serve them run beside it.
use cursedns.Prelude.{
  ℕ, String, ◌≡◌, refl, sym, ap, subst, ◌∙◌, Option, none, some, List, [], ◌∷◌, ◌++◌, map,
  append_assoc, append-nil, ◌==◌, nat_eq, if◌then◌else◌, Option-cases, inl, inr, ◌*◌,
}
use cursedns.Resolver.Types.{
  NameServer, Error, no_handler, no_listen_address, listen_failed, Result, ok, err,
}
use cursedns.Resolver.Cache.{Cache, new_cache}

-- the fields of `Server` that `ListenAndServe` completes, for a handler of type `H`
pub record Server (H : Type 0) : Type 0 where
  pub handler : Option H
  pub cache : Option Cache
  pub root_hints : Option (List NameServer)
  pub request_timeout : ℕ

pub record Settings (H : Type 0) : Type 0 where
  pub handler : H
  pub cache : Cache
  pub root_hints : List NameServer
  pub request_timeout : ℕ

-- `defaultRequestTimeout`, in ns
abbrev pub default_request_timeout : ℕ
default_request_timeout = 5 * 1000000000

unfoldable pub or_else : {A : Type 0} → A → Option A → A
or_else default none = default
or_else default (some a) = a

unfoldable pub with_handler : {H : Type 0} → List NameServer → Server H → H → Settings H
with_handler hints s h = record {
  handler = h;
  cache = or_else new_cache s.cache;
  root_hints = or_else hints s.root_hints;
  request_timeout = if s.request_timeout == 0 then default_request_timeout else s.request_timeout;
}

-- the settings to serve with, `hints` being those of `RootHints`
unfoldable pub complete :
    {H : Type 0} → List NameServer → Server H → List String → Result (Settings H)
complete hints s addrs = elim s.handler [
  | none ↦ err no_handler
  | some h ↦ elim addrs [ [] ↦ err no_listen_address | ◌∷◌ addr more ↦ ok (with_handler hints s h) ]
]

pub data Listener : Type 0 where
  udp_socket tcp_socket : String → Listener

pub data Step : Type 0 where
  opened closed : Listener → Step

-- the open `listeners`, what was done, and the world
pub record Sockets (W : Type 0) : Type 0 where
  pub listeners : List Listener
  pub log : List Step
  pub world : W

module _ {W : Type 0} (listen : Listener → W → Option Error × W) where
  -- `net.ListenPacket` or `net.Listen`, and the listener kept
  unfoldable pub open_one : Listener → Sockets W → Option Error × Sockets W
  open_one l s =
      let (failed, w) = listen l s.world in
      elim failed [
        | some e ↦ (some e, record s { world = w })
        | none ↦ (
          none,
          record { listeners = s.listeners ++ l ∷ []; log = s.log ++ opened l ∷ []; world = w },
        )
      ]

  -- `closeListeners`
  unfoldable pub close_listeners : Sockets W → Sockets W
  close_listeners s = record s { listeners = []; log = s.log ++ map closed s.listeners }

  -- the return on a failure
  unfoldable pub or_close :
      (Error → Error)
      → (Sockets W → Option Error × Sockets W)
      → Option Error × Sockets W
      → Option Error × Sockets W
  or_close wrap m (some e, s) = (some (wrap e), close_listeners s)
  or_close wrap m (none, s) = m s

  -- a pair of sockets for each address
  unfoldable pub open_all : List String → Sockets W → Option Error × Sockets W
  open_all [] s = (none, s)
  open_all (addr ∷ addrs) s =
      or_close (listen_failed "udp" addr)
        (λ s'. or_close (listen_failed "tcp" addr) (open_all addrs) (open_one (tcp_socket addr) s'))
        (open_one (udp_socket addr) s)

  -- the wait for the end of the context, whose error is returned
  unfoldable pub finish : (W → Error × W) → Option Error × Sockets W → Error × Sockets W
  finish wait (some e, s) = (e, s)
  finish wait (none, s) = let (e, w) = wait s.world in (e, close_listeners (record s { world = w }))

  -- `ListenAndServe` after the settings
  unfoldable pub run : (W → Error × W) → List String → W → Error × Sockets W
  run wait addrs w = finish wait (open_all addrs (record { listeners = []; log = []; world = w }))

-- the sockets of some addresses
unfoldable pub sockets : List String → List Listener
sockets [] = []
sockets (addr ∷ addrs) = udp_socket addr ∷ tcp_socket addr ∷ sockets addrs

module _ {W : Type 0} where
  -- just these are open
  abbrev IsOpen : List Listener → Sockets W → Type 0
  IsOpen ls s = (s.listeners ≡ ls) × (s.log ≡ map opened ls)

  -- all that was opened has been closed
  abbrev pub IsClosed : List Listener → Sockets W → Type 0
  IsClosed ls s = (s.listeners ≡ []) × (s.log ≡ map opened ls ++ map closed ls)

  -- after one attempt, after all of them
  abbrev Tried : List Listener → Listener → Option Error × Sockets W → Type 0
  Tried ls l (some e, s) = IsOpen ls s
  Tried ls l (none, s) = IsOpen (ls ++ l ∷ []) s

  abbrev Opened : List Listener → Option Error × Sockets W → Type 0
  Opened ls (some e, s) = (some_of : List Listener) × IsClosed some_of s
  Opened ls (none, s) = IsOpen ls s

module _ {W : Type 0} (listen : Listener → W → Option Error × W) where
  map_opened-append :
      (ls : List Listener) (l : Listener)
      → map opened ls ++ opened l ∷ [] ≡ map opened (ls ++ l ∷ [])
  map_opened-append [] l = refl
  map_opened-append (k ∷ ls) l = ap (λ log. opened k ∷ log) (map_opened-append ls l)

  open_one-Tried :
      (ls : List Listener) (l : Listener) (s : Sockets W)
      → IsOpen ls s
      → Tried ls l (open_one listen l s)
  unfolding open_one
  open_one-Tried ls l s (h, k) = elim (Option-cases (listen l s.world).0) [
    | inl good ↦
        rw (good, open_one)
          (ap (λ xs. xs ++ l ∷ []) h, ap (λ xs. xs ++ opened l ∷ []) k ∙ map_opened-append ls l)
    | inr (e, bad) ↦ rw (bad, open_one) (h, k)
  ]

  close_listeners-IsClosed :
      (ls : List Listener) (s : Sockets W) → IsOpen ls s → IsClosed ls (close_listeners listen s)
  unfolding close_listeners
  close_listeners-IsClosed ls s (h, k) = (refl, rw (h, k) refl)

  or_close-Opened :
      (wrap : Error → Error) (m : Sockets W → Option Error × Sockets W) (ls all : List Listener)
      (l : Listener) (r : Option Error × Sockets W)
      → Tried ls l r
      → ((s : Sockets W) → IsOpen (ls ++ l ∷ []) s → Opened all (m s))
      → Opened all (or_close listen wrap m r)
  unfolding or_close
  or_close-Opened wrap m ls all l (some e, s) t f = (ls, close_listeners-IsClosed ls s t)
  or_close-Opened wrap m ls all l (none, s) t f = f s t

  open_all-Opened :
      (addrs : List String) (ls : List Listener) (s : Sockets W)
      → IsOpen ls s
      → Opened (ls ++ sockets addrs) (open_all listen addrs s)
  unfolding open_all sockets
  open_all-Opened [] ls s o = subst (λ xs. IsOpen xs s) (sym (append-nil ls)) o
  open_all-Opened (addr ∷ addrs) ls s o =
      or_close-Opened _ _ ls _ (udp_socket addr) _ (open_one-Tried ls (udp_socket addr) s o)
        (λ s' o'.
          or_close-Opened _ _ (ls ++ udp_socket addr ∷ []) _ (tcp_socket addr) _
            (open_one-Tried (ls ++ udp_socket addr ∷ []) (tcp_socket addr) s' o')
            (λ s'' o''.
              subst (λ xs. Opened xs (open_all listen addrs s''))
                (append_assoc (ls ++ udp_socket addr ∷ []) (tcp_socket addr ∷ []) (sockets addrs)
                  ∙ append_assoc ls (udp_socket addr ∷ []) (tcp_socket addr ∷ sockets addrs))
                (open_all-Opened addrs (ls ++ udp_socket addr ∷ [] ++ tcp_socket addr ∷ []) s''
                  o'')))

  finish-IsClosed :
      (wait : W → Error × W) (all : List Listener) (r : Option Error × Sockets W)
      → Opened all r
      → (ls : List Listener) × IsClosed ls (finish listen wait r).1 × ((r.0 ≡ none) → ls ≡ all)
  unfolding finish
  finish-IsClosed wait all (some e, s) (ls, c) = (ls, c, λ q. cc)
  finish-IsClosed wait all (none, s) o =
      (all, close_listeners-IsClosed all (record s { world = (wait s.world).1 }) o, λ q. refl)

  -- When the server stops, on an address that can not be listened on or at the end of its context,
  -- each socket that was opened has been closed once, in the order of opening; and if none failed,
  -- these are a UDP and a TCP socket for each address.
  pub run-IsClosed :
      (wait : W → Error × W) (addrs : List String) (w : W)
      → (ls : List Listener) × IsClosed ls (run listen wait addrs w).1
        × (((open_all listen addrs (record { listeners = []; log = []; world = w })).0 ≡ none)
            → ls ≡ sockets addrs)
  unfolding run
  run-IsClosed wait addrs w =
      finish-IsClosed wait (sockets addrs) _ (open_all-Opened addrs [] _ (refl, refl))
