-- ===== src/Resolver/RootHints.antt =====
-- The table of root servers in resolver/roothints.go, with the bytes of its addresses.
use cursedns.Prelude.{String, List, [], ◌∷◌}
use cursedns.Resolver.Types.{Addr, NameServer}

abbrev pub server : String → Addr → NameServer
server name addr = record { name = name; addr = addr }

abbrev pub root_hints_table : List NameServer
root_hints_table =
    server "a.root-servers.net." (198 ∷ 41 ∷ 0 ∷ 4 ∷ [])
    ∷ server "a.root-servers.net."
        (32 ∷ 1 ∷ 5 ∷ 3 ∷ 186 ∷ 62 ∷ 0 ∷ 0 ∷ 0 ∷ 0 ∷ 0 ∷ 0 ∷ 0 ∷ 2 ∷ 0 ∷ 48 ∷ [])
    ∷ server "b.root-servers.net." (170 ∷ 247 ∷ 170 ∷ 2 ∷ [])
    ∷ server "b.root-servers.net."
        (40 ∷ 1 ∷ 1 ∷ 184 ∷ 0 ∷ 16 ∷ 0 ∷ 0 ∷ 0 ∷ 0 ∷ 0 ∷ 0 ∷ 0 ∷ 0 ∷ 0 ∷ 11 ∷ [])
    ∷ server "c.root-servers.net." (192 ∷ 33 ∷ 4 ∷ 12 ∷ [])
    ∷ server "c.root-servers.net."
        (32 ∷ 1 ∷ 5 ∷ 0 ∷ 0 ∷ 2 ∷ 0 ∷ 0 ∷ 0 ∷ 0 ∷ 0 ∷ 0 ∷ 0 ∷ 0 ∷ 0 ∷ 12 ∷ [])
    ∷ server "d.root-servers.net." (199 ∷ 7 ∷ 91 ∷ 13 ∷ [])
    ∷ server "d.root-servers.net."
        (32 ∷ 1 ∷ 5 ∷ 0 ∷ 0 ∷ 45 ∷ 0 ∷ 0 ∷ 0 ∷ 0 ∷ 0 ∷ 0 ∷ 0 ∷ 0 ∷ 0 ∷ 13 ∷ [])
    ∷ server "e.root-servers.net." (192 ∷ 203 ∷ 230 ∷ 10 ∷ [])
    ∷ server "e.root-servers.net."
        (32 ∷ 1 ∷ 5 ∷ 0 ∷ 0 ∷ 168 ∷ 0 ∷ 0 ∷ 0 ∷ 0 ∷ 0 ∷ 0 ∷ 0 ∷ 0 ∷ 0 ∷ 14 ∷ [])
    ∷ server "f.root-servers.net." (192 ∷ 5 ∷ 5 ∷ 241 ∷ [])
    ∷ server "f.root-servers.net."
        (32 ∷ 1 ∷ 5 ∷ 0 ∷ 0 ∷ 47 ∷ 0 ∷ 0 ∷ 0 ∷ 0 ∷ 0 ∷ 0 ∷ 0 ∷ 0 ∷ 0 ∷ 15 ∷ [])
    ∷ server "g.root-servers.net." (192 ∷ 112 ∷ 36 ∷ 4 ∷ [])
    ∷ server "g.root-servers.net."
        (32 ∷ 1 ∷ 5 ∷ 0 ∷ 0 ∷ 18 ∷ 0 ∷ 0 ∷ 0 ∷ 0 ∷ 0 ∷ 0 ∷ 0 ∷ 0 ∷ 13 ∷ 13 ∷ [])
    ∷ server "h.root-servers.net." (198 ∷ 97 ∷ 190 ∷ 53 ∷ [])
    ∷ server "h.root-servers.net."
        (32 ∷ 1 ∷ 5 ∷ 0 ∷ 0 ∷ 1 ∷ 0 ∷ 0 ∷ 0 ∷ 0 ∷ 0 ∷ 0 ∷ 0 ∷ 0 ∷ 0 ∷ 83 ∷ [])
    ∷ server "i.root-servers.net." (192 ∷ 36 ∷ 148 ∷ 17 ∷ [])
    ∷ server "i.root-servers.net."
        (32 ∷ 1 ∷ 7 ∷ 254 ∷ 0 ∷ 0 ∷ 0 ∷ 0 ∷ 0 ∷ 0 ∷ 0 ∷ 0 ∷ 0 ∷ 0 ∷ 0 ∷ 83 ∷ [])
    ∷ server "j.root-servers.net." (192 ∷ 58 ∷ 128 ∷ 30 ∷ [])
    ∷ server "j.root-servers.net."
        (32 ∷ 1 ∷ 5 ∷ 3 ∷ 12 ∷ 39 ∷ 0 ∷ 0 ∷ 0 ∷ 0 ∷ 0 ∷ 0 ∷ 0 ∷ 2 ∷ 0 ∷ 48 ∷ [])
    ∷ server "k.root-servers.net." (193 ∷ 0 ∷ 14 ∷ 129 ∷ [])
    ∷ server "k.root-servers.net."
        (32 ∷ 1 ∷ 7 ∷ 253 ∷ 0 ∷ 0 ∷ 0 ∷ 0 ∷ 0 ∷ 0 ∷ 0 ∷ 0 ∷ 0 ∷ 0 ∷ 0 ∷ 1 ∷ [])
    ∷ server "l.root-servers.net." (199 ∷ 7 ∷ 83 ∷ 42 ∷ [])
    ∷ server "l.root-servers.net."
        (32 ∷ 1 ∷ 5 ∷ 0 ∷ 0 ∷ 159 ∷ 0 ∷ 0 ∷ 0 ∷ 0 ∷ 0 ∷ 0 ∷ 0 ∷ 0 ∷ 0 ∷ 66 ∷ [])
    ∷ server "m.root-servers.net." (202 ∷ 12 ∷ 27 ∷ 33 ∷ [])
    ∷ server "m.root-servers.net."
        (32 ∷ 1 ∷ 13 ∷ 195 ∷ 0 ∷ 0 ∷ 0 ∷ 0 ∷ 0 ∷ 0 ∷ 0 ∷ 0 ∷ 0 ∷ 0 ∷ 0 ∷ 53 ∷ [])
    ∷ []

-- `RootHints`, a copy that the caller may change
unfoldable pub root_hints : List NameServer
root_hints = root_hints_table
