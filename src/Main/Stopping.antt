-- ===== src/Main/Stopping.antt =====
-- main.cpp, behind the main loops: what netServer::destroy, KCPServer::Destroy and connRpcObj::destroy
-- close.
use kcpserver_cpp.Common.{
  ℕ, ◌≡◌, ◌⊎◌, inl, inr, refl, sym, ap, ◌∙◌, true, some, List, [], ◌∷◌, ◌++◌, Map, lookup,
  lookup-insert_by, ◌==◌, IsIn, int_ltb, keys, some-injective, none_ne_some, ne_of_neq, eq_of_==,
  Option-cases, append_assoc, append-nil, Bool-cases, if◌then◌else◌,
}
use kcpserver_cpp.Conn.{Conn, Event, reg_conn, close_fd}
use kcpserver_cpp.Net.{Server, emit}
use kcpserver_cpp.Net.ConnMgr.{on_close, shut_conn, shut_all, destroy, raw_get_conn_by_pid}
use kcpserver_cpp.Game.State.{Game, Out}
use kcpserver_cpp.Game.State
use kcpserver_cpp.Game.Udp.Closing.{closes, destroy-trace}
use kcpserver_cpp.Main.{GameMain, close_server, close_rpc, stop_game}

-- What the connections leave behind: the descriptor is closed, and the gate is told.
abbrev pub farewells : Map Conn → List Event
farewells [] = []
farewells ((pid, c) ∷ rest) = close_fd c.fd ∷ reg_conn c.pid 2 [] ∷ farewells rest

shut_all-outs : (m : Map Conn) (s : Server) → (shut_all m s).outs ≡ s.outs ++ farewells m
unfolding shut_all shut_conn on_close
shut_all-outs [] s = sym (append-nil s.outs)
shut_all-outs ((pid, c) ∷ rest) s =
    shut_all-outs rest (shut_conn pid c s)
    ∙ append_assoc (s.outs ++ (close_fd c.fd ∷ [])) (reg_conn c.pid 2 [] ∷ []) (farewells rest)
    ∙ append_assoc s.outs (close_fd c.fd ∷ []) (reg_conn c.pid 2 [] ∷ farewells rest)

abbrev pub Occurs : Event → List Event → Type 0
Occurs e [] = ⊥
Occurs e (x ∷ xs) = (e ≡ x) ⊎ Occurs e xs

-- No connection with the number `k` is open.
abbrev IsShut : ℕ → Server → Type 0
IsShut k s = (c : Conn) → lookup k s.conn_map ≡ some c → c.bclose ≡ true

shut_conn-IsShut :
    (pid : ℕ) (c : Conn) (k : ℕ) (s : Server)
    → ((k ≡ pid) ⊎ IsShut k s)
    → IsShut k (shut_conn pid c s)
unfolding shut_conn on_close
shut_conn-IsShut pid c k s h d e =
    let found : (if pid == k then some (record c { bclose = true }) else lookup k s.conn_map)
        ≡ some d =
      sym (lookup-insert_by int_ltb pid k (record c { bclose = true }) s.conn_map) ∙ e in
    elim (Bool-cases (pid == k)) [
      | inl t ↦ sym (ap (λ (x : Conn). x.bclose) (some-injective (rw t at found)))
      | inr f ↦ elim h [
        | inl same ↦ absurd (ne_of_neq pid k f (sym same))
        | inr shut ↦ shut d (rw f at found)
      ]
    ]

shut_all-IsShut :
    (m : Map Conn) (k : ℕ) (s : Server) → (IsIn k (keys m) ⊎ IsShut k s) → IsShut k (shut_all m s)
unfolding shut_all
shut_all-IsShut [] k s (inl h) = absurd h
shut_all-IsShut [] k s (inr h) = h
shut_all-IsShut ((pid, c) ∷ rest) k s (inl (inl e)) =
    shut_all-IsShut rest k (shut_conn pid c s) (inr (shut_conn-IsShut pid c k s (inl e)))
shut_all-IsShut ((pid, c) ∷ rest) k s (inl (inr h)) =
    shut_all-IsShut rest k (shut_conn pid c s) (inl h)
shut_all-IsShut ((pid, c) ∷ rest) k s (inr h) =
    shut_all-IsShut rest k (shut_conn pid c s) (inr (shut_conn-IsShut pid c k s (inr h)))

some_key : (k : ℕ) (m : Map Conn) (c : Conn) → lookup k m ≡ some c → IsIn k (keys m)
unfolding lookup
some_key k [] c e = absurd (none_ne_some e)
some_key k ((j, d) ∷ m) c e = elim (Bool-cases (j == k)) [
  | inl t ↦ inl (sym (eq_of_== j k t))
  | inr f ↦ inr (some_key k m c (rw f at e))
]

destroy-IsShut : (k : ℕ) (s : Server) → IsShut k (destroy s)
unfolding destroy
destroy-IsShut k s = shut_all-IsShut s.conn_map k s (elim (Option-cases (lookup k s.conn_map)) [
  | inl n ↦ inr (λ c e. absurd (none_ne_some (sym n ∙ e)))
  | inr (c, n) ↦ inl (some_key k s.conn_map c n)
])

farewells-fd :
    (pid : ℕ) (m : Map Conn) (c : Conn)
    → lookup pid m ≡ some c
    → Occurs (close_fd c.fd) (farewells m)
unfolding lookup
farewells-fd pid [] c e = absurd (none_ne_some e)
farewells-fd pid ((j, d) ∷ m) c e = elim (Bool-cases (j == pid)) [
  | inl t ↦ inl (ap (λ (x : Conn). close_fd x.fd) (sym (some-injective (rw t at e))))
  | inr f ↦ inr (inr (farewells-fd pid m c (rw f at e)))
]

destroy-outs : (s : Server) → (destroy s).outs ≡ s.outs ++ farewells s.conn_map
unfolding destroy
destroy-outs s = shut_all-outs s.conn_map s

close_rpc-emit :
    (before s : Server) (pid : ℕ) (c : Conn)
    → before.rpc_inst ≡ some pid
    → lookup pid before.conn_map ≡ some c
    → close_rpc before s ≡ emit (close_fd c.fd) s
unfolding close_rpc raw_get_conn_by_pid
close_rpc-emit before s pid c e n = rw (e, close_rpc, n) refl

-- When a game server with a connection to a net server stops, every session of its KCP server is
-- closed, in the order of their descriptors, and then the two descriptors of that server; OnClose
-- runs for every connection in the map, in the order of their numbers, with a call of RegConn each,
-- and then the listening socket is closed; no connection in the map is left open. The descriptor of
-- the net server's connection, which is among those, is closed once more at the very end.
pub stop_game-closes :
    (sockfd serv_fd epoll_fd : ℕ) (m : GameMain) (pid : ℕ) (c : Conn)
    → m.server.rpc_inst ≡ some pid
    → lookup pid m.server.conn_map ≡ some c
    → let m' = stop_game sockfd serv_fd epoll_fd m in
      let conns = m.server.conn_map in
      (m'.game.trace
        ≡ m.game.trace
          ++ (closes m.game m.game.kcp.map_conn
              ++ (State.close_fd serv_fd ∷ State.close_fd epoll_fd ∷ [])))
      × (m'.server.outs
          ≡ m.server.outs ++ (farewells conns ++ (close_fd sockfd ∷ close_fd c.fd ∷ [])))
      × ((k : ℕ) (d : Conn) → lookup k m'.server.conn_map ≡ some d → d.bclose ≡ true)
      × Occurs (close_fd c.fd) (farewells conns)
unfolding stop_game close_server
stop_game-closes sockfd serv_fd epoll_fd m pid c e n =
    let conns = m.server.conn_map in
    let last = close_rpc-emit m.server (close_server sockfd m.server) pid c e n in
    let all : ((destroy m.server).outs ++ (close_fd sockfd ∷ [])) ++ (close_fd c.fd ∷ [])
        ≡ m.server.outs ++ (farewells conns ++ (close_fd sockfd ∷ close_fd c.fd ∷ [])) =
      rw (destroy-outs m.server) (
        append_assoc (m.server.outs ++ farewells conns) (close_fd sockfd ∷ []) (close_fd c.fd ∷ [])
        ∙ append_assoc m.server.outs (farewells conns) (close_fd sockfd ∷ close_fd c.fd ∷ [])) in
    (
      destroy-trace serv_fd epoll_fd m.game,
      ap (λ (x : Server). x.outs) last ∙ all,
      λ k d h.
          destroy-IsShut k m.server d (ap (λ (x : Server). lookup k x.conn_map) (sym last) ∙ h),
      farewells-fd pid conns c n,
    )
