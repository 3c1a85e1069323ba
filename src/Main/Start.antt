-- ===== src/Main/Start.antt =====
-- main.cpp: the start of the two kinds of server. `exit` counts as `abort`.
use kcpserver_cpp.Common.{
  ℕ, Bool, Option, List, [], ◌∷◌, ◌==◌, if◌then◌else◌, Bytes, codes, eq_bytes, Outcome, ok, abort,
  ◌>>=◌,
}
use kcpserver_cpp.Text.{atoi}
use kcpserver_cpp.Cfg.{NodeCfg, ServerCfg}
use kcpserver_cpp.Cfg
use kcpserver_cpp.Tcp.Clients.{ClientMgr, create_tcpclient}
use kcpserver_cpp.Net.{Server}
use kcpserver_cpp.Net.Thread.{Candidate, set_name, init_sock}
use kcpserver_cpp.Game.Udp.{listen}

-- The new socket of a client, the memory of the object, and the tries to connect.
pub record Connecting : Type 0 where
  pub sock : ℕ
  pub mem : Bytes
  pub tries : List Bool

-- The loop of InitNetListen over the nodes of the configuration.
unfoldable pub connect_nodes :
    Bytes → (NodeCfg → Connecting) → List NodeCfg → ClientMgr → Outcome ClientMgr
connect_nodes self io [] m = ok m
connect_nodes self io (n ∷ ns) m =
    let port = atoi n.port in
    let c = io n in
    create_tcpclient self n.node_name n.ip port c.sock c.mem c.tries m >>= λ m'.
    connect_nodes self io ns m'

-- The same loop of InitGameListen leaves the node "kcp" out.
pub connect_game_nodes :
    Bytes → (NodeCfg → Connecting) → List NodeCfg → ClientMgr → Outcome ClientMgr
connect_game_nodes self io [] m = ok m
connect_game_nodes self io (n ∷ ns) m =
    let port = atoi n.port in
    let c = io n in
    let next = create_tcpclient self n.node_name n.ip port c.sock c.mem c.tries m >>= λ m'.
    connect_game_nodes self io ns m' in
    let skip = connect_game_nodes self io ns m in
    if eq_bytes n.node_name (codes "kcp") then skip else next

-- InitKcpListen: the port that KCPServer::Listen is called with. Without a node "kcp" the function
-- ends without a value.
pub kcp_port : List NodeCfg → Outcome ℕ
kcp_port [] = abort
kcp_port (n ∷ ns) =
    let rest = kcp_port ns in if eq_bytes n.node_name (codes "kcp") then ok (atoi n.port) else rest

-- What the system answers at the start: the addresses for the listening socket, whether fcntl and
-- listen succeed on it, whether the thread can be made, and what there is for the clients. `stack`
-- and `content` are for serverCfg::init.
pub record Starting : Type 0 where
  pub addrs : Option (List Candidate)
  pub nonblocking : Bool
  pub listening : Bool
  pub thread : Bool
  pub connecting : NodeCfg → Connecting
  pub stack : Bytes
  pub content : Bytes

-- InitNetListen and InitGameListen, which differ in the clients that they make: the socket first,
-- then the clients, then the thread.
unfoldable pub init_listen :
    Starting → (ClientMgr → Outcome ClientMgr) → ClientMgr → Outcome ClientMgr
init_listen io connect m =
    let (ret, fd) = init_sock io.addrs io.nonblocking io.listening in
    let run = connect m >>= λ m'. if io.thread then ok m' else abort in
    if ret == 0 then run else abort

unfoldable pub init_net_listen : Bytes → Starting → ServerCfg → ClientMgr → Outcome ClientMgr
init_net_listen self io c m = init_listen io (connect_nodes self io.connecting c.node_lst) m

pub init_game_listen : Bytes → Starting → ServerCfg → ClientMgr → Outcome ClientMgr
init_game_listen self io c m = init_listen io (connect_game_nodes self io.connecting c.node_lst) m

-- The start of `main` with the argument "net", up to its loop.
unfoldable pub start_net : Starting → ServerCfg → Server → ClientMgr → Outcome (Server × ClientMgr)
start_net io c s m =
    let self = codes "net1" in
    Cfg.init io.stack (codes "net") io.content c >>= λ c'.
    init_net_listen self io c' m >>= λ m'. ok (set_name self s, m')

-- The start with any other argument. The KCP server listens as well, on the port that it is given.
pub start_game :
    Starting
    → Bool
    → Bool
    → Bool
    → ServerCfg
    → Server
    → ClientMgr
    → Outcome (Server × ClientMgr × ℕ)
start_game io bound registered thread c s m =
    let self = codes "game1" in
    Cfg.init io.stack (codes "game") io.content c >>= λ c'. init_game_listen self io c' m >>= λ m'.
    kcp_port c'.node_lst >>= λ port.
    listen bound registered thread port >>= λ id. ok (set_name self s, m', id)
