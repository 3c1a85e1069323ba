-- ===== src/Tcp/Clients.antt =====
-- tcpclient.h and tcpclient.cpp: the clients of a server, by name and by descriptor (tcpclientMgr),
-- and what its threads do with them.
pub mod Threads
pub mod Routing
use kcpserver_cpp.Common.{
  ℕ, ◌<◌, Bool, true, false, Option, none, some, List, [], ◌∷◌, ◌++◌, ◌==◌, ltb, if◌then◌else◌,
  Bytes, codes, eq_bytes, lookup_name, insert_name, is_empty, u32, int_ltb, Map, lookup, insert_by,
  Outcome, ok, hang, ◌>>=◌,
}
use kcpserver_cpp.Wire.{RpcObj}
use kcpserver_cpp.SendQueue.{Sender, append_send}
use kcpserver_cpp.Tcp.{Receiver}
use kcpserver_cpp.Net.{Server}
use kcpserver_cpp.Net.ConnMgr.{get_game_by_pid}

-- tcpclient: the address, the socket, the caches to be sent and the receiving half.
pub record Client : Type 0 where
  pub name : Bytes
  pub ip : Bytes
  pub port : ℕ
  pub sock : ℕ
  pub send_cache_queue : List Bytes
  pub send_cache : Option Bytes
  pub receiver : Receiver

-- tcpclientMgr. A descriptor leads to the object that was created with it, also after the object
-- has got another socket. `pool` is the size of the pool of caches.
pub record ClientMgr : Type 0 where
  pub map_tcp_client : List (Bytes × ℕ)
  pub map_fd_tcp_client : Map Client
  pub pool : ℕ

abbrev pub insert_int {ℓ} : {V : Type ℓ} → ℕ → V → Map V → Map V
insert_int = insert_by int_ltb

-- The caches of a client, with the pool that all share.
abbrev pub sender_of : ℕ → Client → Sender
sender_of pool c = record {
  send_cache_queue = c.send_cache_queue;
  send_cache = c.send_cache;
  pool = pool;
}

abbrev pub with_sender : Sender → Client → Client
with_sender s c = record c { send_cache_queue = s.send_cache_queue; send_cache = s.send_cache }

-- The constructor, after initSock has made the socket.
unfoldable pub new_client : Bytes → Bytes → ℕ → ℕ → Bytes → Client
new_client name ip port sock mem = record {
  name = name;
  ip = ip;
  port = port;
  sock = sock;
  send_cache_queue = [];
  send_cache = none;
  receiver = record { recv_buffer = mem; recv_offset = 0; que_rpc_obj = [] };
}

-- doconnect: `connect` is tried until it succeeds, and a TakeProxy is queued. `self` is the name of
-- this server.
unfoldable pub do_connect : Bytes → List Bool → ℕ → Client → Outcome (ℕ × Client)
do_connect self [] pool c = hang
do_connect self (false ∷ tries) pool c = do_connect self tries pool c
do_connect self (true ∷ tries) pool c =
    append_send self (codes "TakeProxy") 0 0 [] (sender_of pool c) >>= λ s.
    ok (s.pool, with_sender s c)

-- createTcpclient. `mem` is what stands in the new object's buffer.
unfoldable pub create_tcpclient :
    Bytes → Bytes → Bytes → ℕ → ℕ → Bytes → List Bool → ClientMgr → Outcome ClientMgr
create_tcpclient self name ip port sock mem tries m =
    do_connect self tries m.pool (new_client name ip port sock mem) >>= λ r. ok (record {
      map_tcp_client = insert_name name sock m.map_tcp_client;
      map_fd_tcp_client = insert_int sock r.1 m.map_fd_tcp_client;
      pool = r.0;
    })

unfoldable pub get_tcp_client_by_fd : ClientMgr → ℕ → Option Client
get_tcp_client_by_fd m fd = lookup fd m.map_fd_tcp_client

pub get_tcp_client : ClientMgr → Bytes → Option Client
get_tcp_client m name = elim (lookup_name name m.map_tcp_client) [
  | none ↦ none
  | some fd ↦ get_tcp_client_by_fd m fd
]

-- tcpclient::AppendSend on the client that a name leads to. Nothing happens without one.
unfoldable pub append_to : Bytes → Bytes → Bytes → ℕ → ℕ → Bytes → ClientMgr → Outcome ClientMgr
append_to self name target pid msgid body m = elim (lookup_name name m.map_tcp_client) [
  | none ↦ ok m
  | some fd ↦ elim (get_tcp_client_by_fd m fd) [
    | none ↦ ok m
    | some c ↦ append_send self target pid msgid body (sender_of m.pool c) >>= λ s. ok (record m {
      map_fd_tcp_client = insert_int fd (with_sender s c) m.map_fd_tcp_client;
      pool = s.pool;
    })
  ]
]

unfoldable pub rpc_call_gate : Bytes → Bytes → ℕ → ℕ → Bytes → ClientMgr → Outcome ClientMgr
rpc_call_gate self target pid msgid body m = append_to self (codes "gate1") target pid msgid body m

-- rpcCallGame asks the connection manager for the game of the player.
pub rpc_call_game : Bytes → Server → Bytes → ℕ → ℕ → Bytes → ClientMgr → Outcome ClientMgr
rpc_call_game self s target pid msgid body m =
    let name = get_game_by_pid s (u32 pid) in
    if is_empty name then ok m else append_to self name target pid msgid body m

-- tcpclient::OnClose without force: a new socket takes the place of the closed one, and is connected.
unfoldable pub on_close : Bytes → ℕ → List Bool → ℕ → Client → Outcome (ℕ × Client)
on_close self sock tries pool c = do_connect self tries pool (record c { sock = sock })

-- tcpclientMgr::DelConn. It locks the manager's mutex, which a thread that already holds it never
-- gets. The maps stay as they are.
unfoldable pub del_conn : Bool → Bytes → ℕ → List Bool → ℕ → ClientMgr → Outcome ClientMgr
del_conn held self sock tries fd m =
    let run : Outcome ClientMgr = elim (get_tcp_client_by_fd m fd) [
      | none ↦ ok m
      | some c ↦ on_close self sock tries m.pool c >>= λ r.
          ok (record m { map_fd_tcp_client = insert_int fd r.1 m.map_fd_tcp_client; pool = r.0 })
    ] in
    if held then hang else run

-- The descriptors in the order of the names, which readThread and processAllRpcobj begin with.
unfoldable pub fds_of : List (Bytes × ℕ) → List ℕ
fds_of [] = []
fds_of ((name, fd) ∷ m) = fd ∷ fds_of m

-- destroy closes the sockets, in the order of the names.
pub destroy : ClientMgr → List ℕ → List ℕ
destroy m [] = []
destroy m (fd ∷ fds) = elim (get_tcp_client_by_fd m fd) [
  | none ↦ destroy m fds
  | some c ↦ c.sock ∷ destroy m fds
]
