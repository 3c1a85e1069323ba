-- ===== src/Game/Kcp.antt =====
-- kcpsess/sessServer.cpp: the sessions of the KCP server. The protocol itself (ikcp.c) is not
-- modelled: `m_kcp` is a flag, and what `ikcp_recv` delivers is an argument of `on_deal_msg`.
pub mod Sessions
pub mod Creation
pub mod Untouched
pub mod Parting
pub mod Living
pub mod Keeping
use kcpserver_cpp.Common.{
  ℕ, zero, suc, ◌*◌, Bool, true, false, ◌&&◌, not, Option, none, some, List, [], ◌∷◌, ◌++◌, ◌==◌,
  ltb, if◌then◌else◌, Bytes, le_value, u32, sub32, lookup, erase, length,
}
use kcpserver_cpp.Game.State.{KcpServer, UdpConn, store, Game, kcp_send, close_fd, emit, insert_int}

-- UDPConn::init. `now` is the clock; a fresh control block stands for `ikcp_create` and its options.
unfoldable pub init : ℕ → ℕ → ℕ → Bytes → UdpConn → UdpConn
init now fd id pbuff c = record c {
  fd = fd;
  offset = 0;
  id = id;
  conv = le_value 4 pbuff;
  born_tick = now;
  bind = false;
  bread = true;
  kcp = true;
}

-- UDPConn::OnCheckTimeout.
pub check_timeout : ℕ → UdpConn → Bool
check_timeout ms c = not c.bind && ltb (1000 * 20) (sub32 ms c.born_tick)

abbrev conn : Game → ℕ → UdpConn
conn g a = g.kcp.conns.cell a

abbrev set_conn : ℕ → UdpConn → Game → Game
set_conn a c g = record g { kcp = record (g.kcp) { conns = store g.kcp.conns a c } }

-- UDPConn::Write: nothing is sent once the control block is released.
unfoldable pub write : ℕ → Bytes → Game → Game
write a buf g = if (conn g a).kcp then emit (kcp_send a buf) g else g

-- UDPConn::Close.
unfoldable pub close : ℕ → Game → Game
close a g =
    let g' = emit (close_fd (conn g a).fd) g in set_conn a (record (conn g' a) { kcp = false }) g'

pub push_udp_conn : ℕ → Game → Game
push_udp_conn a g = record g { kcp = record (g.kcp) { pool = g.kcp.pool ++ (a ∷ []) } }

-- KCP_UDPCONN_SIZE, and that many objects in the order in which `new` makes them.
abbrev pub pool_size : ℕ
pool_size = 8192

pub upto : ℕ → List ℕ
upto zero = []
upto (suc n) = upto n ++ (n ∷ [])

-- KCPServer's constructor with initPool of the game server; `memory` is what `new` gives.
unfoldable pub new_server : (ℕ → UdpConn) → KcpServer
new_server memory = record {
  conns = record { cell = memory; made = pool_size };
  map_conn = [];
  map_sess_fd = [];
  pool = upto pool_size;
  sess_id = 0;
  last_tick = 0;
}

unfoldable pub pop_udp_conn : Game → Game × ℕ
pop_udp_conn g = elim g.kcp.pool [
  | [] ↦
      let heap = record (g.kcp.conns) { made = suc g.kcp.conns.made } in
      (record g { kcp = record (g.kcp) { conns = heap } }, g.kcp.conns.made)
  | a ∷ rest ↦ (record g { kcp = record (g.kcp) { pool = rest } }, a)
]

-- rawGetConn.
unfoldable pub raw_get_conn : Game → ℕ → Option ℕ
raw_get_conn g sessid = lookup sessid g.kcp.map_sess_fd

-- The common end of delConn and rawCloseConn: out of both maps, closed, back to the pool.
pub drop_conn : ℕ → ℕ → Game → Game
drop_conn fd a g =
    let server = record (g.kcp) {
      map_conn = erase fd g.kcp.map_conn;
      map_sess_fd = erase (conn g a).id g.kcp.map_sess_fd;
    } in
    push_udp_conn a (close a (record g { kcp = server }))

unfoldable pub del_conn : ℕ → Game → Game
del_conn fd g = elim (lookup fd g.kcp.map_conn) [ none ↦ g | some a ↦ drop_conn fd a g ]

pub close_conn : ℕ → Game → Game
close_conn sessid g = elim (raw_get_conn g sessid) [ none ↦ g | some a ↦ del_conn (conn g a).fd g ]

pub raw_close_conn : ℕ → Game → Game
raw_close_conn sessid g = elim (raw_get_conn g sessid) [
  | none ↦ g
  | some a ↦ elim (lookup (conn g a).fd g.kcp.map_conn) [
    | none ↦ g
    | some b ↦ drop_conn (conn g a).fd b g
  ]
]

-- BindConn: `none` is NULL.
pub bind_conn : ℕ → Game → Game × Option ℕ
bind_conn sessid g = elim (raw_get_conn g sessid) [
  | none ↦ (g, none)
  | some a ↦ (set_conn a (record (conn g a) { bind = true }) g, some a)
]

-- createConn. The counter is a `long`, and is cut to an `int` for the connection and the map.
unfoldable pub create_conn : ℕ → ℕ → Bytes → Game → Game × ℕ
create_conn now clifd buf g =
    let sess = suc g.kcp.sess_id in
    let (g₁, a) = pop_udp_conn (record g { kcp = record (g.kcp) { sess_id = sess } }) in
    let g₂ = set_conn a (init now clifd (u32 sess) buf (conn g₁ a)) g₁ in
    (
      record g₂ {
        kcp = record (g₂.kcp) {
          map_conn = insert_int clifd a g₂.kcp.map_conn;
          map_sess_fd = insert_int (u32 sess) a g₂.kcp.map_sess_fd;
        };
      },
      a,
    )

-- KCPServer::sendMsg.
pub send_msg : ℕ → Bytes → Game → Game
send_msg sessid buf g =
    if sessid == 0 then g else elim (raw_get_conn g sessid) [ none ↦ g | some a ↦ write a buf g ]

-- The first loop of KCPServer::OnCheckTimeout collects the descriptors, the second deletes them.
pub timed_out : ℕ → Game → List (ℕ × ℕ) → List ℕ
timed_out ms g [] = []
timed_out ms g ((fd, a) ∷ rest) =
    let more = timed_out ms g rest in if check_timeout ms (conn g a) then fd ∷ more else more

unfoldable pub del_conns : List ℕ → Game → Game
del_conns [] g = g
del_conns (fd ∷ fds) g = del_conns fds (del_conn fd g)

unfoldable pub on_check_timeout : ℕ → Game → Game
on_check_timeout ms g =
    let ticked = record g { kcp = record (g.kcp) { last_tick = ms } } in
    if g.kcp.last_tick == 0
    then ticked
    else (if ltb (1000 * 2) (sub32 ms g.kcp.last_tick)
        then del_conns (timed_out ms g g.kcp.map_conn) ticked
        else g)

pub get_count : Game → ℕ
get_count g = length g.kcp.map_conn
