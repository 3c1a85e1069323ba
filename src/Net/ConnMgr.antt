-- ===== src/Net/ConnMgr.antt =====
-- connmgr.cpp.
pub mod Agreement
use kcpserver_cpp.Common.{
  ℕ, suc, u32, Bool, true, false, not, Option, none, some, List, [], ◌∷◌, if◌then◌else◌, Bytes, Map,
  lookup, erase, insert_name, length, Outcome, ok, ◌>>=◌,
}
use kcpserver_cpp.SendQueue.{Answer}
use kcpserver_cpp.Conn.{Conn, Event, reg_conn, close_fd, send, is_timeout}
use kcpserver_cpp.Conn
use kcpserver_cpp.Net.{Server, insert_int, emit, apply_events}

unfoldable pub raw_get_conn_by_pid : Server → ℕ → Option Conn
raw_get_conn_by_pid s pid = lookup pid s.conn_map

unfoldable pub get_conn : Server → ℕ → Option Conn
get_conn s fd = elim (lookup fd s.conn_fd_map) [
  | none ↦ none
  | some pid ↦ raw_get_conn_by_pid s pid
]

pub get_online : Server → ℕ
get_online s = length s.conn_map

-- One round of CreateConnBatch; the counter is an `int`. In the net server a connection is announced to the gate; in the game
-- server it is the net server, which takes the place of `connRpcObj::m_inst`.
unfoldable pub create_conn : ℕ → Bytes → Server → Server
create_conn fd addr s =
    let pid = s.max_sessid in
    let c = record (Conn.new_conn fd) {
      pid = pid;
      rpc = elim s.is_net [ true ↦ false | false ↦ true ];
    } in
    let s' = record s {
      max_sessid = u32 (suc pid);
      conn_map = insert_int pid c s.conn_map;
      conn_fd_map = insert_int fd pid s.conn_fd_map;
    } in
    if s.is_net then emit (reg_conn pid 1 addr) s' else record s' { rpc_inst = some pid }

unfoldable pub create_conn_batch : List (ℕ × Bytes) → Server → Server
create_conn_batch [] s = s
create_conn_batch ((fd, addr) ∷ rest) s = create_conn_batch rest (create_conn fd addr s)

-- AppendNameConn.
unfoldable pub append_name_conn : Bytes → ℕ → Server → Server
append_name_conn name fd s = record s { name_fd_map = insert_name name fd s.name_fd_map }

-- connObj::OnClose tells the gate, 3 for a timeout and 2 else.
unfoldable pub on_close : Bool → Conn → Server → Server
on_close timeout c s = emit (reg_conn c.pid (if timeout then 3 else 2) []) (emit (close_fd c.fd) s)

-- DelConn, by descriptor.
unfoldable pub del_conn : ℕ → Bool → Server → Server
del_conn fd timeout s = elim (lookup fd s.conn_fd_map) [
  | none ↦ s
  | some pid ↦ elim (raw_get_conn_by_pid s pid) [
    | none ↦ s
    | some c ↦
        let s' = record s {
          conn_fd_map = erase fd s.conn_fd_map;
          write_fd_map = erase c.fd s.write_fd_map;
          conn_map = erase c.pid s.conn_map;
          conn_pid_game_map = erase c.pid s.conn_pid_game_map;
          rpc_inst = if c.rpc then none else s.rpc_inst;
        } in
        on_close timeout c s'
  ]
]

-- OnClose of the connection `c`, which stays in the maps under its number.
unfoldable pub shut_conn : ℕ → Conn → Server → Server
shut_conn pid c s =
    let shut = record c { bclose = true } in
    on_close false c (record s { conn_map = insert_int pid shut s.conn_map })

-- destroy: OnClose of each connection, in the order of their numbers.
unfoldable pub shut_all : Map Conn → Server → Server
shut_all [] s = s
shut_all ((pid, c) ∷ rest) s = shut_all rest (shut_conn pid c s)

unfoldable pub destroy : Server → Server
destroy s = shut_all s.conn_map s

-- ChkConnTimeout: the connections that are late, and then their end. `game` connections have no
-- time limit.
unfoldable pub late : ℕ → Server → Map ℕ → List ℕ
late now s [] = []
late now s ((fd, pid) ∷ rest) = elim (raw_get_conn_by_pid s pid) [
  | none ↦ late now s rest
  | some c ↦
      let more = late now s rest in
      if c.rpc then more else (if is_timeout now c then c.fd ∷ more else more)
]

unfoldable pub del_conns : List ℕ → Server → Server
del_conns [] s = s
del_conns (fd ∷ fds) s = del_conns fds (del_conn fd true s)

unfoldable pub chk_conn_timeout : ℕ → Server → Server
chk_conn_timeout now s = del_conns (late now s s.conn_fd_map) s

-- `send` on the connection `pid`, whose state and wishes come back to the server. `socket` gives the
-- answers of `write` for each descriptor.
unfoldable pub send_conn : (ℕ → List Answer) → ℕ → Conn → Option Bytes → Server → Outcome Server
send_conn socket pid c buf s = send (not c.rpc) (socket c.fd) buf c >>= λ r.
    ok (apply_events pid r.events (record s { conn_map = insert_int pid r.conn s.conn_map }))

-- The loop of processAllWrite. `send` always returns 0, so each entry that is looked at is erased.
unfoldable pub write_all : (ℕ → List Answer) → Map ℕ → Server → Outcome Server
write_all socket [] s = ok s
write_all socket ((fd, pid) ∷ rest) s = elim (raw_get_conn_by_pid s pid) [
  | none ↦ write_all socket rest (record s { write_fd_map = erase fd s.write_fd_map })
  | some c ↦ send_conn socket pid c none s >>= λ s'.
      write_all socket rest (record s' { write_fd_map = erase fd s'.write_fd_map })
]

unfoldable pub process_all_write : (ℕ → List Answer) → Server → Outcome Server
process_all_write socket s = write_all socket s.write_fd_map s

unfoldable pub send_msg : (ℕ → List Answer) → ℕ → Bytes → Server → Outcome Server
send_msg socket pid buf s = elim (raw_get_conn_by_pid s pid) [
  | none ↦ ok s
  | some c ↦ send_conn socket pid c (some buf) s
]

-- The loop of SendMsgAll. A descriptor whose connection is gone is erased.
unfoldable pub send_all : (ℕ → List Answer) → Bytes → Map ℕ → Server → Outcome Server
send_all socket buf [] s = ok s
send_all socket buf ((fd, pid) ∷ rest) s = elim (raw_get_conn_by_pid s pid) [
  | none ↦ send_all socket buf rest (record s { conn_fd_map = erase fd s.conn_fd_map })
  | some c ↦ send_conn socket pid c (some buf) s >>= λ s'. send_all socket buf rest s'
]

unfoldable pub send_msg_all : (ℕ → List Answer) → Bytes → Server → Outcome Server
send_msg_all socket buf s = send_all socket buf s.conn_fd_map s

unfoldable pub reg_game_pid : ℕ → Bytes → Server → Server
reg_game_pid pid game s = record s { conn_pid_game_map = insert_int pid game s.conn_pid_game_map }

-- getGameByPid: the empty name where there is none.
unfoldable pub get_game_by_pid : Server → ℕ → Bytes
get_game_by_pid s pid = elim (lookup pid s.conn_pid_game_map) [ none ↦ [] | some game ↦ game ]
