-- ===== src/Net.antt =====
-- net.h, net.cpp and connmgr.cpp: the connections of a server and the queue of what happens on them.
-- A connection is deleted where it leaves `conn_map`, so the map holds the objects themselves.
pub mod ConnMgr
pub mod Queue
pub mod Thread
pub mod Ready
use kcpserver_cpp.Common.{
  ℕ, zero, suc, ◌+◌, ◌-◌, Bool, true, false, Option, none, some, List, [], ◌∷◌, ◌++◌, Bytes, Map,
  int_ltb, insert_by,
}
use kcpserver_cpp.Conn.{Conn, Event, conn_close, add_write, rpc_call}

-- NET_OP_ST: what the epoll thread, or a connection that fails, puts into the queue.
pub data NetOp : Type 0 where
  new_conn : ℕ → Bytes → NetOp
  data_in : ℕ → NetOp
  quit_conn : ℕ → NetOp

pub record Server : Type 0 where
  pub is_net : Bool
  pub conn_map : Map Conn  -- sessid -> conn
  pub conn_fd_map : Map ℕ  -- fd -> sessid
  pub conn_pid_game_map : Map Bytes  -- sessid -> game
  pub write_fd_map : Map ℕ  -- fd -> sessid
  pub name_fd_map : List (Bytes × ℕ)  -- name -> fd
  pub max_sessid : ℕ
  pub rpc_inst : Option ℕ  -- connRpcObj::m_inst, by its sessid
  pub net_queue : List NetOp
  pub read_fd_map : List ℕ
  pub outs : List Event

abbrev pub insert_int {ℓ} : {V : Type ℓ} → ℕ → V → Map V → Map V
insert_int = insert_by int_ltb

abbrev pub emit : Event → Server → Server
emit e s = record s { outs = s.outs ++ (e ∷ []) }

-- appendConnClose, AddWriteConn, and what goes out, for the connection `pid`. The calls of another
-- server are run by read_all.
unfoldable pub apply_event : ℕ → Event → Server → Server
apply_event pid (conn_close fd) s = record s { net_queue = s.net_queue ++ (quit_conn fd ∷ []) }
apply_event pid (add_write fd) s = record s { write_fd_map = insert_int fd pid s.write_fd_map }
apply_event pid (rpc_call obj) s = s
apply_event pid e s = emit e s

unfoldable pub apply_events : ℕ → List Event → Server → Server
apply_events pid [] s = s
apply_events pid (e ∷ es) s = apply_events pid es (apply_event pid e s)
