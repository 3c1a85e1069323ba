-- ===== src/Tcp/Clients/Threads.antt =====
-- tcpclient.cpp: what the reading thread, the writing thread and the main loop do with the clients.

pub mod Keeping
pub mod Rounds
pub mod Calls
pub mod Reconnecting
use kcpserver_cpp.Common.{
  ℕ, Bool, true, false, none, some, List, [], ◌∷◌, Bytes, Map, Outcome, ok, ◌>>=◌,
}
use kcpserver_cpp.Wire.{RpcObj}
use kcpserver_cpp.SendQueue.{Answer, deal_send}
use kcpserver_cpp.Tcp.{Receiver, ReadAnswer, on_read, deal_read_buffer}
use kcpserver_cpp.Tcp.Clients.{
  Client, ClientMgr, insert_int, sender_of, with_sender, get_tcp_client_by_fd, del_conn, fds_of,
}

-- What the socket calls of a reading round answer: `read` and, for a connection that is dropped,
-- the new socket and the tries to connect it.
pub record Inputs : Type 0 where
  pub read : ℕ → ReadAnswer
  pub new_sock : ℕ → ℕ
  pub tries : ℕ → List Bool

-- One client in readThread: OnRead, and then dealReadBuffer unless the connection was dropped.
-- DelConn is asked for the socket that the client has now.
unfoldable pub read_client : Bytes → Inputs → ℕ → Client → ClientMgr → Outcome ClientMgr
read_client self inputs fd c m =
    let (r, ret) = on_read (inputs.read c.sock) c.receiver in
    let put = λ (r' : Receiver). record m {
      map_fd_tcp_client = insert_int fd (record c { receiver = r' }) m.map_fd_tcp_client;
    } in
    elim ret [
      | none ↦ del_conn false self (inputs.new_sock c.sock) (inputs.tries c.sock) c.sock (put r)
      | some n ↦ deal_read_buffer r >>= λ r'. ok (put r')
    ]

pub read_clients : Bytes → Inputs → List ℕ → ClientMgr → Outcome ClientMgr
read_clients self inputs [] m = ok m
read_clients self inputs (fd ∷ fds) m = elim (get_tcp_client_by_fd m fd) [
  | none ↦ read_clients self inputs fds m
  | some c ↦ read_client self inputs fd c m >>= λ m'. read_clients self inputs fds m'
]

-- One round of readThread.
pub read_round : Bytes → Inputs → ClientMgr → Outcome ClientMgr
read_round self inputs m = read_clients self inputs (fds_of m.map_tcp_client) m

-- processDealSend, a round of writeThread: the bytes that each socket was given. It holds the mutex
-- of the manager, so a client whose `write` fails waits for that mutex in DelConn.
unfoldable pub deal_clients :
    (ℕ → List Answer) → Map Client → ClientMgr → Outcome (ClientMgr × List (ℕ × Bytes))
deal_clients socket [] m = ok (m, [])
deal_clients socket ((fd, c) ∷ rest) m = deal_send (socket c.sock) (sender_of m.pool c) >>= λ d.
    let next = record m {
      map_fd_tcp_client = insert_int fd (with_sender d.sender c) m.map_fd_tcp_client;
      pool = d.sender.pool;
    } in
    elim d.succ [
      | true ↦ deal_clients socket rest next >>= λ r. ok (r.0, (c.sock, d.bytes) ∷ r.1)
      | false ↦ del_conn true [] 0 [] c.sock next >>= λ m'. ok (m', (c.sock, d.bytes) ∷ [])
    ]

unfoldable pub process_deal_send :
    (ℕ → List Answer) → ClientMgr → Outcome (ClientMgr × List (ℕ × Bytes))
process_deal_send socket m = deal_clients socket m.map_fd_tcp_client m

module _ {S : Type 0} (handle : RpcObj → S → Outcome S) where
  -- The loop of handleRpcObj, with `process` of rpcNetHandle or rpcGameHandle as the handler.
  unfoldable pub handle_all : List RpcObj → S → Outcome S
  handle_all [] s = ok s
  handle_all (obj ∷ objs) s = handle obj s >>= λ s'. handle_all objs s'

  -- handleRpcObj empties the queue of the client.
  unfoldable pub handle_rpc_obj : ℕ → Client → ClientMgr × S → Outcome (ClientMgr × S)
  handle_rpc_obj fd c (m, s) = handle_all c.receiver.que_rpc_obj s >>= λ s'.
      let emptied = record c { receiver = record (c.receiver) { que_rpc_obj = [] } } in
      ok (record m { map_fd_tcp_client = insert_int fd emptied m.map_fd_tcp_client }, s')

  unfoldable pub handle_fds : List ℕ → ClientMgr × S → Outcome (ClientMgr × S)
  handle_fds [] (m, s) = ok (m, s)
  handle_fds (fd ∷ fds) (m, s) = elim (get_tcp_client_by_fd m fd) [
    | none ↦ handle_fds fds (m, s)
    | some c ↦ handle_rpc_obj fd c (m, s) >>= λ r. handle_fds fds r
  ]

  unfoldable pub process_all_rpcobj : ClientMgr × S → Outcome (ClientMgr × S)
  process_all_rpcobj (m, s) = handle_fds (fds_of m.map_tcp_client) (m, s)
