-- ===== src/Net/Queue.antt =====
-- net.cpp, netServer::queueProcessFun: the events of the queue, then the reads, writes and timeouts;
-- and rpchandle.cpp, rpcNetHandle: the calls that reach the net server.
use kcpserver_cpp.Common.{
  ℕ, false, none, some, List, [], ◌∷◌, ◌==◌, if◌then◌else◌, Bytes, codes, eq_bytes, u32, int_ltb,
  Outcome, ok, ◌>>=◌,
}
use kcpserver_cpp.Wire.{RpcObj, get_target, get_param}
use kcpserver_cpp.SendQueue.{Answer}
use kcpserver_cpp.Tcp.{ReadAnswer}
use kcpserver_cpp.Tcp.Clients.Threads.{handle_all}
use kcpserver_cpp.Conn.{Event, rpc_call, on_read}
use kcpserver_cpp.Net.{Server, NetOp, new_conn, data_in, quit_conn, insert_int, apply_events}
use kcpserver_cpp.Net.ConnMgr.{
  get_conn, create_conn_batch, del_conn, process_all_write, chk_conn_timeout, send_msg,
  send_msg_all, reg_game_pid,
}

-- m_readFdMap as the list of its keys, in their order.
unfoldable pub add_fd : ℕ → List ℕ → List ℕ
add_fd fd [] = fd ∷ []
add_fd fd (x ∷ xs) =
    if x == fd then x ∷ xs else if int_ltb fd x then fd ∷ x ∷ xs else x ∷ add_fd fd xs

unfoldable pub remove_fd : ℕ → List ℕ → List ℕ
remove_fd fd [] = []
remove_fd fd (x ∷ xs) = if x == fd then remove_fd fd xs else x ∷ remove_fd fd xs

-- The loop over the queue: new connections wait for the batch, the rest is done at once.
unfoldable pub drain : List NetOp → Server → Server × List (ℕ × Bytes)
drain [] s = (s, [])
drain (new_conn fd addr ∷ ops) s = let r = drain ops s in (r.0, (fd, addr) ∷ r.1)
drain (data_in fd ∷ ops) s = drain ops (record s { read_fd_map = add_fd fd s.read_fd_map })
drain (quit_conn fd ∷ ops) s = drain ops (del_conn fd false s)

unfoldable pub process_queue : Server → Server
process_queue s =
    let (s', fresh) = drain s.net_queue (record s { net_queue = [] }) in create_conn_batch fresh s'

-- The calls of another server that OnRead found.
abbrev pub calls_in : List Event → List RpcObj
calls_in [] = []
calls_in (rpc_call obj ∷ es) = obj ∷ calls_in es
calls_in (_ ∷ es) = calls_in es

-- The loop over the descriptors that have something to read, with those that leave the list.
-- `input` gives the answer of `read` for each descriptor. `handle` is rpcGameHandle::process, which
-- runs the calls of a connRpcObj on `x`, in their order, as OnRead finds them.
unfoldable pub read_all :
    {X : Type 0}
    → (RpcObj → X → Outcome X)
    → ℕ
    → (ℕ → ReadAnswer)
    → List ℕ
    → X
    → Server
    → Outcome (X × Server × List ℕ)
read_all handle now input [] x s = ok (x, s, [])
read_all handle now input (fd ∷ fds) x s = elim (get_conn s fd) [
  | none ↦ read_all handle now input fds x s >>= λ r. ok (r.0, r.1, fd ∷ r.2)
  | some c ↦ on_read c.rpc s.is_net now (input fd) c >>= λ r.
      handle_all handle (calls_in r.2) x >>= λ x₁.
      read_all handle now input fds x₁
        (apply_events c.pid r.2 (record s { conn_map = insert_int c.pid r.1 s.conn_map }))
      >>= λ q. ok (q.0, q.1, if r.0 == 0 then fd ∷ q.2 else q.2)
]

unfoldable pub remove_fds : List ℕ → List ℕ → List ℕ
remove_fds [] xs = xs
remove_fds (fd ∷ fds) xs = remove_fds fds (remove_fd fd xs)

unfoldable pub process_reads :
    {X : Type 0}
    → (RpcObj → X → Outcome X)
    → ℕ
    → (ℕ → ReadAnswer)
    → X
    → Server
    → Outcome (X × Server)
process_reads handle now input x s = read_all handle now input s.read_fd_map x s >>= λ r.
    ok (r.0, record (r.1) { read_fd_map = remove_fds r.2 r.1.read_fd_map })

-- queueProcessFun. The calls that came in by the clients, processAllRpcobj, stand between the writes
-- and the timeouts: `calls` is what they do. `X` is what the calls change beside the server.
unfoldable pub queue_process_fun :
    {X : Type 0}
    → ℕ
    → (ℕ → ReadAnswer)
    → (ℕ → List Answer)
    → (RpcObj → X → Outcome X)
    → (X → Server → Outcome (X × Server))
    → X
    → Server
    → Outcome (X × Server)
queue_process_fun now input socket handle calls x s =
    process_reads handle now input x (process_queue s) >>= λ r₁.
    process_all_write socket r₁.1 >>= λ s₂.
    calls r₁.0 s₂ >>= λ r. ok (r.0, chk_conn_timeout now r.1)

-- The handlers of rpcNetHandle, and the table.
unfoldable pub on_push_msg : (ℕ → List Answer) → RpcObj → Server → Outcome Server
on_push_msg socket obj s = send_msg socket (u32 obj.pid) obj.body s

unfoldable pub on_push_msg_all : (ℕ → List Answer) → RpcObj → Server → Outcome Server
on_push_msg_all socket obj s = send_msg_all socket obj.body s

-- DelConn takes a descriptor, and is given the number of the session.
unfoldable pub on_force_close : RpcObj → Server → Server
on_force_close obj s = del_conn (u32 obj.pid) false s

unfoldable pub on_reg_game_pid : RpcObj → Server → Server
on_reg_game_pid obj s = reg_game_pid (u32 obj.pid) (get_param obj) s

unfoldable pub process : (ℕ → List Answer) → RpcObj → Server → Outcome Server
process socket obj s =
    let name = get_target obj in
    if eq_bytes (codes "PushMsg2Client") name
    then on_push_msg socket obj s
    else (if eq_bytes (codes "PushMsg2ClientAll") name
        then on_push_msg_all socket obj s
        else (if eq_bytes (codes "ForceCloseCliConn") name
            then ok (on_force_close obj s)
            else (if eq_bytes (codes "RegGamePid") name then ok (on_reg_game_pid obj s) else ok s)))
