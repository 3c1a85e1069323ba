-- ===== src/Main.antt =====
-- main.cpp: the rounds of the main loops of the two kinds of server, and the signals; and what the
-- connection to the net server does in them (conn.cpp, connRpcObj).
pub mod Rounds
pub mod Start
pub mod Games
pub mod Calling
pub mod Stopping
pub mod Pushes
use kcpserver_cpp.Common.{
  ℕ, Bool, true, false, Option, none, some, List, [], ◌∷◌, ◌++◌, ◌==◌, ltb, if◌then◌else◌, Bytes,
  codes, eq_bytes, sub32, Outcome, ok, abort, ◌>>=◌,
}
use kcpserver_cpp.SendQueue.{Sender, Answer, append_send, deal_send}
use kcpserver_cpp.Tcp.{ReadAnswer}
use kcpserver_cpp.Wire.{RpcObj}
use kcpserver_cpp.Tcp.Clients.{ClientMgr, fds_of, rpc_call_gate}
use kcpserver_cpp.Tcp.Clients
use kcpserver_cpp.Tcp.Clients.Threads.{process_all_rpcobj}
use kcpserver_cpp.Net.{Server}
use kcpserver_cpp.Conn.{close_fd}
use kcpserver_cpp.Net
use kcpserver_cpp.Net.ConnMgr
use kcpserver_cpp.Net.ConnMgr.{raw_get_conn_by_pid, shut_conn}
use kcpserver_cpp.Net.Queue.{process, queue_process_fun, read_all}
use kcpserver_cpp.Game.State.{Game, Proto, Out, call_net, call_gate, qps, emit}
use kcpserver_cpp.Game.Rpc
use kcpserver_cpp.Game.Udp
use kcpserver_cpp.Game.Session.{update}
use kcpserver_cpp.Game.Room.Manager.{update_mgr}

-- netServer::destroy. `sockfd` is the listening socket.
unfoldable pub close_server : ℕ → Server → Server
close_server sockfd s = Net.emit (close_fd sockfd) (ConnMgr.destroy s)

-- onQuit, by the signal: g_run afterwards.
pub data Signal : Type 0 where
  sigusr1 : Signal
  sigint : Signal
  sigquit : Signal

pub on_quit : Signal → Bool → Bool
on_quit sigusr1 run = run
on_quit sigint run = false
on_quit sigquit run = false

-- What the calls of the system answer in a round, by descriptor, and what KCP has for a session.
pub record Io : Type 0 where
  pub read : ℕ → ReadAnswer
  pub write : ℕ → List Answer
  pub inbox : ℕ → Option Bytes

-- A net server has no connRpcObj, and no rpcGameHandle.
abbrev pub no_calls : RpcObj → ClientMgr → Outcome ClientMgr
no_calls obj m = abort

-- A round of the main loop of the net server.
unfoldable pub net_round : ℕ → Io → ClientMgr × Server → Outcome (ClientMgr × Server)
net_round now io (m, s) =
    queue_process_fun now io.read io.write no_calls
      (λ (m' : ClientMgr) (t : Server). process_all_rpcobj (process io.write) (m', t)) m s

-- The state of the main loop of the game server; `name` is the server's own name, and `rpc_sender`
-- what connRpcObj has to send.
pub record GameMain : Type 0 where
  pub name : Bytes
  pub server : Server
  pub clients : ClientMgr
  pub game : Game
  pub rpc_sender : Sender
  pub last_ms : ℕ

-- connRpcObj::dealSend: the code of tcpclient::dealSend, except that a failing `write` closes the
-- connection `pid` at once. It stays in the maps of the connection manager.
pub rpc_deal_send : List Answer → ℕ → GameMain → Outcome GameMain
rpc_deal_send answers pid m = deal_send answers m.rpc_sender >>= λ d.
    let kept = record m { rpc_sender = d.sender } in
    let shut : GameMain = elim (raw_get_conn_by_pid m.server pid) [
      | none ↦ kept
      | some c ↦ record kept { server = shut_conn pid c m.server }
    ] in
    ok (if d.succ then kept else shut)

-- connRpcObj::rpcCallNet: the code of tcpclient::AppendSend.
pub rpc_call_net : Bytes → Bytes → ℕ → ℕ → Bytes → GameMain → Outcome GameMain
rpc_call_net self target pid msgid body m =
    append_send self target pid msgid body m.rpc_sender >>= λ s. ok (record m { rpc_sender = s })

-- The operations of the game put their calls of rpcCallNet and rpcCallGate into the trace. They are
-- made here, in their order: without a connRpcObj rpcCallNet is called by a null pointer, and
-- AppendSend asserts. The rest of the trace stays.
unfoldable pub make_call : Out → GameMain → Outcome GameMain
make_call (call_net target pid msgid body) m = elim m.server.rpc_inst [
  | none ↦ abort
  | some inst ↦ rpc_call_net m.name target pid msgid body m
]
make_call (call_gate target pid msgid body) m =
    rpc_call_gate m.name target pid msgid body m.clients >>= λ k. ok (record m { clients = k })
make_call out m = ok (record m { game = emit out m.game })

unfoldable pub make_calls : List Out → GameMain → Outcome GameMain
make_calls [] m = ok m
make_calls (out ∷ outs) m = make_call out m >>= λ m'. make_calls outs m'

unfoldable pub call_out : GameMain → Outcome GameMain
call_out m = make_calls m.game.trace (record m { game = record (m.game) { trace = [] } })

-- rpcGameHandle::process, beside the clients.
abbrev pub handle_game : Proto → RpcObj → ClientMgr × Game → Outcome (ClientMgr × Game)
handle_game proto obj (k, g) = Rpc.process proto obj g >>= λ g'. ok (k, g')

-- connRpcObj::Update, where there is one: it reads, which runs the calls of the net server, and
-- sends.
unfoldable pub update_rpc : Proto → ℕ → Io → GameMain → Outcome GameMain
update_rpc proto now io m = elim m.server.rpc_inst [
  | none ↦ ok m
  | some pid ↦ elim (raw_get_conn_by_pid m.server pid) [
    | none ↦ ok m
    | some c ↦
        read_all (handle_game proto) now io.read (c.fd ∷ []) (m.clients, m.game) m.server >>= λ r.
        call_out (record m { clients = r.0.0; game = r.0.1; server = r.1 }) >>= λ m'.
        rpc_deal_send (io.write c.fd) pid m'
  ]
]

-- What comes once in more than three milliseconds.
unfoldable pub update_net : Proto → ℕ → Io → GameMain → Outcome GameMain
update_net proto now io m =
    queue_process_fun now io.read io.write (handle_game proto)
      (λ (x : ClientMgr × Game) (t : Server).
        process_all_rpcobj (Rpc.process proto) x >>= λ r. ok (r, t))
      (m.clients, m.game) m.server
    >>= λ q. call_out (record m { clients = q.0.0; game = q.0.1; server = q.1 }) >>= λ m₁.
        update_rpc proto now io m₁ >>= λ m₂.
        update proto io.inbox m₂.game >>= λ g. call_out (record m₂ { game = g; last_ms = now })

-- roomMgr::Update with the calls that it makes.
unfoldable pub update_all_rooms : Proto → ℕ → GameMain → Outcome GameMain
update_all_rooms proto now m = update_mgr proto now m.game >>= λ g. call_out (record m { game = g })

-- A round of the main loop of the game server.
unfoldable pub game_round : Proto → ℕ → Io → GameMain → Outcome GameMain
game_round proto now io m =
    let rooms = λ (m' : GameMain).
      update_all_rooms proto now m' >>= λ m''. ok (record m'' { game = emit (qps 1 1) m''.game }) in
    let all = update_net proto now io m >>= λ m'. rooms m' in
    if ltb 3 (sub32 now m.last_ms) then all else rooms m

-- What main does behind the last round of the loop of a net server: the new state, and the sockets of
-- the clients, which tcpclientMgr::destroy closes.
unfoldable pub stop_net : ℕ → ClientMgr × Server → List ℕ × Server
stop_net sockfd (m, s) = (Clients.destroy m (fds_of m.map_tcp_client), close_server sockfd s)

-- connRpcObj::destroy, where there is one: it closes the descriptor, which OnClose has not changed.
unfoldable pub close_rpc : Server → Server → Server
close_rpc before s = elim before.rpc_inst [
  | none ↦ s
  | some pid ↦ elim (raw_get_conn_by_pid before pid) [
    | none ↦ s
    | some c ↦ Net.emit (close_fd c.fd) s
  ]
]

-- What main does behind the last round of the loop of a game server. `serv_fd` and `epoll_fd` are
-- those of the KCP server.
unfoldable pub stop_game : ℕ → ℕ → ℕ → GameMain → GameMain
stop_game sockfd serv_fd epoll_fd m = record m {
  game = Udp.destroy serv_fd epoll_fd m.game;
  server = close_rpc m.server (close_server sockfd m.server);
}
