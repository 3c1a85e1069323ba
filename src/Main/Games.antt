-- ===== src/Main/Games.antt =====
-- main.cpp, net.cpp and kcpsess/sessServer.cpp: the game server as its main loop, the epoll thread of
-- its listening socket and the thread of its KCP server run it.
use kcpserver_cpp.Common.{
  ℕ, suc, ◌+◌, ◌<◌, ◌^◌, ◌≡◌, false, none, List, [], Bytes, length, lookup, IsIn, IsUnique, ok,
}
use kcpserver_cpp.SendQueue.{Sender}
use kcpserver_cpp.Conn.{Conn}
use kcpserver_cpp.Tcp.Clients.{ClientMgr}
use kcpserver_cpp.Net.{Server}
use kcpserver_cpp.Net.Ready.{news, IsReady}
use kcpserver_cpp.Net.Thread.{append_data_in, append_conn_new, append_conn_close}
use kcpserver_cpp.Game.State.{Game, Player, Room, UdpConn, Proto}
use kcpserver_cpp.Game.State
use kcpserver_cpp.Game.Kcp.{new_server}
use kcpserver_cpp.Game.Player.{new_mgr}
use kcpserver_cpp.Game.Room.Manager
use kcpserver_cpp.Game.Room.Manager.{update_mgr}
use kcpserver_cpp.Game.Rpc
use kcpserver_cpp.Game.Sound.{IsSound}
use kcpserver_cpp.Game.Udp.{Arrival, Datagram, ep_round}
use kcpserver_cpp.Game.Udp.Agreement.{clifds, AllBound}
use kcpserver_cpp.Main.{Io, GameMain, game_round}
use kcpserver_cpp.Main.Rounds.{started}

-- A game server that has just started; `conns`, `players` and `rooms` are what `new` gives.
unfoldable pub new_game : (ℕ → UdpConn) → (ℕ → Player) → (ℕ → Room) → Game
new_game conns players rooms = record {
  kcp = new_server conns;
  players = new_mgr players;
  rooms = Manager.new_mgr rooms;
  trace = [];
}

-- The clients that wait at the listening socket of the KCP server: their sockets are new, different
-- and can be bound, and there are numbers left for their sessions.
pub record AreNew (g : Game) (arrivals : List Arrival) : Type 0 where
  pub new : (fd : ℕ) → IsIn fd (clifds arrivals) → lookup fd g.kcp.map_conn ≡ none
  pub different : IsUnique (clifds arrivals)
  pub bound : AllBound arrivals
  pub numbers : g.kcp.sess_id + length arrivals < 2 ^ 32

-- What holds of the game server between its steps.
pub record IsWhole (m : GameMain) : Type 0 where
  pub ready : IsReady m.server
  pub sound : IsSound m.game

module _ (proto : Proto) where
  -- The states that a game server can come to, as its threads take turns. A new connection has a
  -- descriptor that is not open. The threads of the clients may change these between the rounds, and
  -- the calls of connRpcObj what waits there to be sent.
  pub data GameReached : GameMain → Type 0 where
    start :
        (conns : ℕ → UdpConn) (players : ℕ → Player) (rooms : ℕ → Room) (clients : ClientMgr)
        (sender : Sender) (now : ℕ) (name : Bytes)
        → GameReached (record {
          name = name;
          server = started false;
          clients = clients;
          game = new_game conns players rooms;
          rpc_sender = sender;
          last_ms = now;
        })
    accept :
        {m : GameMain} {s : Server} (fd : ℕ) (host port : Bytes)
        → GameReached m
        → lookup fd m.server.conn_fd_map ≡ none
        → (IsIn fd (news m.server.net_queue) → ⊥)
        → suc (m.server.max_sessid + length (news m.server.net_queue)) < 2 ^ 31
        → append_conn_new fd host port m.server ≡ ok s
        → GameReached (record m { server = s })
    data_come :
        {m : GameMain} (fd : ℕ)
        → GameReached m
        → GameReached (record m { server = append_data_in fd m.server })
    hang_up :
        {m : GameMain} (fd : ℕ)
        → GameReached m
        → GameReached (record m { server = append_conn_close fd m.server })
    receive :
        {m : GameMain} {s : Game × List Arrival} (serv_fd now : ℕ) (answers : ℕ → Datagram)
        (fds : List ℕ) (arrivals : List Arrival)
        → GameReached m
        → AreNew m.game arrivals
        → ep_round serv_fd now answers fds (m.game, arrivals) ≡ ok s
        → GameReached (record m { game = s.0 })
    others :
        {m : GameMain} (clients : ClientMgr) (sender : Sender)
        → GameReached m
        → GameReached (record m { clients = clients; rpc_sender = sender })
    round :
        {m m' : GameMain} (now : ℕ) (io : Io)
        → GameReached m
        → game_round proto now io m ≡ ok m'
        → GameReached m'
