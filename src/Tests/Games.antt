-- ===== src/Tests/Games.antt =====
-- A game server that the gate asks for a room of two players.
use kcpserver_cpp.Common.{false, none, [], ◌∷◌, codes, ok, abort, hang, Outcome}
use kcpserver_cpp.Wire.{RpcObj}
use kcpserver_cpp.SendQueue.{Sender}
use kcpserver_cpp.Tcp
use kcpserver_cpp.Tcp.Clients.{ClientMgr}
use kcpserver_cpp.Game.State.{Game}
use kcpserver_cpp.Game.Rpc
use kcpserver_cpp.Game.Room
use kcpserver_cpp.Game.Room.Manager
use kcpserver_cpp.Game.Player
use kcpserver_cpp.Main.{Io, GameMain}
use kcpserver_cpp.Main.Rounds.{started}
use kcpserver_cpp.Main.Games.{new_game}
use kcpserver_cpp.Tests.Rooms.{idle_conn, player_of, room_of, game_of}

abbrev quiet : Io
quiet = record { read = λ fd. Tcp.eagain; write = λ fd. []; inbox = λ a. none }

abbrev no_sender : Sender
no_sender = record { send_cache_queue = []; send_cache = none; pool = 0 }

-- Room 7 with the players 1 and 2, and frames of 66 ms.
abbrev new_room_call : RpcObj
new_room_call = record {
  target = codes "NewRoom";
  key = [];
  param = [];
  result = [];
  pid = 7;
  msgid = 0;
  body = codes "1,2|100,200|4325376|0,1";
}

abbrev gate_asks : ClientMgr
gate_asks = record {
  map_tcp_client = (codes "gate1", 5) ∷ [];
  map_fd_tcp_client =
      (
        5,
        record {
          name = codes "gate1";
          ip = codes "127.0.0.1";
          port = 20000;
          sock = 5;
          send_cache_queue = [];
          send_cache = none;
          receiver = record { recv_buffer = []; recv_offset = 0; que_rpc_obj = new_room_call ∷ [] };
        },
      )
      ∷ [];
  pool = 0;
}

abbrev pub asked : GameMain
asked = record {
  name = codes "game1";
  server = started false;
  clients = gate_asks;
  game = new_game (λ a. idle_conn) (λ p. player_of 0 0) (λ a. room_of 66);
  rpc_sender = no_sender;
  last_ms = 1000;
}

abbrev result_of : Outcome GameMain → GameMain
result_of (ok m) = m
result_of abort = asked
result_of hang = asked

-- Room 7 runs, and there is no connection to a net server.
abbrev in_play : GameMain
in_play = record asked { game = game_of (room_of 66) }
