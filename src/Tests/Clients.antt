-- ===== src/Tests/Clients.antt =====
-- The clients of a server, and the theorems of Tcp/Clients at them.
use kcpserver_cpp.Common.{
  lookup_name, ℕ, ◌≡◌, refl, inl, inr, true, false, none, some, List, [], ◌∷◌, ◌++◌, Bytes, codes,
  lookup, insert_by, IsUnique, arith, if◌then◌else◌, ◌==◌, Outcome, ok, hang, u32,
}
use kcpserver_cpp.Wire.{RpcObj, encode_buffer, put_text, get_rpc_size}
use kcpserver_cpp.SendQueue.{
  Sender, Answer, wrote, failed, Dealt, append_send, current, make_room, put_frame, pop_sendcache,
  push_sendcache, deal_send, deal_from, deal_queue, dosend,
}
use kcpserver_cpp.Net.ConnMgr.{reg_game_pid}
use kcpserver_cpp.Tcp.Clients.{
  Client, ClientMgr, do_connect, get_tcp_client_by_fd, get_tcp_client, sender_of, with_sender,
  rpc_call_game, fds_of,
}
use kcpserver_cpp.Tcp.Clients.Routing.{rpc_call_game_reaches}
use kcpserver_cpp.Tcp.Clients.Threads.{
  deal_clients, process_deal_send, process_all_rpcobj, Inputs, read_client,
}
use kcpserver_cpp.Tcp.Clients.Threads.Calls.{handled, all_emptied, process_all_rpcobj-handled}
use kcpserver_cpp.Tcp.Clients.Threads.Rounds.{process_deal_send_hangs}
use kcpserver_cpp.Tcp.Clients.Threads.Reconnecting.{reconnected_once}
use kcpserver_cpp.Tcp.{closed}
use kcpserver_cpp.Main.Rounds.{started}

abbrev call : ℕ → RpcObj
call pid = record {
  target = codes "OverRoom";
  key = [];
  param = [];
  result = [];
  pid = pid;
  msgid = 1;
  body = [];
}

abbrev client : Bytes → ℕ → List RpcObj → Client
client name sock calls = record {
  name = name;
  ip = codes "127.0.0.1";
  port = 20000;
  sock = sock;
  send_cache_queue = [];
  send_cache = some (1 ∷ 2 ∷ []);
  receiver = record { recv_buffer = []; recv_offset = 0; que_rpc_obj = calls };
}

-- A client to the gate and one to a game.
abbrev two_clients : ClientMgr
two_clients = record {
  map_tcp_client = (codes "game1", 6) ∷ (codes "gate1", 5) ∷ [];
  map_fd_tcp_client =
      (5, client (codes "gate1") 5 (call 1 ∷ call 2 ∷ []))
      ∷ (6, client (codes "game1") 6 (call 3 ∷ []))
      ∷ [];
  pool = 4;
}

abbrev appended : Sender
appended = record {
  send_cache_queue = [];
  send_cache = some ((1 ∷ 2 ∷ []) ++ encode_buffer (codes "net1") (codes "Msg2game") 7 2000 []);
  pool = 4;
}

game_appended :
    append_send
      (codes "net1")
      (codes "Msg2game")
      7
      2000
      []
      (sender_of 4 (client (codes "game1") 6 (call 3 ∷ [])))
    ≡ ok appended
unfolding append_send encode_buffer put_text get_rpc_size current make_room put_frame pop_sendcache
game_appended = refl

rpc_call_game_reaches_example :
    (m' : ClientMgr) × (rpc_call_game
        (codes "net1")
        (reg_game_pid (u32 7) (codes "game1") (started true))
        (codes "Msg2game")
        7
        2000
        []
        two_clients
      ≡ ok m')
    × (get_tcp_client m' (codes "game1")
        ≡ some (with_sender appended (client (codes "game1") 6 (call 3 ∷ []))))
    × ((j : ℕ) → (6 ≡ j → ⊥) → get_tcp_client_by_fd m' j ≡ get_tcp_client_by_fd two_clients j)
unfolding lookup_name get_tcp_client_by_fd lookup
rpc_call_game_reaches_example =
    rpc_call_game_reaches (codes "net1") (codes "game1") (codes "Msg2game") 7 2000 [] (started true)
      two_clients 6 (client (codes "game1") 6 (call 3 ∷ [])) appended refl refl refl game_appended

-- The gate takes its two bytes, and the write to the game fails.
abbrev sockets : ℕ → List Answer
sockets fd = if fd == 5 then wrote 2 ∷ [] else failed ∷ []

abbrev gate_sent : ClientMgr
gate_sent = record two_clients {
  map_fd_tcp_client =
      (5, record (client (codes "gate1") 5 (call 1 ∷ call 2 ∷ [])) { send_cache = none })
      ∷ (6, client (codes "game1") 6 (call 3 ∷ []))
      ∷ [];
  pool = 5;
}

abbrev game_failed : Dealt
game_failed = record {
  succ = false;
  bytes = [];
  answers = [];
  sender = record { send_cache_queue = []; send_cache = none; pool = 6 };
}

gate_served :
    deal_clients sockets ((5, client (codes "gate1") 5 (call 1 ∷ call 2 ∷ [])) ∷ []) two_clients
    ≡ ok (gate_sent, (5, 1 ∷ 2 ∷ []) ∷ [])
unfolding deal_clients deal_send deal_from deal_queue dosend push_sendcache insert_by
gate_served = refl

game_fails :
    deal_send (sockets 6) (sender_of 5 (client (codes "game1") 6 (call 3 ∷ []))) ≡ ok game_failed
unfolding deal_send deal_from deal_queue dosend push_sendcache
game_fails = refl

process_deal_send_hangs_example : process_deal_send sockets two_clients ≡ hang
process_deal_send_hangs_example =
    process_deal_send_hangs sockets 6 (client (codes "game1") 6 (call 3 ∷ []))
      ((5, client (codes "gate1") 5 (call 1 ∷ call 2 ∷ [])) ∷ []) [] two_clients gate_sent
      ((5, 1 ∷ 2 ∷ []) ∷ []) game_failed refl gate_served game_fails refl

-- A handler that notes the players.
abbrev note : RpcObj → List ℕ → Outcome (List ℕ)
note obj pids = ok (pids ++ (obj.pid ∷ []))

two_fds : IsUnique (6 ∷ 5 ∷ [])
two_fds = ((λ h. elim h [ inl e ↦ omega (arith, e) | inr e ↦ e ]), ((λ h. h), tt))

process_all_rpcobj-handled_example :
    process_all_rpcobj note (two_clients, [])
    ≡ handled note (call 3 ∷ call 1 ∷ call 2 ∷ []) (all_emptied two_clients (6 ∷ 5 ∷ [])) []
unfolding get_tcp_client_by_fd lookup fds_of
process_all_rpcobj-handled_example = process_all_rpcobj-handled note two_clients [] two_fds

-- The gate goes away with two bytes of a frame received, comes back, and goes away again.
abbrev half_read : Client
half_read = record (client (codes "gate1") 5 []) {
  receiver = record { recv_buffer = 9 ∷ 9 ∷ []; recv_offset = 2; que_rpc_obj = [] };
}

abbrev one_client : ClientMgr
one_client = record {
  map_tcp_client = (codes "gate1", 5) ∷ [];
  map_fd_tcp_client = (5, half_read) ∷ [];
  pool = 4;
}

abbrev both_ends : Inputs
both_ends = record { read = λ fd. closed; new_sock = λ fd. 8; tries = λ fd. false ∷ true ∷ [] }

abbrev back_again : Client
back_again = record half_read {
  sock = 8;
  send_cache = some ((1 ∷ 2 ∷ []) ++ encode_buffer (codes "net1") (codes "TakeProxy") 0 0 []);
}

connected_again :
    do_connect (codes "net1") (false ∷ true ∷ []) 4 (record half_read { sock = 8 })
    ≡ ok (4, back_again)
unfolding do_connect append_send encode_buffer put_text get_rpc_size current make_room put_frame
    pop_sendcache
connected_again = refl

reconnected_once_example :
    (m₁ m₂ : ClientMgr) × (read_client (codes "net1") both_ends 5 half_read one_client ≡ ok m₁)
    × (get_tcp_client_by_fd m₁ 5 ≡ some back_again)
    × (back_again.sock ≡ 8)
    × (back_again.receiver ≡ half_read.receiver)
    × (read_client (codes "net1") both_ends 5 back_again m₁ ≡ ok m₂)
    × (get_tcp_client_by_fd m₂ 5 ≡ some back_again)
unfolding get_tcp_client_by_fd lookup
reconnected_once_example =
    reconnected_once (codes "net1") both_ends both_ends half_read back_again one_client 4 refl refl
      refl refl connected_again refl
