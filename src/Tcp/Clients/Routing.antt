-- ===== src/Tcp/Clients/Routing.antt =====
-- tcpclient.cpp, rpcCallGame, with the games of the players in connmgr.cpp.
use kcpserver_cpp.Common.{
  lookup_name, ℕ, ◌≡◌, false, some, Bytes, is_empty, u32, int_ltb, lookup_new, lookup_old, ok,
}
use kcpserver_cpp.SendQueue.{Sender, append_send}
use kcpserver_cpp.Net.{Server}
use kcpserver_cpp.Net.ConnMgr.{reg_game_pid, get_game_by_pid}
use kcpserver_cpp.Tcp.Clients.{
  Client, ClientMgr, insert_int, sender_of, with_sender, get_tcp_client_by_fd, get_tcp_client,
  append_to, rpc_call_game,
}

game_of-reg :
    (pid : ℕ) (game : Bytes) (s : Server) → get_game_by_pid (reg_game_pid pid game s) pid ≡ game
unfolding get_game_by_pid reg_game_pid
game_of-reg pid game s = rw (get_game_by_pid, lookup_new int_ltb pid game s.conn_pid_game_map)

append_to-client :
    (self name target : Bytes) (pid msgid : ℕ) (body : Bytes) (m : ClientMgr) (fd : ℕ) (c : Client)
    (sent : Sender)
    → lookup_name name m.map_tcp_client ≡ some fd
    → get_tcp_client_by_fd m fd ≡ some c
    → append_send self target pid msgid body (sender_of m.pool c) ≡ ok sent
    → append_to self name target pid msgid body m
      ≡ ok (record m {
        map_fd_tcp_client = insert_int fd (with_sender sent c) m.map_fd_tcp_client;
        pool = sent.pool;
      })
unfolding append_to
append_to-client self name target pid msgid body m fd c sent named there e =
    rw (append_to, named, there, e)

-- A call for a player goes to the game that was registered for the player. If RegGamePid has set a
-- game that is not the empty name, a client has that name, and AppendSend on it returns, then
-- rpcCallGame returns: the client that has the name has got what AppendSend makes of its caches,
-- and every other client is as before.
pub rpc_call_game_reaches :
    (self game target : Bytes) (pid msgid : ℕ) (body : Bytes) (s : Server) (m : ClientMgr) (fd : ℕ)
    (c : Client) (sent : Sender)
    → is_empty game ≡ false
    → lookup_name game m.map_tcp_client ≡ some fd
    → get_tcp_client_by_fd m fd ≡ some c
    → append_send self target pid msgid body (sender_of m.pool c) ≡ ok sent
    → (m' : ClientMgr) × (rpc_call_game self (reg_game_pid (u32 pid) game s) target pid msgid body m
        ≡ ok m')
      × (get_tcp_client m' game ≡ some (with_sender sent c))
      × ((j : ℕ) → (fd ≡ j → ⊥) → get_tcp_client_by_fd m' j ≡ get_tcp_client_by_fd m j)
unfolding rpc_call_game get_tcp_client get_tcp_client_by_fd
rpc_call_game_reaches self game target pid msgid body s m fd c sent full named there e =
    let name = game_of-reg (u32 pid) game s in
    let done = append_to-client self game target pid msgid body m fd c sent named there e in
    (
      record m {
        map_fd_tcp_client = insert_int fd (with_sender sent c) m.map_fd_tcp_client;
        pool = sent.pool;
      },
      rw (rpc_call_game, name, full) done,
      rw (get_tcp_client, named) (lookup_new int_ltb fd (with_sender sent c) m.map_fd_tcp_client),
      λ j other. lookup_old int_ltb fd j (with_sender sent c) m.map_fd_tcp_client other,
    )
