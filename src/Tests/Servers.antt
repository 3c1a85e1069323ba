-- ===== src/Tests/Servers.antt =====
-- The net server with its threads, and datagrams at the game server.
use kcpserver_cpp.Common.{
  ℕ, ◌==◌, if◌then◌else◌, arith, ◌≡◌, refl, true, false, none, some, [], ◌∷◌, codes, lookup, ok,
}
use kcpserver_cpp.Tcp.Clients.{ClientMgr, fds_of}
use kcpserver_cpp.Tcp.Clients.Threads.{process_all_rpcobj, handle_fds}
use kcpserver_cpp.Tcp
use kcpserver_cpp.Conn.{is_timeout}
use kcpserver_cpp.Net.{Server, new_conn, quit_conn}
use kcpserver_cpp.Net.ConnMgr.{
  get_conn, process_all_write, write_all, chk_conn_timeout, late, del_conns, create_conn_batch,
}
use kcpserver_cpp.Net.ConnMgr.Agreement.{created}
use kcpserver_cpp.Net.Queue.{
  process_queue, drain, add_fd, remove_fd, remove_fds, read_all, process_reads, queue_process_fun,
}
use kcpserver_cpp.Net.Ready.{IsReady}
use kcpserver_cpp.Net.Ready.Overtaking.{quit_overtakes_new}
use kcpserver_cpp.Net.Thread.{append_conn_new, append_conn_close, append_data_in, append_st}
use kcpserver_cpp.Main.{Io, net_round}
use kcpserver_cpp.Main.Rounds.{
  started, Reached, start, accept, data_come, hang_up, round, Reached-IsReady,
}

abbrev pub no_clients : ClientMgr
no_clients = record { map_tcp_client = []; map_fd_tcp_client = []; pool = 0 }

abbrev silent : Io
silent = record { read = λ fd. Tcp.eagain; write = λ fd. []; inbox = λ a. none }

-- Data for a descriptor that no connection has is forgotten in the round.
stray_data :
    net_round 1000 silent (no_clients, append_data_in 7 (started true))
    ≡ ok (no_clients, started true)
unfolding net_round append_data_in append_st queue_process_fun process_queue drain add_fd
    create_conn_batch process_reads read_all get_conn lookup remove_fds remove_fd process_all_write
    write_all process_all_rpcobj handle_fds chk_conn_timeout late del_conns fds_of
stray_data = refl

abbrev hung_up : Server
hung_up = record (started true) { net_queue = new_conn 5 (codes "h:9") ∷ quit_conn 5 ∷ [] }

Reached-hung_up : Reached hung_up
unfolding append_conn_new append_conn_close append_st lookup
Reached-hung_up = hang_up 5 (
    accept 5 (codes "h") (codes "9")
      (round no_clients no_clients 1000 silent (data_come 7 (start true)) stray_data) refl (λ i. i)
      (omega arith) refl)

Reached-IsReady_example : IsReady hung_up
Reached-IsReady_example = Reached-IsReady Reached-hung_up

quit_overtakes_new_example :
    ((j : ℕ)
      → get_conn (process_queue hung_up) j
        ≡ (if 5 == j then some (created 5 hung_up) else get_conn hung_up j))
    × ((process_queue hung_up).net_queue ≡ [])
    × ((now : ℕ) → is_timeout now (created 5 hung_up) ≡ false)
quit_overtakes_new_example =
    quit_overtakes_new 5 (codes "h:9") hung_up (Reached-IsReady Reached-hung_up) refl
