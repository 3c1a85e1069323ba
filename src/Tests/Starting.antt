-- ===== src/Tests/Starting.antt =====
-- The start of a net server from a configuration file with one gate.
use kcpserver_cpp.Common.{
  insert_name, bytes_ltb, ◌≡◌, refl, true, false, some, [], ◌∷◌, ◌++◌, codes, insert_by, c_str, ok,
}
use kcpserver_cpp.Text.{strtok, strtok_from, strstr, starts_with, atoi}
use kcpserver_cpp.Cfg.{NodeCfg, ServerCfg, has_end, select, read_lines, read_line, add_node, fits}
use kcpserver_cpp.Cfg
use kcpserver_cpp.Wire.{encode_buffer, put_text, get_rpc_size}
use kcpserver_cpp.SendQueue.{append_send, current, make_room, put_frame, pop_sendcache}
use kcpserver_cpp.Tcp.Clients.{ClientMgr, create_tcpclient, new_client, do_connect}
use kcpserver_cpp.Net.Thread.{
  not_bound, bound, no_socket, set_name, bind_first, create_and_bind, init_sock,
}
use kcpserver_cpp.Main.Start.{Starting, connect_nodes, init_listen, init_net_listen, start_net}
use kcpserver_cpp.Main.Rounds.{started}
use kcpserver_cpp.Tests.Support.{no_cfg, net_file}
use kcpserver_cpp.Tests.Servers.{no_clients}

abbrev starting : Starting
starting = record {
  addrs = some (no_socket ∷ not_bound 3 ∷ bound 4 ∷ []);
  nonblocking = true;
  listening = true;
  thread = true;
  connecting = λ n. record { sock = 5; mem = []; tries = false ∷ true ∷ [] };
  stack = net_file ++ (0 ∷ []);
  content = net_file;
}

-- The gate is connected, and a TakeProxy waits for it.
abbrev to_gate : ClientMgr
to_gate = record {
  map_tcp_client = (codes "gate1", 5) ∷ [];
  map_fd_tcp_client =
      (
        5,
        record {
          name = codes "gate1";
          ip = codes "127.0.0.1";
          port = 20000;
          sock = 5;
          send_cache_queue = [];
          send_cache = some (encode_buffer (codes "net1") (codes "TakeProxy") 0 0 []);
          receiver = record { recv_buffer = []; recv_offset = 0; que_rpc_obj = [] };
        },
      )
      ∷ [];
  pool = 0;
}

net_starts : start_net starting no_cfg (started false) no_clients ≡ ok (started true, to_gate)
unfolding start_net init_net_listen init_listen init_sock create_and_bind bind_first connect_nodes
    set_name create_tcpclient new_client do_connect insert_name bytes_ltb append_send encode_buffer
    put_text get_rpc_size current make_room put_frame pop_sendcache Cfg.init has_end select
    read_lines read_line add_node fits strtok strtok_from strstr starts_with atoi c_str insert_by
net_starts = refl
