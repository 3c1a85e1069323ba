-- ===== src/Tests/Support.antt =====
-- The configuration, the log and the counters.
use kcpserver_cpp.Common.{
  ◌↔◌, ◌≢◌, ◌*◌, ◌≡◌, refl, true, some, List, [], ◌∷◌, ◌++◌, Bytes, codes, arith, ok, lookup,
  insert_by, c_str,
}
use kcpserver_cpp.Text.{strtok, strtok_from, strstr, starts_with, decimal, decimal_from}
use kcpserver_cpp.Text.Tokens.{lacks-Lacks}
use kcpserver_cpp.Cfg.{
  NodeCfg, ServerCfg, init, has_end, select, read_lines, read_line, add_node, fits,
}
use kcpserver_cpp.Cfg.Reading.{file_text, IsNode, init_reads}
use kcpserver_cpp.Log.{Logger, line_of, thread_round}
use kcpserver_cpp.Log.Files.{Action, log, round, run, written, text_of, log_refines}
use kcpserver_cpp.Qps.{
  new_mgr, of_net, add_qps, reset, fixed, hundredths, get_num_str, get_num_str_long, dump_qps_info,
}
use kcpserver_cpp.Qps.Counting.{updates, get_num_str_agrees, counted_since_dump}

abbrev pub no_cfg : ServerCfg
no_cfg = record { listen_port = []; node_lst = [] }

abbrev node : Bytes → Bytes → Bytes → NodeCfg
node name ip port = record { node_name = name; ip = ip; port = port }

-- conf/cfg.ini without its comments in front.
abbrev ini : Bytes
ini =
    codes
      "#all\nstart_net_cfg\n[1]\n11009\ngate1,127.0.0.1,10000\n[2]true\n21009\ngate1,127.0.0.1,20000\ngame1,127.0.0.1,21020\n[3]\n31009\ngame2,127.0.0.1,31021\n\n#game\nstart_game_cfg\n[1]true\n#for listen\n21020\ngate1,127.0.0.1,20000\nkcp,0.0.0.0,10021\n[2]\n21021\nkcp,0.0.0.0,10022\n"

init_game :
    init (ini ++ (0 ∷ [])) (codes "game") ini no_cfg
    ≡ ok (record {
      listen_port = codes "21020";
      node_lst =
          node (codes "gate1") (codes "127.0.0.1") (codes "20000")
          ∷ node (codes "kcp") (codes "0.0.0.0") (codes "10021")
          ∷ [];
    })
unfolding init has_end select read_lines read_line add_node fits strtok strtok_from strstr
    starts_with c_str
init_game = refl

abbrev gate : NodeCfg
gate = node (codes "gate1") (codes "127.0.0.1") (codes "20000")

gate-IsNode : IsNode gate
unfolding fits strstr starts_with
gate-IsNode = record {
  named = (refl, lacks-Lacks b',' (codes "gate1") refl, lacks-Lacks b'\n' (codes "gate1") refl);
  addressed =
      (refl, lacks-Lacks b',' (codes "127.0.0.1") refl, lacks-Lacks b'\n' (codes "127.0.0.1") refl);
  ported = (refl, lacks-Lacks b',' (codes "20000") refl, lacks-Lacks b'\n' (codes "20000") refl);
  marked = refl;
  kept = refl;
}

abbrev pub net_file : Bytes
net_file = file_text (codes "net") (codes "21009") (gate ∷ [])

init_reads_example :
    init (net_file ++ (0 ∷ [])) (codes "net") net_file no_cfg
    ≡ ok (record { listen_port = codes "21009"; node_lst = gate ∷ [] })
unfolding fits strstr starts_with
init_reads_example =
    init_reads (net_file ++ (0 ∷ [])) [] (codes "net") (codes "21009") (gate ∷ []) no_cfg refl
      (omega arith) (lacks-Lacks b'\n' (codes "net") refl) refl
      (lacks-Lacks b'\n' (codes "21009") refl) refl refl (refl, refl, refl) (gate-IsNode, tt)

abbrev fresh_log : Logger
fresh_log = record {
  queue_lst = [];
  pool = 2048;
  file = some [];
  closed_files = [];
  ct = 268435455;
}

abbrev calls : List Action
calls =
    log (codes "1 ") (codes "a")
    ∷ log (codes "2 ") (codes "b")
    ∷ round
    ∷ log (codes "3 ") (codes "c")
    ∷ []

log_refines_example :
    (l' : Logger) × (run calls fresh_log ≡ ok l')
    × (written l' ++ text_of l'.queue_lst ≡ codes "1 a\n2 b\n3 c\n")
    × ((l'' : Logger) × (thread_round true l' ≡ ok l'')
        × (written l'' ≡ codes "1 a\n2 b\n3 c\n")
        × (l''.queue_lst ≡ []))
unfolding line_of c_str
log_refines_example = log_refines calls [] fresh_log refl

get_num_str_agrees_example : (get_num_str 1500 ≡ get_num_str_long 1500) ↔ (1500 ≢ 1024 * 1024)
get_num_str_agrees_example = get_num_str_agrees 1500 (omega arith)

-- One mebibyte is where the two versions differ.
get_num_str_mega :
    (get_num_str 1500 ≡ codes "1.46k")
    × (get_num_str (1024 * 1024) ≡ codes "1048576")
    × (get_num_str_long (1024 * 1024) ≡ codes "1.00M")
unfolding get_num_str get_num_str_long fixed hundredths decimal decimal_from
get_num_str_mega = (refl, refl, refl)

counted_since_dump_example :
    lookup 2
      (updates
        ((2, 7) ∷ (1, 9) ∷ (2, 0) ∷ (2, 5) ∷ [])
        (dump_qps_info 5000 (of_net 3) (new_mgr true))).qps_map
    ≡ some (record { info = codes "rpcSend"; count = 2; size = 12 })
unfolding new_mgr add_qps reset lookup insert_by
counted_since_dump_example =
    counted_since_dump 2 5000 (of_net 3) ((2, 7) ∷ (1, 9) ∷ (2, 0) ∷ (2, 5) ∷ []) (new_mgr true)
      (record { info = codes "rpcSend"; count = 0; size = 0 }) refl (omega arith)
