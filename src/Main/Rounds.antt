-- ===== src/Main/Rounds.antt =====
-- main.cpp and net.cpp: the net server as its epoll thread and its main loop run it.
use kcpserver_cpp.Common.{
  ℕ, suc, ◌+◌, ◌<◌, ◌^◌, length, length-append, arith, ◌≡◌, refl, ap, ◌∙◌, inl, inr, Bool, none,
  some, List, [], ◌∷◌, ◌++◌, Bytes, lookup, IsIn, IsUnique-append, IsIn-append, ok, Each, Each-ok,
  Each-if, Each-abort, Each-map, append-nil, none_ne_some,
}
use kcpserver_cpp.Tcp.Clients.{ClientMgr}
use kcpserver_cpp.Net.{Server, NetOp, new_conn, data_in, quit_conn}
use kcpserver_cpp.Net.Queue.{process}
use kcpserver_cpp.Net.Ready.{news, IsReady, Ready-quit}
use kcpserver_cpp.Net.Ready.Queue.{process-IsReady, queue_process_fun-IsReady}
use kcpserver_cpp.Net.Thread.{append_data_in, append_conn_new, append_conn_close, append_st}
use kcpserver_cpp.Tcp.Clients.Threads.Keeping.{process_all_rpcobj-kept}
use kcpserver_cpp.Main.{Io, net_round, no_calls}

net_round-IsReady :
    (now : ℕ) (io : Io) (m : ClientMgr) (s : Server)
    → IsReady s
    → Each (λ (r : ClientMgr × Server). IsReady r.1) (net_round now io (m, s))
unfolding net_round
net_round-IsReady now io m s w =
    Each-map (λ r k. k.1)
      (queue_process_fun-IsReady (λ m'. Unit {0}) now io.read io.write no_calls _ m s
        (λ obj x p. Each-abort)
        (λ x t p w'.
          Each-map (λ r k. (tt, k))
            (process_all_rpcobj-kept (process io.write) (process-IsReady io.write) x t w'))
        tt w)

-- A net server that has just started.
abbrev pub started : Bool → Server
started net = record {
  is_net = net;
  conn_map = [];
  conn_fd_map = [];
  conn_pid_game_map = [];
  write_fd_map = [];
  name_fd_map = [];
  max_sessid = 1;
  rpc_inst = none;
  net_queue = [];
  read_fd_map = [];
  outs = [];
}

-- The states that a server can come to, as the epoll thread and the main loop take turns. The
-- system gives a new connection a descriptor that is not open, so neither a connection nor an entry
-- of the queue has it; the numbers of the sessions stay in an `int`. The other threads may change the clients between the rounds.
pub data Reached : Server → Type 0 where
  start : (net : Bool) → Reached (started net)
  accept :
      {s s' : Server} (fd : ℕ) (host port : Bytes)
      → Reached s
      → lookup fd s.conn_fd_map ≡ none
      → (IsIn fd (news s.net_queue) → ⊥)
      → suc (s.max_sessid + length (news s.net_queue)) < 2 ^ 31
      → append_conn_new fd host port s ≡ ok s'
      → Reached s'
  data_come : {s : Server} (fd : ℕ) → Reached s → Reached (append_data_in fd s)
  hang_up : {s : Server} (fd : ℕ) → Reached s → Reached (append_conn_close fd s)
  round :
      {s s' : Server} (m m' : ClientMgr) (now : ℕ) (io : Io)
      → Reached s
      → net_round now io (m, s) ≡ ok (m', s')
      → Reached s'

pub nothing_found {ℓ} : {V : Type ℓ} (k : ℕ) (v : V) → lookup k [] ≡ some v → ⊥
unfolding lookup
nothing_found k v e = none_ne_some e

pub started-IsReady : (net : Bool) → IsReady (started net)
started-IsReady net = record {
  manager = record {
    by_fd = λ fd pid h. absurd (nothing_found fd pid h);
    by_pid = λ pid c h. absurd (nothing_found pid c h);
  };
  distinct = tt;
  unused = λ fd i. absurd i;
  unique = tt;
  numbers = omega arith;
}

news-append : (ops : List NetOp) (op : NetOp) → news (ops ++ (op ∷ [])) ≡ news ops ++ news (op ∷ [])
news-append [] op = refl
news-append (new_conn fd addr ∷ ops) op = ap (◌∷◌ fd) (news-append ops op)
news-append (data_in fd ∷ ops) op = news-append ops op
news-append (quit_conn fd ∷ ops) op = news-append ops op

pub accepted-IsReady :
    (fd : ℕ) (host port : Bytes) (s : Server)
    → IsReady s
    → lookup fd s.conn_fd_map ≡ none
    → (IsIn fd (news s.net_queue) → ⊥)
    → suc (s.max_sessid + length (news s.net_queue)) < 2 ^ 31
    → Each IsReady (append_conn_new fd host port s)
unfolding append_conn_new append_st
accepted-IsReady fd host port s w free other few =
    let more = news-append s.net_queue (new_conn fd (host ++ (b':' ∷ port))) in
    Each-if _
      (Each-ok (record {
        manager = w.manager;
        distinct = w.distinct;
        unused = λ j i. elim (IsIn-append j fd (news s.net_queue) (rw more at i)) [
          | inl there ↦ w.unused j there
          | inr same ↦ rw same free
        ];
        unique = rw more (IsUnique-append fd (news s.net_queue) w.unique other);
        numbers = rw more (omega (arith, length-append (news s.net_queue) (fd ∷ [])));
      }))
      Each-abort

pub data_come-IsReady : (fd : ℕ) (s : Server) → IsReady s → IsReady (append_data_in fd s)
unfolding append_data_in append_st
data_come-IsReady fd s w =
    let more = news-append s.net_queue (data_in fd) ∙ append-nil _ in
    record {
      manager = w.manager;
      distinct = w.distinct;
      unused = λ j i. w.unused j (rw more at i);
      unique = rw more w.unique;
      numbers = rw more w.numbers;
    }

pub hang_up-IsReady : (fd : ℕ) (s : Server) → IsReady s → IsReady (append_conn_close fd s)
unfolding append_conn_close append_st
hang_up-IsReady fd s w = Ready-quit _ _ _ fd _ w

-- In every state that a net server comes to, as connections arrive, have data and are closed, and
-- rounds of the main loop run with any answers of the sockets and any calls of the other servers,
-- the maps of the connection manager agree, no descriptor has two entries, and the new connections
-- in the queue have different descriptors that are not in use, given that accept gives only
-- descriptors that neither a connection nor an entry of the queue has, and only as long as the next
-- number and the connections that wait are together less than 2 ^ 31 - 1.
pub Reached-IsReady : {s : Server} → Reached s → IsReady s
Reached-IsReady (start net) = started-IsReady net
Reached-IsReady (accept {s} {s'} fd host port r free other few e) =
    (accepted-IsReady fd host port s (Reached-IsReady r) free other few).holds s' e
Reached-IsReady (data_come {s} fd r) = data_come-IsReady fd s (Reached-IsReady r)
Reached-IsReady (hang_up {s} fd r) = hang_up-IsReady fd s (Reached-IsReady r)
Reached-IsReady (round {s} {s'} m m' now io r e) =
    (net_round-IsReady now io m s (Reached-IsReady r)).holds (m', s') e
