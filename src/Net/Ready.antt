-- ===== src/Net/Ready.antt =====
-- connmgr.cpp and net.cpp: the maps of the connection manager together with the queue of events.
pub mod Deleting
pub mod Queue
pub mod Overtaking
use kcpserver_cpp.Common.{
  ℕ, suc, ◌+◌, ◌^◌, length, ◌<◌, ◌≡◌, ◌⊎◌, inl, inr, refl, sym, ap, ◌∙◌, Bool, true, false, not,
  Option, none, some, List, [], ◌∷◌, ◌++◌, ◌==◌, if◌then◌else◌, arith, Bytes, Map, lookup, erase,
  lookup_inserted, lookup_new, lookup_old, lookup-erase, lookup_erased, none_ne_some,
  some-injective, eq_of_==, ne_of_neq, Bool-cases, Option-cases, IsIn, IsUnique, keys, AllFound,
  AllFound-refl, erase-IsUnique, Outcome, ok, Each, Each-ok, Each-if, Each-bind,
}
use kcpserver_cpp.SendQueue.{Answer}
use kcpserver_cpp.Conn.{Conn, Event, conn_close, add_write, Sending, send}
use kcpserver_cpp.Conn.Identity.{Keeps, send-Keeps}
use kcpserver_cpp.Net.{
  Server, NetOp, new_conn, data_in, quit_conn, insert_int, apply_event, apply_events,
}
use kcpserver_cpp.Net.ConnMgr.{
  raw_get_conn_by_pid, del_conn, del_conns, late, chk_conn_timeout, send_conn, write_all,
  process_all_write, send_msg, send_all, send_msg_all, on_close,
}
use kcpserver_cpp.Net.ConnMgr.Agreement.{IsManager, IsConsistent, del_conn-IsConsistent}

-- The descriptors of the new connections that wait in the queue.
abbrev pub news : List NetOp → List ℕ
news [] = []
news (new_conn fd addr ∷ ops) = fd ∷ news ops
news (data_in fd ∷ ops) = news ops
news (quit_conn fd ∷ ops) = news ops

-- The maps agree, no descriptor has two entries, each new connection that waits has a descriptor of
-- its own, not in use, and there are numbers left for all of them.
pub record Ready (conns : Map Conn) (fds : Map ℕ) (next : ℕ) (queue : List NetOp) : Type 0 where
  pub manager : IsManager conns fds next
  pub distinct : IsUnique (keys fds)
  pub unused : (fd : ℕ) → IsIn fd (news queue) → lookup fd fds ≡ none
  pub unique : IsUnique (news queue)
  pub numbers : next + length (news queue) < 2 ^ 31

abbrev pub IsReady : Server → Type 0
IsReady s = Ready s.conn_map s.conn_fd_map s.max_sessid s.net_queue

news_quit : (fd : ℕ) (ops : List NetOp) → news (ops ++ (quit_conn fd ∷ [])) ≡ news ops
news_quit fd [] = refl
news_quit fd (new_conn x addr ∷ ops) = ap (◌∷◌ x) (news_quit fd ops)
news_quit fd (data_in x ∷ ops) = news_quit fd ops
news_quit fd (quit_conn x ∷ ops) = news_quit fd ops

pub Ready-quit :
    (conns : Map Conn) (fds : Map ℕ) (next fd : ℕ) (queue : List NetOp)
    → Ready conns fds next queue
    → Ready conns fds next (queue ++ (quit_conn fd ∷ []))
Ready-quit conns fds next fd queue w = record {
  manager = w.manager;
  distinct = w.distinct;
  unused = λ j i. w.unused j (rw (news_quit fd queue) at i);
  unique = rw (news_quit fd queue) w.unique;
  numbers = rw (news_quit fd queue) w.numbers;
}

apply_event-IsReady : (pid : ℕ) (e : Event) (s : Server) → IsReady s → IsReady (apply_event pid e s)
unfolding apply_event
apply_event-IsReady pid (conn_close fd) s w = Ready-quit _ _ _ fd _ w
apply_event-IsReady pid _ s w = w

pub apply_events-IsReady :
    (pid : ℕ) (es : List Event) (s : Server) → IsReady s → IsReady (apply_events pid es s)
unfolding apply_events
apply_events-IsReady pid [] s w = w
apply_events-IsReady pid (e ∷ es) s w =
    apply_events-IsReady pid es (apply_event pid e s) (apply_event-IsReady pid e s w)

-- A connection may take the place of one with the same descriptor and number.
put-IsManager :
    (conns : Map Conn) (fds : Map ℕ) (next pid : ℕ) (c c' : Conn)
    → IsManager conns fds next
    → lookup pid conns ≡ some c
    → Keeps c c'
    → IsManager (insert_int pid c' conns) fds next
put-IsManager conns fds next pid c c' w e k = record {
  by_fd = λ fd q h.
      let (c₀, e₀, f₀) = w.by_fd fd q h in
      elim (Bool-cases (pid == q)) [
        | inl t ↦
            let p = eq_of_== pid q t in
            let one = some-injective (sym e ∙ (ap (λ (x : ℕ). lookup x conns) p ∙ e₀)) in
            (
              c',
              ap (λ (x : ℕ). lookup x (insert_int pid c' conns)) (sym p)
                  ∙ lookup_new _ pid c' conns,
              k.fd_kept ∙ (ap (λ (x : Conn). x.fd) one ∙ f₀),
            )
        | inr f ↦ (c₀, lookup_old _ pid q c' conns (ne_of_neq pid q f) ∙ e₀, f₀)
      ];
  by_pid = λ q x h. elim (lookup_inserted _ pid q c' x conns h) [
    | inl (p, same) ↦
        let (own, back, below) = w.by_pid pid c e in
        (
          ap (λ (y : Conn). y.pid) (sym same) ∙ (k.pid_kept ∙ (own ∙ p)),
          ap (λ (y : ℕ). lookup y fds) (ap (λ (y : Conn). y.fd) (sym same) ∙ k.fd_kept)
              ∙ (back ∙ ap some p),
          omega (arith, p, below),
        )
    | inr there ↦ w.by_pid q x there
  ];
}

pub put-IsReady :
    (s : Server) (pid : ℕ) (c c' : Conn)
    → IsReady s
    → lookup pid s.conn_map ≡ some c
    → Keeps c c'
    → IsReady (record s { conn_map = insert_int pid c' s.conn_map })
put-IsReady s pid c c' w e k = record {
  manager = put-IsManager s.conn_map s.conn_fd_map s.max_sessid pid c c' w.manager e k;
  distinct = w.distinct;
  unused = w.unused;
  unique = w.unique;
  numbers = w.numbers;
}

apply_event-fds :
    (pid : ℕ) (e : Event) (s : Server) → (apply_event pid e s).conn_fd_map ≡ s.conn_fd_map
unfolding apply_event
apply_event-fds pid (conn_close fd) s = refl
apply_event-fds pid _ s = refl

apply_events-fds :
    (pid : ℕ) (es : List Event) (s : Server) → (apply_events pid es s).conn_fd_map ≡ s.conn_fd_map
unfolding apply_events
apply_events-fds pid [] s = refl
apply_events-fds pid (e ∷ es) s =
    apply_events-fds pid es (apply_event pid e s) ∙ apply_event-fds pid e s

send_conn-fds :
    (socket : ℕ → List Answer) (pid : ℕ) (c : Conn) (buf : Option Bytes) (s : Server)
    → Each (λ (s' : Server). s'.conn_fd_map ≡ s.conn_fd_map) (send_conn socket pid c buf s)
unfolding send_conn
send_conn-fds socket pid c buf s =
    Each-bind (send-Keeps (not c.rpc) (socket c.fd) buf c)
      (λ r k. Each-ok (apply_events-fds pid r.events _))

pub send_conn-IsReady :
    (socket : ℕ → List Answer) (pid : ℕ) (c : Conn) (buf : Option Bytes) (s : Server)
    → IsReady s
    → lookup pid s.conn_map ≡ some c
    → Each IsReady (send_conn socket pid c buf s)
unfolding send_conn
send_conn-IsReady socket pid c buf s w e =
    Each-bind (send-Keeps (not c.rpc) (socket c.fd) buf c)
      (λ r k. Each-ok (apply_events-IsReady pid r.events _ (put-IsReady s pid c r.conn w e k)))

write_all-IsReady :
    (socket : ℕ → List Answer) (m : Map ℕ) (s : Server)
    → IsReady s
    → Each IsReady (write_all socket m s)
unfolding write_all raw_get_conn_by_pid
write_all-IsReady socket [] s w = Each-ok w
write_all-IsReady socket ((fd, pid) ∷ rest) s w = elim (Option-cases (lookup pid s.conn_map)) [
  | inl n ↦ rw (write_all, raw_get_conn_by_pid, n) (write_all-IsReady socket rest _ w)
  | inr (c, e) ↦
      rw (write_all, raw_get_conn_by_pid, e)
        (Each-bind (send_conn-IsReady socket pid c none s w e)
          (λ s' w'. write_all-IsReady socket rest _ w'))
]

pub process_all_write-IsReady :
    (socket : ℕ → List Answer) (s : Server) → IsReady s → Each IsReady (process_all_write socket s)
unfolding process_all_write
process_all_write-IsReady socket s w = write_all-IsReady socket s.write_fd_map s w

pub send_msg-IsReady :
    (socket : ℕ → List Answer) (pid : ℕ) (buf : Bytes) (s : Server)
    → IsReady s
    → Each IsReady (send_msg socket pid buf s)
unfolding send_msg raw_get_conn_by_pid
send_msg-IsReady socket pid buf s w = elim (Option-cases (lookup pid s.conn_map)) [
  | inl n ↦ rw (send_msg, raw_get_conn_by_pid, n) (Each-ok w)
  | inr (c, e) ↦
      rw (send_msg, raw_get_conn_by_pid, e) (send_conn-IsReady socket pid c (some buf) s w e)
]

-- No entry of SendMsgAll's loop is without a connection, so none is erased.
send_all-IsReady :
    (socket : ℕ → List Answer) (buf : Bytes) (m : Map ℕ) (s : Server)
    → IsReady s
    → AllFound m s.conn_fd_map
    → Each IsReady (send_all socket buf m s)
unfolding send_all raw_get_conn_by_pid
send_all-IsReady socket buf [] s w a = Each-ok w
send_all-IsReady socket buf ((fd, pid) ∷ rest) s w (e, a) =
    let (c, e', f) = w.manager.by_fd fd pid e in
    let sent : Each (λ (s' : Server). IsReady s' × (s'.conn_fd_map ≡ s.conn_fd_map))
        (send_conn socket pid c (some buf) s) =
      record {
        holds = λ s' h. (
          (send_conn-IsReady socket pid c (some buf) s w e').holds s' h,
          (send_conn-fds socket pid c (some buf) s).holds s' h,
        );
      } in
    rw (send_all, raw_get_conn_by_pid, e')
      (Each-bind sent (λ s' k. send_all-IsReady socket buf rest s' k.0 (rw k.1 a)))

pub send_msg_all-IsReady :
    (socket : ℕ → List Answer) (buf : Bytes) (s : Server)
    → IsReady s
    → Each IsReady (send_msg_all socket buf s)
unfolding send_msg_all
send_msg_all-IsReady socket buf s w =
    send_all-IsReady socket buf s.conn_fd_map s w (AllFound-refl s.conn_fd_map w.distinct)
