-- ===== src/Net/Ready/Queue.antt =====
-- net.cpp, netServer::queueProcessFun, and the handlers of rpcNetHandle.
use kcpserver_cpp.Common.{
  ℕ, suc, ◌+◌, ◌<◌, ◌^◌, length, ◌≡◌, inl, inr, refl, sym, ap, ◌∙◌, false, none, some, List, [],
  ◌∷◌, ◌==◌, if◌then◌else◌, Bytes, lookup, int_ltb, codes, eq_bytes, u32, none_ne_some,
  Option-cases, IsIn, IsUnique, keys, arith, insert_by-IsUnique, lookup_old, Outcome, ok, Each,
  Each-ok, Each-if, Each-bind,
}
use kcpserver_cpp.Wire.{RpcObj, get_target}
use kcpserver_cpp.SendQueue.{Answer}
use kcpserver_cpp.Tcp.{ReadAnswer}
use kcpserver_cpp.Conn.{Conn}
use kcpserver_cpp.Conn.Identity.{on_read-Keeps}
use kcpserver_cpp.Net.{Server, NetOp, new_conn, data_in, quit_conn}
use kcpserver_cpp.Net.ConnMgr.{
  get_conn, raw_get_conn_by_pid, del_conn, create_conn, create_conn_batch, reg_game_pid,
  chk_conn_timeout,
}
use kcpserver_cpp.Net.ConnMgr.Agreement.{
  IsConsistent, create_conn-maps, create_conn-IsConsistent, del_conn-IsConsistent,
}
use kcpserver_cpp.Tcp.Clients.Threads.Keeping.{handle_all-kept}
use kcpserver_cpp.Net.Queue.{
  calls_in, add_fd, drain, process_queue, read_all, process_reads, queue_process_fun, process,
  on_push_msg, on_push_msg_all, on_force_close, on_reg_game_pid,
}
use kcpserver_cpp.Net.Ready.{
  news, IsReady, apply_events-IsReady, put-IsReady, process_all_write-IsReady, send_msg-IsReady,
  send_msg_all-IsReady,
}
use kcpserver_cpp.Net.Ready.Deleting.{
  del_conn-kept, del_conn-max_sessid, del_conn-none_left, del_conn-distinct, del_conn-IsReady,
  chk_conn_timeout-IsReady,
}

pub create_conn-queue :
    (fd : ℕ) (addr : Bytes) (s : Server) → (create_conn fd addr s).net_queue ≡ s.net_queue
unfolding create_conn
create_conn-queue fd addr s = ground arith

abbrev firsts : List (ℕ × Bytes) → List ℕ
firsts [] = []
firsts ((fd, addr) ∷ rest) = fd ∷ firsts rest

drain-firsts : (ops : List NetOp) (s : Server) → firsts (drain ops s).1 ≡ news ops
unfolding drain
drain-firsts [] s = refl
drain-firsts (new_conn fd addr ∷ ops) s = ap (◌∷◌ fd) (drain-firsts ops s)
drain-firsts (data_in fd ∷ ops) s = drain-firsts ops _
drain-firsts (quit_conn fd ∷ ops) s = drain-firsts ops _

drain-queue :
    (ops : List NetOp) (s : Server) → IsConsistent s → (drain ops s).0.net_queue ≡ s.net_queue
unfolding drain
drain-queue [] s w = refl
drain-queue (new_conn fd addr ∷ ops) s w = drain-queue ops s w
drain-queue (data_in fd ∷ ops) s w =
    drain-queue ops (record s { read_fd_map = add_fd fd s.read_fd_map }) w
drain-queue (quit_conn fd ∷ ops) s w =
    drain-queue ops (del_conn fd false s) (del_conn-IsConsistent fd false s w).0
    ∙ (del_conn-kept fd false s w).0

-- The rest of the queue finds the maps in the same good state, and what is not in use stays so.
drain-IsConsistent :
    (ops : List NetOp) (s : Server)
    → IsConsistent s
    → IsUnique (keys s.conn_fd_map)
    → let s' = (drain ops s).0 in
      IsConsistent s'
      × IsUnique (keys s'.conn_fd_map)
      × ((j : ℕ) → lookup j s.conn_fd_map ≡ none → lookup j s'.conn_fd_map ≡ none)
unfolding drain
drain-IsConsistent [] s w u = (w, u, λ j e. e)
drain-IsConsistent (new_conn fd addr ∷ ops) s w u = drain-IsConsistent ops s w u
drain-IsConsistent (data_in fd ∷ ops) s w u =
    drain-IsConsistent ops (record s { read_fd_map = add_fd fd s.read_fd_map }) w u
drain-IsConsistent (quit_conn fd ∷ ops) s w u =
    let s₁ = del_conn fd false s in
    let (w', u', later) =
      drain-IsConsistent ops s₁ (del_conn-IsConsistent fd false s w).0
        (del_conn-distinct fd false s w u) in
    (w', u', λ j e. later j (del_conn-none_left fd j false s w e))

drain-max_sessid : (ops : List NetOp) (s : Server) → (drain ops s).0.max_sessid ≡ s.max_sessid
unfolding drain
drain-max_sessid [] s = refl
drain-max_sessid (new_conn fd addr ∷ ops) s = drain-max_sessid ops s
drain-max_sessid (data_in fd ∷ ops) s = drain-max_sessid ops _
drain-max_sessid (quit_conn fd ∷ ops) s =
    drain-max_sessid ops (del_conn fd false s) ∙ del_conn-max_sessid fd false s

-- The batch of new connections, each with a descriptor of its own that is not in use.
create_conn_batch-IsConsistent :
    (fresh : List (ℕ × Bytes)) (s : Server)
    → IsConsistent s
    → IsUnique (keys s.conn_fd_map)
    → IsUnique (firsts fresh)
    → ((fd : ℕ) → IsIn fd (firsts fresh) → lookup fd s.conn_fd_map ≡ none)
    → s.net_queue ≡ []
    → s.max_sessid + length (firsts fresh) < 2 ^ 31
    → let s' = create_conn_batch fresh s in
      IsConsistent s'
      × IsUnique (keys s'.conn_fd_map)
      × (s'.net_queue ≡ [])
      × (s'.max_sessid < 2 ^ 31)
unfolding create_conn_batch
create_conn_batch-IsConsistent [] s w u f n q b = (w, u, q, omega arith)
create_conn_batch-IsConsistent ((fd, addr) ∷ rest) s w u (other, f) n q b =
    let free = n fd (inl refl) in
    let (m, fds, next) = create_conn-maps fd addr s in
    let small : u32 (suc s.max_sessid) ≡ suc s.max_sessid = omega arith in
    create_conn_batch-IsConsistent rest (create_conn fd addr s)
      (create_conn-IsConsistent fd addr s w free (omega arith)).0
      (rw fds (insert_by-IsUnique int_ltb fd s.max_sessid s.conn_fd_map u free)) f
      (λ j i. rw fds (
        lookup_old int_ltb fd j s.max_sessid s.conn_fd_map (λ p. other (rw (sym p) at i))
        ∙ n j (inr i)))
      (create_conn-queue fd addr s ∙ q) (rw (next, small) (omega arith))

pub process_queue-IsReady : (s : Server) → IsReady s → IsReady (process_queue s)
unfolding process_queue
process_queue-IsReady s w =
    let s₀ = record s { net_queue = [] } in
    let r = drain s.net_queue s₀ in
    let (w', u', later) = drain-IsConsistent s.net_queue s₀ w.manager w.distinct in
    let fresh = drain-firsts s.net_queue s₀ in
    let (done, u'', empty, few) =
      create_conn_batch-IsConsistent r.1 r.0 w' u' (rw fresh w.unique)
        (λ fd i. later fd (w.unused fd (rw fresh at i))) (drain-queue s.net_queue s₀ w.manager)
        (rw (fresh, drain-max_sessid s.net_queue s₀) w.numbers) in
    record {
      manager = done;
      distinct = u'';
      unused = λ fd i. absurd (rw empty at i);
      unique = rw empty tt;
      numbers = rw empty (omega (arith, few));
    }

-- A connection that is found by its descriptor stands in the other map under its number.
get_conn-pid :
    (s : Server) (fd : ℕ) (c : Conn)
    → IsReady s
    → get_conn s fd ≡ some c
    → lookup c.pid s.conn_map ≡ some c
unfolding get_conn raw_get_conn_by_pid
get_conn-pid s fd c w e = elim (Option-cases (lookup fd s.conn_fd_map)) [
  | inl n ↦ absurd (none_ne_some (rw (n, get_conn) at e))
  | inr (pid, f) ↦
      let there : lookup pid s.conn_map ≡ some c = rw (f, get_conn, raw_get_conn_by_pid) at e in
      let own = (w.manager.by_pid pid c there).0 in ap (λ (x : ℕ). lookup x s.conn_map) own ∙ there
]

module _ {κ} {X : Type 0} (P : X → Type κ) (now : ℕ) (input : ℕ → ReadAnswer)
    (handle : RpcObj → X → Outcome X)
    (keep : (obj : RpcObj) (x : X) → P x → Each P (handle obj x)) where
  pub read_all-IsReady :
      (fds : List ℕ) (x : X) (s : Server)
      → P x
      → IsReady s
      → Each (λ (r : X × Server × List ℕ). P r.0 × IsReady r.1) (read_all handle now input fds x s)
  unfolding read_all
  read_all-IsReady [] x s p w = Each-ok (p, w)
  read_all-IsReady (fd ∷ fds) x s p w = elim (Option-cases (get_conn s fd)) [
    | inl n ↦
        rw (read_all, n)
          (Each-bind {f = λ r. ok (r.0, r.1, fd ∷ r.2)} (read_all-IsReady fds x s p w)
            (λ r k. Each-ok k))
    | inr (c, e) ↦
        rw (read_all, e)
          (Each-bind (on_read-Keeps c.rpc s.is_net now (input fd) c) (λ r k.
            Each-bind (handle_all-kept handle keep (calls_in r.2) x p) (λ x₁ p₁.
              Each-bind {f = λ q. ok (q.0, q.1, if r.0 == 0 then fd ∷ q.2 else q.2)}
                (read_all-IsReady fds x₁ _ p₁ (
                  apply_events-IsReady c.pid r.2 _
                    (put-IsReady s c.pid c r.1 w (get_conn-pid s fd c w e) k)))
                (λ q k'. Each-ok k'))))
  ]

  process_reads-IsReady :
      (x : X) (s : Server)
      → P x
      → IsReady s
      → Each (λ (r : X × Server). P r.0 × IsReady r.1) (process_reads handle now input x s)
  unfolding process_reads
  process_reads-IsReady x s p w =
      Each-bind (read_all-IsReady s.read_fd_map x s p w) (λ r k. Each-ok (k.0, k.1))

-- The handlers keep the maps, also onForceCloseCliConn with its wrong number.
pub process-IsReady :
    (socket : ℕ → List Answer) (obj : RpcObj) (s : Server)
    → IsReady s
    → Each IsReady (process socket obj s)
unfolding process on_push_msg on_push_msg_all on_force_close on_reg_game_pid reg_game_pid
process-IsReady socket obj s w =
    Each-if (eq_bytes (codes "PushMsg2Client") (get_target obj))
      (send_msg-IsReady socket (u32 obj.pid) obj.body s w)
      (Each-if (eq_bytes (codes "PushMsg2ClientAll") (get_target obj))
        (send_msg_all-IsReady socket obj.body s w)
        (Each-if (eq_bytes (codes "ForceCloseCliConn") (get_target obj))
          (Each-ok (del_conn-IsReady (u32 obj.pid) false s w))
          (Each-if (eq_bytes (codes "RegGamePid") (get_target obj)) (Each-ok w) (Each-ok w))))

-- A round of queueProcessFun keeps the maps and the queue in good state: if the maps of the
-- connection manager agree (as in create_conn-IsConsistent), no descriptor has two entries, and the
-- new connections in the queue have different descriptors that are not in use, and if the calls of
-- the other servers keep all that, then it holds again after the events, reads, writes, calls and
-- timeouts of a round that returns, whatever the sockets answer. `P` is what the calls keep beside it.
pub queue_process_fun-IsReady {κ} :
    {X : Type 0} (P : X → Type κ) (now : ℕ) (input : ℕ → ReadAnswer) (socket : ℕ → List Answer)
    (handle : RpcObj → X → Outcome X) (calls : X → Server → Outcome (X × Server)) (x : X)
    (s : Server)
    → ((obj : RpcObj) (y : X) → P y → Each P (handle obj y))
    → ((y : X) (t : Server)
        → P y
        → IsReady t
        → Each (λ (r : X × Server). P r.0 × IsReady r.1) (calls y t))
    → P x
    → IsReady s
    → Each
        (λ (r : X × Server). P r.0 × IsReady r.1)
        (queue_process_fun now input socket handle calls x s)
unfolding queue_process_fun
queue_process_fun-IsReady P now input socket handle calls x s keep more p w =
    Each-bind
      (process_reads-IsReady P now input handle keep x (process_queue s) p
        (process_queue-IsReady s w))
      (λ r₁ k₁. Each-bind (process_all_write-IsReady socket r₁.1 k₁.1) (λ s₂ w₂.
        Each-bind {f = λ r. ok (r.0, chk_conn_timeout now r.1)} (more r₁.0 s₂ k₁.0 w₂)
          (λ r k. Each-ok (k.0, chk_conn_timeout-IsReady now r.1 k.1))))
