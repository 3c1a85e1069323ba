-- ===== src/Net/Ready/Overtaking.antt =====
-- net.cpp, netServer::queueProcessFun: the end of a connection that comes in the same round as its
-- beginning.
use kcpserver_cpp.Common.{
  ℕ, suc, ◌+◌, ◌<◌, ◌^◌, arith, ◌==◌, if◌then◌else◌, ◌≡◌, inl, refl, ap, ◌∙◌, false, Option, none,
  some, List, [], ◌∷◌, Bytes, lookup,
}
use kcpserver_cpp.Conn.{is_timeout}
use kcpserver_cpp.Conn
use kcpserver_cpp.Net.{Server, NetOp, new_conn, quit_conn}
use kcpserver_cpp.Net.ConnMgr.{get_conn, raw_get_conn_by_pid, create_conn, create_conn_batch}
use kcpserver_cpp.Net.ConnMgr.Agreement.{created, create_conn-IsConsistent, del_conn-none}
use kcpserver_cpp.Net.Queue.{drain, process_queue}
use kcpserver_cpp.Net.Ready.{IsReady}
use kcpserver_cpp.Net.Ready.Queue.{create_conn-queue}

process_queue_both :
    (fd : ℕ) (addr : Bytes) (s : Server)
    → lookup fd s.conn_fd_map ≡ none
    → s.net_queue ≡ new_conn fd addr ∷ quit_conn fd ∷ []
    → process_queue s ≡ create_conn fd addr (record s { net_queue = [] })
unfolding process_queue drain create_conn_batch
process_queue_both fd addr s free q =
    let s₀ = record s { net_queue = [] } in
    ap (λ (ops : List NetOp). create_conn_batch (drain ops s₀).1 (drain ops s₀).0) q
    ∙ ap (create_conn fd addr) (del_conn-none fd false s₀ free)

emptied_finds : (s : Server) (j : ℕ) → get_conn (record s { net_queue = [] }) j ≡ get_conn s j
unfolding get_conn raw_get_conn_by_pid
emptied_finds s j = refl

few :
    (fd : ℕ) (addr : Bytes) (s : Server)
    → IsReady s
    → s.net_queue ≡ new_conn fd addr ∷ quit_conn fd ∷ []
    → suc s.max_sessid < 2 ^ 32
few fd addr s w q = let left : s.max_sessid + 1 < 2 ^ 31 = rw q at w.numbers in omega arith

-- A connection that ends in the round in which it begins is left behind. If the server is in good
-- state and the queue holds a new connection and then its end, processing the queue makes the
-- connection: it is found by its descriptor, and every other descriptor leads to what it led to
-- before; the queue is empty, so no further end of it comes; and the new connection, from which
-- nothing was read, is within its time limit at every time.
pub quit_overtakes_new :
    (fd : ℕ) (addr : Bytes) (s : Server)
    → IsReady s
    → s.net_queue ≡ new_conn fd addr ∷ quit_conn fd ∷ []
    → let s' = process_queue s in
      ((j : ℕ) → get_conn s' j ≡ (if fd == j then some (created fd s) else get_conn s j))
      × (s'.net_queue ≡ [])
      × ((now : ℕ) → is_timeout now (created fd s) ≡ false)
unfolding is_timeout Conn.new_conn
quit_overtakes_new fd addr s w q =
    let s₀ = record s { net_queue = [] } in
    let free = w.unused fd (rw q (inl refl)) in
    let both = process_queue_both fd addr s free q in
    let found = (create_conn-IsConsistent fd addr s₀ w.manager free (few fd addr s w q)).1 in
    (
      λ j.
          ap (λ (x : Server). get_conn x j) both
          ∙ (found j
              ∙ ap (λ (x : Option Conn.Conn). if fd == j then some (created fd s) else x)
                  (emptied_finds s j)),
      rw both (create_conn-queue fd addr s₀),
      λ now. refl,
    )
