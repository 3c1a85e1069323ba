-- ===== src/Net/Ready/Deleting.antt =====
-- connmgr.cpp, DelConn and ChkConnTimeout.
use kcpserver_cpp.Common.{
  ℕ, ◌≡◌, ◌⊎◌, inl, inr, refl, ◌∙◌, Bool, true, none, List, [], ◌∷◌, ◌==◌, Map, lookup, erase,
  lookup-erase, Bool-cases, Option-cases, IsUnique, keys, erase-IsUnique,
}
use kcpserver_cpp.Net.{Server}
use kcpserver_cpp.Net.ConnMgr.{
  raw_get_conn_by_pid, del_conn, del_conns, late, chk_conn_timeout, on_close,
}
use kcpserver_cpp.Net.ConnMgr.Agreement.{IsConsistent, del_conn-IsConsistent}
use kcpserver_cpp.Net.Ready.{IsReady}

-- DelConn keeps the queue, and takes the descriptor out of its map.
pub del_conn-kept :
    (fd : ℕ) (timeout : Bool) (s : Server)
    → IsConsistent s
    → let s' = del_conn fd timeout s in
      (s'.net_queue ≡ s.net_queue)
      × ((s'.conn_fd_map ≡ s.conn_fd_map) ⊎ (s'.conn_fd_map ≡ erase fd s.conn_fd_map))
unfolding del_conn raw_get_conn_by_pid on_close
del_conn-kept fd timeout s w = elim (Option-cases (lookup fd s.conn_fd_map)) [
  | inl n ↦ rw (del_conn, n) (refl, inl refl)
  | inr (pid, e) ↦
      let (c, e', f) = w.by_fd fd pid e in
      rw (del_conn, e, raw_get_conn_by_pid, e', on_close) (refl, inr refl)
]

pub del_conn-max_sessid :
    (fd : ℕ) (timeout : Bool) (s : Server) → (del_conn fd timeout s).max_sessid ≡ s.max_sessid
unfolding del_conn raw_get_conn_by_pid on_close
del_conn-max_sessid fd timeout s = elim (Option-cases (lookup fd s.conn_fd_map)) [
  | inl n ↦ rw (del_conn, n) refl
  | inr (pid, e) ↦ elim (Option-cases (lookup pid s.conn_map)) [
    | inl n ↦ rw (del_conn, e, raw_get_conn_by_pid, n) refl
    | inr (c, e') ↦ rw (del_conn, e, raw_get_conn_by_pid, e', on_close) refl
  ]
]

erased_none : (fd j : ℕ) (m : Map ℕ) → lookup j m ≡ none → lookup j (erase fd m) ≡ none
erased_none fd j m e =
    lookup-erase fd j m ∙ elim (Bool-cases (fd == j)) [ inl t ↦ rw t | inr f ↦ rw f e ]

-- A descriptor that is not in use stays so.
pub del_conn-none_left :
    (fd j : ℕ) (timeout : Bool) (s : Server)
    → IsConsistent s
    → lookup j s.conn_fd_map ≡ none
    → lookup j (del_conn fd timeout s).conn_fd_map ≡ none
del_conn-none_left fd j timeout s w e = elim (del_conn-kept fd timeout s w).1 [
  | inl same ↦ rw same e
  | inr less ↦ rw less (erased_none fd j s.conn_fd_map e)
]

pub del_conn-distinct :
    (fd : ℕ) (timeout : Bool) (s : Server)
    → IsConsistent s
    → IsUnique (keys s.conn_fd_map)
    → IsUnique (keys (del_conn fd timeout s).conn_fd_map)
del_conn-distinct fd timeout s w u = elim (del_conn-kept fd timeout s w).1 [
  | inl same ↦ rw same u
  | inr less ↦ rw less (erase-IsUnique fd s.conn_fd_map u)
]

pub del_conn-IsReady :
    (fd : ℕ) (timeout : Bool) (s : Server) → IsReady s → IsReady (del_conn fd timeout s)
del_conn-IsReady fd timeout s w =
    let queue = (del_conn-kept fd timeout s w.manager).0 in
    record {
      manager = (del_conn-IsConsistent fd timeout s w.manager).0;
      distinct = del_conn-distinct fd timeout s w.manager w.distinct;
      unused = λ j i. del_conn-none_left fd j timeout s w.manager (w.unused j (rw queue at i));
      unique = rw queue w.unique;
      numbers = rw (queue, del_conn-max_sessid fd timeout s) w.numbers;
    }

del_conns-IsReady : (fds : List ℕ) (s : Server) → IsReady s → IsReady (del_conns fds s)
unfolding del_conns
del_conns-IsReady [] s w = w
del_conns-IsReady (fd ∷ fds) s w =
    del_conns-IsReady fds (del_conn fd true s) (del_conn-IsReady fd true s w)

pub chk_conn_timeout-IsReady : (now : ℕ) (s : Server) → IsReady s → IsReady (chk_conn_timeout now s)
unfolding chk_conn_timeout
chk_conn_timeout-IsReady now s w = del_conns-IsReady (late now s s.conn_fd_map) s w
