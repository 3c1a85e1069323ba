-- ===== src/Tcp/Clients/Threads/Keeping.antt =====
-- tcpclient.cpp, handleRpcObj and processAllRpcobj: what every call keeps, a round of calls keeps.
use kcpserver_cpp.Common.{
  ℕ, inl, inr, List, [], ◌∷◌, Option-cases, Outcome, Each, Each-ok, Each-bind,
}
use kcpserver_cpp.Wire.{RpcObj}
use kcpserver_cpp.Tcp.Clients.{ClientMgr, get_tcp_client_by_fd, fds_of}
use kcpserver_cpp.Tcp.Clients.Threads.{handle_all, handle_rpc_obj, handle_fds, process_all_rpcobj}

module _ {κ} {S : Type 0} {P : S → Type κ} (handle : RpcObj → S → Outcome S)
    (keep : (obj : RpcObj) (s : S) → P s → Each P (handle obj s)) where
  pub handle_all-kept : (objs : List RpcObj) (s : S) → P s → Each P (handle_all handle objs s)
  unfolding handle_all
  handle_all-kept [] s p = Each-ok p
  handle_all-kept (obj ∷ objs) s p = Each-bind (keep obj s p) (λ s' p'. handle_all-kept objs s' p')

  handle_fds-kept :
      (fds : List ℕ) (m : ClientMgr) (s : S)
      → P s
      → Each (λ (r : ClientMgr × S). P r.1) (handle_fds handle fds (m, s))
  unfolding handle_fds handle_rpc_obj
  handle_fds-kept [] m s p = Each-ok p
  handle_fds-kept (fd ∷ fds) m s p = elim (Option-cases (get_tcp_client_by_fd m fd)) [
    | inl n ↦ rw (handle_fds, n) (handle_fds-kept fds m s p)
    | inr (c, e) ↦
        let run : Each (λ (r : ClientMgr × S). P r.1) (handle_rpc_obj handle fd c (m, s)) =
          Each-bind (handle_all-kept c.receiver.que_rpc_obj s p) (λ s' p'. Each-ok p') in
        rw (handle_fds, e) (Each-bind run (λ r p'. handle_fds-kept fds r.0 r.1 p'))
  ]

  pub process_all_rpcobj-kept :
      (m : ClientMgr) (s : S)
      → P s
      → Each (λ (r : ClientMgr × S). P r.1) (process_all_rpcobj handle (m, s))
  unfolding process_all_rpcobj
  process_all_rpcobj-kept m s p = handle_fds-kept (fds_of m.map_tcp_client) m s p
