-- ===== src/Tcp/Clients/Threads/Calls.antt =====
-- tcpclient.cpp, processAllRpcobj: every call that was received reaches its handler once.
use kcpserver_cpp.Common.{
  ℕ, ◌≡◌, inl, inr, refl, sym, ap, ◌∙◌, Option, none, some, List, [], ◌∷◌, ◌++◌, int_ltb,
  lookup_old, IsIn, IsUnique, Option-cases, Outcome, ok, ◌>>=◌, bind_assoc, bind_cong,
}
use kcpserver_cpp.Wire.{RpcObj}
use kcpserver_cpp.Tcp.Clients.{Client, ClientMgr, insert_int, get_tcp_client_by_fd, fds_of}
use kcpserver_cpp.Tcp.Clients.Threads.{handle_all, handle_rpc_obj, handle_fds, process_all_rpcobj}

-- A client without its calls.
abbrev pub emptied : Client → Client
emptied c = record c { receiver = record (c.receiver) { que_rpc_obj = [] } }

abbrev queue_of : Option Client → List RpcObj
queue_of none = []
queue_of (some c) = c.receiver.que_rpc_obj

abbrev put_emptied : ℕ → Client → ClientMgr → ClientMgr
put_emptied fd c m = record m { map_fd_tcp_client = insert_int fd (emptied c) m.map_fd_tcp_client }

abbrev empty_at : ℕ → Option Client → ClientMgr → ClientMgr
empty_at fd none m = m
empty_at fd (some c) m = put_emptied fd c m

-- The calls that wait, client by client, and the clients without them.
abbrev pub waiting : ClientMgr → List ℕ → List RpcObj
waiting m [] = []
waiting m (fd ∷ fds) = queue_of (get_tcp_client_by_fd m fd) ++ waiting m fds

abbrev pub all_emptied : ClientMgr → List ℕ → ClientMgr
all_emptied m [] = m
all_emptied m (fd ∷ fds) = all_emptied (empty_at fd (get_tcp_client_by_fd m fd) m) fds

waiting-other :
    (fd : ℕ) (c : Client) (m : ClientMgr) (fds : List ℕ)
    → (IsIn fd fds → ⊥)
    → waiting (put_emptied fd c m) fds ≡ waiting m fds
unfolding get_tcp_client_by_fd
waiting-other fd c m [] n = refl
waiting-other fd c m (j ∷ fds) n =
    ap (λ (o : Option Client). queue_of o ++ waiting (put_emptied fd c m) fds)
      (lookup_old int_ltb fd j (emptied c) m.map_fd_tcp_client (λ p. n (inl p)))
    ∙ ap (λ (os : List RpcObj). queue_of (get_tcp_client_by_fd m j) ++ os)
        (waiting-other fd c m fds (λ i. n (inr i)))

module _ (m : ClientMgr) (fd : ℕ) (fds : List ℕ) (o : Option Client)
    (e : get_tcp_client_by_fd m fd ≡ o) where
  waiting-cons : waiting m (fd ∷ fds) ≡ queue_of o ++ waiting m fds
  waiting-cons = ap (λ (x : Option Client). queue_of x ++ waiting m fds) e

  all_emptied-cons : all_emptied m (fd ∷ fds) ≡ all_emptied (empty_at fd o m) fds
  all_emptied-cons = ap (λ (x : Option Client). all_emptied (empty_at fd x m) fds) e

module _ {S : Type 0} (handle : RpcObj → S → Outcome S) where
  handle_all-append :
      (xs ys : List RpcObj) (s : S)
      → handle_all handle (xs ++ ys) s ≡ (handle_all handle xs s >>= λ s'. handle_all handle ys s')
  unfolding handle_all
  handle_all-append [] ys s = refl
  handle_all-append (x ∷ xs) ys s =
      bind_cong (handle x s) _ _ (λ s'. handle_all-append xs ys s')
      ∙ sym (bind_assoc (handle x s) _ _)

  -- The calls are handled one after another, and then the clients are without them.
  abbrev pub handled : List RpcObj → ClientMgr → S → Outcome (ClientMgr × S)
  handled objs m s = handle_all handle objs s >>= λ s'. ok (m, s')

  handled-same :
      (objs objs' : List RpcObj) (m m' : ClientMgr) (s : S)
      → objs ≡ objs'
      → m ≡ m'
      → handled objs m s ≡ handled objs' m' s
  handled-same objs objs' m m' s e f =
      ap (λ (os : List RpcObj). handled os m s) e ∙ ap (λ (n : ClientMgr). handled objs' n s) f

  handle_fds-handled :
      (fds : List ℕ) (m : ClientMgr) (s : S)
      → IsUnique fds
      → handle_fds handle fds (m, s) ≡ handled (waiting m fds) (all_emptied m fds) s
  unfolding handle_fds handle_rpc_obj handle_all
  handle_fds-handled [] m s u = refl
  handle_fds-handled (fd ∷ fds) m s (n, u) = elim (Option-cases (get_tcp_client_by_fd m fd)) [
    | inl e ↦
        rw (handle_fds, e) (handle_fds-handled fds m s u)
        ∙ handled-same _ _ _ _ s (sym (waiting-cons m fd fds none e))
            (sym (all_emptied-cons m fd fds none e))
    | inr (c, e) ↦
        let q = c.receiver.que_rpc_obj in
        let m₁ = put_emptied fd c m in
        let ms = all_emptied m₁ fds in
        let one : handle_fds handle (fd ∷ fds) (m, s)
            ≡ (handle_all handle q s >>= λ s'. handle_fds handle fds (m₁, s')) =
          rw (handle_fds, e) (bind_assoc (handle_all handle q s) _ _) in
        let rest : (s' : S) → handle_fds handle fds (m₁, s') ≡ handled (waiting m fds) ms s' = λ s'.
          handle_fds-handled fds m₁ s' u
          ∙ handled-same _ _ ms ms s' (waiting-other fd c m fds n) refl in
        one
        ∙ (bind_cong (handle_all handle q s) _ _ rest
            ∙ (sym (bind_assoc (handle_all handle q s) _ _)
                ∙ (ap (λ (o : Outcome S). o >>= λ s'. ok (ms, s'))
                      (sym (handle_all-append q (waiting m fds) s))
                    ∙ handled-same _ _ _ _ s (sym (waiting-cons m fd fds (some c) e))
                        (sym (all_emptied-cons m fd fds (some c) e)))))
  ]

  -- processAllRpcobj gives every call that was received to its handler once, client by client in
  -- the order of their names, and each client's calls in the order in which they came, if no two
  -- names lead to the same descriptor: the round is the same as one run of the handler over the
  -- calls of all clients in a row, after which the queues of the clients are empty. It fails or
  -- hangs where the handler does.
  pub process_all_rpcobj-handled :
      (m : ClientMgr) (s : S)
      → IsUnique (fds_of m.map_tcp_client)
      → let fds = fds_of m.map_tcp_client in
        process_all_rpcobj handle (m, s) ≡ handled (waiting m fds) (all_emptied m fds) s
  unfolding process_all_rpcobj
  process_all_rpcobj-handled m s u = handle_fds-handled (fds_of m.map_tcp_client) m s u
