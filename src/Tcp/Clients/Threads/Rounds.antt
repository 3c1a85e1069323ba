-- ===== src/Tcp/Clients/Threads/Rounds.antt =====
-- tcpclient.cpp: whole rounds of the main loop's calls and of the writing thread.
use kcpserver_cpp.Common.{
  ℕ, ◌≡◌, inl, inr, sym, ap, ◌∙◌, true, false, Bool-cases, List, [], ◌∷◌, ◌++◌, Bytes, Map, ok,
  hang, ◌>>=◌, both_return, hang-ne-ok, ok-injective,
}
use kcpserver_cpp.SendQueue.{Answer, Dealt, deal_send}
use kcpserver_cpp.Tcp.Clients.{Client, ClientMgr, insert_int, sender_of, with_sender, del_conn}
use kcpserver_cpp.Tcp.Clients.Threads.{deal_clients, process_deal_send}

-- One client of processDealSend, whose `write` does not fail.
deal_clients-step :
    (socket : ℕ → List Answer) (fd : ℕ) (c : Client) (rest : Map Client) (m : ClientMgr) (d : Dealt)
    → deal_send (socket c.sock) (sender_of m.pool c) ≡ ok d
    → d.succ ≡ true
    → deal_clients socket ((fd, c) ∷ rest) m ≡ (
        deal_clients socket rest (record m {
          map_fd_tcp_client = insert_int fd (with_sender d.sender c) m.map_fd_tcp_client;
          pool = d.sender.pool;
        })
        >>= λ r. ok (r.0, (c.sock, d.bytes) ∷ r.1))
unfolding deal_clients
deal_clients-step socket fd c rest m d e s = rw (deal_clients, e, s)

deal_clients_fail :
    (socket : ℕ → List Answer) (fd : ℕ) (c : Client) (rest : Map Client) (m : ClientMgr) (d : Dealt)
    → deal_send (socket c.sock) (sender_of m.pool c) ≡ ok d
    → d.succ ≡ false
    → deal_clients socket ((fd, c) ∷ rest) m ≡ hang
unfolding deal_clients del_conn
deal_clients_fail socket fd c rest m d e s = rw (deal_clients, e, s, del_conn)

after_pool : (m : ClientMgr) (fd : ℕ) (c : Client) (d : Dealt) → ClientMgr
after_pool m fd c d = record m {
  map_fd_tcp_client = insert_int fd (with_sender d.sender c) m.map_fd_tcp_client;
  pool = d.sender.pool;
}

module _ (socket : ℕ → List Answer) (fd : ℕ) (c : Client) (behind : Map Client) where
  deal_clients-hang :
      (front : Map Client) (m m₁ : ClientMgr) (outs : List (ℕ × Bytes)) (d : Dealt)
      → deal_clients socket front m ≡ ok (m₁, outs)
      → deal_send (socket c.sock) (sender_of m₁.pool c) ≡ ok d
      → d.succ ≡ false
      → deal_clients socket (front ++ ((fd, c) ∷ behind)) m ≡ hang
  unfolding deal_clients after_pool del_conn
  deal_clients-hang [] m m₁ outs d e e' s =
      let same = ap (λ (r : ClientMgr × List (ℕ × Bytes)). r.0.pool) (ok-injective e) in
      deal_clients_fail socket fd c behind m d (rw same e') s
  deal_clients-hang ((j, b) ∷ front) m m₁ outs d e e' s =
      let (x, ex, rest) = both_return (deal_send (socket b.sock) (sender_of m.pool b)) _ e in
      elim (Bool-cases x.succ) [
        | inl good ↦
            let e₂ = sym (deal_clients-step socket j b front m x ex good) ∙ e in
            let ((m₂, outs₂), e₃, e₄) =
              both_return (deal_clients socket front (after_pool m j b x)) _ e₂ in
            let same = ap (λ (r : ClientMgr × List (ℕ × Bytes)). r.0.pool) (ok-injective e₄) in
            deal_clients-step socket j b (front ++ ((fd, c) ∷ behind)) m x ex good
            ∙ rw (deal_clients-hang front (after_pool m j b x) m₂ outs₂ d e₃ (rw same e') s)
        | inr bad ↦ absurd (hang-ne-ok (sym (deal_clients_fail socket j b front m x ex bad) ∙ e))
      ]

-- A `write` that fails stops the writing thread for good. If processDealSend comes to a client after
-- those before it were served without an error, and dealSend on this client ends with an error,
-- then processDealSend never returns: it holds the mutex that DelConn wants.
pub process_deal_send_hangs :
    (socket : ℕ → List Answer) (fd : ℕ) (c : Client) (front behind : Map Client) (m m₁ : ClientMgr)
    (outs : List (ℕ × Bytes)) (d : Dealt)
    → m.map_fd_tcp_client ≡ front ++ ((fd, c) ∷ behind)
    → deal_clients socket front m ≡ ok (m₁, outs)
    → deal_send (socket c.sock) (sender_of m₁.pool c) ≡ ok d
    → d.succ ≡ false
    → process_deal_send socket m ≡ hang
unfolding process_deal_send
process_deal_send_hangs socket fd c front behind m m₁ outs d all e e' s =
    ap (λ (cs : Map Client). deal_clients socket cs m) all
    ∙ deal_clients-hang socket fd c behind front m m₁ outs d e e' s
