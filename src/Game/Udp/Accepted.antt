-- ===== src/Game/Udp/Accepted.antt =====
-- kcpsess/sessServer.cpp, KCPServer::acceptConn: the sessions that the datagrams make.
use kcpserver_cpp.Common.{
  ℕ, suc, ◌+◌, ◌^◌, ◌<◌, ◌≡◌, refl, sym, ap, ◌∙◌, inl, inr, some, List, [], ◌∷◌, ◌++◌, ◌==◌, arith,
  length, take, lookup, lookup_old, neq_false, true, IsIn, ok,
}
use mathlib.Core.Path.{subst}
use kcpserver_cpp.Game.State.{Game, KcpServer, kcp_input, emit}
use kcpserver_cpp.Game.Kcp.{create_conn, raw_get_conn}
use kcpserver_cpp.Game.Kcp.Sessions.{IsServer}
use kcpserver_cpp.Game.Kcp.Creation.{create_conn-IsServer}
use kcpserver_cpp.Game.Udp.{Arrival, accept_one, accept_conn, read_buff_size}
use kcpserver_cpp.Game.Udp.Accepting.{AllFull, IsShort, create_conn-sess_id}
use kcpserver_cpp.Game.Udp.Agreement.{
  clifds, IsOpen, same_kcp-IsOpen, create_conn-IsOpen, create_conn-map_conn,
}

-- The clients of the datagrams have sessions with the numbers behind `n`, in the order of the
-- datagrams: the client's descriptor leads to the session, and so does the number.
abbrev pub HaveSessions : List Arrival → ℕ → Game → Type 0
HaveSessions [] n g = Unit {0}
HaveSessions (a ∷ more) n g =
    ((c : ℕ) × (lookup a.clifd g.kcp.map_conn ≡ some c) × (raw_get_conn g (suc n) ≡ some c))
    × HaveSessions more (suc n) g

-- The first of the waiting datagrams is taken, and makes a session.
abbrev pub accepted : ℕ → Arrival → Game → Game
accepted now a g =
    let bs = take read_buff_size a.bytes in
    let r = create_conn now a.clifd bs g in emit (kcp_input r.1 bs) r.0

accepted-kcp :
    (now : ℕ) (a : Arrival) (g : Game)
    → (accepted now a g).kcp ≡ (create_conn now a.clifd (take read_buff_size a.bytes) g).0.kcp
unfolding emit
accepted-kcp now a g = refl

raw_get_conn-same : (g h : Game) (id : ℕ) → g.kcp ≡ h.kcp → raw_get_conn g id ≡ raw_get_conn h id
unfolding raw_get_conn
raw_get_conn-same g h id e = ap (λ (s : KcpServer). lookup id s.map_sess_fd) e

module _ (now : ℕ) (a : Arrival) (more : List Arrival) (g : Game) (w : IsOpen g (a ∷ more)) where
  small : suc g.kcp.sess_id < 2 ^ 32
  small = omega (arith, w.numbers)

  accepted-IsOpen : IsOpen (accepted now a g) more
  accepted-IsOpen =
      let bs = take read_buff_size a.bytes in
      same_kcp-IsOpen (create_conn now a.clifd bs g).0 (accepted now a g) more
        (sym (accepted-kcp now a g)) (create_conn-IsOpen now a bs more g w)

  accepted-sess_id : (accepted now a g).kcp.sess_id ≡ suc g.kcp.sess_id
  accepted-sess_id =
      ap (λ (s : KcpServer). s.sess_id) (accepted-kcp now a g)
      ∙ create_conn-sess_id now a.clifd (take read_buff_size a.bytes) g

  -- The new session is found by its descriptor and its number.
  accepted_found :
      (c : ℕ) × (lookup a.clifd (accepted now a g).kcp.map_conn ≡ some c)
      × (raw_get_conn (accepted now a g) (suc g.kcp.sess_id) ≡ some c)
  accepted_found =
      let bs = take read_buff_size a.bytes in
      let r = create_conn now a.clifd bs g in
      let (agree, by_fd, by_id) =
        create_conn-IsServer now a.clifd bs g w.agree (w.new a.clifd (inl refl)) small in
      let same : (suc g.kcp.sess_id == suc g.kcp.sess_id) ≡ true = ground arith in
      (
        r.1,
        ap (λ (s : KcpServer). lookup a.clifd s.map_conn) (accepted-kcp now a g) ∙ by_fd,
        raw_get_conn-same (accepted now a g) r.0 (suc g.kcp.sess_id) (accepted-kcp now a g)
            ∙ (by_id (suc g.kcp.sess_id) ∙ rw same refl),
      )

  -- The sessions that are there are found as before.
  accepted_keeps_fd :
      (fd : ℕ)
      → (a.clifd ≡ fd → ⊥)
      → lookup fd (accepted now a g).kcp.map_conn ≡ lookup fd g.kcp.map_conn
  accepted_keeps_fd fd n =
      let bs = take read_buff_size a.bytes in
      ap (λ (s : KcpServer). lookup fd s.map_conn) (accepted-kcp now a g)
      ∙ (ap (lookup fd) (create_conn-map_conn now a.clifd bs g)
          ∙ lookup_old _ a.clifd fd _ g.kcp.map_conn n)

  accepted_keeps_id :
      (id : ℕ)
      → (suc g.kcp.sess_id ≡ id → ⊥)
      → raw_get_conn (accepted now a g) id ≡ raw_get_conn g id
  accepted_keeps_id id n =
      let bs = take read_buff_size a.bytes in
      let (agree, by_fd, by_id) =
        create_conn-IsServer now a.clifd bs g w.agree (w.new a.clifd (inl refl)) small in
      raw_get_conn-same (accepted now a g) (create_conn now a.clifd bs g).0 id
        (accepted-kcp now a g)
      ∙ (by_id id ∙ rw (neq_false (suc g.kcp.sess_id) id n) refl)

accept_one-accepted :
    (now : ℕ) (a : Arrival) (g : Game) → a.bound ≡ true → accept_one now a g ≡ ok (accepted now a g)
unfolding accept_one
accept_one-accepted now a g b = rw b refl

-- A datagram that is too short for a head of KCP stops acceptConn. If the server's maps and its pool
-- agree, datagrams of at least 24 bytes wait at the listening socket, whose clients' sockets are new,
-- different and can be bound, with numbers of sessions below 2 ^ 32, then a shorter datagram that is
-- not empty, and then others, acceptConn returns and leaves all of the others at the socket; each of
-- the first has a session, which its descriptor and its number lead to, with the numbers in the
-- order of the datagrams; by every other descriptor and by every older number the same session is
-- found as before; and the maps and the pool agree again.
pub accept_conn_stops :
    (now : ℕ) (full : List Arrival) (short : Arrival) (others : List Arrival) (g : Game)
    → IsOpen g full
    → AllFull full
    → IsShort short
    → (g' : Game) × (accept_conn now (full ++ (short ∷ others)) g ≡ ok (g', others))
      × HaveSessions full g.kcp.sess_id g'
      × (g'.kcp.sess_id ≡ g.kcp.sess_id + length full)
      × ((fd : ℕ)
          → (IsIn fd (clifds full) → ⊥)
          → lookup fd g'.kcp.map_conn ≡ lookup fd g.kcp.map_conn)
      × ((id : ℕ) → id < suc g.kcp.sess_id → raw_get_conn g' id ≡ raw_get_conn g id)
      × IsServer g'.kcp
unfolding accept_conn
accept_conn_stops now [] short others g w f (e, s) =
    (g, rw (e, s), tt, omega arith, λ fd n. refl, λ id l. refl, w.agree)
accept_conn_stops now (a ∷ full) short others g w ((b, e, s), f) (e', s') =
    let g₁ = accepted now a g in
    let number = accepted-sess_id now a full g w in
    let (c, by_fd, by_id) = accepted_found now a full g w in
    let (g₂, r, have, count, fds, ids, agree) =
      accept_conn_stops now full short others g₁ (accepted-IsOpen now a full g w) f (e', s') in
    (
      g₂,
      rw (accept_conn, e, s, accept_one-accepted now a g b) r,
      (
        (
          c,
          fds a.clifd w.different.0 ∙ by_fd,
          ids (suc g.kcp.sess_id) (omega (arith, number)) ∙ by_id,
        ),
        subst (λ (n : ℕ). HaveSessions full n g₂) number have,
      ),
      omega (arith, number, count),
      λ fd n. fds fd (λ i. n (inr i)) ∙ accepted_keeps_fd now a full g w fd (λ q. n (inl (sym q))),
      λ id l.
          ids id (omega (arith, number))
          ∙ accepted_keeps_id now a full g w id (λ q. omega (arith, q)),
      agree,
    )
