-- ===== src/Game/Kcp/Sessions.antt =====
-- kcpsess/sessServer.cpp: the two maps of the KCP server and its pool, under delConn, rawCloseConn
-- and BindConn.
use kcpserver_cpp.Common.{
  neq_false, lookup_erased, lookup_not_erased, some-injective, IsIn, IsUnique, IsIn-append,
  IsUnique-append, ℕ, ◌≤◌, ◌<◌, ◌≡◌, inl, inr, refl, sym, ap, ◌∙◌, true, false, none, some, [], ◌∷◌,
  ◌++◌, ◌==◌, if◌then◌else◌, arith, lookup, erase, lookup-erase, Option-cases, Bool-cases, eq_of_==,
}
use kcpserver_cpp.Game.State.{UdpConn, Heap, store, Game, KcpServer, emit}
use kcpserver_cpp.Game.Kcp.{
  close, push_udp_conn, raw_get_conn, drop_conn, del_conn, raw_close_conn, bind_conn,
}

abbrev pub conn : Game → ℕ → UdpConn
conn g a = g.kcp.conns.cell a

-- A descriptor leads to the session that has it, and so does the number of the session; no session
-- in use is in the pool.
pub record IsServer (s : KcpServer) : Type 0 where
  pub by_fd :
      (fd a : ℕ)
      → lookup fd s.map_conn ≡ some a
      → ((s.conns.cell a).fd ≡ fd)
        × (lookup (s.conns.cell a).id s.map_sess_fd ≡ some a)
        × (a < s.conns.made)
        × (IsIn a s.pool → ⊥)
  pub by_sess :
      (id a : ℕ)
      → lookup id s.map_sess_fd ≡ some a
      → ((s.conns.cell a).id ≡ id)
        × (lookup (s.conns.cell a).fd s.map_conn ≡ some a)
        × (id ≤ s.sess_id)
  pub in_pool : (a : ℕ) → IsIn a s.pool → a < s.conns.made
  pub pool_unique : IsUnique s.pool

pub store_other :
    (h : Heap UdpConn) (a b : ℕ) (c : UdpConn) → (a ≡ b → ⊥) → (store h a c).cell b ≡ h.cell b
store_other h a b c n = rw (neq_false a b n)

pub store_same : (h : Heap UdpConn) (a : ℕ) (c : UdpConn) → (store h a c).cell a ≡ c
store_same h a c = ground arith

-- A session leaves both maps, and its object goes into the pool.
abbrev pub removed : ℕ → ℕ → UdpConn → KcpServer → KcpServer
removed fd a c s = record s {
  conns = store s.conns a c;
  map_conn = erase fd s.map_conn;
  map_sess_fd = erase (s.conns.cell a).id s.map_sess_fd;
  pool = s.pool ++ (a ∷ []);
}

removed-IsServer :
    (fd a : ℕ) (c : UdpConn) (s : KcpServer)
    → IsServer s
    → lookup fd s.map_conn ≡ some a
    → IsServer (removed fd a c s)
removed-IsServer fd a c s w e = record {
  by_fd = by_fd;
  by_sess = by_sess;
  in_pool = λ b h. elim (IsIn-append b a s.pool h) [
    | inl i ↦ w.in_pool b i
    | inr q ↦ omega (arith, (w.by_fd fd a e).2)
  ];
  pool_unique = IsUnique-append a s.pool w.pool_unique (w.by_fd fd a e).3;
}
  where
    by_fd :
        (fd' b : ℕ)
        → lookup fd' (erase fd s.map_conn) ≡ some b
        → (((store s.conns a c).cell b).fd ≡ fd')
          × (lookup ((store s.conns a c).cell b).id (erase (s.conns.cell a).id s.map_sess_fd)
              ≡ some b)
          × (b < s.conns.made)
          × (IsIn b (s.pool ++ (a ∷ [])) → ⊥)
    by_fd fd' b h =
        let (f, there) = lookup_erased fd fd' s.map_conn b h in
        let (same, known, made, free) = w.by_fd fd' b there in
        let other : a ≡ b → ⊥ =
          λ q. f (sym (w.by_fd fd a e).0 ∙ ap (λ (x : ℕ). (s.conns.cell x).fd) q ∙ same) in
        let ids : (s.conns.cell a).id ≡ (s.conns.cell b).id → ⊥ = λ q. other (
          some-injective
            (sym (w.by_fd fd a e).1 ∙ ap (λ (x : ℕ). lookup x s.map_sess_fd) q ∙ known)) in
        rw (store_other s.conns a b c other) (
          same,
          lookup_not_erased (s.conns.cell a).id (s.conns.cell b).id s.map_sess_fd ids ∙ known,
          made,
          λ i. elim (IsIn-append b a s.pool i) [ inl p ↦ free p | inr q ↦ other (sym q) ],
        )

    by_sess :
        (id b : ℕ)
        → lookup id (erase (s.conns.cell a).id s.map_sess_fd) ≡ some b
        → (((store s.conns a c).cell b).id ≡ id)
          × (lookup ((store s.conns a c).cell b).fd (erase fd s.map_conn) ≡ some b)
          × (id ≤ s.sess_id)
    by_sess id b h =
        let (f, there) = lookup_erased (s.conns.cell a).id id s.map_sess_fd b h in
        let (same, known, below) = w.by_sess id b there in
        let other : a ≡ b → ⊥ = λ q. f (ap (λ (x : ℕ). (s.conns.cell x).id) q ∙ same) in
        let fds : fd ≡ (s.conns.cell b).fd → ⊥ =
          λ q. other (some-injective (sym e ∙ ap (λ (x : ℕ). lookup x s.map_conn) q ∙ known)) in
        rw (store_other s.conns a b c other)
          (same, lookup_not_erased fd (s.conns.cell b).fd s.map_conn fds ∙ known, below)

pub drop_conn-kcp :
    (fd a : ℕ) (g : Game)
    → (drop_conn fd a g).kcp ≡ removed fd a (record (conn g a) { kcp = false }) g.kcp
unfolding drop_conn close push_udp_conn emit
drop_conn-kcp fd a g = refl

pub drop_conn-IsServer :
    (fd a : ℕ) (g : Game)
    → IsServer g.kcp
    → lookup fd g.kcp.map_conn ≡ some a
    → IsServer (drop_conn fd a g).kcp
drop_conn-IsServer fd a g w e = rw (drop_conn-kcp fd a g) (removed-IsServer fd a _ g.kcp w e)

-- If the maps of the KCP server and its pool agree (a descriptor and the number of a session lead
-- to the same object, which has both; no object in use is in the pool, and no object is there
-- twice), they agree again after delConn, whatever the descriptor.
pub del_conn-IsServer : (fd : ℕ) (g : Game) → IsServer g.kcp → IsServer (del_conn fd g).kcp
unfolding del_conn
del_conn-IsServer fd g w = elim (Option-cases (lookup fd g.kcp.map_conn)) [
  | inl e ↦ rw (e, del_conn) w
  | inr (a, e) ↦ rw (e, del_conn) (drop_conn-IsServer fd a g w e)
]

-- What is found by a session number once a session has been dropped.
found_dropped :
    (fd a j : ℕ) (g : Game)
    → raw_get_conn (drop_conn fd a g) j ≡ (if (conn g a).id == j then none else raw_get_conn g j)
unfolding raw_get_conn
found_dropped fd a j g =
    ap (λ (x : KcpServer). lookup j x.map_sess_fd) (drop_conn-kcp fd a g)
    ∙ lookup-erase (conn g a).id j g.kcp.map_sess_fd

pub raw_close_conn-none :
    (id : ℕ) (g : Game) → lookup id g.kcp.map_sess_fd ≡ none → raw_close_conn id g ≡ g
unfolding raw_close_conn raw_get_conn
raw_close_conn-none id g e = rw (e, raw_close_conn)

pub raw_close_conn-some :
    (id a : ℕ) (g : Game)
    → IsServer g.kcp
    → lookup id g.kcp.map_sess_fd ≡ some a
    → raw_close_conn id g ≡ drop_conn (conn g a).fd a g
unfolding raw_close_conn raw_get_conn
raw_close_conn-some id a g w e =
    let (same, known, below) = w.by_sess id a e in rw (e, known, raw_close_conn)

not_found :
    (id j : ℕ) (g : Game)
    → lookup id g.kcp.map_sess_fd ≡ none
    → raw_get_conn g j ≡ (if id == j then none else raw_get_conn g j)
unfolding raw_get_conn
not_found id j g e = elim (Bool-cases (id == j)) [
  | inl t ↦ let q = eq_of_== id j t in rw t (ap (λ (x : ℕ). lookup x g.kcp.map_sess_fd) (sym q) ∙ e)
  | inr f ↦ rw f
]

-- If the maps of the KCP server and its pool agree, they agree again after rawCloseConn; the
-- session is not found any more, and every other session is found as before.
pub raw_close_conn-gone :
    (id : ℕ) (g : Game)
    → IsServer g.kcp
    → IsServer (raw_close_conn id g).kcp
      × ((j : ℕ)
          → raw_get_conn (raw_close_conn id g) j ≡ (if id == j then none else raw_get_conn g j))
raw_close_conn-gone id g w = elim (Option-cases (lookup id g.kcp.map_sess_fd)) [
  | inl e ↦ rw (raw_close_conn-none id g e) (w, λ j. not_found id j g e)
  | inr (a, e) ↦
      let (same, known, below) = w.by_sess id a e in
      rw (raw_close_conn-some id a g w e) (
        drop_conn-IsServer (conn g a).fd a g w known,
        λ j. rw⁻¹ same (found_dropped (conn g a).fd a j g),
      )
]

pub bind_conn-none : (id : ℕ) (g : Game) → raw_get_conn g id ≡ none → bind_conn id g ≡ (g, none)
unfolding bind_conn
bind_conn-none id g e = rw (e, bind_conn)

-- The session `a` once it is bound.
abbrev pub bound : ℕ → Game → Game
bound a g = record g {
  kcp = record (g.kcp) { conns = store g.kcp.conns a (record (conn g a) { bind = true }) };
}

pub bind_conn-some :
    (id a : ℕ) (g : Game) → raw_get_conn g id ≡ some a → bind_conn id g ≡ (bound a g, some a)
unfolding bind_conn
bind_conn-some id a g e = rw (e, bind_conn)

-- The session `a` once it is changed to `c`.
abbrev pub stored : ℕ → UdpConn → Game → KcpServer
stored a c g = record (g.kcp) { conns = store g.kcp.conns a c }

same_ends :
    (a b : ℕ) (c : UdpConn) (g : Game)
    → c.fd ≡ (conn g a).fd
    → c.id ≡ (conn g a).id
    → (((stored a c g).conns.cell b).fd ≡ (conn g b).fd)
      × (((stored a c g).conns.cell b).id ≡ (conn g b).id)
same_ends a b c g f i = elim (Bool-cases (a == b)) [
  | inl t ↦
      let q = eq_of_== a b t in
      rw t (f ∙ ap (λ (x : ℕ). (conn g x).fd) q, i ∙ ap (λ (x : ℕ). (conn g x).id) q)
  | inr f ↦ rw f (refl, refl)
]

pub stored-IsServer :
    (a : ℕ) (c : UdpConn) (g : Game)
    → c.fd ≡ (conn g a).fd
    → c.id ≡ (conn g a).id
    → IsServer g.kcp
    → IsServer (stored a c g)
stored-IsServer a c g same_fd same_id w = record {
  by_fd = λ fd b h.
      let (same, known, below, free) = w.by_fd fd b h in
      let (f, i) = same_ends a b c g same_fd same_id in
      (f ∙ same, ap (λ (x : ℕ). lookup x g.kcp.map_sess_fd) i ∙ known, below, free);
  by_sess = λ id b h.
      let (same, known, below) = w.by_sess id b h in
      let (f, i) = same_ends a b c g same_fd same_id in
      (i ∙ same, ap (λ (x : ℕ). lookup x g.kcp.map_conn) f ∙ known, below);
  in_pool = w.in_pool;
  pool_unique = w.pool_unique;
}

pub bound-IsServer : (a : ℕ) (g : Game) → IsServer g.kcp → IsServer (bound a g).kcp
bound-IsServer a g = stored-IsServer a (record (conn g a) { bind = true }) g refl refl

pub raw_get_conn_map :
    (g h : Game) (id : ℕ)
    → g.kcp.map_sess_fd ≡ h.kcp.map_sess_fd
    → raw_get_conn g id ≡ raw_get_conn h id
unfolding raw_get_conn
raw_get_conn_map g h id e = ap (lookup id) e
