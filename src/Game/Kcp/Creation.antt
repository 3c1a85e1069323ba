-- ===== src/Game/Kcp/Creation.antt =====
-- kcpsess/sessServer.cpp: KCPServer::createConn and the pool of sessions.
use kcpserver_cpp.Common.{
  lookup_inserted, lookup_new, lookup_old, none_ne_some, IsIn, IsUnique, ℕ, suc, ◌^◌, ◌≤◌, ◌<◌, ◌≡◌,
  ◌⊎◌, inl, inr, refl, sym, ap, ◌∙◌, none, some, List, [], ◌∷◌, ◌==◌, if◌then◌else◌, arith, Bytes,
  u32, lookup, lookup-insert_by,
}
use mathlib.Core.Path.{subst}
use kcpserver_cpp.Game.State.{UdpConn, Heap, store, Game, KcpServer, insert_int}
use kcpserver_cpp.Game.Kcp.{init, pop_udp_conn, raw_get_conn, create_conn}
use kcpserver_cpp.Game.Kcp.Sessions.{IsServer, store_other, store_same}

-- A session with the next number joins both maps; the pool and the number of objects are given.
abbrev added : ℕ → ℕ → UdpConn → List ℕ → ℕ → KcpServer → KcpServer
added fd a c pool made s = record s {
  conns = store (record (s.conns) { made = made }) a c;
  map_conn = insert_int fd a s.map_conn;
  map_sess_fd = insert_int (suc s.sess_id) a s.map_sess_fd;
  pool = pool;
  sess_id = suc s.sess_id;
}

-- The object `a` is free in `s`, and not among what stays free.
record IsFree (a made : ℕ) (pool : List ℕ) (s : KcpServer) : Type 0 where
  unused : (fd b : ℕ) → lookup fd s.map_conn ≡ some b → a ≡ b → ⊥
  made_above : a < made
  made_grows : s.conns.made ≤ made
  pool_shrinks : (b : ℕ) → IsIn b pool → IsIn b s.pool
  taken : IsIn a pool → ⊥
  still_unique : IsUnique pool

module _ (fd a made : ℕ) (c : UdpConn) (pool : List ℕ) (s : KcpServer) (w : IsServer s)
    (free : IsFree a made pool s) (c_fd : c.fd ≡ fd) (c_id : c.id ≡ suc s.sess_id)
    (fresh : lookup fd s.map_conn ≡ none) where
  cells : Heap UdpConn
  cells = store (record (s.conns) { made = made }) a c

  added_by_fd :
      (fd' b : ℕ)
      → lookup fd' (insert_int fd a s.map_conn) ≡ some b
      → ((cells.cell b).fd ≡ fd')
        × (lookup (cells.cell b).id (insert_int (suc s.sess_id) a s.map_sess_fd) ≡ some b)
        × (b < made)
        × (IsIn b pool → ⊥)
  unfolding cells
  added_by_fd fd' b h = elim (lookup_inserted _ fd fd' a b s.map_conn h) [
    | inl (p, q) ↦
        let same : cells.cell b ≡ c =
          ap cells.cell (sym q) ∙ store_same (record (s.conns) { made = made }) a c in
        let by_id : (cells.cell b).id ≡ suc s.sess_id = ap (λ (x : UdpConn). x.id) same ∙ c_id in
        (
          ap (λ (x : UdpConn). x.fd) same ∙ (c_fd ∙ p),
          ap (λ (x : ℕ). lookup x (insert_int (suc s.sess_id) a s.map_sess_fd)) by_id
              ∙ (lookup_new _ (suc s.sess_id) a s.map_sess_fd ∙ ap some q),
          rw⁻¹ q free.made_above,
          rw⁻¹ q free.taken,
        )
    | inr old ↦
        let (same, known, below, not_pooled) = w.by_fd fd' b old in
        let number : suc s.sess_id ≡ (s.conns.cell b).id → ⊥ =
          λ q. omega (arith, (w.by_sess (s.conns.cell b).id b known).2, q) in
        rw (store_other (record (s.conns) { made = made }) a b c (free.unused fd' b old)) (
          same,
          lookup_old _ (suc s.sess_id) (s.conns.cell b).id a s.map_sess_fd number ∙ known,
          omega (arith, below, free.made_grows),
          λ i. not_pooled (free.pool_shrinks b i),
        )
  ]

  added_by_sess :
      (id b : ℕ)
      → lookup id (insert_int (suc s.sess_id) a s.map_sess_fd) ≡ some b
      → ((cells.cell b).id ≡ id)
        × (lookup (cells.cell b).fd (insert_int fd a s.map_conn) ≡ some b)
        × (id ≤ suc s.sess_id)
  unfolding cells
  added_by_sess id b h = elim (lookup_inserted _ (suc s.sess_id) id a b s.map_sess_fd h) [
    | inl (p, q) ↦
        let same : cells.cell b ≡ c =
          ap cells.cell (sym q) ∙ store_same (record (s.conns) { made = made }) a c in
        let by_id : (cells.cell b).id ≡ id = ap (λ (x : UdpConn). x.id) same ∙ (c_id ∙ p) in
        let by_fd : (cells.cell b).fd ≡ fd = ap (λ (x : UdpConn). x.fd) same ∙ c_fd in
        (
          by_id,
          ap (λ (x : ℕ). lookup x (insert_int fd a s.map_conn)) by_fd
              ∙ (lookup_new _ fd a s.map_conn ∙ ap some q),
          omega (arith, p),
        )
    | inr old ↦
        let (same, known, below) = w.by_sess id b old in
        let other : fd ≡ (s.conns.cell b).fd → ⊥ =
          λ q. none_ne_some (sym fresh ∙ ap (λ (x : ℕ). lookup x s.map_conn) q ∙ known) in
        rw
          (store_other (record (s.conns) { made = made }) a b c
            (free.unused (s.conns.cell b).fd b known))
          (
            same,
            lookup_old _ fd (s.conns.cell b).fd a s.map_conn other ∙ known,
            omega (arith, below),
          )
  ]

  added-IsServer : IsServer (added fd a c pool made s)
  unfolding cells
  added-IsServer = record {
    by_fd = added_by_fd;
    by_sess = added_by_sess;
    in_pool = λ b i. omega (arith, w.in_pool b (free.pool_shrinks b i), free.made_grows);
    pool_unique = free.still_unique;
  }

abbrev popped : ℕ → List ℕ → Game → Game
popped made pool g = record g {
  kcp = record (g.kcp) { conns = record (g.kcp.conns) { made = made }; pool = pool };
}

pop_empty :
    (g : Game)
    → g.kcp.pool ≡ []
    → pop_udp_conn g ≡ (popped (suc g.kcp.conns.made) [] g, g.kcp.conns.made)
unfolding pop_udp_conn
pop_empty g e = ground arith

pop_pooled :
    (g : Game) (a : ℕ) (rest : List ℕ)
    → g.kcp.pool ≡ a ∷ rest
    → pop_udp_conn g ≡ (popped g.kcp.conns.made rest g, a)
unfolding pop_udp_conn
pop_pooled g a rest e = ground arith

list_cases : (xs : List ℕ) → (xs ≡ []) ⊎ ((x : ℕ) × (rest : List ℕ) × (xs ≡ x ∷ rest))
list_cases [] = inl refl
list_cases (x ∷ rest) = inr (x, rest, refl)

-- Popping an object gives a free one.
pop_takes :
    (g : Game)
    → IsServer g.kcp
    → (a made : ℕ) × (pool : List ℕ) × IsFree a made pool g.kcp
      × (pop_udp_conn g ≡ (popped made pool g, a))
pop_takes g w = elim (list_cases g.kcp.pool) [
  | inl e ↦ (
    g.kcp.conns.made,
    suc g.kcp.conns.made,
    [],
    record {
      unused = λ fd b h q. omega (arith, (w.by_fd fd b h).2, q);
      made_above = omega arith;
      made_grows = omega arith;
      pool_shrinks = λ b i. absurd i;
      taken = λ i. i;
      still_unique = tt;
    },
    pop_empty g e,
  )
  | inr (a, rest, e) ↦
      let unique : IsUnique (a ∷ rest) = rw e at w.pool_unique in
      (
        a,
        g.kcp.conns.made,
        rest,
        record {
          unused = λ fd b h q. (w.by_fd fd b h).3 (rw e (inl (sym q)));
          made_above = w.in_pool a (rw e (inl refl));
          made_grows = omega arith;
          pool_shrinks = λ b i. rw e (inr i);
          taken = unique.0;
          still_unique = unique.1;
        },
        pop_pooled g a rest e,
      )
]

-- The server once the next number has been taken.
abbrev numbered : Game → Game
numbered g = record g { kcp = record (g.kcp) { sess_id = suc g.kcp.sess_id } }

numbered-IsServer : (g : Game) → IsServer g.kcp → IsServer (numbered g).kcp
numbered-IsServer g w = record {
  by_fd = w.by_fd;
  by_sess =
      λ id a h. ((w.by_sess id a h).0, (w.by_sess id a h).1, omega (arith, (w.by_sess id a h).2));
  in_pool = w.in_pool;
  pool_unique = w.pool_unique;
}

create_conn-kcp :
    (now clifd a made : ℕ) (buf : Bytes) (pool : List ℕ) (g : Game)
    → suc g.kcp.sess_id < 2 ^ 32
    → pop_udp_conn (numbered g) ≡ (popped made pool (numbered g), a)
    → ((create_conn now clifd buf g).0.kcp
        ≡ added clifd a
            (init now clifd (suc g.kcp.sess_id) buf (g.kcp.conns.cell a))
            pool
            made
            g.kcp)
      × ((create_conn now clifd buf g).1 ≡ a)
unfolding create_conn
create_conn-kcp now clifd a made buf pool g small e =
    let number : u32 (suc g.kcp.sess_id) ≡ suc g.kcp.sess_id = omega arith in
    rw (e, number) (refl, refl)

-- If the maps of the KCP server and its pool agree, the client's descriptor is not in use and
-- fewer than 2 ^ 32 - 1 sessions have been made, then after createConn they agree again; the new
-- session's object is found by its descriptor and by its number, the next one, and every other
-- session is found as before.
pub create_conn-IsServer :
    (now clifd : ℕ) (buf : Bytes) (g : Game)
    → IsServer g.kcp
    → lookup clifd g.kcp.map_conn ≡ none
    → suc g.kcp.sess_id < 2 ^ 32
    → let (g', a) = create_conn now clifd buf g in
      IsServer g'.kcp
      × (lookup clifd g'.kcp.map_conn ≡ some a)
      × ((id : ℕ)
          → raw_get_conn g' id ≡ (if suc g.kcp.sess_id == id then some a else raw_get_conn g id))
unfolding raw_get_conn init
create_conn-IsServer now clifd buf g w fresh small =
    let (a, made, pool, f, e) = pop_takes (numbered g) (numbered-IsServer g w) in
    let free : IsFree a made pool g.kcp = record {
      unused = f.unused;
      made_above = f.made_above;
      made_grows = f.made_grows;
      pool_shrinks = f.pool_shrinks;
      taken = f.taken;
      still_unique = f.still_unique;
    } in
    let (kcp, addr) = create_conn-kcp now clifd a made buf pool g small e in
    let c = init now clifd (suc g.kcp.sess_id) buf (g.kcp.conns.cell a) in
    let good = added-IsServer clifd a made c pool g.kcp w free refl refl fresh in
    (
      subst (λ (s : KcpServer). IsServer s) (sym kcp) good,
      ap (λ (s : KcpServer). lookup clifd s.map_conn) kcp
          ∙ (lookup_new _ clifd a g.kcp.map_conn ∙ ap some (sym addr)),
      λ id.
          ap (λ (s : KcpServer). lookup id s.map_sess_fd) kcp
          ∙ (lookup-insert_by _ (suc g.kcp.sess_id) id a g.kcp.map_sess_fd ∙ rw addr),
    )
