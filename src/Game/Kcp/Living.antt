-- ===== src/Game/Kcp/Living.antt =====
-- kcpsess/sessServer.cpp: the sessions that are in use, with their control blocks.
use kcpserver_cpp.Common.{
  arith, zero, suc, ◌<◌, IsIn, IsUnique, IsIn-append, IsUnique-append, none_ne_some, lookup_erased,
  ℕ, ◌≡◌, inl, inr, refl, sym, ap, ◌∙◌, true, some, [], ◌==◌, lookup, Option-cases, Bool-cases,
  eq_of_==,
}
use kcpserver_cpp.Game.State.{UdpConn, Game, KcpServer}
use kcpserver_cpp.Game.Kcp.{
  drop_conn, del_conn, close_conn, raw_close_conn, raw_get_conn, bind_conn, upto, pool_size,
  new_server,
}
use kcpserver_cpp.Game.Kcp.Sessions.{
  store_other, conn, IsServer, drop_conn-kcp, drop_conn-IsServer, stored-IsServer, bind_conn-none,
  bind_conn-some, stored, raw_close_conn-none, raw_close_conn-some,
}

pub drop_conn-live :
    (fd a : ℕ) (g : Game)
    → IsServer g.kcp
    → ((j b : ℕ) → lookup j g.kcp.map_conn ≡ some b → (conn g b).kcp ≡ true)
    → lookup fd g.kcp.map_conn ≡ some a
    → (j b : ℕ) → lookup j (drop_conn fd a g).kcp.map_conn ≡ some b
    → (conn (drop_conn fd a g) b).kcp ≡ true
drop_conn-live fd a g w live e j b h =
    let same = drop_conn-kcp fd a g in
    let (f, there) =
      lookup_erased fd j g.kcp.map_conn b
        (ap (λ (s : KcpServer). lookup j s.map_conn) (sym same) ∙ h) in
    let other : a ≡ b → ⊥ =
      λ q. f (sym (w.by_fd fd a e).0 ∙ ap (λ (x : ℕ). (conn g x).fd) q ∙ (w.by_fd j b there).0) in
    ap (λ (s : KcpServer). (s.conns.cell b).kcp) same
    ∙ (ap (λ (c : UdpConn). c.kcp) (store_other g.kcp.conns a b _ other) ∙ live j b there)

-- The maps and the pool of the server agree, and every session in use has its control block.
pub record IsAlive (s : KcpServer) : Type 0 where
  pub agree : IsServer s
  pub live : (fd a : ℕ) → lookup fd s.map_conn ≡ some a → (s.conns.cell a).kcp ≡ true

drop_conn-IsAlive :
    (fd a : ℕ) (g : Game)
    → IsAlive g.kcp
    → lookup fd g.kcp.map_conn ≡ some a
    → IsAlive (drop_conn fd a g).kcp
drop_conn-IsAlive fd a g w e = record {
  agree = drop_conn-IsServer fd a g w.agree e;
  live = drop_conn-live fd a g w.agree w.live e;
}

pub del_conn-IsAlive : (fd : ℕ) (g : Game) → IsAlive g.kcp → IsAlive (del_conn fd g).kcp
unfolding del_conn
del_conn-IsAlive fd g w = elim (Option-cases (lookup fd g.kcp.map_conn)) [
  | inl e ↦ rw (e, del_conn) w
  | inr (a, e) ↦ rw (e, del_conn) (drop_conn-IsAlive fd a g w e)
]

pub close_conn-IsAlive : (id : ℕ) (g : Game) → IsAlive g.kcp → IsAlive (close_conn id g).kcp
unfolding close_conn
close_conn-IsAlive id g w = elim (Option-cases (raw_get_conn g id)) [
  | inl e ↦ rw (e, close_conn) w
  | inr (a, e) ↦ rw (e, close_conn) (del_conn-IsAlive (conn g a).fd g w)
]

pub raw_close_conn-IsAlive : (id : ℕ) (g : Game) → IsAlive g.kcp → IsAlive (raw_close_conn id g).kcp
raw_close_conn-IsAlive id g w = elim (Option-cases (lookup id g.kcp.map_sess_fd)) [
  | inl e ↦ rw (raw_close_conn-none id g e) w
  | inr (a, e) ↦
      rw (raw_close_conn-some id a g w.agree e)
        (drop_conn-IsAlive (conn g a).fd a g w (w.agree.by_sess id a e).1)
]

same_block :
    (a b : ℕ) (c : UdpConn) (g : Game)
    → c.kcp ≡ (conn g a).kcp
    → ((stored a c g).conns.cell b).kcp ≡ (conn g b).kcp
same_block a b c g k = elim (Bool-cases (a == b)) [
  | inl t ↦ rw t (k ∙ ap (λ (x : ℕ). (conn g x).kcp) (eq_of_== a b t))
  | inr f ↦ rw f refl
]

-- A session keeps its place as long as its descriptor, its number and its block stay.
pub stored-IsAlive :
    (a : ℕ) (c : UdpConn) (g : Game)
    → c.fd ≡ (conn g a).fd
    → c.id ≡ (conn g a).id
    → c.kcp ≡ (conn g a).kcp
    → IsAlive g.kcp
    → IsAlive (stored a c g)
stored-IsAlive a c g f i k w = record {
  agree = stored-IsServer a c g f i w.agree;
  live = λ fd b h. same_block a b c g k ∙ w.live fd b h;
}

pub bind_conn-IsAlive : (id : ℕ) (g : Game) → IsAlive g.kcp → IsAlive (bind_conn id g).0.kcp
bind_conn-IsAlive id g w = elim (Option-cases (raw_get_conn g id)) [
  | inl e ↦ rw (bind_conn-none id g e) w
  | inr (a, e) ↦
      rw (bind_conn-some id a g e)
        (stored-IsAlive a (record (conn g a) { bind = true }) g refl refl refl w)
]

upto-lt : (a n : ℕ) → IsIn a (upto n) → a < n
unfolding upto
upto-lt a zero i = absurd i
upto-lt a (suc n) i = elim (IsIn-append a n (upto n) i) [
  | inl h ↦ omega (arith, upto-lt a n h)
  | inr e ↦ omega (arith, e)
]

upto-IsUnique : (n : ℕ) → IsUnique (upto n)
unfolding upto
upto-IsUnique zero = tt
upto-IsUnique (suc n) =
    IsUnique-append n (upto n) (upto-IsUnique n) (λ i. omega (arith, upto-lt n n i))

nothing_found : (k a : ℕ) → lookup k [] ≡ some a → ⊥
unfolding lookup
nothing_found k a e = none_ne_some e

pub new_server-IsAlive : (memory : ℕ → UdpConn) → IsAlive (new_server memory)
unfolding new_server
new_server-IsAlive memory = record {
  agree = record {
    by_fd = λ fd a h. absurd (nothing_found fd a h);
    by_sess = λ id a h. absurd (nothing_found id a h);
    in_pool = λ a i. upto-lt a pool_size i;
    pool_unique = upto-IsUnique pool_size;
  };
  live = λ fd a h. absurd (nothing_found fd a h);
}
