-- ===== src/Game/Udp/Agreement.antt =====
-- kcpsess/sessServer.cpp, the maps of the KCP server under the calls of its thread.
use kcpserver_cpp.Common.{
  lookup_inserted, ne_of_neq, ℕ, suc, ◌+◌, ◌^◌, ◌<◌, ◌≡◌, inl, inr, refl, sym, ap, ◌∙◌, true, none,
  some, List, [], ◌∷◌, ◌==◌, if◌then◌else◌, arith, Bytes, length, lookup, lookup-erase, lookup_old,
  Map, IsIn, IsUnique, erase, Option-cases, Bool-cases, eq_of_==,
}
use mathlib.Core.Path.{subst}
use kcpserver_cpp.Game.State.{Game, KcpServer, insert_int}
use kcpserver_cpp.Game.Kcp.{init, create_conn, pop_udp_conn, del_conn}
use kcpserver_cpp.Game.Kcp.Sessions.{
  conn, IsServer, drop_conn-kcp, stored-IsServer, del_conn-IsServer,
}
use kcpserver_cpp.Game.Kcp.Living.{drop_conn-live}
use kcpserver_cpp.Game.Kcp.Creation.{create_conn-IsServer}
use kcpserver_cpp.Game.Session.{set_read}
use kcpserver_cpp.Game.Udp.{Arrival}
use kcpserver_cpp.Game.Udp.Accepting.{create_conn-sess_id}

abbrev pub clifds : List Arrival → List ℕ
clifds [] = []
clifds (a ∷ more) = a.clifd ∷ clifds more

-- `bind` succeeds on the socket of each.
abbrev pub AllBound : List Arrival → Type 0
AllBound [] = Unit {0}
AllBound (a ∷ more) = (a.bound ≡ true) × AllBound more

-- The maps and the pool of the server agree, every session in use has its control block, the
-- sockets for the clients that wait are new, different and can be bound, and the numbers of the
-- sessions stay below 2 ^ 32.
pub record IsOpen (g : Game) (arrivals : List Arrival) : Type 0 where
  pub agree : IsServer g.kcp
  pub live : (fd a : ℕ) → lookup fd g.kcp.map_conn ≡ some a → (conn g a).kcp ≡ true
  pub new : (fd : ℕ) → IsIn fd (clifds arrivals) → lookup fd g.kcp.map_conn ≡ none
  pub different : IsUnique (clifds arrivals)
  pub bound : AllBound arrivals
  pub numbers : g.kcp.sess_id + length arrivals < 2 ^ 32

-- IsOpen does not look at the trace, nor at what else a change leaves alone.
pub same_kcp-IsOpen :
    (g h : Game) (arrivals : List Arrival) → g.kcp ≡ h.kcp → IsOpen g arrivals → IsOpen h arrivals
same_kcp-IsOpen g h arrivals e w = record {
  agree = rw⁻¹ e w.agree;
  live =
      subst
        (λ (s : KcpServer).
          (fd a : ℕ) → lookup fd s.map_conn ≡ some a → (s.conns.cell a).kcp ≡ true)
        e w.live;
  new = λ fd i. rw⁻¹ e (w.new fd i);
  different = w.different;
  bound = w.bound;
  numbers = rw⁻¹ e w.numbers;
}

read_live : (a b : ℕ) (g : Game) → (conn (set_read a g) b).kcp ≡ (conn g b).kcp
unfolding set_read
read_live a b g = elim (Bool-cases (a == b)) [
  | inl t ↦ rw t (ap (λ (x : ℕ). (conn g x).kcp) (eq_of_== a b t))
  | inr f ↦ rw f refl
]

pub set_read-IsOpen :
    (a : ℕ) (g : Game) (xs : List Arrival) → IsOpen g xs → IsOpen (set_read a g) xs
unfolding set_read
set_read-IsOpen a g xs w = record {
  agree = stored-IsServer a (record (conn g a) { bread = true }) g refl refl w.agree;
  live = λ fd b h. read_live a b g ∙ w.live fd b h;
  new = w.new;
  different = w.different;
  bound = w.bound;
  numbers = w.numbers;
}

pub create_conn-map_conn :
    (now fd : ℕ) (bs : Bytes) (g : Game)
    → (create_conn now fd bs g).0.kcp.map_conn
      ≡ insert_int fd (create_conn now fd bs g).1 g.kcp.map_conn
unfolding create_conn pop_udp_conn
create_conn-map_conn now fd bs g = ground arith

created_live :
    (now fd : ℕ) (bs : Bytes) (g : Game) (b : ℕ)
    → (conn (create_conn now fd bs g).0 b).kcp
      ≡ (if (create_conn now fd bs g).1 == b then true else (conn g b).kcp)
unfolding create_conn pop_udp_conn init
created_live now fd bs g b = ground arith

create_conn-live :
    (now clifd : ℕ) (bs : Bytes) (g : Game)
    → IsServer g.kcp
    → ((fd a : ℕ) → lookup fd g.kcp.map_conn ≡ some a → (conn g a).kcp ≡ true)
    → (fd b : ℕ) → lookup fd (create_conn now clifd bs g).0.kcp.map_conn ≡ some b
    → (conn (create_conn now clifd bs g).0 b).kcp ≡ true
create_conn-live now clifd bs g w live fd b h =
    created_live now clifd bs g b ∙ elim (Bool-cases ((create_conn now clifd bs g).1 == b)) [
      | inl t ↦ rw t refl
      | inr f ↦
          let there = ap (lookup fd) (sym (create_conn-map_conn now clifd bs g)) ∙ h in
          elim (lookup_inserted _ clifd fd _ b g.kcp.map_conn there) [
            | inl (p, q) ↦ absurd (ne_of_neq _ b f q)
            | inr old ↦ rw f (live fd b old)
          ]
    ]

pub passed_over :
    (a : Arrival) (more : List Arrival) (g : Game) → IsOpen g (a ∷ more) → IsOpen g more
passed_over a more g w = record {
  agree = w.agree;
  live = w.live;
  new = λ fd i. w.new fd (inr i);
  different = w.different.1;
  bound = w.bound.1;
  numbers = omega (arith, w.numbers);
}

pub create_conn-IsOpen :
    (now : ℕ) (a : Arrival) (bs : Bytes) (more : List Arrival) (g : Game)
    → IsOpen g (a ∷ more)
    → IsOpen (create_conn now a.clifd bs g).0 more
create_conn-IsOpen now a bs more g w =
    let small : suc g.kcp.sess_id < 2 ^ 32 = omega (arith, w.numbers) in
    let number = create_conn-sess_id now a.clifd bs g in
    record {
      agree = (create_conn-IsServer now a.clifd bs g w.agree (w.new a.clifd (inl refl)) small).0;
      live = create_conn-live now a.clifd bs g w.agree w.live;
      new = λ fd i.
          ap (lookup fd) (create_conn-map_conn now a.clifd bs g)
          ∙ (lookup_old _ a.clifd fd _ g.kcp.map_conn
                (λ q. w.different.0 (subst (λ (x : ℕ). IsIn x (clifds more)) (sym q) i))
              ∙ w.new fd (inr i));
      different = w.different.1;
      bound = w.bound.1;
      numbers = omega (arith, w.numbers, number);
    }

none-erase : (k j : ℕ) (m : Map ℕ) → lookup j m ≡ none → lookup j (erase k m) ≡ none
none-erase k j m e =
    lookup-erase k j m ∙ elim (Bool-cases (k == j)) [ inl t ↦ rw t refl | inr f ↦ rw f e ]

pub del_conn-IsOpen :
    (fd : ℕ) (g : Game) (xs : List Arrival) → IsOpen g xs → IsOpen (del_conn fd g) xs
unfolding del_conn
del_conn-IsOpen fd g xs w = elim (Option-cases (lookup fd g.kcp.map_conn)) [
  | inl e ↦ rw (e, del_conn) w
  | inr (a, e) ↦
      let same = drop_conn-kcp fd a g in
      let server = del_conn-IsServer fd g w.agree in
      rw (e, del_conn)
        (record {
          agree = rw (e, del_conn) at server;
          live = drop_conn-live fd a g w.agree w.live e;
          new = λ j i.
              ap (λ (s : KcpServer). lookup j s.map_conn) same
              ∙ none-erase fd j g.kcp.map_conn (w.new j i);
          different = w.different;
          bound = w.bound;
          numbers = rw same w.numbers;
        })
]

pub ticked-IsOpen :
    (now : ℕ) (g : Game) (xs : List Arrival)
    → IsOpen g xs
    → IsOpen (record g { kcp = record (g.kcp) { last_tick = now } }) xs
ticked-IsOpen now g xs w = record {
  agree = record {
    by_fd = w.agree.by_fd;
    by_sess = w.agree.by_sess;
    in_pool = w.agree.in_pool;
    pool_unique = w.agree.pool_unique;
  };
  live = w.live;
  new = w.new;
  different = w.different;
  bound = w.bound;
  numbers = w.numbers;
}
