-- ===== src/Net/ConnMgr/Agreement.antt =====
-- connmgr.cpp: the maps of connObjMgr by descriptor and by the number of the session.
use kcpserver_cpp.Common.{
  ℕ, suc, ◌^◌, u32, ◌<◌, ◌≡◌, inl, inr, refl, sym, ap, ◌∙◌, Bool, true, false, Option, none, some,
  ◌==◌, if◌then◌else◌, arith, Bytes, Map, lookup, erase, lookup_erased, lookup_not_erased,
  lookup-erase, lookup_inserted, lookup_new, lookup_old, lookup-insert_by, none_ne_some,
  some-injective, ne_of_neq, eq_of_==, Bool-cases, Option-cases,
}
use kcpserver_cpp.Conn.{Conn}
use kcpserver_cpp.Conn
use kcpserver_cpp.Net.{Server, insert_int}
use kcpserver_cpp.Net.ConnMgr.{raw_get_conn_by_pid, get_conn, create_conn, on_close, del_conn}

-- A descriptor leads to the number of a session whose connection has it, and a number to a connection
-- that has both; the numbers in use are below the next one.
pub record IsManager (conns : Map Conn) (fds : Map ℕ) (next : ℕ) : Type 0 where
  pub by_fd :
      (fd pid : ℕ)
      → lookup fd fds ≡ some pid
      → (c : Conn) × (lookup pid conns ≡ some c) × (c.fd ≡ fd)
  pub by_pid :
      (pid : ℕ) (c : Conn)
      → lookup pid conns ≡ some c
      → (c.pid ≡ pid) × (lookup c.fd fds ≡ some pid) × (pid < next)

-- The maps of a server agree.
abbrev pub IsConsistent : Server → Type 0
IsConsistent s = IsManager s.conn_map s.conn_fd_map s.max_sessid

-- What is found by a descriptor.
abbrev found : Map Conn → Map ℕ → ℕ → Option Conn
found conns fds fd = elim (lookup fd fds) [ none ↦ none | some pid ↦ lookup pid conns ]

module _ (conns : Map Conn) (fds : Map ℕ) (next : ℕ) (w : IsManager conns fds next) where
  module _ (fd pid : ℕ) (c : Conn) (e : lookup fd fds ≡ some pid)
      (e' : lookup pid conns ≡ some c) where
    -- Only one descriptor leads to a session.
    one_fd : (fd' : ℕ) → lookup fd' fds ≡ some pid → fd ≡ fd'
    one_fd fd' h =
        let (c₁, h₁, f₁) = w.by_fd fd pid e in
        let (c₂, h₂, f₂) = w.by_fd fd' pid h in
        sym f₁ ∙ (ap (λ (x : Conn). x.fd) (some-injective (sym h₁ ∙ h₂)) ∙ f₂)

    erased-IsManager : IsManager (erase pid conns) (erase fd fds) next
    erased-IsManager = record {
      by_fd = λ fd' pid' h.
          let (f, there) = lookup_erased fd fd' fds pid' h in
          let (c', h', f') = w.by_fd fd' pid' there in
          let other : pid ≡ pid' → ⊥ = λ q. f (one_fd fd' (there ∙ ap some (sym q))) in
          (c', lookup_not_erased pid pid' conns other ∙ h', f');
      by_pid = λ pid' c' h.
          let (f, there) = lookup_erased pid pid' conns c' h in
          let (p', h', below) = w.by_pid pid' c' there in
          let other : fd ≡ c'.fd → ⊥ =
            λ q. f (some-injective (sym e ∙ (ap (λ (x : ℕ). lookup x fds) q ∙ h'))) in
          (p', lookup_not_erased fd c'.fd fds other ∙ h', below);
    }

    found-erased :
        (j : ℕ)
        → found (erase pid conns) (erase fd fds) j ≡ (if fd == j then none else found conns fds j)
    found-erased j = elim (Bool-cases (fd == j)) [
      | inl t ↦ rw (lookup-erase fd j fds, t, found)
      | inr f ↦ elim (Option-cases (lookup j fds)) [
        | inl n ↦ rw (lookup-erase fd j fds, f, n, found)
        | inr (q, h) ↦
            let other : pid ≡ q → ⊥ = λ r. ne_of_neq fd j f (one_fd j (h ∙ ap some (sym r))) in
            rw (lookup-erase fd j fds, f, h, lookup_not_erased pid q conns other, found)
      ]
    ]

  module _ (fd : ℕ) (c : Conn) (c_fd : c.fd ≡ fd) (c_pid : c.pid ≡ next)
      (fresh : lookup fd fds ≡ none) where
    inserted-IsManager : IsManager (insert_int next c conns) (insert_int fd next fds) (suc next)
    inserted-IsManager = record {
      by_fd = λ fd' pid' h. elim (lookup_inserted _ fd fd' next pid' fds h) [
        | inl (p, q) ↦ (
          c,
          ap (λ (x : ℕ). lookup x (insert_int next c conns)) (sym q) ∙ lookup_new _ next c conns,
          c_fd ∙ p,
        )
        | inr there ↦
            let (c', h', f') = w.by_fd fd' pid' there in
            let other : next ≡ pid' → ⊥ = λ q. omega (arith, (w.by_pid pid' c' h').2, q) in
            (c', lookup_old _ next pid' c conns other ∙ h', f')
      ];
      by_pid = λ pid' c' h. elim (lookup_inserted _ next pid' c c' conns h) [
        | inl (p, q) ↦ (
          ap (λ (x : Conn). x.pid) (sym q) ∙ (c_pid ∙ p),
          ap (λ (x : ℕ). lookup x (insert_int fd next fds)) (ap (λ (x : Conn). x.fd) (sym q) ∙ c_fd)
              ∙ (lookup_new _ fd next fds ∙ ap some p),
          omega (arith, p),
        )
        | inr there ↦
            let (p', h', below) = w.by_pid pid' c' there in
            let other : fd ≡ c'.fd → ⊥ =
              λ q. none_ne_some (sym fresh ∙ (ap (λ (x : ℕ). lookup x fds) q ∙ h')) in
            (p', lookup_old _ fd c'.fd next fds other ∙ h', omega (arith, below))
      ];
    }

    found-inserted :
        (j : ℕ)
        → found (insert_int next c conns) (insert_int fd next fds) j
          ≡ (if fd == j then some c else found conns fds j)
    found-inserted j = elim (Bool-cases (fd == j)) [
      | inl t ↦ rw (lookup-insert_by _ fd j next fds, t, lookup_new _ next c conns, found)
      | inr f ↦ elim (Option-cases (lookup j fds)) [
        | inl n ↦ rw (lookup-insert_by _ fd j next fds, f, n, found)
        | inr (q, h) ↦
            let (c', h', f') = w.by_fd j q h in
            let other : next ≡ q → ⊥ = λ r. omega (arith, (w.by_pid q c' h').2, r) in
            rw (lookup-insert_by _ fd j next fds, f, h, lookup_old _ next q c conns other, found)
      ]
    ]

get_conn-found : (s : Server) (j : ℕ) → get_conn s j ≡ found s.conn_map s.conn_fd_map j
unfolding get_conn raw_get_conn_by_pid
get_conn-found s j = elim (Option-cases (lookup j s.conn_fd_map)) [
  | inl n ↦ rw (n, get_conn, found)
  | inr (q, h) ↦ rw (h, get_conn, found)
]

-- The new connection of createConn.
abbrev pub created : ℕ → Server → Conn
created fd s = record (Conn.new_conn fd) {
  pid = s.max_sessid;
  rpc = elim s.is_net [ true ↦ false | false ↦ true ];
}

pub create_conn-maps :
    (fd : ℕ) (addr : Bytes) (s : Server)
    → ((create_conn fd addr s).conn_map ≡ insert_int s.max_sessid (created fd s) s.conn_map)
      × ((create_conn fd addr s).conn_fd_map ≡ insert_int fd s.max_sessid s.conn_fd_map)
      × ((create_conn fd addr s).max_sessid ≡ u32 (suc s.max_sessid))
unfolding create_conn
create_conn-maps fd addr s = ground arith

pub del_conn-maps :
    (fd pid : ℕ) (late : Bool) (c : Conn) (s : Server)
    → lookup fd s.conn_fd_map ≡ some pid
    → lookup pid s.conn_map ≡ some c
    → ((del_conn fd late s).conn_map ≡ erase c.pid s.conn_map)
      × ((del_conn fd late s).conn_fd_map ≡ erase fd s.conn_fd_map)
      × ((del_conn fd late s).max_sessid ≡ s.max_sessid)
unfolding del_conn raw_get_conn_by_pid on_close
del_conn-maps fd pid late c s e h = rw (e, h, del_conn) (refl, refl, refl)

pub del_conn-none :
    (fd : ℕ) (late : Bool) (s : Server) → lookup fd s.conn_fd_map ≡ none → del_conn fd late s ≡ s
unfolding del_conn
del_conn-none fd late s e = rw (e, del_conn)

-- If the maps of the connection manager agree (a descriptor leads to the number of a session whose
-- connection has it, a number to a connection that has both, and the numbers are below the next
-- one), that one is not the last of an unsigned int, and the new descriptor is not in use, they agree again after one round of CreateConnBatch;
-- the new descriptor leads to the new connection, and every other one to what it led to before.
pub create_conn-IsConsistent :
    (fd : ℕ) (addr : Bytes) (s : Server)
    → IsConsistent s
    → lookup fd s.conn_fd_map ≡ none
    → suc s.max_sessid < 2 ^ 32
    → let s' = create_conn fd addr s in
      IsConsistent s'
      × ((j : ℕ) → get_conn s' j ≡ (if fd == j then some (created fd s) else get_conn s j))
unfolding Conn.new_conn
create_conn-IsConsistent fd addr s w fresh small =
    let (m, f, n) = create_conn-maps fd addr s in
    let c = created fd s in
    let next : u32 (suc s.max_sessid) ≡ suc s.max_sessid = omega arith in
    (
      rw (m, f, n, next)
          (inserted-IsManager s.conn_map s.conn_fd_map s.max_sessid w fd c refl refl fresh),
      λ j.
          get_conn-found _ j
          ∙ rw (m, f, get_conn-found s j)
              (found-inserted s.conn_map s.conn_fd_map s.max_sessid w fd c refl refl fresh j),
    )

not_found :
    (fd j : ℕ) (s : Server)
    → lookup fd s.conn_fd_map ≡ none
    → get_conn s j ≡ (if fd == j then none else get_conn s j)
not_found fd j s e = elim (Bool-cases (fd == j)) [
  | inl t ↦
      let gone : lookup j s.conn_fd_map ≡ none =
        ap (λ (x : ℕ). lookup x s.conn_fd_map) (sym (eq_of_== fd j t)) ∙ e in
      rw t (get_conn-found s j ∙ rw (gone, found))
  | inr f ↦ rw f
]

-- If the maps of the connection manager agree, they agree again after DelConn; the descriptor
-- leads to no connection, and every other one to what it led to before.
pub del_conn-IsConsistent :
    (fd : ℕ) (late : Bool) (s : Server)
    → IsConsistent s
    → let s' = del_conn fd late s in
      IsConsistent s' × ((j : ℕ) → get_conn s' j ≡ (if fd == j then none else get_conn s j))
del_conn-IsConsistent fd late s w = elim (Option-cases (lookup fd s.conn_fd_map)) [
  | inl e ↦ rw (del_conn-none fd late s e) (w, λ j. not_found fd j s e)
  | inr (pid, e) ↦
      let (c, h, _) = w.by_fd fd pid e in
      let (m, f, n) = del_conn-maps fd pid late c s e h in
      let same = (w.by_pid pid c h).0 in
      (
        rw (m, f, n, same) (erased-IsManager s.conn_map s.conn_fd_map s.max_sessid w fd pid c e h),
        λ j.
            get_conn-found _ j
            ∙ rw (m, f, same, get_conn-found s j)
                (found-erased s.conn_map s.conn_fd_map s.max_sessid w fd pid c e h j),
      )
]
