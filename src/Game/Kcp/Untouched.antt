-- ===== src/Game/Kcp/Untouched.antt =====
-- kcpsess/sessServer.cpp: what closing a session does to the rooms.
use kcpserver_cpp.Common.{ℕ, ◌≡◌, refl, lookup, Option-cases, inl, inr}
use kcpserver_cpp.Game.State.{Game, emit}
use kcpserver_cpp.Game.Kcp.{
  close, push_udp_conn, drop_conn, raw_get_conn, del_conn, close_conn, raw_close_conn, bind_conn,
  conn,
}

drop_conn-rooms : (fd a : ℕ) (g : Game) → (drop_conn fd a g).rooms ≡ g.rooms
unfolding drop_conn close push_udp_conn emit
drop_conn-rooms fd a g = refl

pub del_conn-rooms : (fd : ℕ) (g : Game) → (del_conn fd g).rooms ≡ g.rooms
unfolding del_conn
del_conn-rooms fd g = elim (Option-cases (lookup fd g.kcp.map_conn)) [
  | inl e ↦ rw (e, del_conn)
  | inr (a, e) ↦ rw (e, del_conn) (drop_conn-rooms fd a g)
]

pub close_conn-rooms : (id : ℕ) (g : Game) → (close_conn id g).rooms ≡ g.rooms
unfolding close_conn
close_conn-rooms id g = elim (Option-cases (raw_get_conn g id)) [
  | inl e ↦ rw (e, close_conn)
  | inr (a, e) ↦ rw (e, close_conn) (del_conn-rooms _ g)
]

pub raw_close_conn-rooms : (id : ℕ) (g : Game) → (raw_close_conn id g).rooms ≡ g.rooms
unfolding raw_close_conn
raw_close_conn-rooms id g = elim (Option-cases (raw_get_conn g id)) [
  | inl e ↦ rw (e, raw_close_conn)
  | inr (a, e) ↦ elim (Option-cases (lookup (conn g a).fd g.kcp.map_conn)) [
    | inl n ↦ rw (e, n, raw_close_conn)
    | inr (b, n) ↦ rw (e, n, raw_close_conn) (drop_conn-rooms _ b g)
  ]
]

pub bind_conn-rooms : (id : ℕ) (g : Game) → (bind_conn id g).0.rooms ≡ g.rooms
unfolding bind_conn
bind_conn-rooms id g = elim (Option-cases (raw_get_conn g id)) [
  | inl e ↦ rw (e, bind_conn)
  | inr (a, e) ↦ rw (e, bind_conn)
]
