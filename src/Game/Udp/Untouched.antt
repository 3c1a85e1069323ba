-- ===== src/Game/Udp/Untouched.antt =====
-- kcpsess/sessServer.cpp: what the thread of the KCP server does to the rooms, nothing.
use kcpserver_cpp.Common.{
  ℕ, ◌*◌, ◌≡◌, ◌∙◌, inl, inr, true, false, Bool, Option, none, some, List, [], ◌∷◌, ◌==◌, ltb,
  sub32, if◌then◌else◌, arith, Bytes, length, is_empty, take, lookup, Option-cases, Each, Each-ok,
  Each-abort, Each-if, Each-bind,
}
use kcpserver_cpp.Game.State.{Game, RoomMgr, emit}
use kcpserver_cpp.Game.Kcp.{
  create_conn, pop_udp_conn, del_conn, del_conns, timed_out, on_check_timeout,
}
use kcpserver_cpp.Game.Kcp.Untouched.{del_conn-rooms}
use kcpserver_cpp.Game.Session.{conn, set_read}
use kcpserver_cpp.Game.Udp.{
  Arrival, Datagram, came, empty, none_yet, broken, input, on_read, process_msg, accept_one,
  accept_conn, ep_events, ep_round, ikcp_overhead, read_buff_size,
}

-- The rooms are those of `r`.
abbrev HasRooms : RoomMgr → Game → Type 0
HasRooms r g = g.rooms ≡ r

create_conn-rooms :
    (now fd : ℕ) (bs : Bytes) (g : Game) → (create_conn now fd bs g).0.rooms ≡ g.rooms
unfolding create_conn pop_udp_conn
create_conn-rooms now fd bs g = ground arith

module _ (r : RoomMgr) where
  input-rooms :
      (a : ℕ) (bytes : Option Bytes) (g : Game) → HasRooms r g → Each (HasRooms r) (input a bytes g)
  unfolding input emit
  input-rooms a none g e = Each-if (conn g a).kcp (Each-ok e) Each-abort
  input-rooms a (some bs) g e = Each-if (conn g a).kcp (Each-ok e) Each-abort

  on_read-rooms :
      (answer : Datagram) (a : ℕ) (g : Game) → HasRooms r g → Each (HasRooms r) (on_read answer a g)
  unfolding on_read set_read
  on_read-rooms (came bs) a g e = input-rooms a (some bs) (set_read a g) e
  on_read-rooms (empty true) a g e = input-rooms a none (set_read a g) e
  on_read-rooms (empty false) a g e = Each-ok e
  on_read-rooms none_yet a g e = input-rooms a none (set_read a g) e
  on_read-rooms broken a g e = Each-ok e

  process_msg-rooms :
      (answer : Datagram) (fd : ℕ) (g : Game)
      → HasRooms r g
      → Each (HasRooms r) (process_msg answer fd g)
  unfolding process_msg
  process_msg-rooms answer fd g e = elim (Option-cases (lookup fd g.kcp.map_conn)) [
    | inl n ↦ rw (n, process_msg) (Each-ok e)
    | inr (a, n) ↦ rw (n, process_msg) (on_read-rooms answer a g e)
  ]

  accept_conn-rooms :
      (now : ℕ) (xs : List Arrival) (g : Game)
      → HasRooms r g
      → Each (λ (s : Game × List Arrival). HasRooms r s.0) (accept_conn now xs g)
  unfolding accept_conn accept_one emit
  accept_conn-rooms now [] g e = Each-ok e
  accept_conn-rooms now (a ∷ more) g e =
      let made = create_conn-rooms now a.clifd (take read_buff_size a.bytes) g ∙ e in
      let one : Each (HasRooms r) (accept_one now a g) =
        Each-if a.bound (Each-ok made) Each-abort in
      Each-if (is_empty a.bytes) (accept_conn-rooms now more g e) (
        Each-if (ltb (length a.bytes) ikcp_overhead) (Each-ok e)
          (Each-bind one (λ g' e'. accept_conn-rooms now more g' e')))

  ep_events-rooms :
      (serv_fd now : ℕ) (answers : ℕ → Datagram) (fds : List ℕ) (s : Game × List Arrival)
      → HasRooms r s.0
      → Each (λ (s' : Game × List Arrival). HasRooms r s'.0) (ep_events serv_fd now answers fds s)
  unfolding ep_events
  ep_events-rooms serv_fd now answers [] s e = Each-ok e
  ep_events-rooms serv_fd now answers (fd ∷ fds) (g, xs) e =
      Each-if (fd == serv_fd)
        (Each-bind (accept_conn-rooms now xs g e)
          (λ s e'. ep_events-rooms serv_fd now answers fds s e'))
        (Each-bind (process_msg-rooms (answers fd) fd g e)
          (λ g' e'. ep_events-rooms serv_fd now answers fds (g', xs) e'))

  del_conns-rooms : (fds : List ℕ) (g : Game) → HasRooms r g → HasRooms r (del_conns fds g)
  unfolding del_conns
  del_conns-rooms [] g e = e
  del_conns-rooms (fd ∷ fds) g e = del_conns-rooms fds (del_conn fd g) (del_conn-rooms fd g ∙ e)

  on_check_timeout-rooms : (now : ℕ) (g : Game) → HasRooms r g → HasRooms r (on_check_timeout now g)
  unfolding on_check_timeout
  on_check_timeout-rooms now g e = rooms-if (g.kcp.last_tick == 0) _ _ e (
      rooms-if (ltb (1000 * 2) (sub32 now g.kcp.last_tick)) _ _
        (del_conns-rooms (timed_out now g g.kcp.map_conn) _ e) e)
    where
      rooms-if :
          (b : Bool) (x y : Game) → HasRooms r x → HasRooms r y → HasRooms r (if b then x else y)
      rooms-if true x y p q = p
      rooms-if false x y p q = q

  pub ep_round-rooms :
      (serv_fd now : ℕ) (answers : ℕ → Datagram) (fds : List ℕ) (g : Game) (xs : List Arrival)
      → HasRooms r g
      → Each
          (λ (s : Game × List Arrival). HasRooms r s.0)
          (ep_round serv_fd now answers fds (g, xs))
  unfolding ep_round
  ep_round-rooms serv_fd now answers fds g xs e =
      Each-bind (ep_events-rooms serv_fd now answers fds (g, xs) e)
        (λ s e'. Each-ok (on_check_timeout-rooms now s.0 e'))
