-- ===== src/Game/Udp/Rounds.antt =====
-- kcpsess/sessServer.cpp, KCPServer::epThread: the maps of the server over the rounds of its thread.
use kcpserver_cpp.Common.{
  ℕ, Bool, ◌*◌, sub32, ◌≡◌, inl, inr, refl, true, false, Option, none, some, List, [], ◌∷◌, ◌==◌,
  ltb, if◌then◌else◌, Bytes, length, is_empty, take, lookup, Gives, Gives-ok, Gives-if, Gives-bind,
  ok, Option-cases,
}
use kcpserver_cpp.Game.State.{Game, kcp_input, emit}
use kcpserver_cpp.Game.Kcp.{create_conn, del_conns, timed_out, on_check_timeout}
use kcpserver_cpp.Game.Kcp.Sessions.{conn}
use kcpserver_cpp.Game.Session.{set_read}
use kcpserver_cpp.Game.Udp.{
  Arrival, Datagram, came, empty, none_yet, broken, input, on_read, process_msg, accept_one,
  accept_conn, ep_events, ep_round, ikcp_overhead, read_buff_size,
}
use kcpserver_cpp.Game.Udp.Agreement.{
  IsOpen, same_kcp-IsOpen, set_read-IsOpen, create_conn-IsOpen, del_conn-IsOpen, ticked-IsOpen,
  passed_over,
}

-- What a state and the datagrams that wait in it satisfy.
abbrev Opens : Game × List Arrival → Type 0
Opens s = IsOpen s.0 s.1

input-IsOpen :
    (a : ℕ) (bytes : Option Bytes) (g : Game) (xs : List Arrival)
    → IsOpen g xs
    → (conn g a).kcp ≡ true
    → Gives (λ g'. IsOpen g' xs) (input a bytes g)
unfolding input emit
input-IsOpen a none g xs w l = rw l (Gives-ok w)
input-IsOpen a (some bs) g xs w l =
    rw l (Gives-ok (same_kcp-IsOpen g (emit (kcp_input a (take read_buff_size bs)) g) xs refl w))

input_read-IsOpen :
    (bytes : Option Bytes) (fd a : ℕ) (g : Game) (xs : List Arrival)
    → IsOpen g xs
    → lookup fd g.kcp.map_conn ≡ some a
    → Gives (λ g'. IsOpen g' xs) (input a bytes (set_read a g))
unfolding set_read
input_read-IsOpen bytes fd a g xs w e =
    let w' = set_read-IsOpen a g xs w in input-IsOpen a bytes _ xs w' (w'.live fd a e)

on_read-IsOpen :
    (answer : Datagram) (fd a : ℕ) (g : Game) (xs : List Arrival)
    → IsOpen g xs
    → lookup fd g.kcp.map_conn ≡ some a
    → Gives (λ g'. IsOpen g' xs) (on_read answer a g)
unfolding on_read
on_read-IsOpen (came bs) fd a g xs w e = input_read-IsOpen (some bs) fd a g xs w e
on_read-IsOpen (empty true) fd a g xs w e = input_read-IsOpen none fd a g xs w e
on_read-IsOpen (empty false) fd a g xs w e = Gives-ok w
on_read-IsOpen none_yet fd a g xs w e = input_read-IsOpen none fd a g xs w e
on_read-IsOpen broken fd a g xs w e = Gives-ok w

process_msg-IsOpen :
    (answer : Datagram) (fd : ℕ) (g : Game) (xs : List Arrival)
    → IsOpen g xs
    → Gives (λ g'. IsOpen g' xs) (process_msg answer fd g)
unfolding process_msg
process_msg-IsOpen answer fd g xs w = elim (Option-cases (lookup fd g.kcp.map_conn)) [
  | inl e ↦ rw (e, process_msg) (Gives-ok w)
  | inr (a, e) ↦ rw (e, process_msg) (on_read-IsOpen answer fd a g xs w e)
]

accept_one-IsOpen :
    (now : ℕ) (a : Arrival) (more : List Arrival) (g : Game)
    → IsOpen g (a ∷ more)
    → Gives (λ g'. IsOpen g' more) (accept_one now a g)
unfolding accept_one emit
accept_one-IsOpen now a more g w =
    let bs = take read_buff_size a.bytes in
    let (g', c) = create_conn now a.clifd bs g in
    rw (w.bound.0) (
      Gives-ok (
        same_kcp-IsOpen g' (emit (kcp_input c bs) g') more refl
          (create_conn-IsOpen now a bs more g w)))

accept_conn-IsOpen :
    (now : ℕ) (xs : List Arrival) (g : Game) → IsOpen g xs → Gives Opens (accept_conn now xs g)
unfolding accept_conn
accept_conn-IsOpen now [] g w = Gives-ok w
accept_conn-IsOpen now (a ∷ more) g w =
    Gives-if (is_empty a.bytes) (accept_conn-IsOpen now more g (passed_over a more g w)) (
      Gives-if (ltb (length a.bytes) ikcp_overhead) (Gives-ok (passed_over a more g w)) (
        Gives-bind (accept_one-IsOpen now a more g w) (λ g' w'. accept_conn-IsOpen now more g' w')))

ep_events-IsOpen :
    (serv_fd now : ℕ) (answers : ℕ → Datagram) (fds : List ℕ) (s : Game × List Arrival)
    → Opens s
    → Gives Opens (ep_events serv_fd now answers fds s)
unfolding ep_events
ep_events-IsOpen serv_fd now answers [] s w = Gives-ok w
ep_events-IsOpen serv_fd now answers (fd ∷ fds) (g, xs) w =
    Gives-if (fd == serv_fd)
      (Gives-bind (accept_conn-IsOpen now xs g w)
        (λ s w'. ep_events-IsOpen serv_fd now answers fds s w'))
      (Gives-bind (process_msg-IsOpen (answers fd) fd g xs w)
        (λ g' w'. ep_events-IsOpen serv_fd now answers fds (g', xs) w'))

del_conns-IsOpen :
    (fds : List ℕ) (g : Game) (xs : List Arrival) → IsOpen g xs → IsOpen (del_conns fds g) xs
unfolding del_conns
del_conns-IsOpen [] g xs w = w
del_conns-IsOpen (fd ∷ fds) g xs w = del_conns-IsOpen fds _ xs (del_conn-IsOpen fd g xs w)

IsOpen-if :
    (b : Bool) {g h : Game} (xs : List Arrival)
    → IsOpen g xs
    → IsOpen h xs
    → IsOpen (if b then g else h) xs
IsOpen-if true xs w v = w
IsOpen-if false xs w v = v

on_check_timeout-IsOpen :
    (now : ℕ) (g : Game) (xs : List Arrival) → IsOpen g xs → IsOpen (on_check_timeout now g) xs
unfolding on_check_timeout
on_check_timeout-IsOpen now g xs w =
    let t = ticked-IsOpen now g xs w in
    let d = del_conns-IsOpen (timed_out now g g.kcp.map_conn) _ xs t in
    IsOpen-if (g.kcp.last_tick == 0) xs t
      (IsOpen-if (ltb (1000 * 2) (sub32 now g.kcp.last_tick)) xs d w)

-- Each round of the thread of the KCP server returns and keeps its maps in agreement, whatever epoll
-- reports and the sockets answer. If the maps and the pool agree, every session in use has its
-- control block, the sockets for the clients that wait are new, different and can be bound, and the
-- numbers of the sessions stay below 2 ^ 32 with them, then the round returns a state, with the
-- clients that still wait, of which the same holds.
pub ep_round-IsOpen :
    (serv_fd now : ℕ) (answers : ℕ → Datagram) (fds : List ℕ) (g : Game) (arrivals : List Arrival)
    → IsOpen g arrivals
    → (s : Game × List Arrival) × (ep_round serv_fd now answers fds (g, arrivals) ≡ ok s)
      × IsOpen s.0 s.1
unfolding ep_round
ep_round-IsOpen serv_fd now answers fds g arrivals w =
    Gives-bind (ep_events-IsOpen serv_fd now answers fds (g, arrivals) w)
      (λ r w'. Gives-ok (on_check_timeout-IsOpen now r.0 r.1 w'))
