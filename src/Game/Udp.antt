-- ===== src/Game/Udp.antt =====
-- kcpsess/sessServer.cpp: the datagrams. KCPServer::epThread takes the first datagram of a client
-- from the listening socket and makes a session with a connected socket of its own for it; later
-- ones come in on that socket. What is given to ikcp_input is put into the trace.
pub mod Accepting
pub mod Agreement
pub mod Accepted
pub mod Rounds
pub mod Untouched
pub mod Closing
use kcpserver_cpp.Common.{
  ℕ, ◌-◌, ◌^◌, Bool, not, true, false, Option, none, some, List, [], ◌∷◌, ◌==◌, ltb, if◌then◌else◌,
  Bytes, length, is_empty, take, lookup, Map, Outcome, ok, abort, ◌>>=◌,
}
use kcpserver_cpp.Game.State.{Game, UdpConn, kcp_input, close_fd, emit}
use kcpserver_cpp.Game.Kcp.{create_conn, on_check_timeout, close}
use kcpserver_cpp.Game.Session.{conn, set_read}

-- IKCP_OVERHEAD, READ_BUFF_SIZE and the buffer of acceptConn.
abbrev pub ikcp_overhead : ℕ
ikcp_overhead = 24

abbrev pub read_buff_size : ℕ
read_buff_size = 4096

-- How `read` on the socket of a session answers: a datagram, of which what does not fit is lost, an
-- empty one, EAGAIN, or another error. `read` leaves errno alone at an empty one, so the flag says
-- whether EAGAIN stands there from before.
pub data Datagram : Type 0 where
  came : Bytes → Datagram
  empty : Bool → Datagram
  none_yet : Datagram
  broken : Datagram

-- ikcp_input, which needs the control block. It refuses a length of 0 and of -1.
pub input : ℕ → Option Bytes → Game → Outcome Game
input a bytes g =
    let g' : Game = elim bytes [
      | none ↦ g
      | some bs ↦ emit (kcp_input a (take read_buff_size bs)) g
    ] in
    if (conn g a).kcp then ok g' else abort

-- UDPConn::OnRead.
pub on_read : Datagram → ℕ → Game → Outcome Game
on_read (came bs) a g = input a (some bs) (set_read a g)
on_read (empty true) a g = input a none (set_read a g)
on_read (empty false) a g = ok g
on_read none_yet a g = input a none (set_read a g)
on_read broken a g = ok g

-- KCPServer::processMsg, which does not ask what OnRead returns.
pub process_msg : Datagram → ℕ → Game → Outcome Game
process_msg answer clifd g = elim (lookup clifd g.kcp.map_conn) [
  | none ↦ ok g
  | some a ↦ on_read answer a g
]

-- A datagram that waits at the listening socket, with what `socket` gives for the client and
-- whether `bind` succeeds on it.
pub record Arrival : Type 0 where
  pub bytes : Bytes
  pub clifd : ℕ
  pub bound : Bool

-- The rest of a round of acceptConn: the new socket and its session, whose init gives the datagram
-- to KCP. A failing `bind` ends the program.
pub accept_one : ℕ → Arrival → Game → Outcome Game
accept_one now a g =
    let bs = take read_buff_size a.bytes in
    let (g', c) = create_conn now a.clifd bs g in
    if a.bound then ok (emit (kcp_input c bs) g') else abort

-- acceptConn: the state and the datagrams that are left at the socket. An empty datagram is passed
-- over, and one that is too short for a head of KCP ends the loop, like an empty socket does.
pub accept_conn : ℕ → List Arrival → Game → Outcome (Game × List Arrival)
accept_conn now [] g = ok (g, [])
accept_conn now (a ∷ more) g =
    let next = accept_one now a g >>= λ g'. accept_conn now more g' in
    let skip = accept_conn now more g in
    if is_empty a.bytes
    then skip
    else (if ltb (length a.bytes) ikcp_overhead then ok (g, more) else next)

-- The loop of epThread over the events of one epoll_wait, and the timeouts behind it. `arrivals` is
-- what waits at the listening socket `serv_fd`, `answers` how the others answer.
pub ep_events :
    ℕ → ℕ → (ℕ → Datagram) → List ℕ → Game × List Arrival → Outcome (Game × List Arrival)
ep_events serv_fd now answers [] s = ok s
ep_events serv_fd now answers (fd ∷ fds) (g, arrivals) =
    let accepted = accept_conn now arrivals g >>= λ s. ep_events serv_fd now answers fds s in
    let read =
      process_msg (answers fd) fd g >>= λ g'. ep_events serv_fd now answers fds (g', arrivals) in
    if fd == serv_fd then accepted else read

pub ep_round : ℕ → ℕ → (ℕ → Datagram) → List ℕ → Game × List Arrival → Outcome (Game × List Arrival)
ep_round serv_fd now answers fds s =
    ep_events serv_fd now answers fds s >>= λ r. ok (on_check_timeout now r.0, r.1)

-- KCPServer::Destroy closes every session, and the two descriptors of the server.
pub close_all : Map ℕ → Game → Game
close_all [] g = g
close_all ((fd, a) ∷ rest) g = close_all rest (close a g)

unfoldable pub destroy : ℕ → ℕ → Game → Game
destroy serv_fd epoll_fd g =
    emit (close_fd epoll_fd) (emit (close_fd serv_fd) (close_all g.kcp.map_conn g))

-- KCPServer::Listen, with whether `bind`, epoll_ctl and the making of the thread succeed: the port
-- that is listened to, or -1. Without `bind` or the thread the program ends.
pub listen : Bool → Bool → Bool → ℕ → Outcome ℕ
listen bound registered thread port =
    if not bound
    then abort
    else (if not registered then ok (2 ^ 32 - 1) else (if thread then ok port else abort))
