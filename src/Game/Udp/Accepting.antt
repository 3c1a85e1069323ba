-- ===== src/Game/Udp/Accepting.antt =====
-- kcpsess/sessServer.cpp, KCPServer::acceptConn: the kinds of datagrams, and the numbers of the
-- sessions.
use kcpserver_cpp.Common.{
  ℕ, suc, ◌≡◌, true, false, List, [], ◌∷◌, ltb, arith, Bytes, length, is_empty,
}
use kcpserver_cpp.Game.State.{Game}
use kcpserver_cpp.Game.Kcp.{create_conn, pop_udp_conn}
use kcpserver_cpp.Game.Udp.{Arrival, ikcp_overhead}

-- A datagram that is long enough and whose socket can be bound, and one that is too short.
abbrev pub IsFull : Arrival → Type 0
IsFull a =
    (a.bound ≡ true) × (is_empty a.bytes ≡ false) × (ltb (length a.bytes) ikcp_overhead ≡ false)

abbrev pub IsShort : Arrival → Type 0
IsShort a = (is_empty a.bytes ≡ false) × (ltb (length a.bytes) ikcp_overhead ≡ true)

abbrev pub AllFull : List Arrival → Type 0
AllFull [] = Unit {0}
AllFull (a ∷ more) = IsFull a × AllFull more

pub create_conn-sess_id :
    (now fd : ℕ) (bs : Bytes) (g : Game)
    → (create_conn now fd bs g).0.kcp.sess_id ≡ suc g.kcp.sess_id
unfolding create_conn pop_udp_conn
create_conn-sess_id now fd bs g = ground arith
