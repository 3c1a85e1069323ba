-- ===== src/Game/Kcp/Keeping.antt =====
-- kcpsess/sessServer.cpp: the calls of the sessions by the rest of the game server.
use kcpserver_cpp.Common.{ℕ, ◌≡◌, inl, inr, Bytes, Option-cases, ◌==◌}
use kcpserver_cpp.Game.State.{Game, UdpConn, kcp_send}
use kcpserver_cpp.Game.Kcp.{
  conn, set_conn, write, send_msg, raw_get_conn, close_conn, raw_close_conn, bind_conn,
}
use kcpserver_cpp.Game.Kcp.Living.{
  close_conn-IsAlive, raw_close_conn-IsAlive, bind_conn-IsAlive, stored-IsAlive,
}
use kcpserver_cpp.Game.Kcp.Untouched.{close_conn-rooms, raw_close_conn-rooms, bind_conn-rooms}
use kcpserver_cpp.Game.Keeps.{SameRooms-refl, Keeps, Keeps-refl, emit-Keeps, Keeps-if, same_rooms}

pub write-Keeps : (a : ℕ) (buf : Bytes) (g : Game) → Keeps g (write a buf g)
unfolding write
write-Keeps a buf g = Keeps-if (conn g a).kcp (emit-Keeps (kcp_send a buf) g) (Keeps-refl g)

pub send_msg-Keeps : (id : ℕ) (buf : Bytes) (g : Game) → Keeps g (send_msg id buf g)
unfolding send_msg
send_msg-Keeps id buf g = elim (Option-cases (raw_get_conn g id)) [
  | inl e ↦ rw (e, send_msg) (Keeps-if (id == 0) (Keeps-refl g) (Keeps-refl g))
  | inr (a, e) ↦ rw (e, send_msg) (Keeps-if (id == 0) (Keeps-refl g) (write-Keeps a buf g))
]

pub close_conn-Keeps : (id : ℕ) (g : Game) → Keeps g (close_conn id g)
close_conn-Keeps id g = record {
  alive = close_conn-IsAlive id g;
  rooms = same_rooms (close_conn-rooms id g);
}

pub raw_close_conn-Keeps : (id : ℕ) (g : Game) → Keeps g (raw_close_conn id g)
raw_close_conn-Keeps id g = record {
  alive = raw_close_conn-IsAlive id g;
  rooms = same_rooms (raw_close_conn-rooms id g);
}

pub bind_conn-Keeps : (id : ℕ) (g : Game) → Keeps g (bind_conn id g).0
bind_conn-Keeps id g = record {
  alive = bind_conn-IsAlive id g;
  rooms = same_rooms (bind_conn-rooms id g);
}

-- A session may change in all but its descriptor, its number and its block.
pub set_conn-Keeps :
    (a : ℕ) (c : UdpConn) (g : Game)
    → c.fd ≡ (conn g a).fd
    → c.id ≡ (conn g a).id
    → c.kcp ≡ (conn g a).kcp
    → Keeps g (set_conn a c g)
set_conn-Keeps a c g f i k = record {
  alive = stored-IsAlive a c g f i k;
  rooms = SameRooms-refl g.rooms;
}
