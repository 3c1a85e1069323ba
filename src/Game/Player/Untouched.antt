-- ===== src/Game/Player/Untouched.antt =====
-- core/player.cpp: what sending and removing do to the rooms.
use kcpserver_cpp.Common.{ℕ, ◌≡◌, refl, Bytes, Option-cases, inl, inr}
use kcpserver_cpp.Game.State.{Game, emit}
use kcpserver_cpp.Game.Kcp.Untouched.{close_conn-rooms}
use kcpserver_cpp.Game.Player.{send_msg, offline, get_p_by_rid, push_player, remove_p}

pub send_msg-rooms :
    (p : ℕ) (buf : Bytes) (msgid : ℕ) (g : Game) → (send_msg p buf msgid g).rooms ≡ g.rooms
unfolding send_msg emit
send_msg-rooms p buf msgid g = refl

offline-rooms : (p : ℕ) (g : Game) → (offline p g).rooms ≡ g.rooms
unfolding offline
offline-rooms p g = close_conn-rooms _ _

pub remove_p-rooms : (rid : ℕ) (g : Game) → (remove_p rid g).rooms ≡ g.rooms
unfolding push_player remove_p
remove_p-rooms rid g = elim (Option-cases (get_p_by_rid g rid)) [
  | inl e ↦ rw (e, remove_p)
  | inr (p, e) ↦ rw (e, remove_p) (offline-rooms p g)
]
