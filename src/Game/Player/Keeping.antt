-- ===== src/Game/Player/Keeping.antt =====
-- core/player.cpp: what the players do to the sessions and the rooms.
use kcpserver_cpp.Common.{
  arith, ℕ, refl, inl, inr, Bytes, Option-cases, ◌==◌, if◌then◌else◌, Each, Each-ok, Each-abort,
}
use kcpserver_cpp.Game.State.{Game, Player, Proto, Msg, packet}
use kcpserver_cpp.Game.Kcp.{bind_conn, raw_close_conn}
use kcpserver_cpp.Game.Kcp.Keeping.{close_conn-Keeps, raw_close_conn-Keeps, bind_conn-Keeps}
use kcpserver_cpp.Game.Kcp.Keeping
use kcpserver_cpp.Game.Keeps.{Keeps, Keeps-refl, Keeps-trans, untouched, emit-Keeps, Keeps-if}
use kcpserver_cpp.Game.Player.{
  player, set_player, set_sessid, send_msg, send_pb_msg, send_com_ret_msg, send_kcp_msg,
  send_pb_kcp_msg, offline, append_p, update_player, get_p_by_rid, push_player, pop_player,
  remove_p,
}

pub set_player-Keeps : (p : ℕ) (v : Player) (g : Game) → Keeps g (set_player p v g)
set_player-Keeps p v g = untouched g _ refl refl

pub append_p-Keeps : (p : ℕ) (g : Game) → Keeps g (append_p p g)
unfolding append_p
append_p-Keeps p g = untouched g _ refl refl

pub update_player-Keeps : (p pid : ℕ) (g : Game) → Keeps g (update_player p pid g)
unfolding update_player append_p
update_player-Keeps p pid g = untouched g _ refl refl

pub pop_player-Keeps : (g : Game) → Keeps g (pop_player g).0
unfolding pop_player
pop_player-Keeps g = untouched g _ (ground arith) (ground arith)

pub send_msg-Keeps : (p : ℕ) (buf : Bytes) (msgid : ℕ) (g : Game) → Keeps g (send_msg p buf msgid g)
unfolding send_msg
send_msg-Keeps p buf msgid g = emit-Keeps _ g

pub send_pb_msg-Keeps :
    (proto : Proto) (p msgid : ℕ) (m : Msg) (g : Game) → Keeps g (send_pb_msg proto p msgid m g)
unfolding send_pb_msg
send_pb_msg-Keeps proto p msgid m g = send_msg-Keeps p _ msgid g

pub send_com_ret_msg-Keeps :
    (proto : Proto) (p msgid ret : ℕ) (g : Game) → Keeps g (send_com_ret_msg proto p msgid ret g)
unfolding send_com_ret_msg
send_com_ret_msg-Keeps proto p msgid ret g = send_pb_msg-Keeps proto p msgid _ g

pub send_pb_kcp_msg-Keeps :
    (proto : Proto) (p msgid : ℕ) (m : Msg) (g : Game) → Keeps g (send_pb_kcp_msg proto p msgid m g)
unfolding send_pb_kcp_msg send_kcp_msg
send_pb_kcp_msg-Keeps proto p msgid m g = Keeps-if ((player g p).sessid == 0) (Keeps-refl g) (
    Keeps-if (player g p).off (Keeps-refl g)
      (Keeping.send_msg-Keeps (player g p).sessid (packet proto msgid m) g))

pub offline-Keeps : (p : ℕ) (g : Game) → Keeps g (offline p g)
unfolding offline
offline-Keeps p g = Keeps-trans _ (set_player-Keeps p _ g) (close_conn-Keeps _ _)

pub remove_p-Keeps : (rid : ℕ) (g : Game) → Keeps g (remove_p rid g)
unfolding remove_p push_player
remove_p-Keeps rid g = elim (Option-cases (get_p_by_rid g rid)) [
  | inl e ↦ rw (e, remove_p) (Keeps-refl g)
  | inr (p, e) ↦
      rw (e, remove_p) (Keeps-trans _ (offline-Keeps p g) (untouched (offline p g) _ refl refl))
]

pub set_sessid-Keeps :
    (p id pid : ℕ) (g : Game) → Each (λ (r : Game × ℕ). Keeps g r.0) (set_sessid p id pid g)
unfolding set_sessid
set_sessid-Keeps p id pid g =
    let old = (player g p).sessid in
    let g₁ = if old == 0 then g else raw_close_conn old g in
    let g₂ = set_player p (record (player g₁ p) { sessid = id; pid = pid }) g₁ in
    let closed : Keeps g g₁ = Keeps-if (old == 0) (Keeps-refl g) (raw_close_conn-Keeps old g) in
    let all : Keeps g (bind_conn id g₂).0 =
      Keeps-trans _ (Keeps-trans g₂ closed (set_player-Keeps p _ g₁)) (bind_conn-Keeps id g₂) in
    elim (Option-cases (bind_conn id g₂).1) [
      | inl e ↦ rw (e, set_sessid) Each-abort
      | inr (c, e) ↦ rw (e, set_sessid) (Each-ok (Keeps-trans _ all (set_player-Keeps p _ _)))
    ]
