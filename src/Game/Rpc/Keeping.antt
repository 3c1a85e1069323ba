-- ===== src/Game/Rpc/Keeping.antt =====
-- rpchandle.cpp, rpcGameHandle: all handlers but NewRoom take no room and make no session.
use kcpserver_cpp.Common.{
  ℕ, inl, inr, ◌||◌, Bytes, none, some, List, [], ◌∷◌, Option-cases, ◌==◌, Bool-cases, get_or, u32,
  Each, Each-ok, Each-abort, Each-if, Each-bind,
}
use kcpserver_cpp.Wire.{RpcObj}
use kcpserver_cpp.Text.{strtok, atoi, atoll}
use kcpserver_cpp.Game.State.{Game, Proto}
use kcpserver_cpp.Game.Keeps.{Keeps, Keeps-refl, Keeps-trans}
use kcpserver_cpp.Game.Player.{
  player, set_player, pop_player, append_p, get_p_by_rid, update_player, set_sessid, offline,
}
use kcpserver_cpp.Game.Player
use kcpserver_cpp.Game.Player.Keeping.{
  set_player-Keeps, append_p-Keeps, pop_player-Keeps, update_player-Keeps, set_sessid-Keeps,
  offline-Keeps, send_com_ret_msg-Keeps,
}
use kcpserver_cpp.Game.Room.{room, get_r, is_over, over, set_ready, frame_cmd}
use kcpserver_cpp.Game.Room
use kcpserver_cpp.Game.Room.Keeping.{
  over-roomid, set_ready-roomid, set_room-Keeps, enter_p-Keeps, leave_p-Keeps, frame_cmd-Keeps,
  get_frames_data-Keeps, get_cache_frames-Keeps,
}
use kcpserver_cpp.Game.Room.Manager.{get_room}
use kcpserver_cpp.Game.Rpc.{
  enter_players, over_room, offline_p, leave, enter, all_p_ready, with_room, api_2003, api_2005,
  register_udp, process_kcp,
}

pub enter_players-Keeps :
    (a roomid : ℕ) (pids rids camps : List Bytes) (g : Game)
    → Keeps g (enter_players a roomid pids rids camps g)
unfolding enter_players
enter_players-Keeps a roomid (pid ∷ pids) (rid ∷ rids) (camp ∷ camps) g =
    let (g₁, p) = pop_player g in
    let made =
      Keeps-trans _ (pop_player-Keeps g)
        (set_player-Keeps p (Player.init (atoi pid) (atoll rid) roomid) g₁) in
    let known = Keeps-trans _ made (append_p-Keeps p _) in
    let ready = Keeps-trans _ known (set_player-Keeps p _ _) in
    Keeps-trans _ (Keeps-trans _ ready (enter_p-Keeps a p none _))
      (enter_players-Keeps a roomid pids rids camps _)
enter_players-Keeps a roomid [] rids camps g = Keeps-refl g
enter_players-Keeps a roomid (pid ∷ pids) [] camps g = Keeps-refl g
enter_players-Keeps a roomid (pid ∷ pids) (rid ∷ rids) [] g = Keeps-refl g

pub over_room-Keeps : (obj : RpcObj) (g : Game) → Keeps g (over_room obj g).0
unfolding over_room
over_room-Keeps obj g = elim (Option-cases (get_room g (u32 obj.pid))) [
  | inl e ↦ rw (e, over_room) (Keeps-refl g)
  | inr (a, e) ↦ rw (e, over_room) (set_room-Keeps a _ g (over-roomid _ (room g a)))
]

pub offline_p-Keeps : (obj : RpcObj) (g : Game) → Keeps g (offline_p obj g).0
unfolding offline_p
offline_p-Keeps obj g = elim (Option-cases (get_p_by_rid g obj.pid)) [
  | inl e ↦ rw (e, offline_p) (Keeps-refl g)
  | inr (p, e) ↦ elim (Option-cases (get_room (offline p g) (player (offline p g) p).roomid)) [
    | inl n ↦ rw (e, n, offline_p) (offline-Keeps p g)
    | inr (a, n) ↦
        rw (e, n, offline_p) (Keeps-trans _ (offline-Keeps p g) (leave_p-Keeps a p (offline p g)))
  ]
]

pub leave-Keeps : (obj : RpcObj) (g : Game) → Keeps g (leave obj g).0
unfolding leave
leave-Keeps obj g = elim (Option-cases (Player.get_p g (u32 obj.pid))) [
  | inl e ↦ rw (e, leave) (Keeps-refl g)
  | inr (p, e) ↦ elim (Option-cases (get_room g (player g p).roomid)) [
    | inl n ↦ rw (e, n, leave) (Keeps-refl g)
    | inr (a, n) ↦ rw (e, n, leave) (leave_p-Keeps a p g)
  ]
]

pub enter-Keeps : (obj : RpcObj) (g : Game) → Each (λ (r : Game × ℕ). Keeps g r.0) (enter obj g)
unfolding enter
enter-Keeps obj g =
    let parts = strtok b',' obj.body in
    let rid = atoll (get_or parts 0 []) in
    let pid = atoi (get_or parts 1 []) in
    let roomid = atoi (get_or parts 2 []) in
    let zero_part = rid == 0 || pid == 0 || roomid == 0 in
    elim (Option-cases (get_room g roomid)) [
      | inl e ↦ rw (e, enter) (Each-if zero_part Each-abort (Each-ok (Keeps-refl g)))
      | inr (a, e) ↦ elim (Option-cases (Player.get_p g (u32 rid))) [
        | inl n ↦ rw (e, n, enter) (Each-if zero_part Each-abort (Each-ok (Keeps-refl g)))
        | inr (p, n) ↦
            rw (e, n, enter) (Each-if zero_part Each-abort (Each-ok (enter_p-Keeps a p none g)))
      ]
    ]

pub all_p_ready-Keeps : (obj : RpcObj) (g : Game) → Keeps g (all_p_ready obj g).0
unfolding all_p_ready
all_p_ready-Keeps obj g = elim (Option-cases (get_room g (u32 obj.pid))) [
  | inl e ↦ rw (e, all_p_ready) (Keeps-refl g)
  | inr (a, e) ↦ rw (e, all_p_ready) (set_room-Keeps a _ g (set_ready-roomid (room g a)))
]

with_room-Keeps :
    (proto : Proto) (msgid : ℕ) (obj : RpcObj) (g : Game) (then_do : ℕ → ℕ → Game × ℕ)
    → ((a p : ℕ) → Keeps g (then_do a p).0)
    → Keeps g (with_room proto msgid obj g then_do).0
unfolding with_room
with_room-Keeps proto msgid obj g then_do k = elim (Option-cases (Player.get_p g (u32 obj.pid))) [
  | inl e ↦ rw (e, with_room) (Keeps-refl g)
  | inr (p, e) ↦ elim (Option-cases (get_room g (player g p).roomid)) [
    | inl n ↦ rw (e, n, with_room) (send_com_ret_msg-Keeps proto p msgid 1 g)
    | inr (a, n) ↦ elim (Bool-cases (is_over (room g a))) [
      | inl t ↦ rw (e, n, t, with_room) (send_com_ret_msg-Keeps proto p msgid 2 g)
      | inr f ↦ rw (e, n, f, with_room) (k a p)
    ]
  ]
]

pub api_2003-Keeps : (proto : Proto) (obj : RpcObj) (g : Game) → Keeps g (api_2003 proto obj g).0
unfolding api_2003
api_2003-Keeps proto obj g =
    with_room-Keeps proto 2003 obj g _ (λ a p. get_cache_frames-Keeps proto a p _ g)

pub api_2005-Keeps : (proto : Proto) (obj : RpcObj) (g : Game) → Keeps g (api_2005 proto obj g).0
unfolding api_2005
api_2005-Keeps proto obj g = with_room-Keeps proto 2005 obj g _ (λ a p. Keeps-refl g)

register_udp-Keeps :
    (a rid pid sessid : ℕ) (g : Game)
    → Each (λ (h : Game). Keeps g h) (register_udp a rid pid sessid g)
unfolding register_udp
register_udp-Keeps a rid pid sessid g = elim (Option-cases (get_r (room g a) rid)) [
  | inl e ↦ rw (e, register_udp) (Each-ok (Keeps-refl g))
  | inr (p, e) ↦
      rw (e, register_udp)
        (Each-bind (set_sessid-Keeps p sessid pid (update_player p pid g)) (λ r k. Each-ok (
          Keeps-trans _ (Keeps-trans r.0 (update_player-Keeps p pid g) k)
            (enter_p-Keeps a p (some r.1) r.0))))
]

-- processKcp.
pub process_kcp-Keeps :
    (proto : Proto) (msgid : ℕ) (body : Bytes) (pid sessid roomid : ℕ) (g : Game)
    → Each (λ (h : Game). Keeps g h) (process_kcp proto msgid body pid sessid roomid g)
unfolding process_kcp
process_kcp-Keeps proto msgid body pid sessid roomid g = elim (Option-cases (get_room g roomid)) [
  | inl e ↦ rw (e, process_kcp) (Each-ok (Keeps-refl g))
  | inr (a, e) ↦
      rw (e, process_kcp)
        (Each-if (msgid == 2000) (Each-ok (frame_cmd-Keeps proto a pid body g)) (
          Each-if (msgid == 2004) (register_udp-Keeps a (proto.parse_2004 body) pid sessid g) (
            Each-if (msgid == 2002)
              (elim (Option-cases (Room.get_p (room g a) pid)) [
                | inl n ↦ rw n (Each-ok (Keeps-refl g))
                | inr (p, n) ↦ rw n (Each-ok (get_frames_data-Keeps proto a p body g))
              ])
              (Each-ok (Keeps-refl g)))))
]
