-- ===== src/Game/Room/Keeping.antt =====
-- core/room.cpp: the operations of a room take no other room and make no session.
use kcpserver_cpp.Common.{
  ℕ, zero, suc, ◌≡◌, refl, inl, inr, Bool, true, false, not, ◌&&◌, ◌||◌, Bytes, Option, List, [],
  ◌∷◌, Map, Option-cases, Bool-cases, ◌==◌, ltb, leb, length, Each, Each-ok, Each-hang, Each-if,
  Each-bind, Each-map,
}
use kcpserver_cpp.Game.State.{Game, Room, Proto, Command, Frame, qps}
use kcpserver_cpp.Game.Kcp.{write}
use kcpserver_cpp.Game.Kcp.Keeping.{write-Keeps}
use kcpserver_cpp.Game.Player.{player}
use kcpserver_cpp.Game.Player.Keeping.{
  send_msg-Keeps, send_pb_msg-Keeps, send_pb_kcp_msg-Keeps, remove_p-Keeps,
}
use kcpserver_cpp.Game.Keeps.{
  Keeps, Keeps-refl, Keeps-trans, same_pools, changed_room, emit-Keeps, Keeps-if,
}
use kcpserver_cpp.Game.Room.{
  room, set_room, fetch_pt, fetch_pt2001, recycle_pt2001, recycle_all, current_pt2001, add_command,
  svr_frame_cmd, enter_p, leave_p, get_p, frame_cmd, broadcast_to, broadcast, broadcast_kcp_to,
  broadcast_kcp, remove_all, raw_over, frame_step, frame_loop, check_end, update, get_frames_data,
  get_cache_frames, finnal, no_end, over, set_ready, init, update_delta,
}

-- A room keeps its number.
pub set_room-Keeps :
    (a : ℕ) (r : Room) (g : Game) → r.roomid ≡ (room g a).roomid → Keeps g (set_room a r g)
set_room-Keeps a r g n = changed_room g _ a r refl refl n

pub over-roomid : (force : Bool) (r : Room) → (over force r).roomid ≡ r.roomid
unfolding over
over-roomid true r = refl
over-roomid false r = refl

pub set_ready-roomid : (r : Room) → (set_ready r).roomid ≡ r.roomid
unfolding set_ready
set_ready-roomid r = refl

pub init-roomid : (roomid delta : ℕ) → (update_delta delta (init roomid)).roomid ≡ roomid
unfolding init update_delta
init-roomid roomid delta = refl

fetch_pt-Keeps : (g : Game) → Keeps g (fetch_pt g).0
unfolding fetch_pt
fetch_pt-Keeps g = same_pools g _ refl refl refl refl refl

fetch_pt2001-Keeps : (g : Game) → Keeps g (fetch_pt2001 g).0
unfolding fetch_pt2001
fetch_pt2001-Keeps g = same_pools g _ refl refl refl refl refl

recycle_all-Keeps : (fs : List Frame) (g : Game) → Keeps g (recycle_all fs g)
unfolding recycle_all recycle_pt2001
recycle_all-Keeps [] g = Keeps-refl g
recycle_all-Keeps (f ∷ fs) g =
    Keeps-trans _ (same_pools g (recycle_pt2001 f g) refl refl refl refl refl)
      (recycle_all-Keeps fs (recycle_pt2001 f g))

current_pt2001-Keeps : (a : ℕ) (g : Game) → Keeps g (current_pt2001 a g).0
unfolding current_pt2001
current_pt2001-Keeps a g = elim (Option-cases (room g a).pt2001) [
  | inl e ↦ rw (e, current_pt2001) (fetch_pt2001-Keeps g)
  | inr (f, e) ↦ rw (e, current_pt2001) (Keeps-refl g)
]

add_command-Keeps : (a : ℕ) (c : Command) (g : Game) → Keeps g (add_command a c g)
unfolding add_command
add_command-Keeps a c g =
    Keeps-trans _ (current_pt2001-Keeps a g) (set_room-Keeps a _ (current_pt2001 a g).0 refl)

svr_frame_cmd-Keeps : (a p param : ℕ) (g : Game) → Keeps g (svr_frame_cmd a p param g)
unfolding svr_frame_cmd
svr_frame_cmd-Keeps a p param g =
    Keeps-trans _ (fetch_pt-Keeps g) (add_command-Keeps a _ (fetch_pt g).0)

pub enter_p-Keeps : (a p : ℕ) (pconn : Option ℕ) (g : Game) → Keeps g (enter_p a p pconn g)
unfolding enter_p
enter_p-Keeps a p pconn g = Keeps-trans _ (set_room-Keeps a _ g refl) (svr_frame_cmd-Keeps a p 1 _)

pub leave_p-Keeps : (a p : ℕ) (g : Game) → Keeps g (leave_p a p g)
unfolding leave_p
leave_p-Keeps a p g = svr_frame_cmd-Keeps a p 0 g

-- A command of a client leaves the sessions alone.
pub frame_cmd-kcp :
    (proto : Proto) (a pid : ℕ) (body : Bytes) (g : Game)
    → (frame_cmd proto a pid body g).kcp ≡ g.kcp
unfolding frame_cmd fetch_pt add_command current_pt2001 fetch_pt2001
frame_cmd-kcp proto a pid body g = elim (Option-cases (get_p (room g a) pid)) [
  | inl e ↦ rw (e, frame_cmd) refl
  | inr (p, e) ↦
      rw (e, frame_cmd)
        (elim (Option-cases (room g a).pt2001) [ inl n ↦ rw n refl | inr (f, n) ↦ rw n refl ])
]

pub frame_cmd-Keeps :
    (proto : Proto) (a pid : ℕ) (body : Bytes) (g : Game) → Keeps g (frame_cmd proto a pid body g)
unfolding frame_cmd
frame_cmd-Keeps proto a pid body g = elim (Option-cases (get_p (room g a) pid)) [
  | inl e ↦ rw (e, frame_cmd) (Keeps-refl g)
  | inr (p, e) ↦
      rw (e, frame_cmd) (Keeps-trans _ (fetch_pt-Keeps g) (add_command-Keeps a _ (fetch_pt g).0))
]

broadcast_to-Keeps :
    (buf : Bytes) (msgid : ℕ) (m : Map ℕ) (g : Game) → Keeps g (broadcast_to buf msgid m g)
unfolding broadcast_to
broadcast_to-Keeps buf msgid [] g = Keeps-refl g
broadcast_to-Keeps buf msgid ((rid, p) ∷ m) g =
    Keeps-trans _ (Keeps-if (player g p).off (Keeps-refl g) (send_msg-Keeps p buf msgid g))
      (broadcast_to-Keeps buf msgid m _)

broadcast_kcp_to-Keeps : (buf : Bytes) (m : Map ℕ) (g : Game) → Keeps g (broadcast_kcp_to buf m g)
unfolding broadcast_kcp_to
broadcast_kcp_to-Keeps buf [] g = Keeps-refl g
broadcast_kcp_to-Keeps buf ((pid, c) ∷ m) g =
    Keeps-trans _
      (Keeps-trans _ (write-Keeps c buf g) (emit-Keeps (qps 3 (length buf)) (write c buf g)))
      (broadcast_kcp_to-Keeps buf m _)

remove_all-Keeps : (m : Map ℕ) (g : Game) → Keeps g (remove_all m g)
unfolding remove_all
remove_all-Keeps [] g = Keeps-refl g
remove_all-Keeps ((rid, p) ∷ m) g = Keeps-trans _ (remove_p-Keeps rid g) (remove_all-Keeps m _)

raw_over-Keeps : (proto : Proto) (a : ℕ) (g : Game) → Keeps g (raw_over proto a g)
unfolding raw_over broadcast
raw_over-Keeps proto a g =
    Keeps-trans _
      (Keeps-trans _ (broadcast_to-Keeps _ 213 (room g a).rid_p_map g) (set_room-Keeps a _ _ refl))
      (remove_all-Keeps _ _)

frame_step-Keeps : (proto : Proto) (a ms : ℕ) (g : Game) → Keeps g (frame_step proto a ms g)
unfolding frame_step broadcast_kcp
frame_step-Keeps proto a ms g =
    let begun = Keeps-trans _ (current_pt2001-Keeps a g) (set_room-Keeps a _ _ refl) in
    let sent = Keeps-trans _ begun (broadcast_kcp_to-Keeps _ _ _) in
    Keeps-trans _ (Keeps-trans _ sent (fetch_pt2001-Keeps _)) (set_room-Keeps a _ _ refl)

frame_loop-Keeps :
    (proto : Proto) (fuel a ms : ℕ) (g : Game)
    → Each (λ (h : Game). Keeps g h) (frame_loop proto fuel a ms g)
unfolding frame_loop
frame_loop-Keeps proto zero a ms g = Each-hang
frame_loop-Keeps proto (suc fuel) a ms g =
    elim (Bool-cases (ltb (room g a).acc_ms (room g a).frame_tick)) [
      | inl t ↦ rw (t, frame_loop) (Each-ok (Keeps-refl g))
      | inr f ↦
          rw (f, frame_loop)
            (Each-map (λ h k. Keeps-trans h (frame_step-Keeps proto a ms g) k)
              (frame_loop-Keeps proto fuel a ms (frame_step proto a ms g)))
    ]

check_end-Keeps : (proto : Proto) (a : ℕ) (g : Game) → Keeps g (check_end proto a g).0
unfolding check_end
check_end-Keeps proto a g =
    elim (Bool-cases (
      leb (room g a).end_frame_id (room g a).frame_id && not ((room g a).end_frame_id == no_end))) [
        | inl t ↦ rw t (raw_over-Keeps proto a g)
        | inr f ↦ rw f (Keeps-refl g)
      ]

-- Update of a room.
pub update-Keeps :
    (proto : Proto) (a ms : ℕ) (g : Game)
    → Each (λ (r : Game × ℕ). Keeps g r.0) (update proto a ms g)
unfolding update
update-Keeps proto a ms g = Each-if (room g a).gate_over (Each-ok (raw_over-Keeps proto a g)) (
    Each-if (not (room g a).brun || length (room g a).rid_p_map == 0) (Each-ok (Keeps-refl g)) (
      Each-if ((room g a).last_ms == 0) (Each-ok (set_room-Keeps a _ g refl)) (
        Each-bind (frame_loop-Keeps proto _ a ms _) (λ h k. Each-ok (
          Keeps-trans _ (Keeps-trans h (set_room-Keeps a _ g refl) k)
            (check_end-Keeps proto a h))))))

pub get_frames_data-Keeps :
    (proto : Proto) (a p : ℕ) (body : Bytes) (g : Game) → Keeps g (get_frames_data proto a p body g)
unfolding get_frames_data
get_frames_data-Keeps proto a p body g =
    Keeps-trans _ (send_pb_kcp_msg-Keeps proto p 2002 _ g) (recycle_all-Keeps _ _)

pub get_cache_frames-Keeps :
    (proto : Proto) (a p beginid : ℕ) (g : Game) → Keeps g (get_cache_frames proto a p beginid g)
unfolding get_cache_frames
get_cache_frames-Keeps proto a p beginid g = send_pb_msg-Keeps proto p 2003 _ g

pub finnal-Keeps : (proto : Proto) (a : ℕ) (g : Game) → Keeps g (finnal proto a g)
unfolding finnal
finnal-Keeps proto a g =
    Keeps-trans _ (Keeps-trans _ (emit-Keeps _ g) (recycle_all-Keeps _ _))
      (set_room-Keeps a _ _ refl)
