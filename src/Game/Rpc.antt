-- ===== src/Game/Rpc.antt =====
-- rpchandle.cpp, rpcGameHandle: the calls from the gate and the net server, and the KCP messages.
pub mod Commands
pub mod Keeping
pub mod Creating
use kcpserver_cpp.Common.{
  ℕ, ◌-◌, ◌^◌, ◌&&◌, ◌||◌, Option, none, some, List, [], ◌∷◌, ◌==◌, leb, if◌then◌else◌, Bytes,
  codes, eq_bytes, length, get_or, u32, Outcome, ok, abort, ◌>>=◌,
}
use kcpserver_cpp.Wire.{RpcObj, get_target}
use kcpserver_cpp.Text.{strtok, atoi, atoll, decimal}
use kcpserver_cpp.Game.State.{Game, Proto}
use kcpserver_cpp.Game.Player.{
  player, set_player, pop_player, append_p, get_p_by_rid, update_player, set_sessid, offline,
  send_com_ret_msg,
}
use kcpserver_cpp.Game.Player
use kcpserver_cpp.Game.Room.{
  room, set_room, update_delta, get_r, frame_cmd, leave_p, is_over, over, set_ready,
  get_frames_data, get_cache_frames,
}
use kcpserver_cpp.Game.Room
use kcpserver_cpp.Game.Room.Manager.{pop_room, push_room, append_r, get_room}

-- A handler returns the state and the value that it returns; nobody reads the value.
abbrev pub minus_one : ℕ
minus_one = 2 ^ 32 - 1

abbrev pub minus_two : ℕ
minus_two = 2 ^ 32 - 2

-- The loop of NewRoom over its three arrays.
unfoldable pub enter_players : ℕ → ℕ → List Bytes → List Bytes → List Bytes → Game → Game
enter_players a roomid (pid ∷ pids) (rid ∷ rids) (camp ∷ camps) g =
    let (g₁, p) = pop_player g in
    let g₂ = set_player p (Player.init (atoi pid) (atoll rid) roomid) g₁ in
    let g₃ = append_p p g₂ in
    let g₄ = set_player p (record (player g₃ p) { camp = atoi camp }) g₃ in
    enter_players a roomid pids rids camps (Room.enter_p a p none g₄)
enter_players a roomid _ _ _ g = g

-- NewRoom, once the parts of the body are known to be there.
unfoldable pub new_room_with : ℕ → List Bytes → List Bytes → Bytes → List Bytes → Game → Game × ℕ
new_room_with roomid pids rids delta camps g =
    let (g₁, a) = pop_room g in
    let g₂ = set_room a (update_delta (atoi delta) (Room.init roomid)) g₁ in
    if length pids == length rids && length rids == length camps
    then (append_r a (enter_players a roomid pids rids camps g₂), 0)
    else (push_room a g₂, 0)

-- NewRoom. The body is "pids|rids|delta|camps". Fewer than four parts leave pointers that are not
-- set, and more than sixteen parts or items run over an array: neither is defined.
unfoldable pub new_room : RpcObj → Game → Outcome (Game × ℕ)
new_room obj g =
    let parts = strtok b'|' obj.body in
    let pids = strtok b',' (get_or parts 0 []) in
    let rids = strtok b',' (get_or parts 1 []) in
    let camps = strtok b',' (get_or parts 3 []) in
    if leb 4 (length parts)
      && leb (length parts) 16
      && leb (length pids) 16
      && leb (length rids) 16
      && leb (length camps) 16
    then ok (new_room_with (u32 obj.pid) pids rids (get_or parts 2 []) camps g)
    else abort

pub over_room : RpcObj → Game → Game × ℕ
over_room obj g = elim (get_room g (u32 obj.pid)) [
  | none ↦ (g, 1)
  | some a ↦ (set_room a (over (obj.msgid == 1) (room g a)) g, 0)
]

pub offline_p : RpcObj → Game → Game × ℕ
offline_p obj g = elim (get_p_by_rid g obj.pid) [
  | none ↦ (g, 1)
  | some p ↦
      let g₁ = offline p g in
      elim (get_room g₁ (player g₁ p).roomid) [
        | none ↦ (g₁, minus_one)
        | some a ↦ (leave_p a p g₁, 0)
      ]
]

pub leave : RpcObj → Game → Game × ℕ
leave obj g = elim (Player.get_p g (u32 obj.pid)) [
  | none ↦ (g, 1)
  | some p ↦ elim (get_room g (player g p).roomid) [
    | none ↦ (g, minus_one)
    | some a ↦ (leave_p a p g, 0)
  ]
]

-- EnterP. The body is "rid,pid,roomid,camp"; a part that is missing counts as 0. The player is
-- looked up among the pids by its rid, cut to an `int`.
pub enter : RpcObj → Game → Outcome (Game × ℕ)
enter obj g =
    let parts = strtok b',' obj.body in
    let rid = atoll (get_or parts 0 []) in
    let pid = atoi (get_or parts 1 []) in
    let roomid = atoi (get_or parts 2 []) in
    if rid == 0 || pid == 0 || roomid == 0 then abort else elim (get_room g roomid) [
      | none ↦ ok (g, minus_one)
      | some a ↦ elim (Player.get_p g (u32 rid)) [
        | none ↦ ok (g, minus_two)
        | some p ↦ ok (Room.enter_p a p none g, 0)
      ]
    ]

pub all_p_ready : RpcObj → Game → Game × ℕ
all_p_ready obj g = elim (get_room g (u32 obj.pid)) [
  | none ↦ (g, 1)
  | some a ↦ (set_room a (set_ready (room g a)) g, 0)
]

-- The start that Api_2003 and Api_2005 share: the player, its room, and that the room is not over.
pub with_room : Proto → ℕ → RpcObj → Game → (ℕ → ℕ → Game × ℕ) → Game × ℕ
with_room proto msgid obj g then_do = elim (Player.get_p g (u32 obj.pid)) [
  | none ↦ (g, 1)
  | some p ↦ elim (get_room g (player g p).roomid) [
    | none ↦ (send_com_ret_msg proto p msgid 1 g, 1)
    | some a ↦ if is_over (room g a) then (send_com_ret_msg proto p msgid 2 g, 2) else then_do a p
  ]
]

pub api_2003 : Proto → RpcObj → Game → Game × ℕ
api_2003 proto obj g =
    with_room proto 2003 obj g
      (λ a p. (get_cache_frames proto a p (proto.parse_2003 obj.body) g, 0))

-- VerifyFrame only writes a log line.
pub api_2005 : Proto → RpcObj → Game → Game × ℕ
api_2005 proto obj g = with_room proto 2005 obj g (λ a p. (g, 0))

-- The handlers by name, and the table of `init`.
pub data Handler : Type 0 where
  h_new_room h_over_room h_offline_p h_enter_p h_leave_p h_svr_frame_cmd : Handler
  h_all_p_ready h_msg2game h_take_proxy : Handler
  h_api_2000 h_api_2002 h_api_2003 h_api_2004 h_api_2005 : Handler

abbrev pub handlers : List (Bytes × Handler)
handlers =
    (codes "NewRoom", h_new_room)
    ∷ (codes "OverRoom", h_over_room)
    ∷ (codes "OfflineP", h_offline_p)
    ∷ (codes "EnterP", h_enter_p)
    ∷ (codes "LeaveP", h_leave_p)
    ∷ (codes "SvrFrameCmd", h_svr_frame_cmd)
    ∷ (codes "AllPReady", h_all_p_ready)
    ∷ (codes "Msg2game", h_msg2game)
    ∷ (codes "TakeProxy", h_take_proxy)
    ∷ (codes "2000", h_api_2000)
    ∷ (codes "2002", h_api_2002)
    ∷ (codes "2003", h_api_2003)
    ∷ (codes "2004", h_api_2004)
    ∷ (codes "2005", h_api_2005)
    ∷ []

unfoldable pub find_in : Bytes → List (Bytes × Handler) → Option Handler
find_in key [] = none
find_in key ((name, h) ∷ rest) = if eq_bytes name key then some h else find_in key rest

unfoldable pub find_handler : Bytes → Option Handler
find_handler key = find_in key handlers

-- The calls that do not go on to another handler. SvrFrameCmd, TakeProxy and the APIs 2000, 2002 and
-- 2004 only write a log line.
unfoldable pub run_handler : Proto → Handler → RpcObj → Game → Outcome (Game × ℕ)
run_handler proto h_new_room obj g = new_room obj g
run_handler proto h_over_room obj g = ok (over_room obj g)
run_handler proto h_offline_p obj g = ok (offline_p obj g)
run_handler proto h_enter_p obj g = enter obj g
run_handler proto h_leave_p obj g = ok (leave obj g)
run_handler proto h_all_p_ready obj g = ok (all_p_ready obj g)
run_handler proto h_api_2003 obj g = ok (api_2003 proto obj g)
run_handler proto h_api_2005 obj g = ok (api_2005 proto obj g)
run_handler proto _ obj g = ok (g, 0)

-- Msg2game: on to the handler whose name is the number of the message. No number is the name of
-- Msg2game itself.
pub msg2game : Proto → RpcObj → Game → Outcome (Game × ℕ)
msg2game proto obj g = elim (find_handler (decimal obj.msgid)) [
  | none ↦ ok (g, minus_one)
  | some h ↦ run_handler proto h obj g >>= λ r. ok (r.0, 0)
]

unfoldable pub call_handler : Proto → Handler → RpcObj → Game → Outcome (Game × ℕ)
call_handler proto h_msg2game obj g = msg2game proto obj g
call_handler proto h obj g = run_handler proto h obj g

-- rpcGameHandle::process. A name that is not in the table is dropped.
unfoldable pub process : Proto → RpcObj → Game → Outcome Game
process proto obj g = elim (find_handler (get_target obj)) [
  | none ↦ ok g
  | some h ↦ call_handler proto h obj g >>= λ r. ok r.0
]

-- Api_2004 of processKcp: the session takes over the player of the room with that rid.
pub register_udp : ℕ → ℕ → ℕ → ℕ → Game → Outcome Game
register_udp a rid pid sessid g = elim (get_r (room g a) rid) [
  | none ↦ ok g
  | some p ↦
      set_sessid p sessid pid (update_player p pid g) >>= λ r. ok (Room.enter_p a p (some r.1) r.0)
]

-- processKcp: a message from a client's session.
pub process_kcp : Proto → ℕ → Bytes → ℕ → ℕ → ℕ → Game → Outcome Game
process_kcp proto msgid body pid sessid roomid g = elim (get_room g roomid) [
  | none ↦ ok g
  | some a ↦
      if msgid == 2000
      then ok (frame_cmd proto a pid body g)
      else (if msgid == 2004
          then register_udp a (proto.parse_2004 body) pid sessid g
          else (if msgid == 2002
              then elim (Room.get_p (room g a) pid) [
                | none ↦ ok g
                | some p ↦ ok (get_frames_data proto a p body g)
              ]
              else ok g))
]
