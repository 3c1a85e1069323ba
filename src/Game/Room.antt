-- ===== src/Game/Room.antt =====
-- core/room.cpp: the rooms. A room records the commands of its players in frames.
use Prim.Native.Nat.{bit_and}
use kcpserver_cpp.Common.{
  ℕ, zero, suc, ◌+◌, ◌-◌, ◌*◌, ◌/◌, ◌%◌, ◌^◌, Bool, true, false, not, ◌&&◌, ◌||◌, Option, none,
  some, List, [], ◌∷◌, ◌++◌, ◌==◌, ltb, leb, int_ltb, if◌then◌else◌, Bytes, codes, lookup, erase,
  length, Map, u32, sub32, Outcome, ok, abort, hang, ◌>>=◌,
}
use kcpserver_cpp.Game.State.{
  Command, Frame, cleared_command, cleared_frame, Player, Room, Heap, store, Game, Proto, Msg,
  match_over, frame_update, repair_frames, cache_frames, all_room_frames, call_gate, qps, emit,
  packet, insert_int, insert_u64,
}
use kcpserver_cpp.Game.Kcp.{write}
use kcpserver_cpp.Game.Player.{player, send_msg, send_pb_msg, send_pb_kcp_msg, remove_p}
pub mod Manager
pub mod Loop
pub mod Record
pub mod Ending
pub mod Parting
pub mod Keeping

-- FRAME_TICK_MS, and the value of `m_endFrameId` that means "no end".
abbrev pub frame_tick_ms : ℕ
frame_tick_ms = 66

abbrev pub no_end : ℕ
no_end = 2147483648

abbrev pub room : Game → ℕ → Room
room g a = g.rooms.rooms.cell a

abbrev pub set_room : ℕ → Room → Game → Game
set_room a r g = record g { rooms = record (g.rooms) { rooms = store g.rooms.rooms a r } }

-- roomObj::init.
unfoldable pub init : ℕ → Room
init roomid = record {
  roomid = roomid;
  frame_id = 0;
  end_frame_id = no_end;
  brun = false;
  start_ms = 0;
  last_ms = 0;
  acc_ms = 0;
  tmp_diff = 0;
  frame_tick = frame_tick_ms;
  gate_over = false;
  pt2001 = none;
  all_oper_map = [];
  rid_p_map = [];
  pid_p_map = [];
  pid_conn = [];
}

-- UpdateDelta: the high half of the number is the length of a frame.
unfoldable pub update_delta : ℕ → Room → Room
update_delta delta r = record r { frame_tick = bit_and delta 0xffff0000 / 2 ^ 16 }

-- roomMgr's pools of messages.
unfoldable pub fetch_pt : Game → Game × Command
fetch_pt g =
    (record g { rooms = record (g.rooms) { pool2000 = g.rooms.pool2000 - 1 } }, cleared_command)

unfoldable pub fetch_pt2001 : Game → Game × Frame
fetch_pt2001 g =
    (record g { rooms = record (g.rooms) { pool2001 = g.rooms.pool2001 - 1 } }, cleared_frame)

-- recyclePt2001: the commands of the frame go back to their own pool.
pub recycle_pt2001 : Frame → Game → Game
recycle_pt2001 f g = record g {
  rooms = record (g.rooms) {
    pool2000 = g.rooms.pool2000 + length f.cmdlist;
    pool2001 = g.rooms.pool2001 + 1;
  };
}

pub recycle_all : List Frame → Game → Game
recycle_all [] g = g
recycle_all (f ∷ fs) g = recycle_all fs (recycle_pt2001 f g)

-- The loop of GetPIdx. A camp above 1 does not count.
unfoldable pub count_pidx : Game → ℕ → Map ℕ → ℕ
count_pidx g rid [] = 0
count_pidx g rid ((j, q) ∷ rest) =
    (if int_ltb 1 (player g q).camp then 0 else (if leb j rid then 1 else 0))
    + count_pidx g rid rest

unfoldable pub get_pidx : ℕ → ℕ → Game → ℕ
get_pidx a p g = count_pidx g (player g p).rid (room g a).rid_p_map

-- The frame that is being filled, or one from the pool.
unfoldable pub current_pt2001 : ℕ → Game → Game × Frame
current_pt2001 a g = elim (room g a).pt2001 [ none ↦ fetch_pt2001 g | some f ↦ (g, f) ]

unfoldable pub add_command : ℕ → Command → Game → Game
add_command a c g =
    let (g₁, f) = current_pt2001 a g in
    set_room a (record (room g₁ a) { pt2001 = some (record f { cmdlist = f.cmdlist ++ (c ∷ []) }) })
      g₁

-- SvrFrameCmd.
unfoldable pub svr_frame_cmd : ℕ → ℕ → ℕ → Game → Game
svr_frame_cmd a p param g =
    let (g₁, c) = fetch_pt g in
    let pidx = get_pidx a p g₁ in
    let word = u32 (15 + pidx % 256 * 2 ^ 8 + param % 2 ^ 16 * 2 ^ 16) in
    add_command a (record c { cmd_data = word }) g₁

-- EnterP. `pconn` is NULL or the player's session.
unfoldable pub enter_p : ℕ → ℕ → Option ℕ → Game → Game
enter_p a p pconn g =
    let r = room g a in
    let r₁ = record r {
      rid_p_map = insert_u64 (player g p).rid p r.rid_p_map;
      pid_p_map = insert_int (player g p).pid p r.pid_p_map;
      pid_conn = elim pconn [
        | none ↦ r.pid_conn
        | some c ↦ insert_int (player g p).pid c r.pid_conn
      ];
    } in
    svr_frame_cmd a p 1 (set_room a r₁ g)

-- LeaveP.
pub leave_p : ℕ → ℕ → Game → Game
leave_p a p g = svr_frame_cmd a p 0 g

unfoldable pub get_p : Room → ℕ → Option ℕ
get_p r pid = lookup pid r.pid_p_map

pub get_r : Room → ℕ → Option ℕ
get_r r rid = lookup rid r.rid_p_map

-- FrameCmd: the command of a player of this room joins the current frame.
pub frame_cmd : Proto → ℕ → ℕ → Bytes → Game → Game
frame_cmd proto a pid body g = elim (get_p (room g a) pid) [
  | none ↦ g
  | some p ↦ add_command a (proto.parse_2000 body) (fetch_pt g).0
]

-- Broadcast to the players of the room that are not offline.
pub broadcast_to : Bytes → ℕ → Map ℕ → Game → Game
broadcast_to buf msgid [] g = g
broadcast_to buf msgid ((rid, p) ∷ rest) g =
    broadcast_to buf msgid rest (if (player g p).off then g else send_msg p buf msgid g)

pub broadcast : Proto → ℕ → ℕ → Msg → Game → Game
broadcast proto a msgid m g = broadcast_to (packet proto msgid m) msgid (room g a).rid_p_map g

-- BroadcastKcp to the sessions of the room.
pub broadcast_kcp_to : Bytes → Map ℕ → Game → Game
broadcast_kcp_to buf [] g = g
broadcast_kcp_to buf ((pid, c) ∷ rest) g =
    broadcast_kcp_to buf rest (emit (qps 3 (length buf)) (write c buf g))

pub broadcast_kcp : Proto → ℕ → ℕ → Msg → Game → Game
broadcast_kcp proto a msgid m g = broadcast_kcp_to (packet proto msgid m) (room g a).pid_conn g

-- IsOver, Over, SetReady.
pub is_over : Room → Bool
is_over r = if r.start_ms == 0 then false else not r.brun

pub over : Bool → Room → Room
over force r =
    let r₁ = record r { end_frame_id = r.frame_id } in
    if force then record r₁ { gate_over = true } else r₁

pub set_ready : Room → Room
set_ready r = record r { brun = true }

pub remove_all : Map ℕ → Game → Game
remove_all [] g = g
remove_all ((rid, p) ∷ rest) g = remove_all rest (remove_p rid g)

-- RawOver: the players are told, and leave the player manager.
pub raw_over : Proto → ℕ → Game → Game
raw_over proto a g =
    let r = room g a in
    let last = if ltb 0 r.frame_id && ltb r.frame_id (2 ^ 31) then r.frame_id - 1 else r.frame_id in
    let g₁ = broadcast proto a 213 (match_over last) g in
    remove_all (room g₁ a).rid_p_map (set_room a (record (room g₁ a) { brun = false }) g₁)

-- One round of the loop in Update: the current frame is numbered, kept and sent, and a new one begun.
pub frame_step : Proto → ℕ → ℕ → Game → Game
frame_step proto a ms g =
    let (g₁, f) = current_pt2001 a g in
    let r = room g₁ a in
    let f₁ = record f { frameid = r.frame_id } in
    let r₁ = record r {
      acc_ms = sub32 r.acc_ms r.frame_tick;
      tmp_diff = ms;
      pt2001 = some f₁;
      all_oper_map = insert_int r.frame_id f₁ r.all_oper_map;
    } in
    let (g₂, f₂) = fetch_pt2001 (broadcast_kcp proto a 2001 (frame_update f₁) (set_room a r₁ g₁)) in
    let r₂ = room g₂ a in
    set_room a (record r₂ { pt2001 = some f₂; frame_id = u32 (suc r₂.frame_id) }) g₂

-- The loop, on fuel. It has no end when a frame lasts 0 ms.
pub frame_loop : Proto → ℕ → ℕ → ℕ → Game → Outcome Game
frame_loop proto zero a ms g = hang
frame_loop proto (suc fuel) a ms g = elim (ltb (room g a).acc_ms (room g a).frame_tick) [
  | true ↦ ok g
  | false ↦ frame_loop proto fuel a ms (frame_step proto a ms g)
]

-- The end of Update: the room is over when it has reached its last frame.
pub check_end : Proto → ℕ → Game → Game × ℕ
check_end proto a g =
    if leb (room g a).end_frame_id (room g a).frame_id && not ((room g a).end_frame_id == no_end)
    then (raw_over proto a g, 1)
    else (g, 0)

-- Update. The result 1 means that the room is over.
unfoldable pub update : Proto → ℕ → ℕ → Game → Outcome (Game × ℕ)
update proto a ms g =
    let r = room g a in
    let acc = u32 (r.acc_ms + sub32 ms r.last_ms) in
    let run =
      frame_loop proto (suc acc) a ms (set_room a (record r { acc_ms = acc; last_ms = ms }) g)
      >>= λ g₁. ok (check_end proto a g₁) in
    let waiting = record r { last_ms = ms; tmp_diff = ms; acc_ms = 0 } in
    if r.gate_over
    then ok (raw_over proto a g, 1)
    else (if not r.brun || length r.rid_p_map == 0
        then ok (g, 0)
        else (if r.last_ms == 0 then ok (set_room a waiting g, 0) else run))

-- GetFramesData: the frames of the list that the room has.
pub find_frames : Map Frame → List ℕ → List Frame
find_frames m [] = []
find_frames m (fid ∷ fids) = elim (lookup fid m) [
  | none ↦ find_frames m fids
  | some f ↦ f ∷ find_frames m fids
]

pub get_frames_data : Proto → ℕ → ℕ → Bytes → Game → Game
get_frames_data proto a p body g =
    let found = find_frames (room g a).all_oper_map (proto.parse_2002 body) in
    recycle_all found (send_pb_kcp_msg proto p 2002 (repair_frames found) g)

-- GetCacheFrames: the frames from `beginid` on.
pub frames_from : ℕ → Map Frame → List Frame
frames_from beginid [] = []
frames_from beginid ((fid, f) ∷ rest) =
    let more = frames_from beginid rest in if ltb fid beginid then more else f ∷ more

pub get_cache_frames : Proto → ℕ → ℕ → ℕ → Game → Game
get_cache_frames proto a p beginid g =
    send_pb_msg proto p 2003 (cache_frames (frames_from beginid (room g a).all_oper_map)) g

abbrev pub frames : Map Frame → List Frame
frames [] = []
frames ((fid, f) ∷ rest) = f ∷ frames rest

-- Finnal: the record of the match goes to the gate, by a call in the trace, and the frames to the pool.
pub finnal : Proto → ℕ → Game → Game
finnal proto a g =
    let kept = frames (room g a).all_oper_map in
    let bytes = proto.encode (all_room_frames (room g a).frame_tick kept) in
    let g₁ = emit (call_gate (codes "UpdateFrameData") (room g a).roomid 0 bytes) g in
    let g₂ = recycle_all kept g₁ in set_room a (record (room g₂ a) { all_oper_map = [] }) g₂
