-- ===== src/Game/State.antt =====
-- The state of the game server: core/player.h, core/room.h, kcpsess/sessServer.h.
-- A pointer is an address into a heap of objects of its class; `made` counts the objects that
-- `new` has made. The two pools of messages are held as their sizes, since every message that is
-- taken from a pool is cleared first. What the server sends is kept in `trace`, oldest first.
use kcpserver_cpp.Common.{
  ℕ, Bool, Option, List, [], ◌∷◌, ◌++◌, ◌==◌, if◌then◌else◌, Map, Bytes, le_bytes, length, ltb,
  int_ltb, insert_by, u32,
}

-- C2SFrameCommand_2000.
pub record Command : Type 0 where
  pub cmd_data : ℕ
  pub frameidx : ℕ

-- S2CServerFrameUpdate_2001.
pub record Frame : Type 0 where
  pub frameid : ℕ
  pub cmdlist : List Command

abbrev pub cleared_command : Command
cleared_command = record { cmd_data = 0; frameidx = 0 }

abbrev pub cleared_frame : Frame
cleared_frame = record { frameid = 0; cmdlist = [] }

pub record Player : Type 0 where
  pub pid : ℕ
  pub sessid : ℕ
  pub rid : ℕ
  pub roomid : ℕ
  pub off : Bool
  pub camp : ℕ

pub record UdpConn : Type 0 where
  pub fd : ℕ
  pub id : ℕ
  pub conv : ℕ
  pub bread : Bool
  pub bind : Bool
  pub born_tick : ℕ
  pub offset : ℕ
  pub cache : Bytes
  pub kcp : Bool  -- m_kcp is not NULL

pub record Room : Type 0 where
  pub roomid : ℕ
  pub frame_id : ℕ
  pub end_frame_id : ℕ
  pub brun : Bool
  pub start_ms : ℕ
  pub last_ms : ℕ
  pub acc_ms : ℕ
  pub tmp_diff : ℕ
  pub frame_tick : ℕ
  pub gate_over : Bool
  pub pt2001 : Option Frame
  pub all_oper_map : Map Frame
  pub rid_p_map : Map ℕ
  pub pid_p_map : Map ℕ
  pub pid_conn : Map ℕ

-- A heap of objects.
pub record Heap (A : Type 0) : Type 0 where
  pub cell : ℕ → A
  pub made : ℕ

abbrev pub store : {A : Type 0} → Heap A → ℕ → A → Heap A
store h p v = record h { cell = λ q. if p == q then v else h.cell q }

pub record KcpServer : Type 0 where
  pub conns : Heap UdpConn
  pub map_conn : Map ℕ  -- fd -> conn
  pub map_sess_fd : Map ℕ  -- sessid -> conn
  pub pool : List ℕ
  pub sess_id : ℕ
  pub last_tick : ℕ

pub record PlayerMgr : Type 0 where
  pub players : Heap Player
  pub rid_p_map : Map ℕ
  pub pid_p_map : Map ℕ
  pub pool : List ℕ

pub record RoomMgr : Type 0 where
  pub rooms : Heap Room
  pub id_map : Map ℕ
  pub finnal_room_que : List ℕ
  pub pool_room : List ℕ
  pub pool2001 : ℕ
  pub pool2000 : ℕ
  pub last_ms : ℕ

-- The messages that the game server fills in.
pub data Msg : Type 0 where
  common_ret : ℕ → ℕ → Msg
  match_over : ℕ → Msg
  frame_update : Frame → Msg
  repair_frames : List Frame → Msg
  cache_frames : List Frame → Msg
  all_room_frames : ℕ → List Frame → Msg

-- The generated code and protobuf: how a message is written, and what a body is parsed into.
pub record Proto : Type 0 where
  pub encode : Msg → Bytes
  pub parse_2000 : Bytes → Command
  pub parse_2002 : Bytes → List ℕ
  pub parse_2003 : Bytes → ℕ
  pub parse_2004 : Bytes → ℕ

-- What leaves the server, in the order of the calls.
pub data Out : Type 0 where
  call_gate : Bytes → ℕ → ℕ → Bytes → Out
  call_net : Bytes → ℕ → ℕ → Bytes → Out
  kcp_send : ℕ → Bytes → Out
  kcp_input : ℕ → Bytes → Out
  close_fd : ℕ → Out
  qps : ℕ → ℕ → Out

pub record Game : Type 0 where
  pub kcp : KcpServer
  pub players : PlayerMgr
  pub rooms : RoomMgr
  pub trace : List Out

unfoldable pub emit : Out → Game → Game
emit o g = record g { trace = g.trace ++ (o ∷ []) }

-- The head that goes before a message: its size and its number, four bytes each.
unfoldable pub packet : Proto → ℕ → Msg → Bytes
packet proto msgid m =
    let body = proto.encode m in le_bytes 4 (u32 (length body)) ++ (le_bytes 4 msgid ++ body)

abbrev pub insert_int {ℓ} : {V : Type ℓ} → ℕ → V → Map V → Map V
insert_int = insert_by int_ltb

abbrev pub insert_u64 {ℓ} : {V : Type ℓ} → ℕ → V → Map V → Map V
insert_u64 = insert_by ltb
