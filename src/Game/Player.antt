-- ===== src/Game/Player.antt =====
-- core/player.cpp: the players and their manager.
pub mod Takeover
pub mod Lookup
pub mod Untouched
pub mod Parting
pub mod Keeping
use kcpserver_cpp.Common.{
  ℕ, suc, ◌+◌, ◌-◌, ◌^◌, true, false, Option, none, some, [], ◌∷◌, ◌++◌, ◌==◌, ltb, if◌then◌else◌,
  Bytes, codes, lookup, erase, length, Outcome, ok, abort,
}
use kcpserver_cpp.Game.State.{
  Player, PlayerMgr, store, Game, Proto, Msg, common_ret, call_net, emit, packet, insert_int,
  insert_u64,
}
use kcpserver_cpp.Game.Kcp.{raw_close_conn, bind_conn, close_conn}
use kcpserver_cpp.Game.Kcp

-- An `int` as an `unsigned long long`: the sign is extended.
pub int_to_u64 : ℕ → ℕ
int_to_u64 n = if ltb n (2 ^ 31) then n else n + 2 ^ 64 - 2 ^ 32

-- playerObj::init.
unfoldable pub init : ℕ → ℕ → ℕ → Player
init pid rid roomid = record {
  pid = pid;
  sessid = 0;
  rid = rid;
  roomid = roomid;
  off = false;
  camp = 2;
}

abbrev pub player : Game → ℕ → Player
player g p = g.players.players.cell p

abbrev pub set_player : ℕ → Player → Game → Game
set_player p v g = record g {
  players = record (g.players) { players = store g.players.players p v };
}

-- playerObj::setSessid. The old session is closed first; then the new one must be there.
pub set_sessid : ℕ → ℕ → ℕ → Game → Outcome (Game × ℕ)
set_sessid p id pid g =
    let old = (player g p).sessid in
    let g₁ = if old == 0 then g else raw_close_conn old g in
    let g₂ = set_player p (record (player g₁ p) { sessid = id; pid = pid }) g₁ in
    let bound = bind_conn id g₂ in
    elim bound.1 [
      | none ↦ abort
      | some c ↦ ok (set_player p (record (player bound.0 p) { off = false }) bound.0, c)
    ]

-- playerObj::sendMsg: through the net server. The call is put into the trace; Main makes it.
unfoldable pub send_msg : ℕ → Bytes → ℕ → Game → Game
send_msg p buf msgid g =
    emit (call_net (codes "PushMsg2Client") (int_to_u64 (player g p).pid) msgid buf) g

unfoldable pub send_pb_msg : Proto → ℕ → ℕ → Msg → Game → Game
send_pb_msg proto p msgid m g = send_msg p (packet proto msgid m) msgid g

pub send_com_ret_msg : Proto → ℕ → ℕ → ℕ → Game → Game
send_com_ret_msg proto p msgid ret g = send_pb_msg proto p msgid (common_ret msgid ret) g

-- playerObj::sendKcpMsg.
pub send_kcp_msg : ℕ → Bytes → Game → Game
send_kcp_msg p buf g = Kcp.send_msg (player g p).sessid buf g

pub send_pb_kcp_msg : Proto → ℕ → ℕ → Msg → Game → Game
send_pb_kcp_msg proto p msgid m g =
    if (player g p).sessid == 0
    then g
    else (if (player g p).off then g else send_kcp_msg p (packet proto msgid m) g)

-- playerObj::Offline.
pub offline : ℕ → Game → Game
offline p g = close_conn (player g p).sessid (set_player p (record (player g p) { off = true }) g)

-- playerMgr::AppendP.
unfoldable pub append_p : ℕ → Game → Game
append_p p g = record g {
  players = record (g.players) {
    rid_p_map = insert_u64 (player g p).rid p g.players.rid_p_map;
    pid_p_map = insert_int (player g p).pid p g.players.pid_p_map;
  };
}

-- playerMgr::UpdatePlayer.
pub update_player : ℕ → ℕ → Game → Game
update_player p pid g =
    let unmapped = record (g.players) { pid_p_map = erase (player g p).pid g.players.pid_p_map } in
    append_p p (set_player p (record (player g p) { pid = pid }) (record g { players = unmapped }))

-- playerMgr::GetP and GetPByRid: `none` is NULL.
pub get_p : Game → ℕ → Option ℕ
get_p g pid = lookup pid g.players.pid_p_map

pub get_p_by_rid : Game → ℕ → Option ℕ
get_p_by_rid g rid = lookup rid g.players.rid_p_map

-- playerMgr's constructor; POOL_PLAYEROBJ is 0, and `memory` is what `new` gives.
unfoldable pub new_mgr : (ℕ → Player) → PlayerMgr
new_mgr memory = record {
  players = record { cell = memory; made = 0 };
  rid_p_map = [];
  pid_p_map = [];
  pool = [];
}

pub push_player : ℕ → Game → Game
push_player p g = record g { players = record (g.players) { pool = g.players.pool ++ (p ∷ []) } }

unfoldable pub pop_player : Game → Game × ℕ
pop_player g = elim g.players.pool [
  | [] ↦
      let heap = record (g.players.players) { made = suc g.players.players.made } in
      (record g { players = record (g.players) { players = heap } }, g.players.players.made)
  | p ∷ rest ↦ (record g { players = record (g.players) { pool = rest } }, p)
]

-- playerMgr::AppendP with the player's numbers: a pooled object is used.
pub append_new : ℕ → ℕ → ℕ → Game → Game
append_new pid rid roomid g =
    let (g₁, p) = pop_player g in append_p p (set_player p (init pid rid roomid) g₁)

-- What both RemoveP do with a player that is there.
pub remove_player : ℕ → Game → Game
remove_player p g =
    let g₁ = offline p g in
    push_player p (record g₁ {
      players = record (g₁.players) {
        rid_p_map = erase (player g₁ p).rid g₁.players.rid_p_map;
        pid_p_map = erase (player g₁ p).pid g₁.players.pid_p_map;
      };
    })

-- playerMgr::RemoveP by rid: the entry that was found is erased, under the key that found it.
pub remove_p : ℕ → Game → Game
remove_p rid g = elim (get_p_by_rid g rid) [
  | none ↦ g
  | some p ↦
      let g₁ = offline p g in
      push_player p (record g₁ {
        players = record (g₁.players) {
          rid_p_map = erase rid g₁.players.rid_p_map;
          pid_p_map = erase (player g₁ p).pid g₁.players.pid_p_map;
        };
      })
]

pub get_count : Game → ℕ
get_count g = length g.players.rid_p_map
