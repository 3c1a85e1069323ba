-- ===== src/Game/Room/Manager.antt =====
-- core/room.cpp, roomMgr: the rooms that run, those that have ended, and the pools.
pub mod Recycling
pub mod Progress
pub mod Owners
pub mod Rounds
use kcpserver_cpp.Common.{
  ℕ, suc, Option, List, [], ◌∷◌, ◌++◌, ◌==◌, ltb, if◌then◌else◌, lookup, erase, length, Map, sub32,
  Outcome, ok, ◌>>=◌,
}
use kcpserver_cpp.Game.State.{Room, RoomMgr, Game, Proto, insert_int}
use kcpserver_cpp.Game.Room.{room, update, finnal}

-- roomMgr's constructor with initObjPool of the game server: POOL_PT_2000_SIZE and
-- POOL_PT_2001_SIZE messages, and POOL_ROOMOBJ, no room; `memory` is what `new` gives.
unfoldable pub new_mgr : (ℕ → Room) → RoomMgr
new_mgr memory = record {
  rooms = record { cell = memory; made = 0 };
  id_map = [];
  finnal_room_que = [];
  pool_room = [];
  pool2001 = 1024;
  pool2000 = 1024;
  last_ms = 0;
}

pub push_room : ℕ → Game → Game
push_room a g = record g { rooms = record (g.rooms) { pool_room = g.rooms.pool_room ++ (a ∷ []) } }

unfoldable pub pop_room : Game → Game × ℕ
pop_room g = elim g.rooms.pool_room [
  | [] ↦
      let heap = record (g.rooms.rooms) { made = suc g.rooms.rooms.made } in
      (record g { rooms = record (g.rooms) { rooms = heap } }, g.rooms.rooms.made)
  | a ∷ rest ↦ (record g { rooms = record (g.rooms) { pool_room = rest } }, a)
]

unfoldable pub append_r : ℕ → Game → Game
append_r a g =
    let ids = insert_int (room g a).roomid a g.rooms.id_map in
    record g { rooms = record (g.rooms) { id_map = ids } }

unfoldable pub get_room : Game → ℕ → Option ℕ
get_room g roomid = lookup roomid g.rooms.id_map

pub count : Game → ℕ
count g = length g.rooms.id_map

-- A room that is over leaves the map and waits for its last act.
pub finish_room : ℕ → ℕ → Game → Game
finish_room id a g = record g {
  rooms = record (g.rooms) {
    finnal_room_que = g.rooms.finnal_room_que ++ (a ∷ []);
    id_map = erase id g.rooms.id_map;
  };
}

-- The loop of Update over the rooms, in the order of their numbers.
unfoldable pub update_rooms : Proto → ℕ → Map ℕ → Game → Outcome Game
update_rooms proto ms [] g = ok g
update_rooms proto ms ((id, a) ∷ rest) g = update proto a ms g >>= λ r.
    update_rooms proto ms rest (if r.1 == 1 then finish_room id a r.0 else r.0)

-- The loop of UpdateFinnal over the queue.
unfoldable pub finnal_rooms : Proto → List ℕ → Game → Game
finnal_rooms proto [] g = g
finnal_rooms proto (a ∷ rest) g = finnal_rooms proto rest (
    push_room a (finnal proto a (record g { rooms = record (g.rooms) { finnal_room_que = rest } })))

unfoldable pub update_finnal : Proto → Game → Game
update_finnal proto g = finnal_rooms proto g.rooms.finnal_room_que g

unfoldable pub update_mgr : Proto → ℕ → Game → Outcome Game
update_mgr proto ms g =
    let ticked = record g { rooms = record (g.rooms) { last_ms = ms } } in
    let run = update_rooms proto ms g.rooms.id_map ticked >>= λ g₁. ok (update_finnal proto g₁) in
    if ltb (sub32 ms g.rooms.last_ms) 1 then ok g else run
