-- ===== src/Tests/Managers.antt =====
-- The connection manager with a connection, and the room manager with a room that has ended.
use kcpserver_cpp.Common.{ℕ, ◌≡◌, [], ◌∷◌, ◌++◌, IsIn}
use kcpserver_cpp.Game.State.{Game}
use kcpserver_cpp.Game.Room.{room}
use kcpserver_cpp.Game.Room.Manager.{update_finnal}
use kcpserver_cpp.Game.Room.Manager.Recycling.{update_finnal_recycles}
use kcpserver_cpp.Tests.Rooms.{tiny, game_of, room_of}

-- Room 0 has ended.
abbrev ended : Game
ended = record (game_of (room_of 66)) {
  rooms = record ((game_of (room_of 66)).rooms) {
    id_map = [];
    finnal_room_que = 0 ∷ [];
    pool_room = 1 ∷ [];
  };
}

update_finnal_recycles_example :
    let g' = update_finnal tiny ended in
    (g'.rooms.finnal_room_que ≡ [])
    × (g'.rooms.pool_room ≡ (1 ∷ []) ++ (0 ∷ []))
    × (g'.rooms.id_map ≡ [])
    × ((b : ℕ) → IsIn b (0 ∷ []) → (room g' b).all_oper_map ≡ [])
update_finnal_recycles_example = update_finnal_recycles tiny ended
