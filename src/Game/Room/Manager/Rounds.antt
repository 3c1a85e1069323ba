-- ===== src/Game/Room/Manager/Rounds.antt =====
-- core/room.cpp, roomMgr::Update: the owners of the rooms over a round.
use kcpserver_cpp.Common.{
  ℕ, ◌≡◌, refl, sym, true, false, Bool, some, List, [], ◌∷◌, ◌==◌, if◌then◌else◌, lookup, Map, keys,
  IsIn, IsUnique, AllFound, AllFound-refl, AllFound-erase, IsOrdered-IsUnique, Each, Each-ok,
  Each-if, Each-bind,
}
use mathlib.Core.Path.{subst}
use kcpserver_cpp.Game.State.{Game, Proto}
use kcpserver_cpp.Game.Keeps.{same_pools}
use kcpserver_cpp.Game.Sound.{IsSound, Keeps-IsSound}
use kcpserver_cpp.Game.Room.Keeping.{update-Keeps, finnal-Keeps}
use kcpserver_cpp.Game.Room.Manager.{
  finish_room, update_rooms, update_finnal, finnal_rooms, update_mgr, push_room,
}
use kcpserver_cpp.Game.Room.Manager.Owners.{finish_room-IsOwned, update_finnal-IsOwned}
use kcpserver_cpp.Game.Kcp.Living.{IsAlive}

finish_room-IsSound :
    (id a : ℕ) (g : Game)
    → IsSound g
    → lookup id g.rooms.id_map ≡ some a
    → IsSound (finish_room id a g)
unfolding finish_room
finish_room-IsSound id a g w e = record {
  alive = w.alive;
  owned = finish_room-IsOwned id a g w.owned e;
}

-- What the loop of Update has in front of it: the rest of the rooms are in the map.
record IsAhead (m : Map ℕ) (g : Game) : Type 0 where
  sound : IsSound g
  found : AllFound m g.rooms.id_map

finished :
    (over : Bool) (id a : ℕ) (m : Map ℕ) (g : Game)
    → (IsIn id (keys m) → ⊥)
    → IsAhead ((id, a) ∷ m) g
    → IsAhead m (if over then finish_room id a g else g)
unfolding finish_room
finished true id a m g n w = record {
  sound = finish_room-IsSound id a g w.sound w.found.0;
  found = AllFound-erase id m g.rooms.id_map n w.found.1;
}
finished false id a m g n w = record { sound = w.sound; found = w.found.1 }

update_rooms-IsSound :
    (proto : Proto) (ms : ℕ) (m : Map ℕ) (g : Game)
    → IsUnique (keys m)
    → IsAhead m g
    → Each IsSound (update_rooms proto ms m g)
unfolding update_rooms
update_rooms-IsSound proto ms [] g u w = Each-ok w.sound
update_rooms-IsSound proto ms ((id, a) ∷ m) g (n, u) w =
    Each-bind (update-Keeps proto a ms g) (λ r k. update_rooms-IsSound proto ms m _ u (
      finished (r.1 == 1) id a m r.0 n (record {
        sound = Keeps-IsSound r.0 w.sound k;
        found = subst (λ (ids : Map ℕ). AllFound ((id, a) ∷ m) ids) (sym k.rooms.ids) w.found;
      })))

finnal_rooms-IsAlive :
    (proto : Proto) (queue : List ℕ) (g : Game)
    → IsAlive g.kcp
    → IsAlive (finnal_rooms proto queue g).kcp
unfolding finnal_rooms push_room
finnal_rooms-IsAlive proto [] g w = w
finnal_rooms-IsAlive proto (a ∷ rest) g w = finnal_rooms-IsAlive proto rest _ (
    (finnal-Keeps proto a (record g { rooms = record (g.rooms) { finnal_room_que = rest } })).alive
      w)

update_finnal-IsSound : (proto : Proto) (g : Game) → IsSound g → IsSound (update_finnal proto g)
unfolding update_finnal
update_finnal-IsSound proto g w = record {
  alive = finnal_rooms-IsAlive proto g.rooms.finnal_room_que g w.alive;
  owned = update_finnal-IsOwned proto g w.owned;
}

-- Update of the room manager.
pub update_mgr-IsSound :
    (proto : Proto) (ms : ℕ) (g : Game) → IsSound g → Each IsSound (update_mgr proto ms g)
unfolding update_mgr
update_mgr-IsSound proto ms g w =
    let ticked = record g { rooms = record (g.rooms) { last_ms = ms } } in
    let sound = Keeps-IsSound ticked w (same_pools g ticked refl refl refl refl refl) in
    let unique = IsOrdered-IsUnique g.rooms.id_map w.owned.ordered in
    Each-if _ (Each-ok w) (
      Each-bind
        (update_rooms-IsSound proto ms g.rooms.id_map ticked unique
          (record { sound = sound; found = AllFound-refl g.rooms.id_map unique }))
        (λ h w'. Each-ok (update_finnal-IsSound proto h w')))
