-- ===== src/Game/Keeps.antt =====
-- core/room.h, kcpsess/sessServer.h: what almost every operation of the game server leaves in place,
-- the objects of the rooms with their owners, and the sessions in use.
use kcpserver_cpp.Common.{
  ℕ, ◌≡◌, refl, sym, ap, ◌∙◌, inl, inr, true, false, Bool, ◌==◌, if◌then◌else◌, Bool-cases,
  eq_of_==,
}
use mathlib.Core.Path.{subst}
use kcpserver_cpp.Game.State.{Room, RoomMgr, Game, KcpServer, Out, Heap, emit, store}
use kcpserver_cpp.Game.Kcp.Living.{IsAlive}

-- The map of the rooms, the queue of those that have ended, the pool and the objects are the same,
-- and each object has its number.
pub record SameRooms (s t : RoomMgr) : Type 0 where
  pub ids : t.id_map ≡ s.id_map
  pub queue : t.finnal_room_que ≡ s.finnal_room_que
  pub pool : t.pool_room ≡ s.pool_room
  pub made : t.rooms.made ≡ s.rooms.made
  pub numbers : (a : ℕ) → (t.rooms.cell a).roomid ≡ (s.rooms.cell a).roomid

pub SameRooms-refl : (s : RoomMgr) → SameRooms s s
SameRooms-refl s = record {
  ids = refl;
  queue = refl;
  pool = refl;
  made = refl;
  numbers = λ a. refl;
}

pub SameRooms-trans : (s t u : RoomMgr) → SameRooms s t → SameRooms t u → SameRooms s u
SameRooms-trans s t u p q = record {
  ids = q.ids ∙ p.ids;
  queue = q.queue ∙ p.queue;
  pool = q.pool ∙ p.pool;
  made = q.made ∙ p.made;
  numbers = λ a. q.numbers a ∙ p.numbers a;
}

-- `h` comes from `g` by an operation that takes no room and makes no session.
pub record Keeps (g h : Game) : Type 0 where
  pub alive : IsAlive g.kcp → IsAlive h.kcp
  pub rooms : SameRooms g.rooms h.rooms

pub Keeps-refl : (g : Game) → Keeps g g
Keeps-refl g = record { alive = λ w. w; rooms = SameRooms-refl g.rooms }

pub Keeps-trans : {g h : Game} (k : Game) → Keeps g h → Keeps h k → Keeps g k
Keeps-trans {g} {h} k p q = record {
  alive = λ w. q.alive (p.alive w);
  rooms = SameRooms-trans g.rooms h.rooms k.rooms p.rooms q.rooms;
}

pub same_rooms : {s t : RoomMgr} → t ≡ s → SameRooms s t
same_rooms {s} e = subst (λ (r : RoomMgr). SameRooms s r) (sym e) (SameRooms-refl s)

-- Where the sessions and the rooms are the same.
pub untouched : (g h : Game) → h.kcp ≡ g.kcp → h.rooms ≡ g.rooms → Keeps g h
untouched g h e f = record {
  alive = λ w. subst (λ (s : KcpServer). IsAlive s) (sym e) w;
  rooms = same_rooms f;
}

-- Where the sessions, the rooms and who has them are the same.
pub same_pools :
    (g h : Game)
    → h.kcp ≡ g.kcp
    → h.rooms.rooms ≡ g.rooms.rooms
    → h.rooms.id_map ≡ g.rooms.id_map
    → h.rooms.finnal_room_que ≡ g.rooms.finnal_room_que
    → h.rooms.pool_room ≡ g.rooms.pool_room
    → Keeps g h
same_pools g h e f i q p = record {
  alive = λ w. subst (λ (s : KcpServer). IsAlive s) (sym e) w;
  rooms = record {
    ids = i;
    queue = q;
    pool = p;
    made = ap (λ (x : Heap Room). x.made) f;
    numbers = λ a. ap (λ (x : Heap Room). (x.cell a).roomid) f;
  };
}

pub emit-Keeps : (o : Out) (g : Game) → Keeps g (emit o g)
unfolding emit
emit-Keeps o g = untouched g _ refl refl

-- A room may change in all but its number.
pub changed_room :
    (g h : Game) (a : ℕ) (r : Room)
    → h.kcp ≡ g.kcp
    → h.rooms ≡ record (g.rooms) { rooms = store g.rooms.rooms a r }
    → r.roomid ≡ (g.rooms.rooms.cell a).roomid
    → Keeps g h
changed_room g h a r e f n = record {
  alive = λ w. subst (λ (s : KcpServer). IsAlive s) (sym e) w;
  rooms =
      subst (λ (t : RoomMgr). SameRooms g.rooms t) (sym f)
        (record {
          ids = refl;
          queue = refl;
          pool = refl;
          made = refl;
          numbers = λ b. elim (Bool-cases (a == b)) [
            | inl t ↦ rw t (n ∙ ap (λ (x : ℕ). (g.rooms.rooms.cell x).roomid) (eq_of_== a b t))
            | inr o ↦ rw o refl
          ];
        });
}

pub Keeps-if : (b : Bool) {g x y : Game} → Keeps g x → Keeps g y → Keeps g (if b then x else y)
Keeps-if true p q = p
Keeps-if false p q = q
