-- ===== src/Game/Room/Manager/Owners.antt =====
-- core/room.cpp, roomMgr: each room has one owner, the map, the queue of those that have ended, or
-- the pool.
use kcpserver_cpp.Common.{
  ℕ, ◌<◌, ◌^◌, ◌≡◌, refl, sym, ap, ◌∙◌, ◌⊎◌, inl, inr, some, List, [], ◌∷◌, ◌++◌, arith, lookup,
  lookup_erased, lookup_inserted, IsIn, IsUnique, IsIn-append, IsUnique-append, IsIn-middle,
  IsUnique-middle, append_assoc, IsOrdered, insert_int-IsOrdered, erase-IsOrdered, neq_false,
  int_ltb, none_ne_some,
}
use kcpserver_cpp.Game.State.{Game, Room, RoomMgr, Proto}
use kcpserver_cpp.Game.Keeps.{SameRooms}
use kcpserver_cpp.Game.Room.{room, set_room, finnal}
use kcpserver_cpp.Game.Room.Keeping.{finnal-Keeps}
use kcpserver_cpp.Game.Room.Manager.{
  new_mgr, push_room, pop_room, append_r, finish_room, finnal_rooms, update_finnal,
}

-- The objects that no number leads to, but somebody has.
abbrev pub spare : RoomMgr → List ℕ
spare s = s.pool_room ++ s.finnal_room_que

-- A number leads to the room that has it, which is neither in the pool nor in the queue; these have
-- no object twice; the map is in the order of its keys.
pub record IsOwned (s : RoomMgr) : Type 0 where
  pub by_id :
      (id a : ℕ)
      → lookup id s.id_map ≡ some a
      → ((s.rooms.cell a).roomid ≡ id) × (a < s.rooms.made) × (IsIn a (spare s) → ⊥)
  pub spare_made : (a : ℕ) → IsIn a (spare s) → a < s.rooms.made
  pub spare_unique : IsUnique (spare s)
  pub ordered : IsOrdered s.id_map

-- What decides who owns a room.
same_owners :
    (s t : RoomMgr)
    → t.id_map ≡ s.id_map
    → spare t ≡ spare s
    → t.rooms.made ≡ s.rooms.made
    → ((a : ℕ) → (t.rooms.cell a).roomid ≡ (s.rooms.cell a).roomid)
    → IsOwned s
    → IsOwned t
same_owners s t i p m n w = record {
  by_id = λ id a h.
      let (number, made, free) = w.by_id id a (ap (lookup id) (sym i) ∙ h) in
      (n a ∙ number, omega (arith, m, made), λ k. free (rw p at k));
  spare_made = λ a k. omega (arith, m, w.spare_made a (rw p at k));
  spare_unique = rw p w.spare_unique;
  ordered = rw i w.ordered;
}

pub SameRooms-IsOwned : (s t : RoomMgr) → SameRooms s t → IsOwned s → IsOwned t
SameRooms-IsOwned s t k =
    same_owners s t k.ids
      (ap (λ (q : List ℕ). t.pool_room ++ q) k.queue
        ∙ ap (λ (q : List ℕ). q ++ s.finnal_room_que) k.pool)
      k.made k.numbers

-- A room that is over goes from the map to the queue.
pub finish_room-IsOwned :
    (id a : ℕ) (g : Game)
    → IsOwned g.rooms
    → lookup id g.rooms.id_map ≡ some a
    → IsOwned (finish_room id a g).rooms
unfolding finish_room
finish_room-IsOwned id a g w e =
    let s = g.rooms in
    let (number, made, free) = w.by_id id a e in
    let more : s.pool_room ++ (s.finnal_room_que ++ (a ∷ [])) ≡ spare s ++ (a ∷ []) =
      sym (append_assoc s.pool_room s.finnal_room_que (a ∷ [])) in
    record {
      by_id = λ j b h.
          let (other, there) = lookup_erased id j s.id_map b h in
          let (own, below, out) = w.by_id j b there in
          (
            own,
            below,
            λ k. elim (IsIn-append b a (spare s) (rw more at k)) [
              | inl i ↦ out i
              | inr q ↦ other (sym number ∙ ap (λ (x : ℕ). (s.rooms.cell x).roomid) (sym q) ∙ own)
            ],
          );
      spare_made = λ b k. elim (IsIn-append b a (spare s) (rw more at k)) [
        | inl i ↦ w.spare_made b i
        | inr q ↦ rw q made
      ];
      spare_unique = rw more (IsUnique-append a (spare s) w.spare_unique free);
      ordered = erase-IsOrdered id s.id_map w.ordered;
    }

-- UpdateFinnal takes the rooms from the queue to the pool.
finnal_rooms-IsOwned :
    (proto : Proto) (queue : List ℕ) (g : Game)
    → g.rooms.finnal_room_que ≡ queue
    → IsOwned g.rooms
    → IsOwned (finnal_rooms proto queue g).rooms
unfolding finnal_rooms push_room
finnal_rooms-IsOwned proto [] g e w = w
finnal_rooms-IsOwned proto (a ∷ rest) g e w =
    let h = record g { rooms = record (g.rooms) { finnal_room_que = rest } } in
    let k = (finnal-Keeps proto a h).rooms in
    let h' = push_room a (finnal proto a h) in
    finnal_rooms-IsOwned proto rest h' k.queue (
      same_owners g.rooms h'.rooms k.ids
        (ap (λ (q : List ℕ). (q ++ (a ∷ [])) ++ h'.rooms.finnal_room_que) k.pool
          ∙ ap (λ (q : List ℕ). (g.rooms.pool_room ++ (a ∷ [])) ++ q) k.queue
          ∙ append_assoc g.rooms.pool_room (a ∷ []) rest
          ∙ ap (λ (q : List ℕ). g.rooms.pool_room ++ q) (sym e))
        k.made k.numbers w)

pub update_finnal-IsOwned :
    (proto : Proto) (g : Game) → IsOwned g.rooms → IsOwned (update_finnal proto g).rooms
unfolding update_finnal
update_finnal-IsOwned proto g w = finnal_rooms-IsOwned proto g.rooms.finnal_room_que g refl w

-- The object `a` is made, and nobody owns it.
pub record IsTaken (a : ℕ) (s : RoomMgr) : Type 0 where
  pub owned : IsOwned s
  pub taken_made : a < s.rooms.made
  pub free : IsIn a (spare s) → ⊥
  pub unused : (id b : ℕ) → lookup id s.id_map ≡ some b → a ≡ b → ⊥

list_cases : (xs : List ℕ) → (xs ≡ []) ⊎ ((x : ℕ) × (rest : List ℕ) × (xs ≡ x ∷ rest))
list_cases [] = inl refl
list_cases (x ∷ rest) = inr (x, rest, refl)

pub pop_room-IsTaken : (g : Game) → IsOwned g.rooms → IsTaken (pop_room g).1 (pop_room g).0.rooms
unfolding pop_room
pop_room-IsTaken g w = elim (list_cases g.rooms.pool_room) [
  | inl e ↦
      rw (e, pop_room)
        (record {
          owned = record {
            by_id = λ id a h.
                let (number, made, free) = w.by_id id a h in (number, omega (arith, made), free);
            spare_made = λ a i. omega (arith, w.spare_made a i);
            spare_unique = w.spare_unique;
            ordered = w.ordered;
          };
          taken_made = omega arith;
          free = λ i. omega (arith, w.spare_made g.rooms.rooms.made i);
          unused = λ id b h q. omega (arith, (w.by_id id b h).1, q);
        })
  | inr (a, rest, e) ↦
      let unique : IsUnique (a ∷ (rest ++ g.rooms.finnal_room_que)) = rw e at w.spare_unique in
      rw (e, pop_room)
        (record {
          owned = record {
            by_id = λ id b h.
                let (number, made, free) = w.by_id id b h in
                (number, made, λ i. free (rw e (inr i)));
            spare_made = λ b i. w.spare_made b (rw e (inr i));
            spare_unique = unique.1;
            ordered = w.ordered;
          };
          taken_made = w.spare_made a (rw e (inl refl));
          free = unique.0;
          unused = λ id b h q. (w.by_id id b h).2 (rw e (inl (sym q)));
        })
]

pub SameRooms-IsTaken : (a : ℕ) (s t : RoomMgr) → SameRooms s t → IsTaken a s → IsTaken a t
SameRooms-IsTaken a s t k w =
    let same =
      ap (λ (q : List ℕ). t.pool_room ++ q) k.queue
      ∙ ap (λ (q : List ℕ). q ++ s.finnal_room_que) k.pool in
    record {
      owned = SameRooms-IsOwned s t k w.owned;
      taken_made = omega (arith, k.made, w.taken_made);
      free = λ i. w.free (rw same at i);
      unused = λ id b h. w.unused id b (ap (lookup id) (sym k.ids) ∙ h);
    }

-- The taken room may change in all.
pub set_room-IsTaken :
    (a : ℕ) (r : Room) (g : Game) → IsTaken a g.rooms → IsTaken a (set_room a r g).rooms
set_room-IsTaken a r g w = record {
  owned = record {
    by_id = λ id b h.
        let (number, made, out) = w.owned.by_id id b h in
        (rw (neq_false a b (w.unused id b h)) number, made, out);
    spare_made = w.owned.spare_made;
    spare_unique = w.owned.spare_unique;
    ordered = w.owned.ordered;
  };
  taken_made = w.taken_made;
  free = w.free;
  unused = w.unused;
}

pub append_r-IsOwned :
    (a : ℕ) (g : Game)
    → IsTaken a g.rooms
    → (room g a).roomid < 2 ^ 32
    → IsOwned (append_r a g).rooms
unfolding append_r
append_r-IsOwned a g w small = record {
  by_id = λ id b h. elim (lookup_inserted int_ltb (room g a).roomid id a b g.rooms.id_map h) [
    | inl (p, q) ↦
        (ap (λ (x : ℕ). (room g x).roomid) (sym q) ∙ p, rw⁻¹ q w.taken_made, rw⁻¹ q w.free)
    | inr there ↦ w.owned.by_id id b there
  ];
  spare_made = w.owned.spare_made;
  spare_unique = w.owned.spare_unique;
  ordered = insert_int-IsOrdered (room g a).roomid a g.rooms.id_map small w.owned.ordered;
}

pub push_room-IsOwned : (a : ℕ) (g : Game) → IsTaken a g.rooms → IsOwned (push_room a g).rooms
unfolding push_room
push_room-IsOwned a g w =
    let s = g.rooms in
    record {
      by_id = λ id b h.
          let (number, made, out) = w.owned.by_id id b h in
          (
            number,
            made,
            λ i. elim (IsIn-middle b a s.pool_room s.finnal_room_que i) [
              | inl there ↦ out there
              | inr q ↦ w.unused id b h (sym q)
            ],
          );
      spare_made = λ b i. elim (IsIn-middle b a s.pool_room s.finnal_room_que i) [
        | inl there ↦ w.owned.spare_made b there
        | inr q ↦ rw q w.taken_made
      ];
      spare_unique = IsUnique-middle a s.pool_room s.finnal_room_que w.owned.spare_unique w.free;
      ordered = w.owned.ordered;
    }

-- Neither does anything to the sessions.
pub pop_room-kcp : (g : Game) → (pop_room g).0.kcp ≡ g.kcp
unfolding pop_room
pop_room-kcp g = ground arith

pub append_r-kcp : (a : ℕ) (g : Game) → (append_r a g).kcp ≡ g.kcp
unfolding append_r
append_r-kcp a g = refl

pub push_room-kcp : (a : ℕ) (g : Game) → (push_room a g).kcp ≡ g.kcp
unfolding push_room
push_room-kcp a g = refl

nothing_found : (k a : ℕ) → lookup k [] ≡ some a → ⊥
unfolding lookup
nothing_found k a e = none_ne_some e

pub new_mgr-IsOwned : (memory : ℕ → Room) → IsOwned (new_mgr memory)
unfolding new_mgr
new_mgr-IsOwned memory = record {
  by_id = λ id a h. absurd (nothing_found id a h);
  spare_made = λ a i. absurd i;
  spare_unique = tt;
  ordered = tt;
}
