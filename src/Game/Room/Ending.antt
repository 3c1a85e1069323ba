-- ===== src/Game/Room/Ending.antt =====
-- core/room.cpp: the branches of roomObj::Update, and what RawOver does to the rooms.
use kcpserver_cpp.Common.{
  ap, ◌∙◌, Bytes, Map, [], ◌∷◌, ℕ, suc, ◌<◌, ◌≡◌, refl, Bool, true, false, not, ◌||◌, ◌==◌,
  if◌then◌else◌, arith, length, Outcome, ok, ◌>>=◌,
}
use kcpserver_cpp.Game.Player.{player, send_msg, remove_p}
use kcpserver_cpp.Game.Player.Untouched.{send_msg-rooms, remove_p-rooms}
use kcpserver_cpp.Game.State.{RoomMgr, store, Game, Proto}
use kcpserver_cpp.Game.Room.{
  broadcast_to, broadcast, remove_all, raw_over, room, set_room, frame_loop, check_end, update,
}
use kcpserver_cpp.Game.Room.Loop.{clocked, room-set_room, frame_loop-rounds}

-- The last of four ways is the only one that may not return.
returns_if {ℓ} :
    {A : Type ℓ} (b₁ b₂ b₃ : Bool) (x y z : A) (w : Outcome A)
    → (s : A) × (w ≡ ok s)
    → (s : A) × ((if b₁ then ok x else (if b₂ then ok y else (if b₃ then ok z else w))) ≡ ok s)
returns_if true b₂ b₃ x y z w h = (x, refl)
returns_if false true b₃ x y z w h = (y, refl)
returns_if false false true x y z w h = (z, refl)
returns_if false false false x y z w h = h

module _ (proto : Proto) (a ms : ℕ) where
  run_returns :
      (g : Game)
      → 0 < (room g a).frame_tick
      → let r = clocked ms (room g a) in
        (s : Game × ℕ) × ((frame_loop proto (suc r.acc_ms) a ms (set_room a r g) >>= λ g₁.
        ok (check_end proto a g₁))
          ≡ ok s)
  run_returns g p =
      let r = clocked ms (room g a) in
      let (g', l, m) =
        frame_loop-rounds proto a ms (suc r.acc_ms) (set_room a r g) r (room-set_room a r g) p
          (omega arith) (omega arith) in
      (check_end proto a g', rw l)

  -- If the frames of a room last more than 0 ms, then Update returns, whether the room is over, has
  -- not begun, has no players, is updated for the first time, or runs, with or without a last frame.
  pub update_returns :
      (g : Game) → 0 < (room g a).frame_tick → (s : Game × ℕ) × (update proto a ms g ≡ ok s)
  unfolding update
  update_returns g p =
      returns_if (room g a).gate_over (not (room g a).brun || length (room g a).rid_p_map == 0)
        ((room g a).last_ms == 0) _ _ _ _ (run_returns g p)

pub broadcast_to-rooms :
    (buf : Bytes) (msgid : ℕ) (m : Map ℕ) (g : Game) → (broadcast_to buf msgid m g).rooms ≡ g.rooms
unfolding broadcast_to
broadcast_to-rooms buf msgid [] g = refl
broadcast_to-rooms buf msgid ((rid, p) ∷ rest) g =
    broadcast_to-rooms buf msgid rest _ ∙ told (player g p).off
  where
    told : (off : Bool) → (if off then g else send_msg p buf msgid g).rooms ≡ g.rooms
    told true = refl
    told false = send_msg-rooms p buf msgid g

remove_all-rooms : (m : Map ℕ) (g : Game) → (remove_all m g).rooms ≡ g.rooms
unfolding remove_all
remove_all-rooms [] g = refl
remove_all-rooms ((rid, p) ∷ rest) g = remove_all-rooms rest (remove_p rid g) ∙ remove_p-rooms rid g

pub raw_over-rooms :
    (proto : Proto) (a : ℕ) (g : Game)
    → (raw_over proto a g).rooms ≡ (set_room a (record (room g a) { brun = false }) g).rooms
unfolding raw_over broadcast
raw_over-rooms proto a g =
    remove_all-rooms _ _
    ∙ ap
        (λ (x : RoomMgr). record x {
          rooms = store x.rooms a (record (x.rooms.cell a) { brun = false });
        })
        (broadcast_to-rooms _ 213 (room g a).rid_p_map g)
