-- ===== src/Game/Room/Manager/Progress.antt =====
-- core/room.cpp: the loop of roomMgr::Update over the rooms, and the lengths of their frames.
use kcpserver_cpp.Common.{
  ap, ◌∙◌, sym, Map, [], ◌∷◌, zero, inl, inr, Bool-cases, eq_of_==, ltb, leb, ◌&&◌, sub32, ℕ, suc,
  ◌<◌, ◌≡◌, refl, Bool, true, false, not, ◌||◌, ◌==◌, if◌then◌else◌, arith, length, Outcome, ok,
  ◌>>=◌, ok-injective,
}
use kcpserver_cpp.Game.State.{RoomMgr, Room, Game, Proto}
use kcpserver_cpp.Game.Room.{
  raw_over, room, set_room, frame_step, frame_loop, check_end, update, no_end, fetch_pt2001,
  current_pt2001, broadcast_kcp,
}
use kcpserver_cpp.Game.Room.Loop.{
  clocked, room-set_room, frame_loop-rounds, room-frame_step, broadcast_kcp_to-rooms,
}
use kcpserver_cpp.Game.Room.Ending.{raw_over-rooms}
use kcpserver_cpp.Game.Room.Manager.{finish_room, update_rooms, update_finnal, update_mgr}

-- The two games have the same rooms, as far as the length of the frames goes.
abbrev SameTicks : Game → Game → Type 0
SameTicks g h = (b : ℕ) → (room g b).frame_tick ≡ (room h b).frame_tick

set_room-tick :
    (a : ℕ) (r : Room) (g : Game)
    → r.frame_tick ≡ (room g a).frame_tick
    → SameTicks (set_room a r g) g
set_room-tick a r g e b = elim (Bool-cases (a == b)) [
  | inl t ↦ rw t (e ∙ ap (λ (x : ℕ). (room g x).frame_tick) (eq_of_== a b t))
  | inr f ↦ rw f
]

-- The last of four ways is the only one that may not return; what holds of each holds of the result.
keeps_if {ℓ κ} :
    {A : Type ℓ} (P : A → Type κ) (b₁ b₂ b₃ : Bool) (x y z : A) (w : Outcome A)
    → P x
    → P y
    → P z
    → (s : A) × (w ≡ ok s) × P s
    → (s : A) × ((if b₁ then ok x else (if b₂ then ok y else (if b₃ then ok z else w))) ≡ ok s)
      × P s
keeps_if P true b₂ b₃ x y z w p q r h = (x, refl, p)
keeps_if P false true b₃ x y z w p q r h = (y, refl, q)
keeps_if P false false true x y z w p q r h = (z, refl, r)
keeps_if P false false false x y z w p q r h = h

module _ (proto : Proto) (a ms : ℕ) where
  other_room : (b : ℕ) (g : Game) → (a == b) ≡ false → room (frame_step proto a ms g) b ≡ room g b
  unfolding frame_step fetch_pt2001 broadcast_kcp current_pt2001
  other_room b g f = grind (arith, broadcast_kcp_to-rooms)

  frame_step-tick : (g : Game) → SameTicks (frame_step proto a ms g) g
  frame_step-tick g b = elim (Bool-cases (a == b)) [
    | inl t ↦
        let q = eq_of_== a b t in
        ap (λ (x : ℕ). (room (frame_step proto a ms g) x).frame_tick) (sym q)
        ∙ (ap (λ (r : Room). r.frame_tick) (room-frame_step proto a ms g)
            ∙ ap (λ (x : ℕ). (room g x).frame_tick) q)
    | inr f ↦ ap (λ (r : Room). r.frame_tick) (other_room b g f)
  ]

  frame_loop-tick : (fuel : ℕ) (g g' : Game) → frame_loop proto fuel a ms g ≡ ok g' → SameTicks g' g
  unfolding frame_loop
  frame_loop-tick zero g g' e = cc
  frame_loop-tick (suc fuel) g g' e =
      elim (Bool-cases (ltb (room g a).acc_ms (room g a).frame_tick)) [
        | inl t ↦ λ b.
            ap (λ (x : Game). (room x b).frame_tick) (sym (ok-injective (rw (t, frame_loop) at e)))
        | inr f ↦ λ b.
            frame_loop-tick fuel (frame_step proto a ms g) g' (rw (f, frame_loop) at e) b
            ∙ frame_step-tick g b
      ]

  raw_over-tick : (g : Game) → SameTicks (raw_over proto a g) g
  raw_over-tick g b =
      ap (λ (x : RoomMgr). (x.rooms.cell b).frame_tick) (raw_over-rooms proto a g)
      ∙ set_room-tick a (record (room g a) { brun = false }) g refl b

  check_end-tick : (g : Game) → SameTicks (check_end proto a g).0 g
  unfolding check_end
  check_end-tick g b =
      elim (Bool-cases (
        leb (room g a).end_frame_id (room g a).frame_id
        && not ((room g a).end_frame_id == no_end))) [
          | inl t ↦ rw t (raw_over-tick g b)
          | inr f ↦ rw f
        ]

  run_returns :
      (g : Game)
      → 0 < (room g a).frame_tick
      → let r = clocked ms (room g a) in
        (s : Game × ℕ) × ((frame_loop proto (suc r.acc_ms) a ms (set_room a r g) >>= λ g₁.
        ok (check_end proto a g₁))
          ≡ ok s)
        × SameTicks s.0 g
  run_returns g p =
      let r = clocked ms (room g a) in
      let (g', l, m) =
        frame_loop-rounds proto a ms (suc r.acc_ms) (set_room a r g) r (room-set_room a r g) p
          (omega arith) (omega arith) in
      (
        check_end proto a g',
        rw l,
        λ b.
            check_end-tick g' b
            ∙ (frame_loop-tick (suc r.acc_ms) (set_room a r g) g' l b ∙ set_room-tick a r g refl b),
      )

  update_returns_tick :
      (g : Game)
      → 0 < (room g a).frame_tick
      → (s : Game × ℕ) × (update proto a ms g ≡ ok s) × SameTicks s.0 g
  unfolding update
  update_returns_tick g p =
      keeps_if (λ s. SameTicks s.0 g) (room g a).gate_over
        (not (room g a).brun || length (room g a).rid_p_map == 0) ((room g a).last_ms == 0) _ _ _ _
        (raw_over-tick g) (λ b. refl) (set_room-tick a _ g refl) (run_returns g p)

-- Every room of the map has frames of more than 0 ms.
abbrev pub AreTimed : Map ℕ → Game → Type 0
AreTimed [] g = Unit {0}
AreTimed ((id, a) ∷ m) g = (0 < (room g a).frame_tick) × AreTimed m g

AreTimed-SameTicks : (m : Map ℕ) (g h : Game) → SameTicks h g → AreTimed m g → AreTimed m h
AreTimed-SameTicks [] g h s t = tt
AreTimed-SameTicks ((id, a) ∷ m) g h s (p, t) =
    (omega (arith, s a, p), AreTimed-SameTicks m g h s t)

finish_room-tick :
    (over : Bool) (id a : ℕ) (g : Game) → SameTicks (if over then finish_room id a g else g) g
unfolding finish_room
finish_room-tick true id a g b = refl
finish_room-tick false id a g b = refl

update_rooms_returns :
    (proto : Proto) (ms : ℕ) (m : Map ℕ) (g : Game)
    → AreTimed m g
    → (g' : Game) × (update_rooms proto ms m g ≡ ok g')
unfolding update_rooms
update_rooms_returns proto ms [] g t = (g, refl)
update_rooms_returns proto ms ((id, a) ∷ m) g (p, t) =
    let (s, e, k) = update_returns_tick proto a ms g p in
    let g₁ = if s.1 == 1 then finish_room id a s.0 else s.0 in
    let same : SameTicks g₁ g = λ b. finish_room-tick (s.1 == 1) id a s.0 b ∙ k b in
    let (g', e') = update_rooms_returns proto ms m g₁ (AreTimed-SameTicks m g g₁ same t) in
    (g', rw (e, e'))

-- Where every room in the map has frames of more than 0 ms, the loops of the room manager's Update
-- end, with the calls to other servers in the trace; Main.Calling makes these calls.
pub update_mgr_returns :
    (proto : Proto) (ms : ℕ) (g : Game)
    → AreTimed g.rooms.id_map g
    → (g' : Game) × (update_mgr proto ms g ≡ ok g')
unfolding update_mgr
update_mgr_returns proto ms g t =
    let ticked = record g { rooms = record (g.rooms) { last_ms = ms } } in
    let (g₁, e) =
      update_rooms_returns proto ms g.rooms.id_map ticked
        (AreTimed-SameTicks g.rooms.id_map g ticked (λ b. refl) t) in
    elim (Bool-cases (ltb (sub32 ms g.rooms.last_ms) 1)) [
      | inl y ↦ (g, rw y)
      | inr n ↦ (update_finnal proto g₁, rw (n, e))
    ]
