-- ===== src/Game/Room/Loop.antt =====
-- The loop of roomObj::Update: how many frames a round makes, and when it ends.
use kcpserver_cpp.Common.{
  ℕ, zero, suc, ◌+◌, ◌-◌, ◌*◌, ◌/◌, ◌%◌, ◌^◌, ◌≤◌, ◌<◌, ◌≡◌, ◌≢◌, ◌↔◌, ◌⊎◌, refl, sym, ◌>>=◌, ap,
  ◌∙◌, true, false, none, some, [], ◌∷◌, arith, Bytes, Map, u32, sub32, ltb, ok, hang, Bool-cases,
  inl, inr, le-of_ltb, ltb→lt,
}
use native.Mathlib.Nat.{div-eq-sub-div, mod-eq-sub-mod, div-eq_of_lt, div-add-mod, mod-lt}
use kcpserver_cpp.Game.State.{Frame, cleared_frame, Room, Game, Proto, emit, insert_int}
use kcpserver_cpp.Game.Kcp.{write}
use kcpserver_cpp.Game.Room.{
  room, set_room, fetch_pt2001, current_pt2001, broadcast_kcp_to, broadcast_kcp, frame_step,
  frame_loop, update, check_end, no_end,
}

ok-ne-hang {ℓ} : {A : Type ℓ} (x : A) → ok x ≢ hang
ok-ne-hang x e = cc

zero_or_pos : (n : ℕ) → (n ≡ 0) ⊎ (0 < n)
zero_or_pos n = omega arith

pub room-set_room : (a : ℕ) (r : Room) (g : Game) → room (set_room a r g) a ≡ r
room-set_room a r g = ground arith

write-rooms : (c : ℕ) (buf : Bytes) (g : Game) → (write c buf g).rooms ≡ g.rooms
unfolding write emit
write-rooms c buf g = ground arith

pub broadcast_kcp_to-rooms :
    (buf : Bytes) (m : Map ℕ) (g : Game) → (broadcast_kcp_to buf m g).rooms ≡ g.rooms
unfolding broadcast_kcp_to emit
broadcast_kcp_to-rooms buf [] g = refl
broadcast_kcp_to-rooms buf ((pid, c) ∷ rest) g =
    broadcast_kcp_to-rooms buf rest _ ∙ write-rooms c buf g

-- The frame that the next round will close.
abbrev pub pending : Room → Frame
pending r = elim r.pt2001 [ none ↦ cleared_frame | some f ↦ f ]

abbrev pub closed_frame : Room → Frame
closed_frame r = record (pending r) { frameid = r.frame_id }

-- What a round does to its room.
abbrev pub stepped : ℕ → Room → Room
stepped ms r = record r {
  acc_ms = sub32 r.acc_ms r.frame_tick;
  tmp_diff = ms;
  pt2001 = some cleared_frame;
  all_oper_map = insert_int r.frame_id (closed_frame r) r.all_oper_map;
  frame_id = u32 (suc r.frame_id);
}

current_pt2001-room :
    (a : ℕ) (g : Game)
    → (room (current_pt2001 a g).0 a ≡ room g a) × ((current_pt2001 a g).1 ≡ pending (room g a))
unfolding current_pt2001 fetch_pt2001
current_pt2001-room a g = ground arith

-- `n` rounds.
abbrev pub rounds : ℕ → ℕ → Room → Room
rounds ms zero r = r
rounds ms (suc n) r = rounds ms n (stepped ms r)

-- The room that is ready to run, with the time that has passed since the last call.
abbrev pub clocked : ℕ → Room → Room
clocked ms r = record r { acc_ms = u32 (r.acc_ms + sub32 ms r.last_ms); last_ms = ms }

abbrev pub IsRunning : Room → Type 0
IsRunning r = (r.gate_over ≡ false) × (r.brun ≡ true) × (r.rid_p_map ≢ []) × (r.last_ms ≢ 0)

module _ (proto : Proto) (a ms : ℕ) where
  pub room-frame_step : (g : Game) → room (frame_step proto a ms g) a ≡ stepped ms (room g a)
  unfolding frame_step fetch_pt2001 broadcast_kcp
  room-frame_step g = grind (arith, current_pt2001-room a g, broadcast_kcp_to-rooms)

  -- A round takes the length of a frame from the time that has come together.
  pub acc-stepped :
      (r : Room)
      → 0 < r.frame_tick
      → r.frame_tick ≤ r.acc_ms
      → r.acc_ms < 2 ^ 32
      → ((stepped ms r).acc_ms ≡ r.acc_ms - r.frame_tick)
        × (r.acc_ms / r.frame_tick ≡ suc ((stepped ms r).acc_ms / r.frame_tick))
        × (r.acc_ms % r.frame_tick ≡ (stepped ms r).acc_ms % r.frame_tick)
  acc-stepped r p h b =
      let e : sub32 r.acc_ms r.frame_tick ≡ r.acc_ms - r.frame_tick = omega arith in
      (e, rw e (omega (arith, div-eq-sub-div p h)), rw e (mod-eq-sub-mod h))

  pub frame_loop-rounds :
      (fuel : ℕ) (g : Game) (r : Room)
      → room g a ≡ r
      → 0 < r.frame_tick
      → r.acc_ms < 2 ^ 32
      → r.acc_ms < fuel
      → (g' : Game) × (frame_loop proto fuel a ms g ≡ ok g')
        × (room g' a ≡ rounds ms (r.acc_ms / r.frame_tick) r)
  unfolding frame_loop
  frame_loop-rounds zero g r q p b h = absurd (omega arith)
  frame_loop-rounds (suc fuel) g r q p b h = elim (Bool-cases (ltb r.acc_ms r.frame_tick)) [
    | inl e ↦
        let z : r.acc_ms / r.frame_tick ≡ 0 = div-eq_of_lt (ltb→lt _ _ e) in
        (g, rw (q, frame_loop) (rw (e, frame_loop)), rw z q)
    | inr e ↦
        let ge = le-of_ltb _ _ e in
        let (a₁, a₂, _) = acc-stepped r p ge b in
        let (g', l, m) =
          frame_loop-rounds fuel (frame_step proto a ms g) (stepped ms r)
            (room-frame_step g ∙ ap (stepped ms) q) p (omega (arith, a₁)) (omega (arith, a₁)) in
        (g', rw (q, frame_loop) (rw (e, frame_loop) l), rw a₂ m)
  ]

  -- With frames of 0 ms the loop runs through any fuel.
  frame_loop_stuck :
      (fuel : ℕ) (g : Game) (r : Room)
      → room g a ≡ r
      → r.frame_tick ≡ 0
      → frame_loop proto fuel a ms g ≡ hang
  unfolding frame_loop
  frame_loop_stuck zero g r q z = refl
  frame_loop_stuck (suc fuel) g r q z =
      let e : ltb r.acc_ms r.frame_tick ≡ false = ground arith in
      rw (q, frame_loop)
        (rw (e, frame_loop)
          (frame_loop_stuck fuel _ (stepped ms r) (room-frame_step g ∙ ap (stepped ms) q) z))

  rounds_tick : (n : ℕ) (r : Room) → (rounds ms n r).frame_tick ≡ r.frame_tick
  rounds_tick zero r = refl
  rounds_tick (suc n) r = rounds_tick n (stepped ms r)

  rounds_end : (n : ℕ) (r : Room) → (rounds ms n r).end_frame_id ≡ r.end_frame_id
  rounds_end zero r = refl
  rounds_end (suc n) r = rounds_end n (stepped ms r)

  rounds_frame_id :
      (n : ℕ) (r : Room) → r.frame_id < 2 ^ 32 → (rounds ms n r).frame_id ≡ u32 (r.frame_id + n)
  rounds_frame_id zero r h = omega arith
  rounds_frame_id (suc n) r h = omega (arith, rounds_frame_id n (stepped ms r) (omega arith))

  -- After all the rounds that fit, what is left is less than a frame.
  rounds_acc :
      (n : ℕ) (r : Room)
      → r.acc_ms / r.frame_tick ≡ n
      → 0 < r.frame_tick
      → r.acc_ms < 2 ^ 32
      → (rounds ms n r).acc_ms ≡ r.acc_ms % r.frame_tick
  rounds_acc zero r e p b = omega (arith, rw e at (div-add-mod r.acc_ms r.frame_tick))
  rounds_acc (suc n) r e p b = elim (Bool-cases (ltb r.acc_ms r.frame_tick)) [
    | inl lt ↦ absurd (omega (arith, e, div-eq_of_lt (ltb→lt _ _ lt)))
    | inr ge ↦
        let (a₁, a₂, a₃) = acc-stepped r p (le-of_ltb _ _ ge) b in
        rounds_acc n (stepped ms r) (omega (arith, a₂, e)) p (omega (arith, a₁)) ∙ sym a₃
  ]

  update_loop :
      (g : Game)
      → IsRunning (room g a)
      → update proto a ms g ≡ (
          frame_loop proto
            (suc (clocked ms (room g a)).acc_ms)
            a
            ms
            (set_room a (clocked ms (room g a)) g)
          >>= λ g₁. ok (check_end proto a g₁))
  unfolding update
  update_loop g h = ground arith

  check_end_open : (g : Game) → (room g a).end_frame_id ≡ no_end → check_end proto a g ≡ (g, 0)
  unfolding check_end
  check_end_open g e = ground arith

  -- If a room runs (it is not over, it has players, and an earlier Update has set its clock), its
  -- frames last more than 0 ms, its frame number is below 2 ^ 32 and it has no last frame, then
  -- Update returns 0, having made as many frames as fit into the milliseconds that have come
  -- together modulo 2 ^ 32; the rest, less than a frame, is kept for the next call, the frame
  -- number has grown by the number of frames modulo 2 ^ 32, and the room is what so many rounds of
  -- the loop make of it.
  pub update_makes_frames :
      (g : Game)
      → IsRunning (room g a)
      → 0 < (room g a).frame_tick
      → (room g a).frame_id < 2 ^ 32
      → (room g a).end_frame_id ≡ no_end
      → (n : ℕ) × (g' : Game) × (update proto a ms g ≡ ok (g', 0))
        × (room g' a ≡ rounds ms n (clocked ms (room g a)))
        × ((room g a).frame_tick * n + (room g' a).acc_ms
            ≡ u32 ((room g a).acc_ms + sub32 ms (room g a).last_ms))
        × ((room g' a).acc_ms < (room g a).frame_tick)
        × ((room g' a).frame_id ≡ u32 ((room g a).frame_id + n))
  update_makes_frames g h p b e =
      let r = clocked ms (room g a) in
      let (g', l, m) =
        frame_loop-rounds (suc r.acc_ms) (set_room a r g) r (room-set_room a r g) p (omega arith)
          (omega arith) in
      let n = r.acc_ms / r.frame_tick in
      let acc : (room g' a).acc_ms ≡ r.acc_ms % r.frame_tick =
        rw m (rounds_acc n r refl p (omega arith)) in
      (
        n,
        g',
        rw (update_loop g h, l) (ap ok (check_end_open g' (rw m (rounds_end n r ∙ e)))),
        m,
        omega (arith, acc, div-add-mod r.acc_ms r.frame_tick),
        omega (arith, acc, mod-lt r.acc_ms p),
        rw m (rounds_frame_id n r b),
      )

  -- For a room that runs, Update never ends exactly if its frames last 0 ms.
  pub update_hangs_iff :
      (g : Game) → IsRunning (room g a) → (update proto a ms g ≡ hang) ↔ ((room g a).frame_tick ≡ 0)
  update_hangs_iff g h = (ends, stuck)
    where
      r : Room
      r = clocked ms (room g a)

      stuck : (room g a).frame_tick ≡ 0 → update proto a ms g ≡ hang
      stuck z =
          let l = frame_loop_stuck (suc r.acc_ms) (set_room a r g) r (room-set_room a r g) z in
          rw (update_loop g h, l)

      ends : update proto a ms g ≡ hang → (room g a).frame_tick ≡ 0
      ends e = elim (zero_or_pos (room g a).frame_tick) [
        | inl z ↦ z
        | inr p ↦
            let (g', l, m) =
              frame_loop-rounds (suc r.acc_ms) (set_room a r g) r (room-set_room a r g) p
                (omega arith) (omega arith) in
            absurd (ok-ne-hang _ (rw (update_loop g h, l) at e))
      ]
