-- ===== src/Game/Room/Record.antt =====
-- The record of a match: which frames a room keeps, and how a player's command gets there.
use kcpserver_cpp.Common.{
  ℕ, zero, suc, ◌+◌, ◌*◌, ◌/◌, ◌%◌, ◌^◌, ◌≤◌, ◌<◌, ◌≡◌, refl, ◌&&◌, some, List, [], ◌∷◌, ◌++◌,
  arith, ◌==◌, ltb, leb, if◌then◌else◌, Bytes, Map, lookup, lookup-insert_by, u32, length, ok,
  int_ltb, sub32,
}
use native.Mathlib.Nat.{mul-zero}
use kcpserver_cpp.Game.State.{Command, Frame, Room, Game, Proto}
use kcpserver_cpp.Game.Player.{player}
use kcpserver_cpp.Game.Room.{
  room, no_end, fetch_pt, fetch_pt2001, current_pt2001, add_command, svr_frame_cmd, get_p,
  frame_cmd, update, get_pidx, count_pidx,
}
use kcpserver_cpp.Game.Room.Loop.{
  pending, closed_frame, stepped, rounds, IsRunning, clocked, update_makes_frames,
}

-- The frame that a run of rounds records under the number `j`: the first closes the pending frame,
-- the later ones are empty.
abbrev pub made_frame : Room → ℕ → Frame
made_frame r j = if r.frame_id == j then closed_frame r else record { frameid = j; cmdlist = [] }

lookup-rounds :
    (ms n j : ℕ) (r : Room)
    → r.frame_id + n < 2 ^ 32
    → lookup j (rounds ms n r).all_oper_map ≡ (
        if leb r.frame_id j && ltb j (r.frame_id + n)
        then some (made_frame r j)
        else lookup j r.all_oper_map)
lookup-rounds ms zero j r h = ground arith
lookup-rounds ms (suc n) j r h = ground (
  arith,
  lookup-rounds ms n j (stepped ms r) (omega arith),
  lookup-insert_by int_ltb r.frame_id j (closed_frame r) r.all_oper_map,
)

-- The time that has come together at `ms`.
abbrev pub elapsed : ℕ → Room → ℕ
elapsed ms r = u32 (r.acc_ms + sub32 ms r.last_ms)

rounds_count :
    (tick n acc rest : ℕ) → tick * n + rest ≡ acc → rest < tick → tick ≤ acc → (1 ≤ n) × (n ≤ acc)
rounds_count tick zero acc rest e l h = absurd (omega (arith, e, mul-zero tick))
rounds_count tick (suc n) acc rest e l h = (omega arith, grind arith)

-- The rank counts players of the room, so it is at most their number.
pub count_pidx-le : (g : Game) (rid : ℕ) (m : Map ℕ) → count_pidx g rid m ≤ length m
unfolding count_pidx
count_pidx-le g rid [] = omega arith
count_pidx-le g rid ((j, q) ∷ rest) = ground (arith, count_pidx-le g rid rest)

count_pidx_fetch :
    (g : Game) (rid : ℕ) (m : Map ℕ) → count_pidx (fetch_pt g).0 rid m ≡ count_pidx g rid m
unfolding count_pidx fetch_pt
count_pidx_fetch g rid [] = refl
count_pidx_fetch g rid ((j, q) ∷ rest) = ground (arith, count_pidx_fetch g rid rest)

rounds_le : (tick n acc rest : ℕ) → 0 < tick → tick * n + rest ≡ acc → n ≤ acc
rounds_le tick n acc rest p e = grind arith

module _ (proto : Proto) (a : ℕ) where
  -- The command of a player of the room is put behind those of the pending frame; a stranger's
  -- command changes nothing. Neither touches what the room has recorded.
  pub add_command-room :
      (c : Command) (g : Game)
      → room (add_command a c g) a ≡ record (room g a) {
        pt2001 =
            some
              (record (pending (room g a)) { cmdlist = (pending (room g a)).cmdlist ++ (c ∷ []) });
      }
  unfolding add_command current_pt2001 fetch_pt2001
  add_command-room c g = ground arith

  fetch_pt-room : (g : Game) → room (fetch_pt g).0 a ≡ room g a
  unfolding fetch_pt
  fetch_pt-room g = refl

  pub frame_cmd-room :
      (pid p : ℕ) (body : Bytes) (g : Game)
      → get_p (room g a) pid ≡ some p
      → room (frame_cmd proto a pid body g) a ≡ record (room g a) {
        pt2001 = some (record (pending (room g a)) {
          cmdlist = (pending (room g a)).cmdlist ++ (proto.parse_2000 body ∷ []);
        });
      }
  unfolding frame_cmd fetch_pt
  frame_cmd-room pid p body g e =
      rw (e, frame_cmd) (add_command-room (proto.parse_2000 body) (fetch_pt g).0)

  pub update_closes :
      (ms : ℕ) (g : Game) (r : Room)
      → room g a ≡ r
      → IsRunning r
      → 0 < r.frame_tick
      → r.end_frame_id ≡ no_end
      → r.frame_id < 2 ^ 31
      → elapsed ms r < 2 ^ 31
      → r.frame_tick ≤ elapsed ms r
      → (g' : Game) × (update proto a ms g ≡ ok (g', 0))
        × (lookup r.frame_id (room g' a).all_oper_map ≡ some (closed_frame r))
  update_closes ms g r q run t en wide small enough =
      let (n, g', u, m, time, less, _) =
        update_makes_frames proto a ms g (rw q run) (rw q t) (rw q (omega arith)) (rw q en) in
      let (lo, hi) =
        rounds_count r.frame_tick n (elapsed ms r) (room g' a).acc_ms (rw q at time) (rw q at less)
          enough in
      let found = lookup-rounds ms n r.frame_id (clocked ms r) (omega (arith, hi)) in
      (g', u, rw (m, q) (ground (arith, found, lo)))

  -- If a player of a running room, with frames of more than 0 ms, no last frame and a frame number
  -- and elapsed time below 2 ^ 31, sends a command, and at least one frame's time has come
  -- together by the next Update, then that Update returns, and in the room's record the frame of
  -- the number that was current at the command holds the commands that were pending, in their
  -- order, and the new one behind them.
  pub frame_cmd_recorded :
      (pid p ms : ℕ) (body : Bytes) (g : Game)
      → get_p (room g a) pid ≡ some p
      → IsRunning (room g a)
      → 0 < (room g a).frame_tick
      → (room g a).end_frame_id ≡ no_end
      → (room g a).frame_id < 2 ^ 31
      → elapsed ms (room g a) < 2 ^ 31
      → (room g a).frame_tick ≤ elapsed ms (room g a)
      → (g' : Game) × (update proto a ms (frame_cmd proto a pid body g) ≡ ok (g', 0))
        × (lookup (room g a).frame_id (room g' a).all_oper_map
            ≡ some (record {
              frameid = (room g a).frame_id;
              cmdlist = (pending (room g a)).cmdlist ++ (proto.parse_2000 body ∷ []);
            }))
  frame_cmd_recorded pid p ms body g e run t en wide small enough =
      update_closes ms (frame_cmd proto a pid body g) _ (frame_cmd-room pid p body g e) run t en
        wide small enough

  -- If a room runs, with frames of more than 0 ms, no last frame and a frame number and elapsed
  -- time below 2 ^ 31, then Update returns having advanced the frame number by some n, and its
  -- record holds under each of the n numbers from the old one on the frame that was closed there,
  -- the pending commands under the first and no command under the others, and under every other
  -- number what it held before.
  pub update_record :
      (ms : ℕ) (g : Game)
      → IsRunning (room g a)
      → 0 < (room g a).frame_tick
      → (room g a).end_frame_id ≡ no_end
      → (room g a).frame_id < 2 ^ 31
      → elapsed ms (room g a) < 2 ^ 31
      → (n : ℕ) × (g' : Game) × (update proto a ms g ≡ ok (g', 0))
        × ((room g' a).frame_id ≡ (room g a).frame_id + n)
        × ((j : ℕ)
            → lookup j (room g' a).all_oper_map ≡ (
                if leb (room g a).frame_id j && ltb j ((room g a).frame_id + n)
                then some (made_frame (room g a) j)
                else lookup j (room g a).all_oper_map))
  update_record ms g run t en wide small =
      let (n, g', u, m, time, less, id) = update_makes_frames proto a ms g run t (omega arith) en in
      let bound : n ≤ elapsed ms (room g a) = rounds_le (room g a).frame_tick n _ _ t time in
      (
        n,
        g',
        u,
        omega (arith, id, bound),
        λ j. rw m (lookup-rounds ms n j (clocked ms (room g a)) (omega (arith, bound))),
      )

  -- If fewer than 256 players rank before a player and the parameter is below 2 ^ 16, then the
  -- command that the server adds for that player goes behind the pending commands, with frame
  -- index 0, and changes nothing else of the room; its word says 15 in the lowest byte, the rank
  -- of the player in the next one, and the parameter in the upper half.
  pub svr_frame_cmd_word :
      (p param : ℕ) (g : Game)
      → get_pidx a p g < 256
      → param < 2 ^ 16
      → (w : ℕ) × (room (svr_frame_cmd a p param g) a ≡ record (room g a) {
        pt2001 = some (record (pending (room g a)) {
          cmdlist = (pending (room g a)).cmdlist ++ (record { cmd_data = w; frameidx = 0 } ∷ []);
        });
      })
        × (w % 256 ≡ 15)
        × (w / 256 % 256 ≡ get_pidx a p g)
        × (w / 2 ^ 16 ≡ param)
  unfolding svr_frame_cmd fetch_pt get_pidx
  svr_frame_cmd_word p param g h k =
      let idx = count_pidx (fetch_pt g).0 (player g p).rid (room g a).rid_p_map in
      let same : idx ≡ count_pidx g (player g p).rid (room g a).rid_p_map =
        count_pidx_fetch g (player g p).rid (room g a).rid_p_map in
      (
        u32 (15 + idx % 256 * 2 ^ 8 + param % 2 ^ 16 * 2 ^ 16),
        add_command-room _ (fetch_pt g).0,
        omega (arith, same),
        omega (arith, same),
        omega (arith, same),
      )

-- The commands of some frames, all together.
abbrev pub commands : List Frame → ℕ
commands [] = 0
commands (f ∷ fs) = length f.cmdlist + commands fs
