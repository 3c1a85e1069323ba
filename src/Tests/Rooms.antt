-- ===== src/Tests/Rooms.antt =====
-- Runs of a room with two players, and the theorems of Game/Room at them.
use kcpserver_cpp.Common.{
  ℕ, ◌+◌, ◌==◌, ◌*◌, ◌%◌, ◌/◌, ◌^◌, ◌≡◌, ◌<◌, ◌↔◌, refl, true, false, none, some, [], ◌∷◌, ◌++◌,
  List, Map, arith, lookup, u32, sub32, ok, hang, leb, ltb, ◌&&◌, if◌then◌else◌, length,
}
use kcpserver_cpp.Game.State.{
  Command, Player, UdpConn, Room, Proto, Game, Out, packet, match_over, cleared_frame,
}
use kcpserver_cpp.Game.Room.{
  room, update, frame_cmd, svr_frame_cmd, get_pidx, count_pidx, get_p, no_end,
}
use kcpserver_cpp.Game.Room.Loop.{rounds, clocked, IsRunning, update_makes_frames, update_hangs_iff}
use kcpserver_cpp.Game.Kcp.Parting.{AreCloses}
use kcpserver_cpp.Game.Room.Parting.{told, unless_in, update_gate_over}
use kcpserver_cpp.Game.Player.{player, update_player}
use kcpserver_cpp.Game.Player.Lookup.{update_player_moves}
use kcpserver_cpp.Game.Player
use kcpserver_cpp.Game.Room.Record.{
  made_frame, frame_cmd_recorded, update_record, svr_frame_cmd_word,
}

abbrev pub command : ℕ → Command
command n = record { cmd_data = n; frameidx = 0 }

-- A protobuf of one byte: enough to run the code.
abbrev pub tiny : Proto
tiny = record {
  encode = λ m. 1 ∷ [];
  parse_2000 = λ bs. command (length bs);
  parse_2002 = λ bs. bs;
  parse_2003 = length;
  parse_2004 = length;
}

abbrev pub player_of : ℕ → ℕ → Player
player_of pid rid = record { pid = pid; sessid = 0; rid = rid; roomid = 7; off = false; camp = 0 }

abbrev pub idle_conn : UdpConn
idle_conn = record {
  fd = 0;
  id = 0;
  conv = 0;
  bread = false;
  bind = false;
  born_tick = 0;
  offset = 0;
  cache = [];
  kcp = false;
}

-- Room 7 runs; its first frame has the number 5 and holds one command.
abbrev pub room_of : ℕ → Room
room_of tick = record {
  roomid = 7;
  frame_id = 5;
  end_frame_id = no_end;
  brun = true;
  start_ms = 0;
  last_ms = 1000;
  acc_ms = 10;
  tmp_diff = 1000;
  frame_tick = tick;
  gate_over = false;
  pt2001 = some (record { frameid = 0; cmdlist = command 9 ∷ [] });
  all_oper_map = (4, cleared_frame) ∷ [];
  rid_p_map = (100, 0) ∷ (200, 1) ∷ [];
  pid_p_map = (1, 0) ∷ (2, 1) ∷ [];
  pid_conn = [];
}

abbrev pub game_of : Room → Game
game_of r = record {
  kcp = record {
    conns = record { cell = λ a. idle_conn; made = 0 };
    map_conn = [];
    map_sess_fd = [];
    pool = [];
    sess_id = 0;
    last_tick = 0;
  };
  players = record {
    players = record { cell = λ p. if leb p 0 then player_of 1 100 else player_of 2 200; made = 2 };
    rid_p_map = (100, 0) ∷ (200, 1) ∷ [];
    pid_p_map = (1, 0) ∷ (2, 1) ∷ [];
    pool = [];
  };
  rooms = record {
    rooms = record { cell = λ a. r; made = 1 };
    id_map = (7, 0) ∷ [];
    finnal_room_que = [];
    pool_room = [];
    pool2001 = 3;
    pool2000 = 3;
    last_ms = 1000;
  };
  trace = [];
}

abbrev pub running : Game
running = game_of (room_of 66)

pub runs : (tick : ℕ) → IsRunning (room_of tick)
runs tick = (refl, refl, (λ e. cc), (omega arith))

update_makes_frames_example :
    (n : ℕ) × (g' : Game) × (update tiny 0 1200 running ≡ ok (g', 0))
    × (room g' 0 ≡ rounds 1200 n (clocked 1200 (room_of 66)))
    × (66 * n + (room g' 0).acc_ms ≡ u32 (10 + sub32 1200 1000))
    × ((room g' 0).acc_ms < 66)
    × ((room g' 0).frame_id ≡ u32 (5 + n))
update_makes_frames_example =
    update_makes_frames tiny 0 1200 running (runs 66) (omega arith) (omega arith) refl

update_hangs_iff_example :
    (update tiny 0 1200 (game_of (room_of 0)) ≡ hang)
    ↔ ((room (game_of (room_of 0)) 0).frame_tick ≡ 0)
update_hangs_iff_example = update_hangs_iff tiny 0 1200 (game_of (room_of 0)) (runs 0)

frame_cmd_recorded_example :
    (g' : Game) × (update tiny 0 1200 (frame_cmd tiny 0 2 (8 ∷ 8 ∷ []) running) ≡ ok (g', 0))
    × (lookup 5 (room g' 0).all_oper_map
        ≡ some (record { frameid = 5; cmdlist = command 9 ∷ command 2 ∷ [] }))
unfolding get_p lookup
frame_cmd_recorded_example =
    frame_cmd_recorded tiny 0 2 1 1200 (8 ∷ 8 ∷ []) running refl (runs 66) (omega arith) refl
      (omega arith) (omega arith) (omega arith)

update_record_example :
    (n : ℕ) × (g' : Game) × (update tiny 0 1200 running ≡ ok (g', 0))
    × ((room g' 0).frame_id ≡ 5 + n)
    × ((j : ℕ)
        → lookup j (room g' 0).all_oper_map ≡ (
            if leb 5 j && ltb j (5 + n)
            then some (made_frame (room_of 66) j)
            else lookup j ((4, cleared_frame) ∷ [])))
update_record_example =
    update_record tiny 0 1200 running (runs 66) (omega arith) refl (omega arith) (omega arith)

rank_small : get_pidx 0 1 running < 256
unfolding get_pidx count_pidx
rank_small = omega arith

svr_frame_cmd_word_example :
    (w : ℕ) × (room (svr_frame_cmd 0 1 3 running) 0 ≡ record (room_of 66) {
      pt2001 = some (record {
        frameid = 0;
        cmdlist = command 9 ∷ (record { cmd_data = w; frameidx = 0 } ∷ []);
      });
    })
    × (w % 256 ≡ 15)
    × (w / 256 % 256 ≡ get_pidx 0 1 running)
    × (w / 2 ^ 16 ≡ 3)
svr_frame_cmd_word_example = svr_frame_cmd_word tiny 0 1 3 running (rank_small) (omega arith)

-- The player 0 of `running` gets the pid 50.
update_player_moves_example :
    let g' = update_player 0 50 running in
    ((j : ℕ)
      → Player.get_p g' j
        ≡ (if 50 == j then some 0 else (if 1 == j then none else Player.get_p running j)))
    × ((j : ℕ)
        → Player.get_p_by_rid g' j ≡ (if 100 == j then some 0 else Player.get_p_by_rid running j))
    × (player g' 0 ≡ record (player running 0) { pid = 50 })
update_player_moves_example = update_player_moves 0 50 running

abbrev stopped : Game
stopped = game_of (record (room_of 66) { gate_over = true })

update_gate_over_example :
    let m : Map ℕ = (100, 0) ∷ (200, 1) ∷ [] in
    let over = packet tiny 213 (match_over 4) in
    (g' : Game) × (update tiny 0 1200 stopped ≡ ok (g', 1))
    × ((b : ℕ)
        → room g' b ≡ (if 0 == b then record (room stopped 0) { brun = false } else room stopped b))
    × (g'.rooms.id_map ≡ stopped.rooms.id_map)
    × ((closing : List Out) × AreCloses closing
        × (g'.trace ≡ stopped.trace ++ (told stopped.players.players.cell over 213 m ++ closing)))
    × ((rid : ℕ) → Player.get_p_by_rid g' rid ≡ unless_in m rid (Player.get_p_by_rid stopped rid))
update_gate_over_example = update_gate_over tiny 0 1200 stopped refl
