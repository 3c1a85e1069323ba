-- ===== src/Game/Rpc/Creating.antt =====
-- rpchandle.cpp, rpcGameHandle: NewRoom takes a room from the pool and gives it a number; the calls
-- of the other servers, whichever they are.
use kcpserver_cpp.Common.{
  ℕ, ◌^◌, ◌<◌, ◌≡◌, sym, inl, inr, ◌&&◌, Bytes, List, Option-cases, Bool-cases, ◌==◌, length, u32,
  arith, Each, Each-ok, Each-abort, Each-if, Each-bind, eq_same,
}
use mathlib.Core.Path.{subst}
use kcpserver_cpp.Wire.{RpcObj, get_target}
use kcpserver_cpp.Text.{atoi, decimal}
use kcpserver_cpp.Game.State.{Game, KcpServer, Proto}
use kcpserver_cpp.Game.Kcp.Living.{IsAlive}
use kcpserver_cpp.Game.Keeps.{Keeps}
use kcpserver_cpp.Game.Room.{room, set_room, update_delta}
use kcpserver_cpp.Game.Room
use kcpserver_cpp.Game.Room.Manager.{pop_room, push_room, append_r}
use kcpserver_cpp.Game.Room.Manager.Owners.{
  IsOwned, IsTaken, pop_room-IsTaken, set_room-IsTaken, SameRooms-IsTaken, append_r-IsOwned,
  push_room-IsOwned, pop_room-kcp, append_r-kcp, push_room-kcp,
}
use kcpserver_cpp.Game.Room.Keeping.{init-roomid}
use kcpserver_cpp.Game.Rpc.{
  enter_players, new_room_with, new_room, find_handler, Handler, h_new_room, h_over_room,
  h_offline_p, h_enter_p, h_leave_p, h_svr_frame_cmd, h_all_p_ready, h_msg2game, h_take_proxy,
  h_api_2000, h_api_2002, h_api_2003, h_api_2004, h_api_2005, run_handler, msg2game, call_handler,
  process,
}
use kcpserver_cpp.Game.Rpc.Keeping.{
  enter_players-Keeps, over_room-Keeps, offline_p-Keeps, leave-Keeps, enter-Keeps,
  all_p_ready-Keeps, api_2003-Keeps, api_2005-Keeps,
}
use kcpserver_cpp.Game.Sound.{IsSound, Keeps-IsSound, pair-IsSound}

-- The room that NewRoom fills.
abbrev fresh : ℕ → Bytes → Game → Game
fresh roomid delta g =
    set_room (pop_room g).1 (update_delta (atoi delta) (Room.init roomid)) (pop_room g).0

fresh-number :
    (roomid : ℕ) (delta : Bytes) (g : Game)
    → (room (fresh roomid delta g) (pop_room g).1).roomid ≡ roomid
fresh-number roomid delta g = rw eq_same (init-roomid roomid (atoi delta))

fresh-IsTaken :
    (roomid : ℕ) (delta : Bytes) (g : Game)
    → IsOwned g.rooms
    → IsTaken (pop_room g).1 (fresh roomid delta g).rooms
fresh-IsTaken roomid delta g w =
    set_room-IsTaken (pop_room g).1 _ (pop_room g).0 (pop_room-IsTaken g w)

fresh-IsAlive :
    (roomid : ℕ) (delta : Bytes) (g : Game) → IsAlive g.kcp → IsAlive (fresh roomid delta g).kcp
fresh-IsAlive roomid delta g w = subst (λ (s : KcpServer). IsAlive s) (sym (pop_room-kcp g)) w

append_r-IsSound :
    (a : ℕ) (g h : Game)
    → Keeps g h
    → IsAlive g.kcp
    → IsTaken a g.rooms
    → (room g a).roomid < 2 ^ 32
    → IsSound (append_r a h)
append_r-IsSound a g h k alive w small = record {
  alive = subst (λ (s : KcpServer). IsAlive s) (sym (append_r-kcp a h)) (k.alive alive);
  owned =
      append_r-IsOwned a h (SameRooms-IsTaken a g.rooms h.rooms k.rooms w)
        (omega (arith, k.rooms.numbers a, small));
}

push_room-IsSound : (a : ℕ) (g : Game) → IsAlive g.kcp → IsTaken a g.rooms → IsSound (push_room a g)
push_room-IsSound a g alive w = record {
  alive = subst (λ (s : KcpServer). IsAlive s) (sym (push_room-kcp a g)) alive;
  owned = push_room-IsOwned a g w;
}

new_room_with-IsSound :
    (roomid : ℕ) (pids rids camps : List Bytes) (delta : Bytes) (g : Game)
    → roomid < 2 ^ 32
    → IsSound g
    → IsSound (new_room_with roomid pids rids delta camps g).0
unfolding new_room_with
new_room_with-IsSound roomid pids rids camps delta g small w =
    let a = (pop_room g).1 in
    let g₂ = fresh roomid delta g in
    let alive = fresh-IsAlive roomid delta g w.alive in
    let taken = fresh-IsTaken roomid delta g w.owned in
    let number = fresh-number roomid delta g in
    elim (Bool-cases (length pids == length rids && length rids == length camps)) [
      | inl t ↦ rw t (
          append_r-IsSound a g₂ (enter_players a roomid pids rids camps g₂)
            (enter_players-Keeps a roomid pids rids camps g₂) alive taken (omega (arith, number)))
      | inr f ↦ rw f (push_room-IsSound a g₂ alive taken)
    ]

new_room-IsSound :
    (obj : RpcObj) (g : Game) → IsSound g → Each (λ (r : Game × ℕ). IsSound r.0) (new_room obj g)
unfolding new_room
new_room-IsSound obj g w =
    Each-if _ (Each-ok (new_room_with-IsSound (u32 obj.pid) _ _ _ _ g (omega arith) w)) Each-abort

run_handler-IsSound :
    (proto : Proto) (h : Handler) (obj : RpcObj) (g : Game)
    → IsSound g
    → Each (λ (r : Game × ℕ). IsSound r.0) (run_handler proto h obj g)
unfolding run_handler
run_handler-IsSound proto h_new_room obj g w = new_room-IsSound obj g w
run_handler-IsSound proto h_over_room obj g w = Each-ok (Keeps-IsSound _ w (over_room-Keeps obj g))
run_handler-IsSound proto h_offline_p obj g w = Each-ok (Keeps-IsSound _ w (offline_p-Keeps obj g))
run_handler-IsSound proto h_enter_p obj g w = pair-IsSound w (enter-Keeps obj g)
run_handler-IsSound proto h_leave_p obj g w = Each-ok (Keeps-IsSound _ w (leave-Keeps obj g))
run_handler-IsSound proto h_all_p_ready obj g w =
    Each-ok (Keeps-IsSound _ w (all_p_ready-Keeps obj g))
run_handler-IsSound proto h_api_2003 obj g w =
    Each-ok (Keeps-IsSound _ w (api_2003-Keeps proto obj g))
run_handler-IsSound proto h_api_2005 obj g w =
    Each-ok (Keeps-IsSound _ w (api_2005-Keeps proto obj g))
run_handler-IsSound proto h_svr_frame_cmd obj g w = Each-ok w
run_handler-IsSound proto h_msg2game obj g w = Each-ok w
run_handler-IsSound proto h_take_proxy obj g w = Each-ok w
run_handler-IsSound proto h_api_2000 obj g w = Each-ok w
run_handler-IsSound proto h_api_2002 obj g w = Each-ok w
run_handler-IsSound proto h_api_2004 obj g w = Each-ok w

msg2game-IsSound :
    (proto : Proto) (obj : RpcObj) (g : Game)
    → IsSound g
    → Each (λ (r : Game × ℕ). IsSound r.0) (msg2game proto obj g)
unfolding msg2game
msg2game-IsSound proto obj g w = elim (Option-cases (find_handler (decimal obj.msgid))) [
  | inl e ↦ rw (e, msg2game) (Each-ok w)
  | inr (h, e) ↦
      rw (e, msg2game) (Each-bind (run_handler-IsSound proto h obj g w) (λ r k. Each-ok k))
]

call_handler-IsSound :
    (proto : Proto) (h : Handler) (obj : RpcObj) (g : Game)
    → IsSound g
    → Each (λ (r : Game × ℕ). IsSound r.0) (call_handler proto h obj g)
unfolding call_handler run_handler
call_handler-IsSound proto h_msg2game obj g w = msg2game-IsSound proto obj g w
call_handler-IsSound proto h_new_room obj g w = run_handler-IsSound proto h_new_room obj g w
call_handler-IsSound proto h_over_room obj g w = run_handler-IsSound proto h_over_room obj g w
call_handler-IsSound proto h_offline_p obj g w = run_handler-IsSound proto h_offline_p obj g w
call_handler-IsSound proto h_enter_p obj g w = run_handler-IsSound proto h_enter_p obj g w
call_handler-IsSound proto h_leave_p obj g w = run_handler-IsSound proto h_leave_p obj g w
call_handler-IsSound proto h_svr_frame_cmd obj g w = Each-ok w
call_handler-IsSound proto h_all_p_ready obj g w = run_handler-IsSound proto h_all_p_ready obj g w
call_handler-IsSound proto h_take_proxy obj g w = Each-ok w
call_handler-IsSound proto h_api_2000 obj g w = Each-ok w
call_handler-IsSound proto h_api_2002 obj g w = Each-ok w
call_handler-IsSound proto h_api_2003 obj g w = run_handler-IsSound proto h_api_2003 obj g w
call_handler-IsSound proto h_api_2004 obj g w = Each-ok w
call_handler-IsSound proto h_api_2005 obj g w = run_handler-IsSound proto h_api_2005 obj g w

-- Every call of another server keeps the game server sound.
pub process-IsSound :
    (proto : Proto) (obj : RpcObj) (g : Game) → IsSound g → Each IsSound (process proto obj g)
unfolding process
process-IsSound proto obj g w = elim (Option-cases (find_handler (get_target obj))) [
  | inl e ↦ rw (e, process) (Each-ok w)
  | inr (h, e) ↦
      rw (e, process) (Each-bind (call_handler-IsSound proto h obj g w) (λ r k. Each-ok k))
]
