-- ===== src/Game/Rpc/Commands.antt =====
-- processKcp: where a command of a client goes.
use kcpserver_cpp.Common.{ℕ, ◌≡◌, some, Bytes, ok}
use kcpserver_cpp.Game.State.{Game, Proto}
use kcpserver_cpp.Game.Room.{frame_cmd}
use kcpserver_cpp.Game.Room.Manager.{get_room}
use kcpserver_cpp.Game.Rpc.{process_kcp}

-- A message 2000 for a room that runs is a command for its current frame.
pub process_kcp-frame_cmd :
    (proto : Proto) (body : Bytes) (pid sessid roomid a : ℕ) (g : Game)
    → get_room g roomid ≡ some a
    → process_kcp proto 2000 body pid sessid roomid g ≡ ok (frame_cmd proto a pid body g)
unfolding process_kcp
process_kcp-frame_cmd proto body pid sessid roomid a g e = rw (e, process_kcp)
