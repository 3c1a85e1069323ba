-- ===== src/Lib.antt =====
-- kcpserver_cpp is a server for matches of a frame-synchronised game. The same binary runs as a net
-- server, which holds the clients' TCP connections, or as a game server, which runs the rooms and
-- talks to the clients of a match over KCP. Both are connected to a gate. This library is a model of
-- its C++ code, with theorems about it.
--
-- The parts, and the files that model them:
--   * core/room.cpp, core/room.h (roomObj, roomMgr): Game/Room.antt with the room's operations,
--     Game/Room/Manager.antt with the manager's. A room collects the commands of its players in the
--     pending frame m_pt2001, and Update closes a frame for each m_frameTick milliseconds.
--   * core/player.cpp, core/player.h (playerObj, playerMgr): Game/Player.antt.
--   * kcpsess/sessServer.cpp, kcpsess/sessServer.h (UDPConn, KCPServer): Game/Kcp.antt with the
--     sessions and their maps, Game/Session.antt with OnDealMsg and Update, Game/Udp.antt with the
--     datagrams: acceptConn, processMsg and the loop of epThread.
--   * rpchandle.cpp, rpcGameHandle: Game/Rpc.antt, with the text functions of libc that it uses in
--     Text.antt; rpcNetHandle: Net/Queue.antt.
--   * recvBuff.cpp, recvBuff.h (rpcObj, sendCache): Wire.antt with the frames between servers, and
--     SendQueue.antt with their way to the socket, where tcpclient.cpp and conn.cpp have the same code.
--   * tcpclient.cpp, tcpclient.h: Tcp.antt, the receiving half of a connection to the gate or a
--     game server, with Tcp/Delivery.antt on the whole way of a call;
--     Tcp/Clients.antt with the clients of a server and their maps (tcpclientMgr), and
--     Tcp/Clients/Threads.antt with the rounds of its reading and writing threads and of its calls.
--   * conn.cpp, conn.h (connObj, connNetObj, connRpcObj): Conn.antt.
--   * connmgr.cpp (connObjMgr) and net.cpp (netServer): Net.antt, Net/ConnMgr.antt, Net/Queue.antt with
--     queueProcessFun, Net/Thread.antt with the listening socket and the epoll thread.
--   * log.cpp, log.h: Log.antt. cfg.cpp, cfg.h: Cfg.antt. qps.cpp, qps.h: Qps.antt.
--   * main.cpp: Main.antt, the start, the rounds of the main loops, which put the parts together, and
--     their end. Main/Games.antt and Main/Rounds.antt follow the two kinds of server from round to
--     round, Main/Pushes.antt a message from a game server through the net server, and
--     Main/Calling.antt the calls that the rooms make.
-- Game/State.antt holds the state of the game server, Common.antt and its children what all share.
-- The theorems stand in the children of the module that they are about, and Tests.antt has the
-- concrete runs.
--
-- How the code corresponds to the model: an operation is a function from the state to the new state,
-- and what it sends is added to a trace in the order of the calls. The calls of rpcCallNet and
-- rpcCallGate that an operation of the game makes stand in the trace too, and call_out of Main.antt
-- makes them behind the operation, in their order and with their assertions, and with the null pointer
-- of a server that no net server has connected to. A pointer is an address into a
-- heap of objects of its class, so two maps that hold the same pointer share the object; objects that
-- go back to a pool keep their address. A call that fails an assertion or leaves defined behaviour is
-- `abort`, a call that never returns is `hang`. A std::map is an association list in the order of
-- its keys. An `int` is its bit pattern below 2 ^ 32, and the wrap-around of its operations is
-- written out. A socket, a clock and a received datagram are arguments: a list of the answers of
-- `write`, the answer of `read`, the milliseconds, the bytes that ikcp_recv delivers.
--
-- Fuel: frame_loop has one more than the milliseconds that have come together, and takes at least one
-- of them in a round unless a frame lasts 0 ms, when the loop of the program does not end either.
-- read_loop, net_loop and rpc_loop have one more than the bytes in the buffer, and each round but the
-- last takes at least four of them.
--
-- Parameters: the generated protobuf code is the record Proto of Game/State.antt, with no law.
--
-- connect is tried as often as the list of its answers says, like the program without a limit.
--
-- Not modelled: kcpsess/ikcp.c and ikcp.h (a copy of the KCP library), core/pb (generated),
-- kcpsess/ep_server.cpp and epoll.c (unused examples), the calls that make sockets and threads, and
-- the pools of entries whose objects are cleared. The threads are not modelled as such: an operation
-- runs as a whole, and the main loop and the epoll thread take turns in any order; a mutex appears
-- where a thread waits for one that it holds itself. Log lines of the other parts are left out.
pub mod Common
pub mod Game
pub mod Wire
pub mod Text
pub mod SendQueue
pub mod Tcp
pub mod Conn
pub mod Net
pub mod Qps
pub mod Log
pub mod Cfg
pub mod Main
mod Tests
