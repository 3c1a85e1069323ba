-- ===== src/Tests/Stopping.antt =====
-- A game server with the connection of a net server and two sessions stops.
use kcpserver_cpp.Common.{ℕ, ◌≡◌, refl, true, false, some, [], ◌∷◌, ◌++◌, lookup, insert_by}
use kcpserver_cpp.Conn.{Conn, close_fd, new_conn}
use kcpserver_cpp.Net.ConnMgr.{create_conn}
use kcpserver_cpp.Game.State
use kcpserver_cpp.Game.Udp.Closing.{closes}
use kcpserver_cpp.Main.{GameMain, stop_game}
use kcpserver_cpp.Main.Rounds.{started}
use kcpserver_cpp.Main.Stopping.{farewells, Occurs, stop_game-closes}
use kcpserver_cpp.Tests.Games.{asked}
use kcpserver_cpp.Tests.Sessions.{two_sessions}
use kcpserver_cpp.Net.ConnMgr.Agreement.{created}

abbrev connected : GameMain
connected = record asked { server = create_conn 9 [] (started false); game = two_sessions }

abbrev from_net : Conn
from_net = created 9 (started false)

stop_game-closes_example :
    let m' = stop_game 3 4 8 connected in
    let conns = connected.server.conn_map in
    (m'.game.trace
      ≡ two_sessions.trace
        ++ (closes two_sessions ((5, 0) ∷ (6, 1) ∷ [])
            ++ (State.close_fd 4 ∷ State.close_fd 8 ∷ [])))
    × (m'.server.outs
        ≡ connected.server.outs ++ (farewells conns ++ (close_fd 3 ∷ close_fd 9 ∷ [])))
    × ((k : ℕ) (d : Conn) → lookup k m'.server.conn_map ≡ some d → d.bclose ≡ true)
    × Occurs (close_fd 9) (farewells conns)
unfolding create_conn insert_by lookup new_conn
stop_game-closes_example = stop_game-closes 3 4 8 connected 1 from_net refl refl
