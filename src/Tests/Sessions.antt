-- ===== src/Tests/Sessions.antt =====
-- Two sessions of the KCP server, and the theorems of Game/Kcp and Game/Player at them.
use kcpserver_cpp.Common.{
  ℕ, ◌≡◌, refl, sym, ◌⊎◌, inl, inr, true, false, none, some, [], ◌∷◌, ◌==◌, if◌then◌else◌, arith,
  lookup, abort, ok, ◌+◌, ◌++◌, ◌<◌, length, List, codes, IsIn, Bool-cases,
}
use kcpserver_cpp.Game.State.{UdpConn, Game}
use kcpserver_cpp.Game.Kcp.{create_conn, raw_get_conn, raw_close_conn}
use kcpserver_cpp.Game.Kcp.Sessions.{conn, IsServer, raw_close_conn-gone}
use kcpserver_cpp.Game.Kcp.Creation.{create_conn-IsServer}
use kcpserver_cpp.Game.Udp.{Arrival, came, ep_round}
use kcpserver_cpp.Game.Udp.{accept_conn}
use kcpserver_cpp.Game.Udp.Agreement.{IsOpen, clifds}
use kcpserver_cpp.Game.Udp.Accepted.{HaveSessions, accept_conn_stops}
use kcpserver_cpp.Game.Udp.Rounds.{ep_round-IsOpen}
use kcpserver_cpp.Game.Player.{player, set_sessid}
use kcpserver_cpp.Game.Player.Takeover.{set_sessid_again, set_sessid_moves}
use kcpserver_cpp.Tests.Rooms.{idle_conn, player_of, game_of, room_of}

abbrev session : ℕ → ℕ → UdpConn
session fd id = record idle_conn { fd = fd; id = id; kcp = true }

-- Session 1 has the descriptor 5 and the object 0, session 2 the descriptor 6 and the object 1; the
-- player 0 is on session 1.
abbrev pub two_sessions : Game
two_sessions = record (game_of (room_of 66)) {
  kcp = record {
    conns = record { cell = λ a. if a == 0 then session 5 1 else session 6 2; made = 3 };
    map_conn = (5, 0) ∷ (6, 1) ∷ [];
    map_sess_fd = (1, 0) ∷ (2, 1) ∷ [];
    pool = 2 ∷ [];
    sess_id = 2;
    last_tick = 0;
  };
  players = record ((game_of (room_of 66)).players) {
    players = record { cell = λ p. record (player_of 1 100) { sessid = 1 }; made = 2 };
  };
}

one_of_two :
    (j k v w key a : ℕ)
    → lookup key ((j, v) ∷ (k, w) ∷ []) ≡ some a
    → ((j ≡ key) × (v ≡ a)) ⊎ ((k ≡ key) × (w ≡ a))
unfolding lookup
one_of_two j k v w key a h = ground arith

two_sessions_IsServer : IsServer two_sessions.kcp
unfolding lookup
two_sessions_IsServer = record {
  by_fd = λ fd a h. elim (one_of_two 5 6 0 1 fd a h) [
    | inl (p, q) ↦ rw (sym p, sym q) (refl, refl, omega arith, λ i. ground arith)
    | inr (p, q) ↦ rw (sym p, sym q) (refl, refl, omega arith, λ i. ground arith)
  ];
  by_sess = λ id a h. elim (one_of_two 1 2 0 1 id a h) [
    | inl (p, q) ↦ rw (sym p, sym q) (refl, refl, omega arith)
    | inr (p, q) ↦ rw (sym p, sym q) (refl, refl, omega arith)
  ];
  in_pool = λ a i. elim i [ inl e ↦ omega arith | inr e ↦ absurd e ];
  pool_unique = ((λ e. e), tt);
}

create_conn-IsServer_example :
    let (g', a) = create_conn 1000 7 (1 ∷ 0 ∷ 0 ∷ 0 ∷ []) two_sessions in
    IsServer g'.kcp
    × (lookup 7 g'.kcp.map_conn ≡ some a)
    × ((id : ℕ) → raw_get_conn g' id ≡ (if 3 == id then some a else raw_get_conn two_sessions id))
unfolding lookup
create_conn-IsServer_example =
    create_conn-IsServer 1000 7 (1 ∷ 0 ∷ 0 ∷ 0 ∷ []) two_sessions two_sessions_IsServer refl
      (omega arith)

-- A client whose first datagram waits; its socket will be 7.
abbrev client : Arrival
client = record { bytes = codes "123456789012345678901234"; clifd = 7; bound = true }

not_held : (fd : ℕ) → IsIn fd (7 ∷ []) → lookup {V = ℕ} fd ((5, 0) ∷ (6, 1) ∷ []) ≡ none
unfolding lookup
not_held fd (inl e) = rw e refl
not_held fd (inr e) = absurd e

two_sessions-IsOpen : IsOpen two_sessions (client ∷ [])
two_sessions-IsOpen = record {
  agree = two_sessions_IsServer;
  live = λ fd a h. elim (Bool-cases (a == 0)) [ inl t ↦ rw t refl | inr f ↦ rw f refl ];
  new = not_held;
  different = ((λ e. e), tt);
  bound = (refl, tt);
  numbers = omega arith;
}

ep_round-IsOpen_example :
    (s : Game × List Arrival) × (ep_round 3 1000
        (λ fd. came (1 ∷ []))
        (3 ∷ 5 ∷ 9 ∷ [])
        (two_sessions, client ∷ [])
      ≡ ok s)
    × IsOpen s.0 s.1
ep_round-IsOpen_example =
    ep_round-IsOpen 3 1000 (λ fd. came (1 ∷ [])) (3 ∷ 5 ∷ 9 ∷ []) two_sessions (client ∷ [])
      two_sessions-IsOpen

-- Another client, and a datagram of one byte.
abbrev other_client : Arrival
other_client = record { bytes = codes "123456789012345678901234"; clifd = 8; bound = true }

abbrev one_byte : Arrival
one_byte = record { bytes = 1 ∷ []; clifd = 9; bound = true }

accept_conn_stops_example :
    (g' : Game) × (accept_conn 1000 ((client ∷ []) ++ (one_byte ∷ (other_client ∷ []))) two_sessions
      ≡ ok (g', other_client ∷ []))
    × HaveSessions (client ∷ []) 2 g'
    × (g'.kcp.sess_id ≡ 2 + length (client ∷ []))
    × ((fd : ℕ)
        → (IsIn fd (clifds (client ∷ [])) → ⊥)
        → lookup fd g'.kcp.map_conn ≡ lookup fd two_sessions.kcp.map_conn)
    × ((id : ℕ) → id < 3 → raw_get_conn g' id ≡ raw_get_conn two_sessions id)
    × IsServer g'.kcp
accept_conn_stops_example =
    accept_conn_stops 1000 (client ∷ []) one_byte (other_client ∷ []) two_sessions
      two_sessions-IsOpen ((refl, refl, refl), tt) (refl, refl)

raw_close_conn-gone_example :
    IsServer (raw_close_conn 1 two_sessions).kcp
    × ((j : ℕ)
        → raw_get_conn (raw_close_conn 1 two_sessions) j
          ≡ (if 1 == j then none else raw_get_conn two_sessions j))
raw_close_conn-gone_example = raw_close_conn-gone 1 two_sessions two_sessions_IsServer

set_sessid_again_example : set_sessid 0 1 77 two_sessions ≡ abort
set_sessid_again_example = set_sessid_again 0 1 77 two_sessions two_sessions_IsServer refl (λ e. cc)

set_sessid_moves_example :
    (g' : Game) × (set_sessid 0 2 77 two_sessions ≡ ok (g', 1))
    × IsServer g'.kcp
    × ((j : ℕ)
        → raw_get_conn g' j ≡ (
            if 1 == 0
            then raw_get_conn two_sessions j
            else (if 1 == j then none else raw_get_conn two_sessions j)))
    × ((conn g' 1).bind ≡ true)
    × ((player g' 0).sessid ≡ 2)
    × ((player g' 0).pid ≡ 77)
    × ((player g' 0).off ≡ false)
unfolding raw_get_conn lookup
set_sessid_moves_example =
    set_sessid_moves 0 2 77 1 two_sessions two_sessions_IsServer (λ e. cc) refl
