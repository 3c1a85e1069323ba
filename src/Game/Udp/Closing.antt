-- ===== src/Game/Udp/Closing.antt =====
-- kcpsess/sessServer.cpp: what KCPServer::Destroy closes.
use kcpserver_cpp.Common.{
  ℕ, ◌≡◌, inl, inr, refl, sym, ◌∙◌, List, [], ◌∷◌, ◌++◌, Map, ◌==◌, append_assoc, append-nil,
  Bool-cases, eq_of_==,
}
use kcpserver_cpp.Game.State.{Game, Out, close_fd, emit}
use kcpserver_cpp.Game.Kcp.{close}
use kcpserver_cpp.Game.Session.{conn}
use kcpserver_cpp.Game.Udp.{close_all, destroy}

close-trace : (a : ℕ) (g : Game) → (close a g).trace ≡ g.trace ++ (close_fd (conn g a).fd ∷ [])
unfolding close emit
close-trace a g = refl

-- The descriptors of the sessions in the map, closed one after another.
abbrev pub closes : Game → Map ℕ → List Out
closes g [] = []
closes g ((fd, a) ∷ rest) = close_fd (conn g a).fd ∷ closes g rest

close-fd : (a b : ℕ) (g : Game) → (conn (close a g) b).fd ≡ (conn g b).fd
unfolding close emit
close-fd a b g = elim (Bool-cases (a == b)) [
  | inl t ↦ let same = eq_of_== a b t in rw (t, same) refl
  | inr f ↦ rw f refl
]

close-closes : (a : ℕ) (g : Game) (m : Map ℕ) → closes (close a g) m ≡ closes g m
close-closes a g [] = refl
close-closes a g ((fd, b) ∷ rest) = rw (close-fd a b g, close-closes a g rest) refl

close_all-trace : (m : Map ℕ) (g : Game) → (close_all m g).trace ≡ g.trace ++ closes g m
unfolding close_all
close_all-trace [] g = sym (append-nil g.trace)
close_all-trace ((fd, a) ∷ rest) g =
    let first : (close a g).trace ≡ g.trace ++ (close_fd (conn g a).fd ∷ []) = close-trace a g in
    close_all-trace rest (close a g)
    ∙ rw (close-closes a g rest, first)
        (append_assoc g.trace (close_fd (conn g a).fd ∷ []) (closes g rest))

pub destroy-trace :
    (serv_fd epoll_fd : ℕ) (g : Game)
    → (destroy serv_fd epoll_fd g).trace
      ≡ g.trace ++ (closes g g.kcp.map_conn ++ (close_fd serv_fd ∷ close_fd epoll_fd ∷ []))
unfolding destroy emit
destroy-trace serv_fd epoll_fd g =
    let m = g.kcp.map_conn in
    rw (close_all-trace m g) (
      append_assoc (g.trace ++ closes g m) (close_fd serv_fd ∷ []) (close_fd epoll_fd ∷ [])
      ∙ append_assoc g.trace (closes g m) (close_fd serv_fd ∷ close_fd epoll_fd ∷ []))
