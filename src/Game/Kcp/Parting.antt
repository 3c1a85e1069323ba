-- ===== src/Game/Kcp/Parting.antt =====
-- kcpsess/sessServer.cpp: what closing a session puts into the trace, and that it takes no player.
use kcpserver_cpp.Common.{
  ℕ, ◌≡◌, refl, sym, ap, ◌∙◌, inl, inr, List, [], ◌∷◌, ◌++◌, append_assoc, append-nil, lookup,
  Option-cases,
}
use kcpserver_cpp.Game.State.{Game, Out, close_fd, emit}
use kcpserver_cpp.Game.Kcp.{
  close, push_udp_conn, drop_conn, del_conn, raw_get_conn, close_conn, conn,
}

-- Closing sockets is all that is put into the trace.
abbrev pub AreCloses : List Out → Type 0
AreCloses [] = Unit {0}
AreCloses (o ∷ outs) = ((fd : ℕ) × (o ≡ close_fd fd)) × AreCloses outs

AreCloses-append : (xs ys : List Out) → AreCloses xs → AreCloses ys → AreCloses (xs ++ ys)
AreCloses-append [] ys p q = q
AreCloses-append (x ∷ xs) ys (h, p) q = (h, AreCloses-append xs ys p q)

abbrev pub OnlyCloses : Game → Game → Type 0
OnlyCloses g g' = (outs : List Out) × AreCloses outs × (g'.trace ≡ g.trace ++ outs)

pub OnlyCloses-same : (g g' : Game) → g'.trace ≡ g.trace → OnlyCloses g g'
OnlyCloses-same g g' e = ([], tt, e ∙ sym (append-nil g.trace))

pub OnlyCloses-trans : (g h k : Game) → OnlyCloses g h → OnlyCloses h k → OnlyCloses g k
OnlyCloses-trans g h k (xs, p, e) (ys, q, f) = (
  xs ++ ys,
  AreCloses-append xs ys p q,
  f ∙ (ap (λ (t : List Out). t ++ ys) e ∙ append_assoc g.trace xs ys),
)

drop_conn-OnlyCloses : (fd a : ℕ) (g : Game) → OnlyCloses g (drop_conn fd a g)
unfolding drop_conn close push_udp_conn emit
drop_conn-OnlyCloses fd a g = (close_fd (conn g a).fd ∷ [], ((_, refl), tt), refl)

del_conn-OnlyCloses : (fd : ℕ) (g : Game) → OnlyCloses g (del_conn fd g)
unfolding del_conn
del_conn-OnlyCloses fd g = elim (Option-cases (lookup fd g.kcp.map_conn)) [
  | inl e ↦ rw (e, del_conn) (OnlyCloses-same g g refl)
  | inr (a, e) ↦ rw (e, del_conn) (drop_conn-OnlyCloses fd a g)
]

pub close_conn-OnlyCloses : (id : ℕ) (g : Game) → OnlyCloses g (close_conn id g)
unfolding close_conn
close_conn-OnlyCloses id g = elim (Option-cases (raw_get_conn g id)) [
  | inl e ↦ rw (e, close_conn) (OnlyCloses-same g g refl)
  | inr (a, e) ↦ rw (e, close_conn) (del_conn-OnlyCloses (conn g a).fd g)
]

drop_conn-players : (fd a : ℕ) (g : Game) → (drop_conn fd a g).players ≡ g.players
unfolding drop_conn close push_udp_conn emit
drop_conn-players fd a g = refl

del_conn-players : (fd : ℕ) (g : Game) → (del_conn fd g).players ≡ g.players
unfolding del_conn
del_conn-players fd g = elim (Option-cases (lookup fd g.kcp.map_conn)) [
  | inl e ↦ rw (e, del_conn)
  | inr (a, e) ↦ rw (e, del_conn) (drop_conn-players fd a g)
]

pub close_conn-players : (id : ℕ) (g : Game) → (close_conn id g).players ≡ g.players
unfolding close_conn
close_conn-players id g = elim (Option-cases (raw_get_conn g id)) [
  | inl e ↦ rw (e, close_conn)
  | inr (a, e) ↦ rw (e, close_conn) (del_conn-players (conn g a).fd g)
]
