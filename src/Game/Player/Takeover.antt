-- ===== src/Game/Player/Takeover.antt =====
-- playerObj::setSessid: a session of the KCP server takes a player over.
use kcpserver_cpp.Common.{
  neq_false, eq_same, ℕ, ◌≡◌, ◌≢◌, inl, inr, refl, ◌∙◌, Bool, true, false, none, some, ◌==◌,
  if◌then◌else◌, arith, ok, abort, Bool-cases,
}
use kcpserver_cpp.Game.State.{Game}
use kcpserver_cpp.Game.Kcp.{raw_get_conn, raw_close_conn}
use kcpserver_cpp.Game.Kcp.Sessions.{
  conn, IsServer, raw_close_conn-gone, bound, bind_conn-none, bind_conn-some, bound-IsServer,
  raw_get_conn_map,
}
use kcpserver_cpp.Game.Player.{player, set_player, set_sessid}

-- The server once the old session of the player is closed.
abbrev closed : ℕ → Game → Game
closed old g = if old == 0 then g else raw_close_conn old g

closed_lem :
    (old : ℕ) (g : Game)
    → IsServer g.kcp
    → IsServer (closed old g).kcp
      × ((id : ℕ)
          → raw_get_conn (closed old g) id ≡ (
              if old == 0
              then raw_get_conn g id
              else (if old == id then none else raw_get_conn g id)))
closed_lem old g w = elim (Bool-cases (old == 0)) [
  | inl t ↦ rw t (w, λ id. refl)
  | inr f ↦ rw f (raw_close_conn-gone old g w)
]

-- What setSessid has done before it binds the new session.
abbrev renamed : ℕ → ℕ → ℕ → Game → Game
renamed p id pid g = set_player p (record (player g p) { sessid = id; pid = pid }) g

if_same {ℓ} : {A : Type ℓ} (b : Bool) (x : A) → (if b then x else x) ≡ x
if_same true x = refl
if_same false x = refl

set_sessid-none :
    (p id pid : ℕ) (g : Game)
    → raw_get_conn (closed (player g p).sessid g) id ≡ none
    → set_sessid p id pid g ≡ abort
unfolding set_sessid
set_sessid-none p id pid g e =
    let g₁ = closed (player g p).sessid g in
    rw (
      bind_conn-none id (renamed p id pid g₁)
          (raw_get_conn_map (renamed p id pid g₁) g₁ id refl ∙ e),
      set_sessid,
    )

-- If the maps of the KCP server agree, setSessid with the session that the player already has, not
-- 0, fails its assertion: it closes that session first, and then asks for it.
pub set_sessid_again :
    (p id pid : ℕ) (g : Game)
    → IsServer g.kcp
    → (player g p).sessid ≡ id
    → id ≢ 0
    → set_sessid p id pid g ≡ abort
set_sessid_again p id pid g w e n =
    set_sessid-none p id pid g
      ((closed_lem (player g p).sessid g w).1 id ∙ rw (e, neq_false id 0 n, eq_same id))

set_sessid-some :
    (p id pid c : ℕ) (g : Game)
    → raw_get_conn (closed (player g p).sessid g) id ≡ some c
    → let g₃ = bound c (renamed p id pid (closed (player g p).sessid g)) in
      set_sessid p id pid g ≡ ok (set_player p (record (player g₃ p) { off = false }) g₃, c)
unfolding set_sessid
set_sessid-some p id pid c g e =
    let g₁ = closed (player g p).sessid g in
    let b =
      bind_conn-some id c (renamed p id pid g₁)
        (raw_get_conn_map (renamed p id pid g₁) g₁ id refl ∙ e) in
    rw (b, set_sessid, b)

-- If the maps of the KCP server agree, and the new session is there and is not the one that the
-- player has, then setSessid returns the new session's object, which is bound; the maps agree
-- again; the player's old session, if it had one, is not found any more, and every other session
-- is found as before; the player has the number of the new session and the given pid, and is not
-- off.
pub set_sessid_moves :
    (p id pid c : ℕ) (g : Game)
    → IsServer g.kcp
    → (player g p).sessid ≢ id
    → raw_get_conn g id ≡ some c
    → (g' : Game) × (set_sessid p id pid g ≡ ok (g', c))
      × IsServer g'.kcp
      × ((j : ℕ)
          → raw_get_conn g' j ≡ (
              if (player g p).sessid == 0
              then raw_get_conn g j
              else (if (player g p).sessid == j then none else raw_get_conn g j)))
      × ((conn g' c).bind ≡ true)
      × ((player g' p).sessid ≡ id)
      × ((player g' p).pid ≡ pid)
      × ((player g' p).off ≡ false)
set_sessid_moves p id pid c g w n e =
    let old = (player g p).sessid in
    let (w₁, find) = closed_lem old g w in
    let there : raw_get_conn (closed old g) id ≡ some c =
      find id ∙ rw (neq_false old id n, if_same (old == 0) (raw_get_conn g id)) e in
    let g₂ = renamed p id pid (closed old g) in
    let g₃ = bound c g₂ in
    let g' = set_player p (record (player g₃ p) { off = false }) g₃ in
    (
      g',
      set_sessid-some p id pid c g there,
      bound-IsServer c g₂ w₁,
      λ j. raw_get_conn_map g' (closed old g) j refl ∙ find j,
      ground arith,
      ground arith,
      ground arith,
      ground arith,
    )
