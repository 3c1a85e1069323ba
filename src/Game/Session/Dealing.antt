-- ===== src/Game/Session/Dealing.antt =====
-- UDPConn::OnDealMsg: how the head is read, what its end does, and what leaves the cache alone.
use kcpserver_cpp.Common.{
  Bool, u32, false, ltb_of_le, ℕ, ◌+◌, ◌*◌, ◌/◌, ◌%◌, ◌^◌, ◌≤◌, ◌<◌, ◌≡◌, refl, ap, ◌∙◌, true, some,
  ◌++◌, ◌==◌, arith, Bytes, le_bytes, le_value, ltb, if◌then◌else◌, length, drop,
  take-length_append, append_assoc, length-append, ◌-◌, lookup, ok, abort, ◌>>=◌,
}
use kcpserver_cpp.Game.State.{UdpConn, KcpServer, Game, Proto, RoomMgr, Out, qps, emit}
use kcpserver_cpp.Game.Room.Keeping.{frame_cmd-kcp}
use kcpserver_cpp.Game.Kcp.Sessions.{store_same}
use kcpserver_cpp.Game.Rpc.{process_kcp}
use kcpserver_cpp.Game.Room.{frame_cmd}
use kcpserver_cpp.Game.Room.Manager.{get_room}
use kcpserver_cpp.Game.Session.{
  conn, set_conn, cache_size, put_cache, shift_cache, deal_bytes, on_deal_msg,
}

-- What a client sends in one piece: the head and the body.
abbrev pub client_message : ℕ → ℕ → ℕ → Bytes → Bytes
client_message msgid pid roomid body =
    le_bytes 4 (length body)
    ++ (le_bytes 4 msgid ++ (le_bytes 4 pid ++ (le_bytes 4 roomid ++ body)))

ppid_lem :
    (pid roomid : ℕ) (rest : Bytes)
    → pid < 2 ^ 32
    → roomid < 2 ^ 32
    → le_value 8 (le_bytes 4 pid ++ (le_bytes 4 roomid ++ rest)) ≡ pid + 2 ^ 32 * roomid
ppid_lem pid roomid rest p r = omega arith

-- Where the cache is empty, what was received stands at its start.
pub deal_bytes_head :
    (proto : Proto) (a msgid pid roomid : ℕ) (body extra : Bytes) (g : Game)
    → (conn g a).offset ≡ 0
    → msgid < 2 ^ 32
    → pid < 2 ^ 32
    → roomid < 2 ^ 32
    → let recv = client_message msgid pid roomid body ++ extra in
      length recv ≤ cache_size
      → deal_bytes proto a recv g ≡ (
          process_kcp proto msgid body pid (conn g a).id roomid (put_cache a recv g) >>= λ g₂.
          shift_cache a (length recv) (length body) (emit (qps 4 (length body)) g₂) >>= λ g₃.
          ok (g₃, 0))
unfolding deal_bytes
deal_bytes_head proto a msgid pid roomid body extra g off hm hp hr fits =
    let recv = client_message msgid pid roomid body ++ extra in
    let cache = (conn g a).cache in
    let rest = drop (0 + length recv) cache in
    let behind = append_assoc body extra rest in
    let size : length recv ≡ 16 + length (body ++ extra) = omega arith in
    let sizes = length-append body extra in
    let ppid = ppid_lem pid roomid ((body ++ extra) ++ rest) hp hr in
    let low : (pid + 2 ^ 32 * roomid) % 2 ^ 32 ≡ pid = omega arith in
    let high : (pid + 2 ^ 32 * roomid) / 2 ^ 32 ≡ roomid = omega arith in
    let number : le_value 4 (le_bytes 4 (length body)) ≡ length body = omega arith in
    let msg : le_value 4 (le_bytes 4 msgid) ≡ msgid = omega arith in
    rw
      (
        off,
        number,
        msg,
        ppid,
        low,
        high,
        behind,
        take-length_append body (extra ++ rest),
        ltb_of_le (cache_size - 0) (length recv) (omega arith),
        ltb_of_le (length recv) (length body) (omega arith),
      )
      refl

pub get_room_same : (g h : Game) (id : ℕ) → g.rooms ≡ h.rooms → get_room g id ≡ get_room h id
unfolding get_room
get_room_same g h id e = ap (λ (x : RoomMgr). lookup id x.id_map) e

pub emit-rooms : (o : Out) (g : Game) → (emit o g).rooms ≡ g.rooms
unfolding emit
emit-rooms o g = refl

passes :
    (b c : Bool) (x : Game)
    → b ≡ false
    → c ≡ true
    → (y : Game) × ((if b then abort else (if c then ok x else abort)) ≡ ok y) × (y.rooms ≡ x.rooms)
passes false true x p q = (x, refl, refl)
passes true c x p q = cc
passes false false x p q = cc

-- The end of OnDealMsg where nothing stands behind the message, and where something does.
pub shift_done :
    (a nread bodylen : ℕ) (g : Game)
    → (conn g a).offset ≡ 0
    → nread ≡ 16 + bodylen
    → nread < 2 ^ 32
    → (g' : Game) × (shift_cache a nread bodylen g ≡ ok g') × (g'.rooms ≡ g.rooms)
unfolding shift_cache
shift_done a nread bodylen g off size small =
    let len : u32 (16 + bodylen) ≡ nread = omega arith in
    let enough : ltb nread (u32 (16 + bodylen)) ≡ false =
      rw len (ltb_of_le nread nread (omega arith)) in
    let none_left : nread - nread ≡ 0 = omega arith in
    let empty : (u32 ((conn g a).offset + (nread - u32 (16 + bodylen))) == 0) ≡ true =
      rw (off, len, none_left) refl in
    passes _ _ _ enough empty

pub shift_more :
    (a nread bodylen : ℕ) (g : Game)
    → (conn g a).offset ≡ 0
    → 16 + bodylen < nread
    → nread < 2 ^ 32
    → shift_cache a nread bodylen g ≡ abort
unfolding shift_cache
shift_more a nread bodylen g off more small =
    let len : u32 (16 + bodylen) ≡ 16 + bodylen = omega arith in
    let left : (u32 (0 + (nread - (16 + bodylen))) == 0) ≡ false = ground arith in
    rw (off, len, ltb_of_le nread (16 + bodylen) (omega arith), left) refl

-- A command on its way leaves the offset of the session alone.
pub offset_kept :
    (proto : Proto) (a r pid sz : ℕ) (recv body : Bytes) (g : Game)
    → (conn (emit (qps 4 sz) (frame_cmd proto r pid body (put_cache a recv g))) a).offset
      ≡ (conn g a).offset
unfolding emit
offset_kept proto a r pid sz recv body g =
    ap (λ (s : KcpServer). (s.conns.cell a).offset)
      (frame_cmd-kcp proto r pid body (put_cache a recv g))
    ∙ ap (λ (c : UdpConn). c.offset) (store_same g.kcp.conns a _)

-- The session once its datagram has been looked at.
abbrev pub noticed : ℕ → Game → Game
noticed a g = set_conn a (record (conn g a) { bread = false }) g

pub noticed_offset : (a : ℕ) (g : Game) → (conn (noticed a g) a).offset ≡ (conn g a).offset
noticed_offset a g =
    ap (λ (c : UdpConn). c.offset) (store_same g.kcp.conns a (record (conn g a) { bread = false }))

pub on_deal_msg_reads :
    (proto : Proto) (a : ℕ) (recv : Bytes) (g : Game)
    → (conn g a).bread ≡ true
    → length recv ≤ cache_size
    → on_deal_msg proto a (some recv) g ≡ deal_bytes proto a recv (noticed a g)
unfolding on_deal_msg
on_deal_msg_reads proto a recv g read fits = rw (read, ltb_of_le cache_size (length recv) fits) refl
