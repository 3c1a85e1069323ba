-- ===== src/Conn/Receive.antt =====
-- connNetObj::parseBuff with resetBuffer: which messages are delivered, and what is kept.
use kcpserver_cpp.Common.{
  ltb_of_lt, ltb_of_le, leb_of_lt, ℕ, zero, suc, ◌+◌, ◌-◌, ◌≤◌, ◌<◌, ◌≡◌, ◌⊎◌, inl, inr, refl, sym,
  ap, ◌∙◌, Bool, true, false, List, [], ◌∷◌, ◌++◌, ◌==◌, ltb, if◌then◌else◌, arith, Bytes, le_bytes,
  le_value, le_value4-le_bytes, length, take, drop, is_empty, length-append, take-length_append,
  drop-length_append, drop-drop, append_assoc, ok, ◌>>=◌,
}
use kcpserver_cpp.Conn.{
  Conn, Event, msg2gate, msg2game, qps, max_message, deal_msg, and_then, net_loop, parse_buff,
  reset_buffer,
}
use kcpserver_cpp.Conn.Leftover.{stop, kept_of, stop_leaves}

-- What a client sends: the size of the body, the number of the message, and the body.
pub record Message : Type 0 where
  pub msgid : ℕ
  pub body : Bytes

abbrev pub bytes_of : Message → Bytes
bytes_of m = le_bytes 4 (length m.body) ++ (le_bytes 4 m.msgid ++ m.body)

abbrev pub stream : List Message → Bytes
stream [] = []
stream (m ∷ ms) = bytes_of m ++ stream ms

-- The size is below the limit, and the number is one that the server accepts.
abbrev pub IsMessage : Message → Type 0
IsMessage m =
    (length m.body < max_message) × ((m.msgid < 1999) ⊎ ((2000 ≤ m.msgid) × (m.msgid < 2999)))

abbrev pub AreMessages : List Message → Type 0
AreMessages [] = Unit {0}
AreMessages (m ∷ ms) = IsMessage m × AreMessages ms

-- Where a message goes: numbers below 1999 to the gate, the others to the game server.
abbrev pub delivered : ℕ → Message → Event
delivered pid m =
    if ltb m.msgid 1999 then msg2gate pid m.msgid m.body else msg2game pid m.msgid m.body

abbrev pub deliveries : Bool → ℕ → List Message → List Event
deliveries net pid [] = []
deliveries net pid (m ∷ ms) =
    ((if net then qps 4 (length m.body + 8) ∷ [] else []) ++ (delivered pid m ∷ []))
    ++ deliveries net pid ms

-- The first `k` bytes of `rest` have come, and they are not a message.
abbrev pub IsPartial : ℕ → Bytes → Type 0
IsPartial k rest = (k < 8) ⊎ ((8 ≤ k) × (k - 8 < le_value 4 rest))

deal_msg_delivers :
    (pid : ℕ) (m : Message) → IsMessage m → deal_msg pid m.msgid m.body ≡ ok (delivered pid m)
unfolding deal_msg
deal_msg_delivers pid m (h, n) = ground arith

length-bytes_of : (m : Message) → length (bytes_of m) ≡ 8 + length m.body
length-bytes_of m = omega arith

read_head :
    (mem rest : Bytes) (off : ℕ) (m : Message)
    → drop off mem ≡ bytes_of m ++ rest
    → IsMessage m
    → (le_value 4 (drop off mem) ≡ length m.body)
      × (le_value 4 (drop (off + 4) mem) ≡ m.msgid)
      × (take (length m.body) (drop (off + 8) mem) ≡ m.body)
read_head mem rest off m e (h, n) =
    let size : le_value 4 (bytes_of m ++ rest) ≡ length m.body =
      le_value4-le_bytes (length m.body) ((le_bytes 4 m.msgid ++ m.body) ++ rest) (omega arith) in
    let msgid : le_value 4 (le_bytes 4 m.msgid ++ (m.body ++ rest)) ≡ m.msgid =
      le_value4-le_bytes m.msgid (m.body ++ rest)
        (elim n [ inl a ↦ omega arith | inr b ↦ omega (arith, b.1) ]) in
    (
      rw e size,
      rw (sym (drop-drop 4 off mem), e) msgid,
      rw (sym (drop-drop 8 off mem), e) (take-length_append m.body rest),
    )

-- The connection behind some messages.
abbrev pub behind : ℕ → Conn → Conn
behind n c = record c { read_offset = c.read_offset + n }

one_message :
    (net : Bool) (fuel : ℕ) (c : Conn) (m : Message) (rest : Bytes)
    → drop c.read_offset c.net_buffer ≡ bytes_of m ++ rest
    → IsMessage m
    → c.read_offset + length (bytes_of m) ≤ c.net_offset
    → net_loop net (suc fuel) c ≡ (
        net_loop net fuel (behind (length (bytes_of m)) c) >>= λ r. ok (
          and_then
            ((if net then qps 4 (length m.body + 8) ∷ [] else []) ++ (delivered c.pid m ∷ []))
            r))
unfolding net_loop
one_message net fuel c m rest e i h =
    let (size, msgid, body) = read_head c.net_buffer rest c.read_offset m e i in
    let len = length-bytes_of m in
    let next : c.read_offset + length m.body + 8 ≡ c.read_offset + length (bytes_of m) =
      omega (arith, len) in
    rw (
      size,
      msgid,
      body,
      deal_msg_delivers c.pid m i,
      ltb_of_le (c.net_offset - c.read_offset) 8 (omega (arith, len)),
      ltb_of_le (c.net_offset - c.read_offset - 8) (length m.body) (omega (arith, len)),
      leb_of_lt max_message (length m.body) i.0,
      next,
    )

net_loop_stops :
    (net : Bool) (fuel k : ℕ) (c : Conn) (rest : Bytes)
    → drop c.read_offset c.net_buffer ≡ rest
    → IsPartial k rest
    → c.net_offset ≡ c.read_offset + k
    → net_loop net (suc fuel) c ≡ ok (stop 8 k c, [])
unfolding net_loop
net_loop_stops net fuel k c rest e (inl h) n =
    let left : c.net_offset - c.read_offset ≡ k = omega arith in rw (left, ltb_of_lt k 8 h)
net_loop_stops net fuel k c rest e (inr (h, l)) n =
    let left : c.net_offset - c.read_offset ≡ k = omega arith in
    rw (left, ltb_of_le k 8 h, e, ltb_of_lt (k - 8) (le_value 4 rest) l)

net_loop_delivers :
    (net : Bool) (ms : List Message) (fuel k : ℕ) (c : Conn) (rest : Bytes)
    → drop c.read_offset c.net_buffer ≡ stream ms ++ rest
    → AreMessages ms
    → IsPartial k rest
    → c.net_offset ≡ c.read_offset + (length (stream ms) + k)
    → length ms < fuel
    → net_loop net fuel c ≡ ok (stop 8 k (behind (length (stream ms)) c), deliveries net c.pid ms)
net_loop_delivers net ms zero k c rest e i p n f = absurd (omega arith)
net_loop_delivers net [] (suc fuel) k c rest e i p n f =
    let same : behind 0 c ≡ c = ground arith in
    rw same (net_loop_stops net fuel k c rest e p (omega arith))
net_loop_delivers net (m ∷ ms) (suc fuel) k c rest e i p n f =
    let len = length-append (bytes_of m) (stream ms) in
    let e₁ : drop c.read_offset c.net_buffer ≡ bytes_of m ++ (stream ms ++ rest) =
      e ∙ append_assoc (bytes_of m) (stream ms) rest in
    let e₂ : drop (c.read_offset + length (bytes_of m)) c.net_buffer ≡ stream ms ++ rest =
      sym (drop-drop (length (bytes_of m)) c.read_offset c.net_buffer)
      ∙ (ap (drop (length (bytes_of m))) e₁
          ∙ drop-length_append (bytes_of m) (stream ms ++ rest)) in
    let at : c.read_offset + length (stream (m ∷ ms))
        ≡ c.read_offset + length (bytes_of m) + length (stream ms) =
      omega (arith, len) in
    one_message net fuel c m (stream ms ++ rest) e₁ i.0 (omega (arith, len))
    ∙ rw
        (net_loop_delivers net ms fuel k (behind (length (bytes_of m)) c) rest e₂ i.1 p
          (omega (arith, len)) (omega arith))
        (ap (λ (x : ℕ). ok (stop 8 k (record c { read_offset = x }), deliveries net c.pid (m ∷ ms)))
          (sym at))

-- How many of the `k` bytes behind the messages `ms` are kept.
abbrev pub kept : List Message → ℕ → ℕ
kept ms k = kept_of 8 (is_empty ms) k

-- Behind at least one message, the bytes are as far from the start as its head is long.
behind_head :
    (ms : List Message)
    → (is_empty ms ≡ true → length (stream ms) ≡ 0) × (is_empty ms ≡ false → 8 ≤ length (stream ms))
behind_head [] = (λ _. refl, λ e. cc)
behind_head (m ∷ ms) =
    (λ e. cc, λ _. omega (arith, length-append (bytes_of m) (stream ms), length-bytes_of m))

length-stream : (ms : List Message) → length ms ≤ length (stream ms)
length-stream [] = omega arith
length-stream (m ∷ ms) = omega (arith, length-append (bytes_of m) (stream ms), length-stream ms)

-- If the buffer of a client's connection is not empty and holds messages with sizes below the
-- limit and accepted numbers (below 1999, or from 2000 to 2998), one after another, and behind
-- them the first k bytes of one that has not come completely, then parseBuff returns, having
-- delivered exactly those messages, each once, in their order, to the gate or the game server; and
-- after resetBuffer the k bytes stand at the start of the buffer, unless there was a message and k
-- is less than 8, when they are lost and the buffer is empty.
pub parse_buff_delivers :
    (net : Bool) (now k : ℕ) (ms : List Message) (rest : Bytes) (c : Conn)
    → c.net_buffer ≡ stream ms ++ rest
    → AreMessages ms
    → IsPartial k rest
    → k ≤ length rest
    → c.net_offset ≡ length (stream ms) + k
    → 0 < c.net_offset
    → (c' : Conn) × (parse_buff false net now c ≡ ok (true, c', deliveries net c.pid ms))
      × ((reset_buffer c').net_offset ≡ kept ms k)
      × (take (kept ms k) (reset_buffer c').net_buffer ≡ take (kept ms k) rest)
unfolding parse_buff
parse_buff_delivers net now k ms rest c b i p h n some_left =
    let c₀ = record c { last_sec = now; read_offset = 0 } in
    let len = length (stream ms) in
    let c₁ = behind len c₀ in
    let run : net_loop net (suc c.net_offset) c₀ ≡ ok (stop 8 k c₁, deliveries net c.pid ms) =
      net_loop_delivers net ms (suc c.net_offset) k c₀ rest b i p (omega arith)
        (omega (arith, length-stream ms)) in
    let there : c.net_offset == 0 ≡ false = ground arith in
    let at : 0 + len ≡ len = omega arith in
    let tail : drop (0 + len) c.net_buffer ≡ rest =
      rw (at, b) (drop-length_append (stream ms) rest) in
    let (size, bytes) =
      stop_leaves 8 (is_empty ms) k c₁ (λ e. omega (arith, (behind_head ms).0 e))
        (λ e. omega (arith, (behind_head ms).1 e)) (omega arith) some_left (omega arith)
        (rw tail h) in
    (stop 8 k c₁, rw (there, run), size, bytes ∙ ap (take (kept ms k)) tail)
