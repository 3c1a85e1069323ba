-- ===== src/Conn/Calls.antt =====
-- connRpcObj::parseBuff with resetBuffer: which calls of another server are delivered, and what is
-- kept.
use kcpserver_cpp.Common.{
  ltb_of_lt, ltb_of_le, leb_of_lt, ℕ, zero, suc, ◌+◌, ◌-◌, ◌≤◌, ◌<◌, ◌≡◌, ◌⊎◌, inl, inr, refl, sym,
  ap, ◌∙◌, Bool, true, false, List, [], ◌∷◌, ◌++◌, ◌==◌, arith, Bytes, le_value, length, take, drop,
  is_empty, length-append, drop-length_append, drop-drop, append_assoc, ok, ◌>>=◌,
}
use kcpserver_cpp.Wire.{get_rpc_size}
use kcpserver_cpp.Wire.RoundTrip.{IsFrame, decode-encode, length-encode_buffer, le_value-encode}
use kcpserver_cpp.Tcp.Stream.{Call, bytes_of, object_of, stream}
use kcpserver_cpp.Conn.{
  Conn, Event, max_message, deal_rpc_msg, and_then, rpc_loop, parse_buff, reset_buffer,
}
use kcpserver_cpp.Conn.Leftover.{stop, kept_of, stop_leaves}

-- The calls are well formed, and the sizes of their frames are below the limit.
abbrev pub AreTaken : List Call → Type 0
AreTaken [] = Unit {0}
AreTaken (c ∷ cs) =
    (IsFrame c.name c.target c.pid c.msgid c.body
      × (get_rpc_size c.name c.target c.body < max_message))
    × AreTaken cs

-- The first `k` bytes of `rest` have come, and they are not a frame.
abbrev pub IsPartial : ℕ → Bytes → Type 0
IsPartial k rest = (k < 4) ⊎ ((4 ≤ k) × (k - 4 < le_value 4 rest))

-- What the game server is asked to handle: every call but a TakeProxy.
abbrev pub handled : List Call → List Event
handled [] = []
handled (c ∷ cs) = deal_rpc_msg (object_of c) ++ handled cs

abbrev behind : ℕ → Conn → Conn
behind n c = record c { read_offset = c.read_offset + n }

length-bytes_of :
    (c : Call)
    → IsFrame c.name c.target c.pid c.msgid c.body
    → length (bytes_of c) ≡ get_rpc_size c.name c.target c.body + 4
length-bytes_of c f = length-encode_buffer c.name c.target c.pid c.msgid c.body f

one_call :
    (fuel : ℕ) (c : Conn) (x : Call) (rest : Bytes)
    → drop c.read_offset c.net_buffer ≡ bytes_of x ++ rest
    → IsFrame x.name x.target x.pid x.msgid x.body
    → get_rpc_size x.name x.target x.body < max_message
    → c.read_offset + length (bytes_of x) ≤ c.net_offset
    → rpc_loop (suc fuel) c ≡ (
        rpc_loop fuel (behind (length (bytes_of x)) c) >>= λ r.
        ok (and_then (deal_rpc_msg (object_of x)) r))
unfolding rpc_loop
one_call fuel c x rest e f small h =
    let n = get_rpc_size x.name x.target x.body in
    let len = length-bytes_of x f in
    let next : c.read_offset + n + 4 ≡ c.read_offset + length (bytes_of x) = omega (arith, len) in
    rw (
      e,
      le_value-encode x.name x.target x.pid x.msgid x.body rest,
      ltb_of_le (c.net_offset - c.read_offset) 4 (omega (arith, len)),
      ltb_of_le (c.net_offset - c.read_offset - 4) n (omega (arith, len)),
      leb_of_lt max_message n small,
      decode-encode x.name x.target x.pid x.msgid x.body rest f,
      e,
      le_value-encode x.name x.target x.pid x.msgid x.body rest,
      next,
    )

rpc_loop_stops :
    (fuel k : ℕ) (c : Conn) (rest : Bytes)
    → drop c.read_offset c.net_buffer ≡ rest
    → IsPartial k rest
    → c.net_offset ≡ c.read_offset + k
    → rpc_loop (suc fuel) c ≡ ok (stop 4 k c, [])
unfolding rpc_loop
rpc_loop_stops fuel k c rest e (inl h) n =
    let left : c.net_offset - c.read_offset ≡ k = omega arith in rw (left, ltb_of_lt k 4 h)
rpc_loop_stops fuel k c rest e (inr (h, l)) n =
    let left : c.net_offset - c.read_offset ≡ k = omega arith in
    rw (left, ltb_of_le k 4 h, e, ltb_of_lt (k - 4) (le_value 4 rest) l)

rpc_loop_delivers :
    (cs : List Call) (fuel k : ℕ) (c : Conn) (rest : Bytes)
    → drop c.read_offset c.net_buffer ≡ stream cs ++ rest
    → AreTaken cs
    → IsPartial k rest
    → c.net_offset ≡ c.read_offset + (length (stream cs) + k)
    → length cs < fuel
    → rpc_loop fuel c ≡ ok (stop 4 k (behind (length (stream cs)) c), handled cs)
rpc_loop_delivers cs zero k c rest e i p n f = absurd (omega arith)
rpc_loop_delivers [] (suc fuel) k c rest e i p n f =
    let same : behind 0 c ≡ c = ground arith in
    rw same (rpc_loop_stops fuel k c rest e p (omega arith))
rpc_loop_delivers (x ∷ cs) (suc fuel) k c rest e i p n f =
    let len = length-append (bytes_of x) (stream cs) in
    let e₁ : drop c.read_offset c.net_buffer ≡ bytes_of x ++ (stream cs ++ rest) =
      e ∙ append_assoc (bytes_of x) (stream cs) rest in
    let e₂ : drop (c.read_offset + length (bytes_of x)) c.net_buffer ≡ stream cs ++ rest =
      sym (drop-drop (length (bytes_of x)) c.read_offset c.net_buffer)
      ∙ (ap (drop (length (bytes_of x))) e₁
          ∙ drop-length_append (bytes_of x) (stream cs ++ rest)) in
    let at : c.read_offset + length (stream (x ∷ cs))
        ≡ c.read_offset + length (bytes_of x) + length (stream cs) =
      omega (arith, len) in
    one_call fuel c x (stream cs ++ rest) e₁ i.0.0 i.0.1 (omega (arith, len))
    ∙ rw
        (rpc_loop_delivers cs fuel k (behind (length (bytes_of x)) c) rest e₂ i.1 p
          (omega (arith, len)) (omega arith))
        (ap (λ (o : ℕ). ok (stop 4 k (record c { read_offset = o }), handled (x ∷ cs))) (sym at))

-- How many of the `k` bytes behind the calls `cs` are kept.
abbrev pub kept : List Call → ℕ → ℕ
kept cs k = kept_of 4 (is_empty cs) k

length-stream : (cs : List Call) → AreTaken cs → length cs ≤ length (stream cs)
length-stream [] i = omega arith
length-stream (x ∷ cs) i =
    omega
      (arith, length-append (bytes_of x) (stream cs), length-stream cs i.1, length-bytes_of x i.0.0)

behind_head :
    (cs : List Call)
    → AreTaken cs
    → (is_empty cs ≡ true → length (stream cs) ≡ 0) × (is_empty cs ≡ false → 4 ≤ length (stream cs))
behind_head [] i = (λ _. refl, λ e. cc)
behind_head (x ∷ cs) i =
    (λ e. cc, λ _. omega (arith, length-append (bytes_of x) (stream cs), length-bytes_of x i.0.0))

-- If the buffer of another server's connection is not empty and holds the frames of calls whose
-- texts are shorter than 256 bytes, whose numbers fit their fields and whose sizes are below the
-- limit, one after another, and behind them the first k bytes of one that has not come completely,
-- then parseBuff returns, having handed exactly those calls, each once, in their order, to the
-- game server, except the calls of TakeProxy; and after resetBuffer the k bytes stand at the start
-- of the buffer, unless there was a call and k is less than 4, when they are lost and the buffer is
-- empty.
pub parse_buff_calls :
    (net : Bool) (now k : ℕ) (cs : List Call) (rest : Bytes) (c : Conn)
    → c.net_buffer ≡ stream cs ++ rest
    → AreTaken cs
    → IsPartial k rest
    → k ≤ length rest
    → c.net_offset ≡ length (stream cs) + k
    → 0 < c.net_offset
    → (c' : Conn) × (parse_buff true net now c ≡ ok (true, c', handled cs))
      × ((reset_buffer c').net_offset ≡ kept cs k)
      × (take (kept cs k) (reset_buffer c').net_buffer ≡ take (kept cs k) rest)
unfolding parse_buff
parse_buff_calls net now k cs rest c b i p h n some_left =
    let c₀ = record c { last_sec = now; read_offset = 0 } in
    let len = length (stream cs) in
    let c₁ = behind len c₀ in
    let run : rpc_loop (suc c.net_offset) c₀ ≡ ok (stop 4 k c₁, handled cs) =
      rpc_loop_delivers cs (suc c.net_offset) k c₀ rest b i p (omega arith)
        (omega (arith, length-stream cs i)) in
    let there : c.net_offset == 0 ≡ false = ground arith in
    let tail : drop (0 + len) c.net_buffer ≡ rest =
      let at : 0 + len ≡ len = omega arith in rw (at, b) (drop-length_append (stream cs) rest) in
    let (size, bytes) =
      stop_leaves 4 (is_empty cs) k c₁ (λ e. omega (arith, (behind_head cs i).0 e))
        (λ e. omega (arith, (behind_head cs i).1 e)) (omega arith) some_left (omega arith)
        (rw tail h) in
    (stop 4 k c₁, rw (there, run), size, bytes ∙ ap (take (kept cs k)) tail)
