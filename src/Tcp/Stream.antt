-- ===== src/Tcp/Stream.antt =====
-- tcpclient.cpp: dealReadBuffer on a stream of frames.
use kcpserver_cpp.Common.{
  ltb_of_lt, ltb_of_le, ℕ, zero, suc, ◌+◌, ◌-◌, ◌^◌, ◌≤◌, ◌<◌, ◌≡◌, ◌⊎◌, inl, inr, refl, sym, ap,
  ◌∙◌, false, List, [], ◌∷◌, ◌++◌, map, arith, ltb, ◌==◌, Bytes, le_value, length, take, drop,
  length-append, drop-drop, drop-length_append, append_assoc, append-nil, ok, ◌>>=◌, Bool-cases,
}
use kcpserver_cpp.Wire.{RpcObj, encode_buffer, get_rpc_size}
use kcpserver_cpp.Wire.RoundTrip.{
  IsFrame, sent, decode-encode, length-encode_buffer, get_rpc_size_fits, le_value-encode,
}
use kcpserver_cpp.Tcp.{Receiver, next_offset, incomplete, read_loop, deal_read_buffer}

-- What one call of encodeBuffer is given.
pub record Call : Type 0 where
  pub name : Bytes
  pub target : Bytes
  pub pid : ℕ
  pub msgid : ℕ
  pub body : Bytes

abbrev pub bytes_of : Call → Bytes
bytes_of c = encode_buffer c.name c.target c.pid c.msgid c.body

abbrev pub object_of : Call → RpcObj
object_of c = sent c.name c.target c.pid c.msgid c.body

-- The calls are well formed, and their frames fit an `int`.
abbrev pub AreFrames : List Call → Type 0
AreFrames [] = Unit {0}
AreFrames (c ∷ cs) =
    (IsFrame c.name c.target c.pid c.msgid c.body × (length c.body + 1024 < 2 ^ 31)) × AreFrames cs

abbrev pub stream : List Call → Bytes
stream [] = []
stream (c ∷ cs) = bytes_of c ++ stream cs

-- The `k` bytes that have come of `rest` are not yet a frame.
abbrev pub IsPartial : ℕ → Bytes → Type 0
IsPartial k rest = (k < 4) ⊎ ((le_value 4 rest < 2 ^ 31) × (k < 4 + le_value 4 rest))

stop_here :
    (fuel k : ℕ) (mem rest : Bytes) (offset : ℕ)
    → drop offset mem ≡ rest
    → IsPartial k rest
    → read_loop (suc fuel) mem (offset + k) offset ≡ ok (offset, [])
unfolding read_loop incomplete
stop_here fuel k mem rest offset e (inl h) =
    let left : offset + k - offset ≡ k = omega arith in rw (left, ltb_of_lt k 4 h)
stop_here fuel k mem rest offset e (inr h) =
    let left : offset + k - offset ≡ k = omega arith in
    elim (Bool-cases (ltb k 4)) [
      | inl t ↦ rw (left, t)
      | inr t ↦ rw (
        left,
        t,
        e,
        ltb_of_lt (le_value 4 rest) (2 ^ 31) h.0,
        ltb_of_lt k (4 + le_value 4 rest) h.1,
      )
    ]

-- One frame is decoded, and the loop goes on behind it.
one_frame :
    (fuel k : ℕ) (mem rest : Bytes) (offset : ℕ) (c : Call)
    → drop offset mem ≡ bytes_of c ++ rest
    → IsFrame c.name c.target c.pid c.msgid c.body
    → length c.body + 1024 < 2 ^ 31
    → length (bytes_of c) ≤ k
    → read_loop (suc fuel) mem (offset + k) offset ≡ (
        read_loop fuel mem (offset + k) (offset + length (bytes_of c)) >>= λ r.
        ok (r.0, object_of c ∷ r.1))
unfolding read_loop incomplete next_offset
one_frame fuel k mem rest offset c e f h hk =
    let left : offset + k - offset ≡ k = omega arith in
    let n = get_rpc_size c.name c.target c.body in
    let size : length (bytes_of c) ≡ n + 4 =
      length-encode_buffer c.name c.target c.pid c.msgid c.body f in
    let small : n ≡ 27 + length c.target + length c.name + length c.body =
      get_rpc_size_fits c.name c.target c.pid c.msgid c.body f in
    let below : n < 2 ^ 31 = omega (arith, f.target_fits, f.name_fits) in
    let next : offset + 4 + n ≡ offset + length (bytes_of c) = omega arith in
    rw (
      left,
      ltb_of_le k 4 (omega arith),
      e,
      le_value-encode c.name c.target c.pid c.msgid c.body rest,
      ltb_of_lt n (2 ^ 31) below,
      ltb_of_le k (4 + n) (omega arith),
      decode-encode c.name c.target c.pid c.msgid c.body rest f,
      e,
      le_value-encode c.name c.target c.pid c.msgid c.body rest,
      ltb_of_lt n (2 ^ 31) below,
      next,
    )

read_loop_frames :
    (cs : List Call) (fuel k : ℕ) (mem rest : Bytes) (offset : ℕ)
    → drop offset mem ≡ stream cs ++ rest
    → AreFrames cs
    → IsPartial k rest
    → length cs < fuel
    → read_loop fuel mem (offset + (length (stream cs) + k)) offset
      ≡ ok (offset + length (stream cs), map object_of cs)
read_loop_frames cs zero k mem rest offset e f p h = absurd (omega arith)
read_loop_frames [] (suc fuel) k mem rest offset e f p h =
    let at : offset + 0 ≡ offset = omega arith in
    let none_left : 0 + k ≡ k = omega arith in
    rw (at, none_left) (stop_here fuel k mem rest offset e p)
read_loop_frames (c ∷ cs) (suc fuel) k mem rest offset e f p h =
    let len : length (stream (c ∷ cs)) ≡ length (bytes_of c) + length (stream cs) =
      length-append (bytes_of c) (stream cs) in
    let e₁ : drop offset mem ≡ bytes_of c ++ (stream cs ++ rest) =
      e ∙ append_assoc (bytes_of c) (stream cs) rest in
    let e₂ : drop (offset + length (bytes_of c)) mem ≡ stream cs ++ rest =
      sym (drop-drop (length (bytes_of c)) offset mem)
      ∙ (ap (drop (length (bytes_of c))) e₁
          ∙ drop-length_append (bytes_of c) (stream cs ++ rest)) in
    let ih =
      read_loop_frames cs fuel k mem rest (offset + length (bytes_of c)) e₂ f.1 p (omega arith) in
    let first =
      one_frame fuel (length (stream (c ∷ cs)) + k) mem (stream cs ++ rest) offset c e₁ f.0.0 f.0.1
        (omega (arith, len)) in
    let same : offset + (length (stream (c ∷ cs)) + k)
        ≡ offset + length (bytes_of c) + (length (stream cs) + k) =
      omega (arith, len) in
    let same' : offset + length (stream (c ∷ cs))
        ≡ offset + length (bytes_of c) + length (stream cs) =
      omega (arith, len) in
    first ∙ rw (same, same', ih)

length-stream : (cs : List Call) → AreFrames cs → length cs ≤ length (stream cs)
length-stream [] f = omega arith
length-stream (c ∷ cs) f = omega (
  arith,
  length-append (bytes_of c) (stream cs),
  length-stream cs f.1,
  length-encode_buffer c.name c.target c.pid c.msgid c.body f.0.0,
)

-- The receiver once `cs` and the first `k` bytes of `rest` have arrived behind an empty buffer.
abbrev pub filled : List Call → Bytes → ℕ → List RpcObj → Receiver
filled cs rest k que = record {
  recv_buffer = stream cs ++ rest;
  recv_offset = length (stream cs) + k;
  que_rpc_obj = que;
}

-- What is left once they are decoded.
abbrev pub dealt_frames : List Call → Bytes → ℕ → List RpcObj → Receiver
dealt_frames cs rest k que = record {
  recv_buffer = take k rest ++ drop k (stream cs ++ rest);
  recv_offset = k;
  que_rpc_obj = que ++ map object_of cs;
}

deals_some :
    (cs : List Call) (rest : Bytes) (k : ℕ) (que : List RpcObj)
    → 0 < length (stream cs) + k
    → AreFrames cs
    → IsPartial k rest
    → deal_read_buffer (filled cs rest k que) ≡ ok (dealt_frames cs rest k que)
unfolding deal_read_buffer
deals_some cs rest k que h f p =
    let n = length (stream cs) in
    let ih =
      read_loop_frames cs (suc (n + k)) k (stream cs ++ rest) rest 0 refl f p
        (omega (arith, length-stream cs f)) in
    let zero_l : 0 + n ≡ n = omega arith in
    let zero_lk : 0 + (n + k) ≡ n + k = omega arith in
    let run : read_loop (suc (n + k)) (stream cs ++ rest) (n + k) 0 ≡ ok (n, map object_of cs) =
      rw zero_l at (rw zero_lk at ih) in
    let some_there : n + k == 0 ≡ false = ground arith in
    let left : n + k - n ≡ k = omega arith in
    rw (some_there, run, left, drop-length_append (stream cs) rest)

-- If the buffer holds the frames of calls whose texts are shorter than 256 bytes and whose numbers
-- and sizes fit their fields, one after another, and behind them the first k bytes of one that has
-- not come completely (less than four, or less than its size says, which is below 2 ^ 31), then
-- dealReadBuffer returns: the objects of the calls join the queue in their order, none lost and
-- none twice, and those k bytes stand at the start of the buffer, as the new offset says.
pub deal_read_buffer_frames :
    (cs : List Call) (rest : Bytes) (k : ℕ) (que : List RpcObj)
    → AreFrames cs
    → IsPartial k rest
    → deal_read_buffer (filled cs rest k que) ≡ ok (dealt_frames cs rest k que)
unfolding deal_read_buffer
deal_read_buffer_frames [] rest zero que f p = rw (append-nil que)
deal_read_buffer_frames [] rest (suc k) que f p = deals_some [] rest (suc k) que (omega arith) f p
deal_read_buffer_frames (c ∷ cs) rest k que f p =
    deals_some (c ∷ cs) rest k que (omega (arith, length-stream (c ∷ cs) f)) f p
