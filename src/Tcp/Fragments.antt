-- ===== src/Tcp/Fragments.antt =====
-- tcpclient.cpp: OnRead and dealReadBuffer on a stream that comes in pieces, as readThread runs them.
use kcpserver_cpp.Common.{
  leb_of_lt, ℕ, ◌+◌, ◌^◌, ◌≤◌, ◌<◌, ◌≡◌, inl, inr, refl, sym, ap, ◌∙◌, false, Option, none, some,
  List, [], ◌∷◌, ◌++◌, map, arith, leb, Bytes, le_value, length, take, drop, length-append,
  take-length_append, append_assoc, append-nil, Outcome, ok, ◌>>=◌,
}
use native.Mathlib.Decide.{dec_lt}
use mathlib.Core.List.{map-append}
use kcpserver_cpp.SendQueue.{rpc_buff_size}
use kcpserver_cpp.Wire.{RpcObj, get_rpc_size}
use kcpserver_cpp.Wire.RoundTrip.{get_rpc_size_fits, length-encode_buffer, le_value-encode}
use kcpserver_cpp.Tcp.{Receiver, ReadAnswer, got, closed, eagain, failed, on_read, deal_read_buffer}
use kcpserver_cpp.Tcp.Stream.{
  Call, bytes_of, object_of, AreFrames, stream, IsPartial, deal_read_buffer_frames,
}

-- What readThread does with a client for each answer of `read`, until the connection is dropped.
pub receive : List ReadAnswer → Receiver → Outcome Receiver
receive [] r = ok r
receive (a ∷ answers) r =
    let q = on_read a r in
    elim q.1 [ none ↦ ok q.0 | some n ↦ deal_read_buffer q.0 >>= λ r'. receive answers r' ]

-- The bytes that came, where the connection stayed open.
abbrev pub arrived : List ReadAnswer → Bytes
arrived [] = []
arrived (got bs ∷ answers) = bs ++ arrived answers
arrived (_ ∷ answers) = arrived answers

abbrev pub StaysOpen : List ReadAnswer → Type 0
StaysOpen [] = Unit {0}
StaysOpen (got bs ∷ answers) = StaysOpen answers
StaysOpen (eagain ∷ answers) = StaysOpen answers
StaysOpen (closed ∷ answers) = ⊥
StaysOpen (failed ∷ answers) = ⊥

-- Each frame fits the buffer.
abbrev pub AreShort : List Call → Type 0
AreShort [] = Unit {0}
AreShort (c ∷ cs) = (length (bytes_of c) ≤ rpc_buff_size) × AreShort cs

-- `p` is a part of the next frame, and not all of it.
abbrev pub IsBegun : Bytes → List Call → Type 0
IsBegun p [] = p ≡ []
IsBegun p (c ∷ cs) = length p < length (bytes_of c)

-- Where the first bytes of a stream end: behind some frames and in the next one.
pub record Cut (cs : List Call) (content future : Bytes) : Type 0 where
  pub whole : List Call
  pub rest : List Call
  pub begun : Bytes
  pub calls : cs ≡ whole ++ rest
  pub bytes : content ≡ stream whole ++ begun
  pub ahead : stream rest ≡ begun ++ future
  pub is_begun : IsBegun begun rest
  pub whole_frames : AreFrames whole
  pub rest_frames : AreFrames rest
  pub rest_short : AreShort rest

append_nils : (xs ys : Bytes) → [] ≡ xs ++ ys → (xs ≡ []) × (ys ≡ [])
append_nils [] ys e = (refl, sym e)
append_nils (x ∷ xs) ys e = cc

-- Of two ways to part a list, the one that is longer in front goes on where the other ends.
split_longer :
    (xs ys zs ws : Bytes)
    → xs ++ ys ≡ zs ++ ws
    → length xs ≤ length zs
    → (more : Bytes) × (zs ≡ xs ++ more) × (ys ≡ more ++ ws)
split_longer [] ys zs ws e h = (zs, refl, e)
split_longer (x ∷ xs) ys [] ws e h = absurd (omega arith)
split_longer (x ∷ xs) ys (z ∷ zs) ws e h =
    let (more, p, q) = split_longer xs ys zs ws (cc) (omega arith) in (more, cc, q)

cut :
    (cs : List Call) (content future : Bytes)
    → AreFrames cs
    → AreShort cs
    → stream cs ≡ content ++ future
    → Cut cs content future
cut [] content future f s e =
    let (p, q) = append_nils content future e in
    record {
      whole = [];
      rest = [];
      begun = [];
      calls = refl;
      bytes = p;
      ahead = sym q;
      is_begun = refl;
      whole_frames = tt;
      rest_frames = tt;
      rest_short = tt;
    }
cut (c ∷ cs) content future f s e = elim (dec_lt (length content) (length (bytes_of c))) [
  | yes h ↦ record {
    whole = [];
    rest = c ∷ cs;
    begun = content;
    calls = refl;
    bytes = refl;
    ahead = e;
    is_begun = h;
    whole_frames = tt;
    rest_frames = f;
    rest_short = s;
  }
  | no h ↦
      let (more, p, q) = split_longer (bytes_of c) (stream cs) content future e (omega arith) in
      let next = cut cs more future f.1 s.1 q in
      record {
        whole = c ∷ next.whole;
        rest = next.rest;
        begun = next.begun;
        calls = ap (λ (x : List Call). c ∷ x) next.calls;
        bytes =
            p
            ∙ (ap (λ (x : Bytes). bytes_of c ++ x) next.bytes
                ∙ sym (append_assoc (bytes_of c) (stream next.whole) next.begun));
        ahead = next.ahead;
        is_begun = next.is_begun;
        whole_frames = (f.0, next.whole_frames);
        rest_frames = next.rest_frames;
        rest_short = next.rest_short;
      }
]

-- The four bytes of the size are there, or the size says that more must come.
le_value_front : (p g h : Bytes) → 4 ≤ length p → le_value 4 (p ++ g) ≡ le_value 4 (p ++ h)
le_value_front [] g h l = absurd (omega arith)
le_value_front (a ∷ []) g h l = absurd (omega arith)
le_value_front (a ∷ b ∷ []) g h l = absurd (omega arith)
le_value_front (a ∷ b ∷ c ∷ []) g h l = absurd (omega arith)
le_value_front (a ∷ b ∷ c ∷ d ∷ p) g h l = refl

begun-IsPartial :
    (p g future : Bytes) (cs : List Call)
    → AreFrames cs
    → stream cs ≡ p ++ future
    → IsBegun p cs
    → IsPartial (length p) (p ++ g)
begun-IsPartial p g future [] f e b = inl (omega (arith, ap (λ (x : Bytes). length x) b))
begun-IsPartial p g future (c ∷ cs) f e b = elim (dec_lt (length p) 4) [
  | yes h ↦ inl h
  | no h ↦
      let n = get_rpc_size c.name c.target c.body in
      let size : le_value 4 (p ++ g) ≡ n =
        le_value_front p g future (omega arith)
        ∙ (ap (le_value 4) (sym e)
            ∙ le_value-encode c.name c.target c.pid c.msgid c.body (stream cs)) in
      let len : length (bytes_of c) ≡ n + 4 =
        length-encode_buffer c.name c.target c.pid c.msgid c.body f.0.0 in
      let sum = get_rpc_size_fits c.name c.target c.pid c.msgid c.body f.0.0 in
      let below : n < 2 ^ 31 = omega (arith, f.0.0.target_fits, f.0.0.name_fits, f.0.1, sum) in
      inr (omega (arith, size, below), omega (arith, size, len, b))
]

-- A receiver that holds a part of a frame.
abbrev pub holding : Bytes → Bytes → List RpcObj → Receiver
holding p g que = record { recv_buffer = p ++ g; recv_offset = length p; que_rpc_obj = que }

-- dealReadBuffer takes the whole frames from the buffer.
deals :
    (cs : List Call) (content future g : Bytes) (que : List RpcObj) (c : Cut cs content future)
    → (g' : Bytes) × (deal_read_buffer (holding content g que)
        ≡ ok (holding c.begun g' (que ++ map object_of c.whole)))
deals cs content future g que c =
    let k = length c.begun in
    let partial = begun-IsPartial c.begun g future c.rest c.rest_frames c.ahead c.is_begun in
    let buffer : content ++ g ≡ stream c.whole ++ (c.begun ++ g) =
      ap (λ (x : Bytes). x ++ g) c.bytes ∙ append_assoc (stream c.whole) c.begun g in
    let offset : length content ≡ length (stream c.whole) + k =
      ap (λ (x : Bytes). length x) c.bytes ∙ length-append (stream c.whole) c.begun in
    let front = take-length_append c.begun g in
    let run = deal_read_buffer_frames c.whole (c.begun ++ g) k que c.whole_frames partial in
    (drop k (stream c.whole ++ (c.begun ++ g)), rw (buffer, offset) (rw front at run))

-- What the receiver has after some answers: the calls that came whole have joined the queue.
pub record Received (cs : List Call) (future : Bytes) (que : List RpcObj) (out : Outcome Receiver)
    : Type 0 where
  pub whole : List Call
  pub rest : List Call
  pub begun : Bytes
  pub behind : Bytes
  pub calls : cs ≡ whole ++ rest
  pub ahead : stream rest ≡ begun ++ future
  pub is_begun : IsBegun begun rest
  pub returns : out ≡ ok (holding begun behind (que ++ map object_of whole))

has_room :
    (p : Bytes) (cs : List Call) → AreShort cs → IsBegun p cs → leb rpc_buff_size (length p) ≡ false
has_room p [] s b =
    leb_of_lt rpc_buff_size (length p) (omega (arith, ap (λ (x : Bytes). length x) b))
has_room p (c ∷ cs) s b = leb_of_lt rpc_buff_size (length p) (omega (arith, s.0, b))

map_append :
    (que : List RpcObj) (xs ys : List Call)
    → (que ++ map object_of xs) ++ map object_of ys ≡ que ++ map object_of (xs ++ ys)
map_append que xs ys =
    append_assoc que (map object_of xs) (map object_of ys)
    ∙ ap (λ (x : List RpcObj). que ++ x) (sym (map-append object_of xs ys))

-- One round has put the calls of the cut into the queue; the others do the rest.
goes_on :
    (answers : List ReadAnswer) (cs : List Call) (content future : Bytes) (que : List RpcObj)
    (c : Cut cs content future) (out : Outcome Receiver) (later : Bytes)
    → Received c.rest later (que ++ map object_of c.whole) out
    → Received cs later que out
goes_on answers cs content future que c out later r = record {
  whole = c.whole ++ r.whole;
  rest = r.rest;
  begun = r.begun;
  behind = r.behind;
  calls =
      c.calls
      ∙ (ap (λ (x : List Call). c.whole ++ x) r.calls ∙ sym (append_assoc c.whole r.whole r.rest));
  ahead = r.ahead;
  is_begun = r.is_begun;
  returns =
      r.returns
      ∙ ap (λ (q : List RpcObj). ok (holding r.begun r.behind q)) (map_append que c.whole r.whole);
}

read_some :
    (p g bs : Bytes) (que : List RpcObj)
    → leb rpc_buff_size (length p) ≡ false
    → on_read (got bs) (holding p g que)
      ≡ (holding (p ++ bs) (drop (length p + length bs) (p ++ g)) que, some 2)
unfolding on_read
read_some p g bs que h =
    let g₁ = drop (length p + length bs) (p ++ g) in
    let front = take-length_append p g in
    let buffer : take (length p) (p ++ g) ++ (bs ++ g₁) ≡ (p ++ bs) ++ g₁ =
      ap (λ (x : Bytes). x ++ (bs ++ g₁)) front ∙ sym (append_assoc p bs g₁) in
    let offset : length p + length bs ≡ length (p ++ bs) = sym (length-append p bs) in
    rw h
      (λ i. (record { recv_buffer = buffer i; recv_offset = offset i; que_rpc_obj = que }, some 2))

read_nothing :
    (p g : Bytes) (que : List RpcObj)
    → leb rpc_buff_size (length p) ≡ false
    → on_read eagain (holding p g que) ≡ (holding p g que, some 1)
unfolding on_read
read_nothing p g que h = rw h

-- One answer that leaves the connection open.
receive_one :
    (a : ReadAnswer) (answers : List ReadAnswer) (r r' r'' : Receiver) (n : ℕ)
    → on_read a r ≡ (r', some n)
    → deal_read_buffer r' ≡ ok r''
    → receive (a ∷ answers) r ≡ receive answers r''
unfolding receive
receive_one a answers r r' r'' n e run =
    ap
      (λ (q : Receiver × Option ℕ). elim q.1 [
        | none ↦ ok q.0
        | some n ↦ deal_read_buffer q.0 >>= λ x. receive answers x
      ])
      e
    ∙ ap (λ (o : Outcome Receiver). o >>= λ x. receive answers x) run

pub receive-Received :
    (answers : List ReadAnswer) (cs : List Call) (p g future : Bytes) (que : List RpcObj)
    → AreFrames cs
    → AreShort cs
    → IsBegun p cs
    → StaysOpen answers
    → stream cs ≡ p ++ (arrived answers ++ future)
    → Received cs future que (receive answers (holding p g que))
unfolding receive
receive-Received [] cs p g future que f s b o e = record {
  whole = [];
  rest = cs;
  begun = p;
  behind = g;
  calls = refl;
  ahead = e;
  is_begun = b;
  returns = ap (λ (q : List RpcObj). ok (holding p g q)) (sym (append-nil que));
}
receive-Received (got bs ∷ answers) cs p g future que f s b o e =
    let g₁ = drop (length p + length bs) (p ++ g) in
    let e₁ : stream cs ≡ (p ++ bs) ++ (arrived answers ++ future) =
      e
      ∙ (ap (λ (x : Bytes). p ++ x) (append_assoc bs (arrived answers) future)
          ∙ sym (append_assoc p bs (arrived answers ++ future))) in
    let c = cut cs (p ++ bs) (arrived answers ++ future) f s e₁ in
    let (g', run) = deals cs (p ++ bs) (arrived answers ++ future) g₁ que c in
    rw (receive_one (got bs) answers _ _ _ 2 (read_some p g bs que (has_room p cs s b)) run) (
      goes_on answers cs (p ++ bs) (arrived answers ++ future) que c _ future (
        receive-Received answers c.rest c.begun g' future (que ++ map object_of c.whole)
          c.rest_frames c.rest_short c.is_begun o c.ahead))
receive-Received (eagain ∷ answers) cs p g future que f s b o e =
    let c = cut cs p (arrived answers ++ future) f s e in
    let (g', run) = deals cs p (arrived answers ++ future) g que c in
    rw (receive_one eagain answers _ _ _ 1 (read_nothing p g que (has_room p cs s b)) run) (
      goes_on answers cs p (arrived answers ++ future) que c _ future (
        receive-Received answers c.rest c.begun g' future (que ++ map object_of c.whole)
          c.rest_frames c.rest_short c.is_begun o c.ahead))
receive-Received (closed ∷ answers) cs p g future que f s b o e = absurd o
receive-Received (failed ∷ answers) cs p g future que f s b o e = absurd o
