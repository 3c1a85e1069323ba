-- ===== src/Conn/Transmit.antt =====
-- conn.cpp: connObj::send and its buffer.
use kcpserver_cpp.Common.{
  ℕ, ◌+◌, ◌-◌, ◌≤◌, ◌<◌, ◌≡◌, refl, sym, ap, ◌∙◌, Bool, false, ◌&&◌, ◌||◌, some, List, [], ◌∷◌,
  ◌++◌, ◌==◌, ltb, leb, min, if◌then◌else◌, arith, Bytes, length, take, drop, length-append,
  length-drop, length-take_le, take_all, take_split, drop-take, take-length_append, drop-append_le,
  drop-drop, append_assoc, append-nil, ok, Bool-cases, inl, inr, le-of_ltb,
}
use kcpserver_cpp.SendQueue.{send_size, Answer, wrote, eagain, failed}
use kcpserver_cpp.Tcp.{write_at}
use kcpserver_cpp.Conn.{Conn, Sending, qps, after_write, enqueue, send_loop, send}

-- The part of the buffer that is still to be sent.
abbrev pub pending : Conn → Bytes
pending c = take (c.send_buf_len - c.send_buf_offset) (drop c.send_buf_offset c.send_buf)

-- The numbers of the buffer agree with each other: the offset is at most the length, that at most the
-- capacity, and an offset that has reached the length was reset.
abbrev pub IsBuffer : Conn → Type 0
IsBuffer c =
    (c.send_buf_offset ≤ c.send_buf_len)
    × (c.send_buf_len ≤ c.send_buf_cap)
    × (length c.send_buf ≡ c.send_buf_cap)
    × (c.send_buf_offset ≡ c.send_buf_len → c.send_buf_len ≡ 0)

-- The socket never takes no byte.
abbrev pub Takes : List Answer → Type 0
Takes [] = Unit {0}
Takes (wrote n ∷ answers) = (0 < n) × Takes answers
Takes (eagain ∷ answers) = Takes answers
Takes (failed ∷ answers) = Takes answers

nil_of_length : (bs : Bytes) → length bs ≡ 0 → bs ≡ []
nil_of_length [] e = refl
nil_of_length (b ∷ bs) e = absurd (omega arith)

write_at_window :
    (off len : ℕ) (bs mem : Bytes)
    → off ≤ len
    → len ≤ length mem
    → take (len + length bs - off) (drop off (write_at len bs mem))
      ≡ take (len - off) (drop off mem) ++ bs
write_at_window off len bs mem o l =
    let front = take len mem in
    let after = drop (len + length bs) mem in
    let win = take (len - off) (drop off mem) in
    let lf : length front ≡ len = length-take_le len mem l in
    let cut : drop off (front ++ (bs ++ after)) ≡ (win ++ bs) ++ after =
      drop-append_le off front (bs ++ after) (omega (arith, lf))
      ∙ (ap (λ (x : Bytes). x ++ (bs ++ after)) (drop-take off len mem)
          ∙ sym (append_assoc win bs after)) in
    let lw : length win ≡ len - off =
      length-take_le (len - off) (drop off mem) (omega (arith, length-drop off mem)) in
    let size : len + length bs - off ≡ length (win ++ bs) =
      omega (arith, lw, length-append win bs) in
    rw (cut, size) (take-length_append (win ++ bs) after)

length-write_at :
    (len : ℕ) (bs mem : Bytes)
    → len + length bs ≤ length mem
    → length (write_at len bs mem) ≡ length mem
length-write_at len bs mem h = omega (
  arith,
  length-append (take len mem) (bs ++ drop (len + length bs) mem),
  length-append bs (drop (len + length bs) mem),
  length-take_le len mem (omega arith),
  length-drop (len + length bs) mem,
)

pending_split :
    (k : ℕ) (c : Conn)
    → k ≤ c.send_buf_len - c.send_buf_offset
    → pending c
      ≡ take k (drop c.send_buf_offset c.send_buf)
        ++ pending (record c { send_buf_offset = c.send_buf_offset + k })
pending_split k c h =
    let left = c.send_buf_len - c.send_buf_offset in
    let rest : left - k ≡ c.send_buf_len - (c.send_buf_offset + k) = omega arith in
    take_split k left (drop c.send_buf_offset c.send_buf) h
    ∙ rw (drop-drop k c.send_buf_offset c.send_buf, rest)

enqueue-pending :
    (bs : Bytes) (c : Conn) → IsBuffer c → pending (enqueue (some bs) c) ≡ pending c ++ bs
unfolding enqueue
enqueue-pending bs c (o, l, m, z) =
    let left = c.send_buf_len - c.send_buf_offset in
    let kept : length (pending c) ≡ left =
      length-take_le left (drop c.send_buf_offset c.send_buf)
        (omega (arith, length-drop c.send_buf_offset c.send_buf)) in
    elim (Bool-cases (ltb (c.send_buf_cap - c.send_buf_len) (length bs))) [
      | inl t ↦
          rw t (take_all _ (pending c ++ bs) (omega (arith, kept, length-append (pending c) bs)))
      | inr f ↦
          rw f (write_at_window c.send_buf_offset c.send_buf_len bs c.send_buf o (omega (arith, m)))
    ]

enqueue-IsBuffer :
    (bs : Bytes) (c : Conn)
    → IsBuffer c
    → 0 < length bs + c.send_buf_len
    → (IsBuffer (enqueue (some bs) c))
      × ((enqueue (some bs) c).send_buf_offset < (enqueue (some bs) c).send_buf_len)
      × ((enqueue (some bs) c).send_buf_len ≤ c.send_buf_len + length bs)
unfolding enqueue
enqueue-IsBuffer bs c (o, l, m, z) h =
    let left = c.send_buf_len - c.send_buf_offset in
    let there : 0 < length bs + left = grind (arith, z) in
    let kept : length (pending c) ≡ left =
      length-take_le left (drop c.send_buf_offset c.send_buf)
        (omega (arith, length-drop c.send_buf_offset c.send_buf)) in
    elim (Bool-cases (ltb (c.send_buf_cap - c.send_buf_len) (length bs))) [
      | inl t ↦ rw t (
        (
          omega arith,
          omega arith,
          omega (arith, kept, length-append (pending c) bs),
          λ e. omega arith,
        ),
        omega arith,
        omega arith,
      )
      | inr f ↦
          let room : length bs ≤ c.send_buf_cap - c.send_buf_len = le-of_ltb _ _ f in
          rw f (
            (
              omega arith,
              omega arith,
              length-write_at c.send_buf_len bs c.send_buf (omega (arith, m)) ∙ m,
              λ e. omega arith,
            ),
            omega arith,
            omega arith,
          )
    ]

send_loop_sends :
    (net : Bool) (answers : List Answer) (c : Conn)
    → IsBuffer c
    → c.send_buf_offset < c.send_buf_len
    → Takes answers
    → c.send_buf_len - c.send_buf_offset ≤ length answers
    → (r : Sending) × (send_loop net answers c ≡ ok r)
      × (pending c ≡ r.bytes ++ pending r.conn)
      × IsBuffer r.conn
unfolding send_loop
send_loop_sends net [] c i h t e = absurd (omega arith)
send_loop_sends net (eagain ∷ answers) c i h t e = (_, refl, refl, i)
send_loop_sends net (failed ∷ answers) c i h t e = (_, refl, refl, i)
send_loop_sends net (wrote n ∷ answers) c (o, l, m, z) h (p, t) e =
    let left = c.send_buf_len - c.send_buf_offset in
    let k = min n (min send_size left) in
    let some_byte : k == 0 ≡ false = ground arith in
    let split = pending_split k c (omega arith) in
    elim (Bool-cases (leb c.send_buf_len (c.send_buf_offset + k))) [
      | inl done ↦
          let all : c.send_buf_len - (c.send_buf_offset + k) ≡ 0 = ground arith in
          (
            record {
              conn = record c { send_buf_offset = 0; send_buf_len = 0 };
              bytes = take k (drop c.send_buf_offset c.send_buf);
              events = if net then qps 3 (c.send_buf_offset + k) ∷ [] else [];
            },
            rw (some_byte, done),
            split ∙ rw all,
            (omega arith, omega arith, m, λ e. refl),
          )
      | inr more ↦
          let c' = record c { send_buf_offset = c.send_buf_offset + k } in
          let before_end : c.send_buf_offset + k < c.send_buf_len = ground arith in
          let (r, run, cut, good) =
            send_loop_sends net answers c' (omega arith, l, m, λ q. absurd (omega arith)) before_end
              t (omega arith) in
          let bs = take k (drop c.send_buf_offset c.send_buf) in
          (
            after_write bs r,
            rw (some_byte, more, run),
            split ∙ (ap (◌++◌ bs) (cut) ∙ sym (append_assoc bs r.bytes (pending r.conn))),
            good,
          )
    ]

if_neither :
    {A : Type 0} (x y : Bool) (p q : A) → x ≡ false → y ≡ false → (if x || y then p else q) ≡ q
if_neither x y p q hx hy = rw (hx, hy)

send_enters :
    (net : Bool) (answers : List Answer) (bs : Bytes) (c : Conn)
    → c.bclose ≡ false
    → (length bs == 0 && c.send_buf_len == 0) ≡ false
    → send net answers (some bs) c ≡ send_loop net answers (enqueue (some bs) c)
unfolding send
send_enters net answers bs c up f = if_neither c.bclose _ _ _ up f

-- If the connection is not closed, the numbers of its send buffer agree with each other, no answer
-- of the socket is that it took no byte, and there are at least as many answers as the buffer's
-- length and the new bytes, then send returns; what the socket took and what is pending after that
-- are together what was pending before and the new bytes, in this order; and the numbers of the
-- buffer agree again.
pub send_in_order :
    (net : Bool) (answers : List Answer) (bs : Bytes) (c : Conn)
    → IsBuffer c
    → c.bclose ≡ false
    → Takes answers
    → c.send_buf_len + length bs ≤ length answers
    → (r : Sending) × (send net answers (some bs) c ≡ ok r)
      × (pending c ++ bs ≡ r.bytes ++ pending r.conn)
      × IsBuffer r.conn
unfolding send
send_in_order net answers bs c i up t e =
    elim (Bool-cases (length bs == 0 && c.send_buf_len == 0)) [
      | inl z ↦
          let none_new : length bs ≡ 0 = ground arith in
          (
            record { conn = c; bytes = []; events = [] },
            rw (up, z),
            rw (nil_of_length bs none_new) (append-nil (pending c)),
            i,
          )
      | inr f ↦
          let some_byte : 0 < length bs + c.send_buf_len = ground arith in
          let (i', l, few) = enqueue-IsBuffer bs c i some_byte in
          let (r, run, cut, good) =
            send_loop_sends net answers (enqueue (some bs) c) i' l t (omega arith) in
          (r, send_enters net answers bs c up f ∙ run, sym (enqueue-pending bs c i) ∙ cut, good)
    ]
