-- ===== src/Conn/Leftover.antt =====
-- conn.cpp: resetBuffer, and the end of parseBuff of both classes, on bytes that are not yet a message.
use kcpserver_cpp.Common.{
  leb_of_lt, leb_of_le, ℕ, ◌+◌, ◌-◌, ◌≤◌, ◌<◌, ◌≡◌, inl, inr, refl, ap, ◌∙◌, Bool, true, false,
  ◌||◌, ltb, leb, if◌then◌else◌, arith, Bytes, length, take, drop, length-append, length-take_le,
  take_all, le-of_ltb, ltb→lt, take-append_le, Bool-cases,
}
use kcpserver_cpp.Tcp.{move_down}
use kcpserver_cpp.Conn.{Conn, keep_partial, reset_buffer}

-- Where the loop stops: less than a head of `head` bytes moves to the start of the buffer at once.
abbrev pub stop : ℕ → ℕ → Conn → Conn
stop head k c = if ltb k head then keep_partial c else c

-- How many of the `k` bytes that are left stay there: `alone` if nothing was read in front of them.
abbrev pub kept_of : ℕ → Bool → ℕ → ℕ
kept_of head alone k = if alone || leb head k then k else 0

move_down_front :
    (off k : ℕ) (mem : Bytes)
    → k ≤ length (drop off mem)
    → (take k (move_down off k mem) ≡ take k (drop off mem)) × (k ≤ length (move_down off k mem))
move_down_front off k mem h =
    let front = take k (drop off mem) in
    let lf : length front ≡ k = length-take_le k (drop off mem) h in
    (
      take-append_le k front (drop k mem) (omega (arith, lf))
          ∙ take_all k front (omega (arith, lf)),
      omega (arith, lf, length-append front (drop k mem)),
    )

-- resetBuffer moves what was not read to the start of the buffer.
resets :
    (k : ℕ) (c : Conn)
    → c.net_offset ≡ c.read_offset + k
    → 0 < k
    → k ≤ length (drop c.read_offset c.net_buffer)
    → ((reset_buffer c).net_offset ≡ k)
      × (take k (reset_buffer c).net_buffer ≡ take k (drop c.read_offset c.net_buffer))
unfolding reset_buffer
resets k c n p h =
    let some_left : leb c.net_offset c.read_offset ≡ false =
      leb_of_lt c.net_offset c.read_offset (omega arith) in
    let left : c.net_offset - c.read_offset ≡ k = omega arith in
    rw (some_left, left) (refl, (move_down_front c.read_offset k c.net_buffer h).0)

-- Alone in the buffer, an incomplete message stays where it is.
stays_alone :
    (head k : ℕ) (c : Conn)
    → c.read_offset ≡ 0
    → c.net_offset ≡ c.read_offset + k
    → 0 < k
    → k ≤ length (drop c.read_offset c.net_buffer)
    → ((reset_buffer (stop head k c)).net_offset ≡ k)
      × (take k (reset_buffer (stop head k c)).net_buffer
          ≡ take k (drop c.read_offset c.net_buffer))
unfolding keep_partial
stays_alone head k c r n p h = elim (Bool-cases (ltb k head)) [
  | inr f ↦ rw f (resets k c n p h)
  | inl t ↦
      let d = keep_partial c in
      let q : c.net_offset - c.read_offset ≡ k = omega arith in
      let front = move_down_front c.read_offset k c.net_buffer h in
      let same : drop c.read_offset d.net_buffer ≡ move_down c.read_offset k c.net_buffer =
        ap (λ (x : ℕ). drop x d.net_buffer) r
        ∙ ap (λ (x : ℕ). move_down c.read_offset x c.net_buffer) q in
      let (size, bytes) = resets k d (omega arith) (omega arith) (rw same front.1) in
      rw t (size, bytes ∙ (ap (take k) same ∙ front.0))
]

-- Behind messages, less than a head is lost.
stays_behind :
    (head k : ℕ) (c : Conn)
    → head ≤ c.read_offset
    → c.net_offset ≡ c.read_offset + k
    → 0 < head
    → k ≤ length (drop c.read_offset c.net_buffer)
    → ((reset_buffer (stop head k c)).net_offset ≡ kept_of head false k)
      × (take (kept_of head false k) (reset_buffer (stop head k c)).net_buffer
          ≡ take (kept_of head false k) (drop c.read_offset c.net_buffer))
unfolding reset_buffer keep_partial
stays_behind head k c r n p h = elim (Bool-cases (ltb k head)) [
  | inr f ↦
      let all : leb head k ≡ true = leb_of_le head k (le-of_ltb k head f) in
      rw (f, all) (resets k c n (omega (arith, le-of_ltb k head f)) h)
  | inl t ↦
      let small : k < head = ltb→lt k head t in
      let few : leb head k ≡ false = leb_of_lt head k small in
      let lost : leb (c.net_offset - c.read_offset) c.read_offset ≡ true =
        leb_of_le _ _ (omega arith) in
      rw (t, few, lost) (refl, refl)
]

pub stop_leaves :
    (head : ℕ) (alone : Bool) (k : ℕ) (c : Conn)
    → (alone ≡ true → c.read_offset ≡ 0)
    → (alone ≡ false → head ≤ c.read_offset)
    → c.net_offset ≡ c.read_offset + k
    → 0 < c.net_offset
    → 0 < head
    → k ≤ length (drop c.read_offset c.net_buffer)
    → ((reset_buffer (stop head k c)).net_offset ≡ kept_of head alone k)
      × (take (kept_of head alone k) (reset_buffer (stop head k c)).net_buffer
          ≡ take (kept_of head alone k) (drop c.read_offset c.net_buffer))
stop_leaves head true k c r r' n s p h =
    let at = r refl in stays_alone head k c at n (omega arith) h
stop_leaves head false k c r r' n s p h = stays_behind head k c (r' refl) n p h
