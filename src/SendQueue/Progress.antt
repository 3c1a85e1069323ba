-- ===== src/SendQueue/Progress.antt =====
-- recvBuff.cpp and tcpclient.cpp: dosend and dealSend under the answers of the socket.
use kcpserver_cpp.Common.{
  ℕ, suc, ◌+◌, ◌≤◌, ◌<◌, ◌≡◌, refl, sym, true, Option, none, some, List, [], ◌∷◌, ◌++◌, min, arith,
  Bytes, length, take, drop, length-append, length-drop, append-nil, ok,
}
use kcpserver_cpp.SendQueue.{
  send_size, Answer, wrote, eagain, failed, Sent, before, dosend, Sender, push_sendcache, Dealt,
  deal_queue, deal_from, deal_send,
}
use kcpserver_cpp.SendQueue.Order.{joined, joined-append, cached, waiting, deal_send_in_order}

-- The answers by which bytes are taken; after EAGAIN the socket is simply asked again.
abbrev pub ready : List Answer → ℕ
ready [] = 0
ready (wrote n ∷ answers) = suc (ready answers)
ready (eagain ∷ answers) = ready answers
ready (failed ∷ answers) = ready answers

-- The socket never takes no byte, and has no error but EAGAIN.
abbrev pub Takes : List Answer → Type 0
Takes [] = Unit {0}
Takes (wrote n ∷ answers) = (0 < n) × Takes answers
Takes (eagain ∷ answers) = Takes answers
Takes (failed ∷ answers) = ⊥

dosend_returns :
    (answers : List Answer) (buf : Bytes)
    → Takes answers
    → length buf ≤ ready answers
    → (d : Sent) × (dosend answers buf ≡ ok d)
      × (d.succ ≡ true)
      × Takes d.answers
      × (ready answers ≤ ready d.answers + length buf)
unfolding dosend
dosend_returns answers [] t h =
    (record { succ = true; bytes = []; answers = answers }, refl, refl, t, omega arith)
dosend_returns [] (b ∷ bs) t h = absurd (omega arith)
dosend_returns (eagain ∷ answers) (b ∷ bs) t h = dosend_returns answers (b ∷ bs) t h
dosend_returns (failed ∷ answers) (b ∷ bs) t h = absurd t
dosend_returns (wrote n ∷ answers) (b ∷ bs) (p, t) h =
    let k = min n (min send_size (length (b ∷ bs))) in
    let less = length-drop k (b ∷ bs) in
    let (d, e, y, t', l) = dosend_returns answers (drop k (b ∷ bs)) t (omega (arith, less)) in
    (before (take k (b ∷ bs)) d, rw e, y, t', omega (arith, less))

deal_queue_next :
    (answers : List Answer) (b : ℕ) (bs : Bytes) (rest : List Bytes) (s : Sender) (d : Sent)
    → dosend answers (b ∷ bs) ≡ ok d
    → d.succ ≡ true
    → (r : Dealt) × (deal_queue d.answers rest (push_sendcache s) ≡ ok r) × (r.succ ≡ true)
    → (r : Dealt) × (deal_queue answers ((b ∷ bs) ∷ rest) s ≡ ok r) × (r.succ ≡ true)
unfolding deal_queue
deal_queue_next answers b bs rest s d e good (r, e', y) =
    (record r { bytes = d.bytes ++ r.bytes }, rw (e, good, e'), y)

deal_queue_returns :
    (answers : List Answer) (q : List Bytes) (s : Sender)
    → Takes answers
    → length (joined q) ≤ ready answers
    → (r : Dealt) × (deal_queue answers q s ≡ ok r) × (r.succ ≡ true)
unfolding deal_queue
deal_queue_returns answers [] s t h = (_, refl, refl)
deal_queue_returns answers ([] ∷ rest) s t h =
    deal_queue_returns answers rest (push_sendcache s) t h
deal_queue_returns answers ((b ∷ bs) ∷ rest) s t h =
    let len = length-append (b ∷ bs) (joined rest) in
    let (d, e, y, t', l) = dosend_returns answers (b ∷ bs) t (omega (arith, len)) in
    deal_queue_next answers b bs rest s d e y
      (deal_queue_returns d.answers rest (push_sendcache s) t' (omega (arith, len)))

deal_from_returns :
    (answers : List Answer) (cache : Option Bytes) (queue : List Bytes) (s : Sender)
    → Takes answers
    → 0 < length (joined queue ++ cached cache)
    → length (joined queue ++ cached cache) ≤ ready answers
    → (r : Dealt) × (deal_from answers cache queue s ≡ ok r) × (r.succ ≡ true)
unfolding deal_from
deal_from_returns answers none [] s t p h = absurd (omega arith)
deal_from_returns answers none (c ∷ cs) s t p h =
    deal_queue_returns answers (c ∷ cs) s t (rw (append-nil (joined (c ∷ cs))) at h)
deal_from_returns answers (some []) [] s t p h = absurd (omega arith)
deal_from_returns answers (some (b ∷ bs)) [] s t p h =
    deal_queue_returns answers ((b ∷ bs) ∷ []) (record s { send_cache = none }) t
      (omega (arith, length-append (b ∷ bs) []))
deal_from_returns answers (some cur) (c ∷ cs) s t p h =
    deal_queue_returns answers ((c ∷ cs) ++ (cur ∷ [])) (record s { send_cache = none }) t
      (rw (joined-append (c ∷ cs) cur) h)

-- If something waits to be sent, the socket never takes no byte and has no error but EAGAIN, and at
-- least as many of its answers are other than EAGAIN as bytes wait, then dealSend returns and reports
-- success, all the bytes that waited have reached the socket, in the order in which they were put
-- there, and nothing waits any more.
pub deal_send_returns :
    (answers : List Answer) (s : Sender)
    → Takes answers
    → 0 < length (waiting s)
    → length (waiting s) ≤ ready answers
    → (r : Dealt) × (deal_send answers s ≡ ok r)
      × (r.succ ≡ true)
      × (r.bytes ≡ waiting s)
      × (waiting r.sender ≡ [])
unfolding deal_send
deal_send_returns answers s t p h =
    let (r, e, y) = deal_from_returns answers s.send_cache s.send_cache_queue s t p h in
    let (lost, split, full) = deal_send_in_order answers s r e in
    let (no_lost, no_rest) = full y in
    let sent : waiting s ≡ r.bytes = rw (no_lost, no_rest, append-nil) at split in
    (r, e, y, sym sent, no_rest)
