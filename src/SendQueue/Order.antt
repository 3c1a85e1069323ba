-- ===== src/SendQueue/Order.antt =====
-- What reaches the socket, and in which order; where the queue fails.
use kcpserver_cpp.Common.{
  both_return, ok-injective, ℕ, ◌≡◌, ◌≢◌, inl, inr, refl, sym, ap, ◌∙◌, true, false, Option, none,
  some, List, [], ◌∷◌, ◌++◌, min, arith, Bytes, length, take, drop, take-append-drop, append_assoc,
  append-nil, ok, abort, Bool-cases,
}
use kcpserver_cpp.SendQueue.{
  send_size, Answer, wrote, eagain, failed, Sent, before, dosend, Sender, push_sendcache, Dealt,
  deal_queue, deal_from, deal_send,
}

-- The bytes of some caches, one behind the other.
abbrev pub joined : List Bytes → Bytes
joined [] = []
joined (c ∷ cs) = c ++ joined cs

pub joined-append : (q : List Bytes) (c : Bytes) → joined (q ++ (c ∷ [])) ≡ joined q ++ c
joined-append [] c = append-nil c
joined-append (x ∷ q) c = rw (joined-append q c) (sym (append_assoc x (joined q) c))

abbrev pub cached : Option Bytes → Bytes
cached none = []
cached (some c) = c

-- What is still to be sent.
abbrev pub waiting : Sender → Bytes
waiting s = joined s.send_cache_queue ++ cached s.send_cache

-- What a call of dosend says about the bytes: it sent all of them, or a first part.
abbrev pub Splits : Bytes → Sent → Type 0
Splits buf d = (lost : Bytes) × (buf ≡ d.bytes ++ lost) × (d.succ ≡ true → lost ≡ [])

false_ne_true : false ≢ true
false_ne_true e = cc

resume :
    (buf : Bytes) (k : ℕ) (d' d : Sent) (lost : Bytes)
    → drop k buf ≡ d'.bytes ++ lost
    → before (take k buf) d' ≡ d
    → buf ≡ d.bytes ++ lost
resume buf k d' d lost g e =
    sym (take-append-drop k buf)
    ∙ ap (◌++◌ (take k buf)) g
    ∙ sym (append_assoc (take k buf) d'.bytes lost)
    ∙ ap (λ (x : Sent). x.bytes ++ lost) e

dosend-Splits :
    (answers : List Answer) (buf : Bytes) (d : Sent) → dosend answers buf ≡ ok d → Splits buf d
unfolding dosend
dosend-Splits answers [] d e = ([], ground arith, λ _. refl)
dosend-Splits [] (b ∷ bs) d e = cc
dosend-Splits (eagain ∷ answers) (b ∷ bs) d e = dosend-Splits answers (b ∷ bs) d e
dosend-Splits (failed ∷ answers) (b ∷ bs) d e = (b ∷ bs, ground arith, ground arith)
dosend-Splits (wrote n ∷ answers) (b ∷ bs) d e =
    let k = min n (min send_size (length (b ∷ bs))) in
    let (d', e', f) = both_return (dosend answers (drop k (b ∷ bs))) _ e in
    let (lost, g, h) = dosend-Splits answers (drop k (b ∷ bs)) d' e' in
    (lost, resume _ k d' d lost g (ok-injective f), ground (arith, h))

-- The bytes that dealSend takes from the caches of its queue are those that reached the socket,
-- those of the cache at which it failed, and those still queued; without a failure all are sent.
abbrev pub Deals : List Bytes → Dealt → Type 0
Deals q r =
    (lost : Bytes) × (joined q ≡ r.bytes ++ (lost ++ joined r.sender.send_cache_queue))
    × (r.succ ≡ true → (lost ≡ []) × (r.sender.send_cache_queue ≡ []))

deal_queue-Deals :
    (answers : List Answer) (q : List Bytes) (s : Sender) (r : Dealt)
    → deal_queue answers q s ≡ ok r
    → Deals q r
unfolding deal_queue
deal_queue-Deals answers [] s r e = ([], ground arith, λ _. ground arith)
deal_queue-Deals answers ([] ∷ rest) s r e = deal_queue-Deals answers rest (push_sendcache s) r e
deal_queue-Deals answers ((b ∷ bs) ∷ rest) s r e =
    let (d, sent, after) = both_return (dosend answers (b ∷ bs)) _ e in
    let (lost, split, full) = dosend-Splits answers (b ∷ bs) d sent in
    elim (Bool-cases d.succ) [
      | inr no_more ↦
          let stopped = ok-injective (rw no_more at after) in
          (
            lost,
            ap (λ (x : Bytes). x ++ joined rest) split
                ∙ append_assoc d.bytes lost (joined rest)
                ∙ ap (λ (x : Dealt). x.bytes ++ (lost ++ joined x.sender.send_cache_queue)) stopped,
            λ y. absurd (false_ne_true (ap (λ (x : Dealt). x.succ) stopped ∙ y)),
          )
      | inl good ↦
          let (r', rec, last) =
            both_return (deal_queue d.answers rest (push_sendcache s)) _ (rw good at after) in
          let (lost', split', full') = deal_queue-Deals d.answers rest (push_sendcache s) r' rec in
          let same = ok-injective last in
          (
            lost',
            ap (λ (x : Bytes). x ++ joined rest)
                  (split ∙ ap (◌++◌ d.bytes) (full good) ∙ append-nil d.bytes)
                ∙ ap (◌++◌ d.bytes) split'
                ∙ sym (append_assoc d.bytes r'.bytes (lost' ++ joined r'.sender.send_cache_queue))
                ∙ ap (λ (x : Dealt). x.bytes ++ (lost' ++ joined x.sender.send_cache_queue)) same,
            ground (arith, same, full'),
          )
    ]

deal_queue_clears :
    (answers : List Answer) (q : List Bytes) (s : Sender) (r : Dealt)
    → deal_queue answers q s ≡ ok r
    → r.sender.send_cache ≡ s.send_cache
unfolding deal_queue push_sendcache
deal_queue_clears answers [] s r e = ground arith
deal_queue_clears answers ([] ∷ rest) s r e = deal_queue_clears answers rest (push_sendcache s) r e
deal_queue_clears answers ((b ∷ bs) ∷ rest) s r e =
    let (d, sent, after) = both_return (dosend answers (b ∷ bs)) _ e in
    elim (Bool-cases d.succ) [
      | inr no_more ↦
          ap (λ (x : Dealt). x.sender.send_cache) (sym (ok-injective (rw no_more at after)))
      | inl good ↦
          let (r', rec, last) =
            both_return (deal_queue d.answers rest (push_sendcache s)) _ (rw good at after) in
          ap (λ (x : Dealt). x.sender.send_cache) (sym (ok-injective last))
          ∙ deal_queue_clears d.answers rest (push_sendcache s) r' rec
    ]

-- What a call of dealSend says about the bytes `w` that waited.
abbrev pub Reports : Bytes → Dealt → Type 0
Reports w r =
    (lost : Bytes) × (w ≡ r.bytes ++ (lost ++ waiting r.sender))
    × (r.succ ≡ true → (lost ≡ []) × (waiting r.sender ≡ []))

Reports-of_Deals :
    (w : Bytes) (q : List Bytes) (r : Dealt)
    → w ≡ joined q
    → Deals q r
    → r.sender.send_cache ≡ none
    → Reports w r
Reports-of_Deals w q r e (lost, split, full) n =
    let all : waiting r.sender ≡ joined r.sender.send_cache_queue = rw (n, append-nil) in
    (lost, rw all (e ∙ split), λ y. ((full y).0, all ∙ ap joined (full y).1))

deal_from-Reports :
    (answers : List Answer) (cache : Option Bytes) (queue : List Bytes) (s : Sender) (r : Dealt)
    → s.send_cache ≡ cache
    → s.send_cache_queue ≡ queue
    → deal_from answers cache queue s ≡ ok r
    → Reports (joined queue ++ cached cache) r
unfolding deal_from
deal_from-Reports answers none [] s r hc hq e = cc
deal_from-Reports answers none (c ∷ cs) s r hc hq e =
    Reports-of_Deals _ (c ∷ cs) r (append-nil _) (deal_queue-Deals answers (c ∷ cs) s r e)
      (deal_queue_clears answers (c ∷ cs) s r e ∙ hc)
deal_from-Reports answers (some []) [] s r hc hq e =
    let same : waiting r.sender ≡ [] =
      ap (λ (x : Dealt). waiting x.sender) (sym (ok-injective e)) ∙ rw (hc, hq) in
    let nothing : r.bytes ≡ [] = ap (λ (x : Dealt). x.bytes) (sym (ok-injective e)) in
    ([], rw (nothing, same), λ _. (refl, same))
deal_from-Reports answers (some (b ∷ bs)) [] s r hc hq e =
    Reports-of_Deals _ ((b ∷ bs) ∷ []) r (sym (append-nil (b ∷ bs)))
      (deal_queue-Deals answers ((b ∷ bs) ∷ []) (record s { send_cache = none }) r e)
      (deal_queue_clears answers ((b ∷ bs) ∷ []) (record s { send_cache = none }) r e)
deal_from-Reports answers (some cur) (c ∷ cs) s r hc hq e =
    Reports-of_Deals _ ((c ∷ cs) ++ (cur ∷ [])) r (sym (joined-append (c ∷ cs) cur))
      (deal_queue-Deals answers ((c ∷ cs) ++ (cur ∷ [])) (record s { send_cache = none }) r e)
      (deal_queue_clears answers ((c ∷ cs) ++ (cur ∷ [])) (record s { send_cache = none }) r e)

-- If dealSend returns, what reached the socket, then a part that is lost, then what still waits
-- are together what waited, in the order in which it was put there; and if it reports success,
-- nothing is lost and nothing waits any more.
pub deal_send_in_order :
    (answers : List Answer) (s : Sender) (r : Dealt)
    → deal_send answers s ≡ ok r
    → (lost : Bytes) × (waiting s ≡ r.bytes ++ (lost ++ waiting r.sender))
      × (r.succ ≡ true → (lost ≡ []) × (waiting r.sender ≡ []))
unfolding deal_send
deal_send_in_order answers s r e =
    deal_from-Reports answers s.send_cache s.send_cache_queue s r refl refl e

deal_from_clears :
    (answers : List Answer) (cache : Option Bytes) (queue : List Bytes) (s : Sender) (r : Dealt)
    → s.send_cache ≡ cache
    → joined queue ++ cached cache ≢ []
    → deal_from answers cache queue s ≡ ok r
    → r.sender.send_cache ≡ none
unfolding deal_from
deal_from_clears answers none [] s r hc w e = cc
deal_from_clears answers none (c ∷ cs) s r hc w e = deal_queue_clears answers (c ∷ cs) s r e ∙ hc
deal_from_clears answers (some []) [] s r hc w e = absurd (w refl)
deal_from_clears answers (some (b ∷ bs)) [] s r hc w e =
    deal_queue_clears answers ((b ∷ bs) ∷ []) (record s { send_cache = none }) r e
deal_from_clears answers (some cur) (c ∷ cs) s r hc w e =
    deal_queue_clears answers ((c ∷ cs) ++ (cur ∷ [])) (record s { send_cache = none }) r e

deal_from_empties :
    (answers : List Answer) (cache : Option Bytes) (queue : List Bytes) (s : Sender) (r : Dealt)
    → joined queue ++ cached cache ≢ []
    → deal_from answers cache queue s ≡ ok r
    → r.succ ≡ true
    → r.sender.send_cache_queue ≡ []
unfolding deal_from
deal_from_empties answers none [] s r w e good = cc
deal_from_empties answers none (c ∷ cs) s r w e good =
    ((deal_queue-Deals answers (c ∷ cs) s r e).2 good).1
deal_from_empties answers (some []) [] s r w e good = absurd (w refl)
deal_from_empties answers (some (b ∷ bs)) [] s r w e good =
    ((deal_queue-Deals answers ((b ∷ bs) ∷ []) (record s { send_cache = none }) r e).2 good).1
deal_from_empties answers (some cur) (c ∷ cs) s r w e good =
    ((deal_queue-Deals answers ((c ∷ cs) ++ (cur ∷ [])) (record s { send_cache = none }) r e).2
      good).1

-- If something waits, and dealSend returns and reports success, then the next call of dealSend
-- reads through a null pointer, unless a frame was put there in between.
pub deal_send_twice :
    (answers later : List Answer) (s : Sender) (r : Dealt)
    → waiting s ≢ []
    → deal_send answers s ≡ ok r
    → r.succ ≡ true
    → deal_send later r.sender ≡ abort
unfolding deal_send deal_from
deal_send_twice answers later s r w e good = rw (
  deal_from_clears answers s.send_cache s.send_cache_queue s r refl w e,
  deal_from_empties answers s.send_cache s.send_cache_queue s r w e good,
  deal_from,
)
