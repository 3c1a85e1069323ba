-- ===== src/Text/Tokens.antt =====
-- strtok: the tokens of a text that is put together from them.
use kcpserver_cpp.Common.{
  ℕ, ◌≡◌, refl, sym, ap, ◌∙◌, Bool, true, false, not, List, [], ◌∷◌, ◌++◌, ◌==◌, eq_same, ◌&&◌,
  ◌||◌, Bytes, c_str, append-nil, append_assoc, arith,
}
use kcpserver_cpp.Text.{strtok_from, strtok, starts_with, strstr}

-- A text without a 0 and without the separator, and one that is not empty either.
abbrev pub Lacks : ℕ → Bytes → Type 0
Lacks sep [] = Unit {0}
Lacks sep (b ∷ bs) = ((b == 0) ≡ false) × ((b == sep) ≡ false) × Lacks sep bs

abbrev pub IsToken : ℕ → Bytes → Type 0
IsToken sep [] = ⊥
IsToken sep (b ∷ bs) = Lacks sep (b ∷ bs)

abbrev pub AllTokens : ℕ → List Bytes → Type 0
AllTokens sep [] = Unit {0}
AllTokens sep (w ∷ ws) = IsToken sep w × AllTokens sep ws

-- Each token with the separator behind it.
abbrev pub unlines : ℕ → List Bytes → Bytes
unlines sep [] = []
unlines sep (w ∷ ws) = w ++ (sep ∷ unlines sep ws)

-- The same as a test.
abbrev pub lacks : ℕ → Bytes → Bool
lacks sep [] = true
lacks sep (b ∷ bs) = not (b == 0) && not (b == sep) && lacks sep bs

pub lacks-Lacks : (sep : ℕ) (w : Bytes) → lacks sep w ≡ true → Lacks sep w
lacks-Lacks sep [] e = tt
lacks-Lacks sep (b ∷ bs) e = ground (arith, lacks-Lacks sep bs)

pub Lacks-append : (sep : ℕ) (xs ys : Bytes) → Lacks sep xs → Lacks sep ys → Lacks sep (xs ++ ys)
Lacks-append sep [] ys _ h = h
Lacks-append sep (x ∷ xs) ys (z, n, g) h = (z, n, Lacks-append sep xs ys g h)

c_str-append : (sep : ℕ) (w rest : Bytes) → Lacks sep w → c_str (w ++ rest) ≡ w ++ c_str rest
unfolding c_str
c_str-append sep [] rest h = refl
c_str-append sep (b ∷ bs) rest (z, n, h) = rw z (ap (◌∷◌ b) (c_str-append sep bs rest h))

pub c_str-Lacks : (sep : ℕ) (w : Bytes) → Lacks sep w → c_str w ≡ w
unfolding c_str
c_str-Lacks sep w h = ap c_str (sym (append-nil w)) ∙ c_str-append sep w [] h ∙ append-nil w

c_str-unlines :
    (sep : ℕ) (ws : List Bytes) (rest : Bytes)
    → (sep == 0) ≡ false
    → AllTokens sep ws
    → c_str (unlines sep ws ++ (0 ∷ rest)) ≡ unlines sep ws
unfolding c_str
c_str-unlines sep [] rest s h = refl
c_str-unlines sep ([] ∷ ws) rest s (h, hs) = absurd h
c_str-unlines sep ((b ∷ bs) ∷ ws) rest s (h, hs) =
    let later = c_str-unlines sep ws rest s hs in
    let shift = append_assoc (b ∷ bs) (sep ∷ unlines sep ws) (0 ∷ rest) in
    ap c_str shift
    ∙ (c_str-append sep (b ∷ bs) _ h
        ∙ ap (λ (t : Bytes). (b ∷ bs) ++ t) (rw s (ap (◌∷◌ sep) later)))

-- A stretch without the separator joins the one before it.
strtok_from-Lacks :
    (sep : ℕ) (cur w rest : Bytes)
    → Lacks sep w
    → strtok_from sep cur (w ++ rest) ≡ strtok_from sep (cur ++ w) rest
unfolding strtok_from
strtok_from-Lacks sep cur [] rest h = rw append-nil
strtok_from-Lacks sep cur (b ∷ bs) rest (z, n, h) =
    rw n (strtok_from-Lacks sep (cur ++ (b ∷ [])) bs rest h)
    ∙ ap (λ (t : Bytes). strtok_from sep t rest) (append_assoc cur (b ∷ []) bs)

c_str-token :
    (sep : ℕ) (w rest : Bytes)
    → (sep == 0) ≡ false
    → IsToken sep w
    → c_str (w ++ (sep ∷ rest)) ≡ w ++ (sep ∷ c_str rest)
unfolding c_str
c_str-token sep [] rest s h = absurd h
c_str-token sep (b ∷ bs) rest s h =
    c_str-append sep (b ∷ bs) (sep ∷ rest) h ∙ ap (λ (t : Bytes). (b ∷ bs) ++ t) (rw s)

c_str_last : (sep : ℕ) (w : Bytes) → IsToken sep w → c_str w ≡ w
c_str_last sep [] h = absurd h
c_str_last sep (b ∷ bs) h = c_str-Lacks sep (b ∷ bs) h

pub strtok_from-token :
    (sep : ℕ) (w rest : Bytes)
    → IsToken sep w
    → strtok_from sep [] (w ++ (sep ∷ rest)) ≡ w ∷ strtok_from sep [] rest
unfolding strtok_from
strtok_from-token sep [] rest h = absurd h
strtok_from-token sep (b ∷ bs) rest h =
    strtok_from-Lacks sep [] (b ∷ bs) (sep ∷ rest) h ∙ rw eq_same

pub strtok_from_last : (sep : ℕ) (w : Bytes) → IsToken sep w → strtok_from sep [] w ≡ w ∷ []
unfolding strtok_from
strtok_from_last sep [] h = absurd h
strtok_from_last sep (b ∷ bs) h =
    ap (strtok_from sep []) (sym (append-nil (b ∷ bs))) ∙ strtok_from-Lacks sep [] (b ∷ bs) [] h

strtok_from-unlines :
    (sep : ℕ) (ws : List Bytes) → AllTokens sep ws → strtok_from sep [] (unlines sep ws) ≡ ws
unfolding strtok_from
strtok_from-unlines sep [] h = refl
strtok_from-unlines sep (w ∷ ws) (h, hs) =
    strtok_from-token sep w (unlines sep ws) h ∙ ap (◌∷◌ w) (strtok_from-unlines sep ws hs)

-- The lines of a text, whatever stands behind its terminating 0.
pub strtok-unlines :
    (sep : ℕ) (ws : List Bytes) (rest : Bytes)
    → (sep == 0) ≡ false
    → AllTokens sep ws
    → strtok sep (unlines sep ws ++ (0 ∷ rest)) ≡ ws
unfolding strtok
strtok-unlines sep ws rest s h =
    ap (strtok_from sep []) (c_str-unlines sep ws rest s h) ∙ strtok_from-unlines sep ws h

-- Three tokens with the separator between them.
pub strtok_three :
    (sep : ℕ) (x y z : Bytes)
    → (sep == 0) ≡ false
    → IsToken sep x
    → IsToken sep y
    → IsToken sep z
    → strtok sep (x ++ (sep ∷ y ++ (sep ∷ z))) ≡ x ∷ y ∷ z ∷ []
unfolding strtok
strtok_three sep x y z s hx hy hz =
    ap (strtok_from sep []) (
      c_str-token sep x _ s hx
      ∙ ap (λ (t : Bytes). x ++ (sep ∷ t))
          (c_str-token sep y z s hy ∙ ap (λ (t : Bytes). y ++ (sep ∷ t)) (c_str_last sep z hz)))
    ∙ (strtok_from-token sep x _ hx
        ∙ ap (◌∷◌ x) (strtok_from-token sep y z hy ∙ ap (◌∷◌ y) (strtok_from_last sep z hz)))

starts_with_refl : (w rest : Bytes) → starts_with w (w ++ rest) ≡ true
unfolding starts_with
starts_with_refl [] rest = refl
starts_with_refl (b ∷ bs) rest = rw (eq_same, starts_with_refl bs rest)

or_left : (a b : Bool) → a ≡ true → (a || b) ≡ true
or_left a b e = rw e

pub strstr_refl : (w : Bytes) → strstr w w ≡ true
unfolding strstr starts_with
strstr_refl [] = refl
strstr_refl (b ∷ bs) =
    let e : starts_with (b ∷ bs) (b ∷ bs) ≡ true =
      ap (starts_with (b ∷ bs)) (sym (append-nil (b ∷ bs))) ∙ starts_with_refl (b ∷ bs) [] in
    or_left _ (strstr bs (b ∷ bs)) e
