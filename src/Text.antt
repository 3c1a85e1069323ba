-- ===== src/Text.antt =====
-- The C library's text functions that the handlers and the configuration use: strtok, atoi, atoll,
-- strstr, and the decimal digits of sprintf.
pub mod Tokens
use kcpserver_cpp.Common.{
  ℕ, zero, suc, ◌+◌, ◌-◌, ◌*◌, ◌/◌, ◌%◌, ◌^◌, Bool, true, false, ◌&&◌, ◌||◌, List, [], ◌∷◌, ◌++◌,
  ◌==◌, ltb, leb, if◌then◌else◌, Bytes, c_str,
}

-- The tokens that repeated calls of `strtok(s, sep)` give for a separator of one byte: the
-- stretches without the separator that are not empty. `cur` is the stretch so far.
unfoldable pub strtok_from : ℕ → Bytes → Bytes → List Bytes
strtok_from sep cur [] = elim cur [ [] ↦ [] | c ∷ cs ↦ (c ∷ cs) ∷ [] ]
strtok_from sep cur (b ∷ bs) =
    let fresh = strtok_from sep [] bs in
    let longer = strtok_from sep (cur ++ (b ∷ [])) bs in
    if b == sep then elim cur [ [] ↦ fresh | c ∷ cs ↦ (c ∷ cs) ∷ fresh ] else longer

unfoldable pub strtok : ℕ → Bytes → List Bytes
unfolding strtok_from c_str
strtok sep s = strtok_from sep [] (c_str s)

abbrev is_digit : ℕ → Bool
is_digit b = leb b'0' b && leb b b'9'

abbrev is_space : ℕ → Bool
is_space b = b == b' ' || (leb 9 b && leb b 13)

pub digits_value : ℕ → Bytes → ℕ
digits_value acc [] = acc
digits_value acc (b ∷ bs) =
    let more = digits_value (acc * 10 + (b - b'0')) bs in if is_digit b then more else acc

pub skip_space : Bytes → Bytes
skip_space [] = []
skip_space (b ∷ bs) = let rest = skip_space bs in if is_space b then rest else b ∷ bs

-- atoi and atoll, as the low `w` bits of the number.
pub signed_value : ℕ → Bytes → ℕ
unfolding digits_value
signed_value w [] = 0
signed_value w (b ∷ bs) =
    if b == b'-'
    then (2 ^ w - digits_value 0 bs % 2 ^ w) % 2 ^ w
    else (if b == b'+' then digits_value 0 bs % 2 ^ w else digits_value 0 (b ∷ bs) % 2 ^ w)

unfoldable pub atoi : Bytes → ℕ
unfolding signed_value skip_space
atoi s = signed_value 32 (skip_space s)

unfoldable pub atoll : Bytes → ℕ
unfolding signed_value skip_space
atoll s = signed_value 64 (skip_space s)

-- sprintf("%d") of a number below 2 ^ 31 takes at most ten digits, and a larger pattern a sign.
unfoldable pub decimal_from : ℕ → ℕ → Bytes
decimal_from zero n = []
decimal_from (suc fuel) n =
    let front = decimal_from fuel (n / 10) in
    if ltb n 10 then (b'0' + n) ∷ [] else front ++ ((b'0' + n % 10) ∷ [])

unfoldable pub decimal : ℕ → Bytes
unfolding decimal_from
decimal n = if ltb n (2 ^ 31) then decimal_from 10 n else b'-' ∷ decimal_from 10 (2 ^ 32 - n)

-- strstr: does the text hold the word?
unfoldable pub starts_with : Bytes → Bytes → Bool
starts_with [] s = true
starts_with (w ∷ ws) [] = false
starts_with (w ∷ ws) (c ∷ cs) = w == c && starts_with ws cs

unfoldable pub strstr : Bytes → Bytes → Bool
unfolding starts_with
strstr [] w = starts_with w []
strstr (c ∷ cs) w = starts_with w (c ∷ cs) || strstr cs w
