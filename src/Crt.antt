-- ===== src/Crt.antt =====
-- The C run-time routines on decimal texts that the sources call: `atol`, `atoi`, `_ltoa`, `_itoa`.
-- A `long` or an `int` is its 32-bit pattern.
pub mod RoundTrip
use edps_plc_data_acquisitio.Base.{
  ℕ, zero, suc, ◌+◌, ◌-◌, ◌*◌, ◌/◌, ◌%◌, ◌^◌, ◌≡◌, refl, Bool, ◌&&◌, ◌||◌, [], ◌∷◌, Bytes, codes,
  ltb, leb, ◌==◌, if◌then◌else◌,
}

is_space : ℕ → Bool
is_space c = c == 32 || (leb 9 c && leb c 13)

is_digit : ℕ → Bool
is_digit c = leb b'0' c && leb c b'9'

skip_space : Bytes → Bytes
unfolding is_space
skip_space [] = []
skip_space (c ∷ s) = let rest = skip_space s in if is_space c then rest else c ∷ s

-- `total = 10 * total + (c - '0')` in 32 bits, up to the first byte that is no digit.
scan_digits : ℕ → Bytes → ℕ
unfolding is_digit
scan_digits total [] = total
scan_digits total (c ∷ s) =
    let rest = scan_digits ((10 * total + (c - b'0')) % 2 ^ 32) s in
    if is_digit c then rest else total

-- `-total` in 32 bits.
abbrev negate32 : ℕ → ℕ
negate32 n = (2 ^ 32 - n) % 2 ^ 32

after_sign : Bytes → ℕ
unfolding scan_digits
after_sign [] = 0
after_sign (c ∷ s) =
    if c == b'-'
    then negate32 (scan_digits 0 s)
    else if c == b'+'
    then scan_digits 0 s
    else scan_digits 0 (c ∷ s)

-- `atol` and `atoi`.
unfoldable pub atol : Bytes → ℕ
unfolding skip_space after_sign
atol s = after_sign (skip_space s)

-- The digits of `n` in front of `out`; ten rounds serve every 32-bit number.
put_digits : ℕ → ℕ → Bytes → Bytes
put_digits zero n out = out
put_digits (suc f) n out =
    let rest = put_digits f (n / 10) ((b'0' + n % 10) ∷ out) in
    if ltb n 10 then (b'0' + n) ∷ out else rest

-- `_ltoa(l, buf, 10)` and `_itoa`.
unfoldable pub ltoa : ℕ → Bytes
unfolding put_digits
ltoa w = if ltb w (2 ^ 31) then put_digits 10 w [] else b'-' ∷ put_digits 10 (2 ^ 32 - w) []

ltoa_negative : ltoa (2 ^ 32 - 120) ≡ codes "-120"
unfolding ltoa
ltoa_negative = refl

atol_trailing : atol (codes "  +42abc") ≡ 42
unfolding atol
atol_trailing = refl
