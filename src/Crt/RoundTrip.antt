-- ===== src/Crt/RoundTrip.antt =====
-- Printing a 32-bit integer and reading it back.
use native.Mathlib.Nat.{pow-suc}
use edps_plc_data_acquisitio.Base.{
  ℕ, zero, suc, ◌+◌, ◌-◌, ◌*◌, ◌/◌, ◌%◌, ◌^◌, ◌≤◌, ◌<◌, ◌≡◌, ap, ◌∙◌, refl, inl, inr, [], ◌∷◌,
  Bytes, length, ltb, arith, Bool-cases,
}
use edps_plc_data_acquisitio.Crt.{
  negate32, skip_space, scan_digits, after_sign, put_digits, atol, ltoa,
}

scan_digits-cons :
    (t d : ℕ) (s : Bytes)
    → d < 10
    → scan_digits t ((b'0' + d) ∷ s) ≡ scan_digits ((10 * t + d) % 2 ^ 32) s
unfolding scan_digits
scan_digits-cons t d s h = ground arith

scan_last : (n : ℕ) (out : Bytes) → n < 10 → scan_digits 0 ((b'0' + n) ∷ out) ≡ scan_digits n out
scan_last n out h =
    rw (scan_digits-cons 0 n out h) (ap (λ (k : ℕ). scan_digits k out) (omega arith))

scan_step :
    (n : ℕ) (out : Bytes)
    → n < 2 ^ 32
    → scan_digits (n / 10) ((b'0' + n % 10) ∷ out) ≡ scan_digits n out
scan_step n out w =
    rw (scan_digits-cons (n / 10) (n % 10) out (omega arith))
      (ap (λ (k : ℕ). scan_digits k out) (omega arith))

tenth_lt : (f n : ℕ) → n < 10 ^ suc (suc f) → n / 10 < 10 ^ suc f
tenth_lt f n h = omega (arith, pow-suc 10 (suc f))

scan_digits-put_digits :
    (f n : ℕ) (out : Bytes)
    → n < 10 ^ suc f
    → n < 2 ^ 32
    → scan_digits 0 (put_digits (suc f) n out) ≡ scan_digits n out
unfolding put_digits
scan_digits-put_digits zero n out h w = ground (arith, scan_last n out)
scan_digits-put_digits (suc f) n out h w = elim (Bool-cases (ltb n 10)) [
  | inl small ↦ rw small (scan_last n out (ground arith))
  | inr large ↦ rw large (
      scan_digits-put_digits f (n / 10) ((b'0' + n % 10) ∷ out) (tenth_lt f n h) (omega arith)
      ∙ scan_step n out w)
]

-- A text that begins with a digit holds no space and no sign to read.
abbrev Plain : Bytes → Type 0
Plain s = after_sign (skip_space s) ≡ scan_digits 0 s

digit-Plain : (d : ℕ) (out : Bytes) → d < 10 → Plain ((b'0' + d) ∷ out)
unfolding after_sign skip_space
digit-Plain d out h = ground arith

put_digits-Plain : (f n d : ℕ) (out : Bytes) → d < 10 → Plain (put_digits f n ((b'0' + d) ∷ out))
unfolding put_digits
put_digits-Plain zero n d out h = digit-Plain d out h
put_digits-Plain (suc f) n d out h = elim (Bool-cases (ltb n 10)) [
  | inl small ↦ rw small (digit-Plain n ((b'0' + d) ∷ out) (ground arith))
  | inr large ↦ rw large (put_digits-Plain f (n / 10) (n % 10) ((b'0' + d) ∷ out) (omega arith))
]

put_digits-suc-Plain : (f n : ℕ) (out : Bytes) → Plain (put_digits (suc f) n out)
unfolding put_digits
put_digits-suc-Plain f n out = elim (Bool-cases (ltb n 10)) [
  | inl small ↦ rw small (digit-Plain n out (ground arith))
  | inr large ↦ rw large (put_digits-Plain f (n / 10) (n % 10) out (omega arith))
]

atol_lem : (s : Bytes) → atol s ≡ after_sign (skip_space s)
unfolding atol
atol_lem s = refl

ltoa_pos : (w : ℕ) → w < 2 ^ 31 → ltoa w ≡ put_digits 10 w []
unfolding ltoa
ltoa_pos w h = ground arith

ltoa_neg : (w : ℕ) → 2 ^ 31 ≤ w → ltoa w ≡ b'-' ∷ put_digits 10 (2 ^ 32 - w) []
unfolding ltoa
ltoa_neg w h = ground arith

scan_nil : (n : ℕ) → scan_digits n [] ≡ n
unfolding scan_digits
scan_nil n = refl

scan_whole : (n : ℕ) → n < 2 ^ 32 → scan_digits 0 (put_digits 10 n []) ≡ n
scan_whole n h = scan_digits-put_digits 9 n [] (omega arith) h ∙ scan_nil n

minus_sign : (s : Bytes) → after_sign (skip_space (b'-' ∷ s)) ≡ negate32 (scan_digits 0 s)
unfolding after_sign skip_space
minus_sign s = refl

-- Printing a 32-bit integer and reading the text back gives the integer.
pub atol-ltoa : (w : ℕ) → w < 2 ^ 32 → atol (ltoa w) ≡ w
atol-ltoa w h = elim (Bool-cases (ltb w (2 ^ 31))) [
  | inl low ↦ rw (ltoa_pos w (ground arith), atol_lem, put_digits-suc-Plain 9 w []) (scan_whole w h)
  | inr high ↦
      rw (ltoa_neg w (ground arith), atol_lem, minus_sign, scan_whole (2 ^ 32 - w) (ground arith))
        (ground arith)
]

length-put_digits : (f n : ℕ) (out : Bytes) → length (put_digits f n out) ≤ f + length out
unfolding put_digits
length-put_digits zero n out = omega arith
length-put_digits (suc f) n out =
    ground (arith, length-put_digits f (n / 10) ((b'0' + n % 10) ∷ out))

-- A printed integer takes eleven bytes at most.
pub length-ltoa : (w : ℕ) → length (ltoa w) ≤ 11
length-ltoa w = elim (Bool-cases (ltb w (2 ^ 31))) [
  | inl low ↦ rw (ltoa_pos w (ground arith)) (omega (arith, length-put_digits 10 w []))
  | inr high ↦ rw (ltoa_neg w (ground arith)) (omega (arith, length-put_digits 10 (2 ^ 32 - w) []))
]
