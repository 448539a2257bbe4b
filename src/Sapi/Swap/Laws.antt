-- ===== src/Sapi/Swap/Laws.antt =====
-- The conversions undo one another, and put the highest byte first.
use mathlib.Core.List.{reverse}
use edps_plc_data_acquisitio.Base.{ℕ, ◌+◌, ◌*◌, ◌/◌, ◌%◌, ◌^◌, ◌<◌, ◌≡◌, ◌↔◌, [], ◌∷◌, arith}
use edps_plc_data_acquisitio.Sapi.Swap.{
  dword_bytes, word_bytes, convert2_flt, convert_flt, convert2_lng, convert_lng, convert2_int,
  convert_int,
}

-- Reading back the four bytes that `ConvertLng` and `ConvertFlt` prepare for the controller gives
-- the 32-bit value.
pub convert2-convert :
    (d : ℕ)
    → d < 2 ^ 32
    → (convert2_lng (dword_bytes (convert_lng d)) ≡ d)
      × (convert2_flt (dword_bytes (convert_flt d)) ≡ d)
unfolding convert2_lng convert_lng convert2_flt convert_flt
convert2-convert d h = omega arith

dword_bytes-parts :
    (a b c e : ℕ)
    → a < 256
    → b < 256
    → c < 256
    → e < 256
    → dword_bytes (a + 256 * b + 65536 * c + 16777216 * e) ≡ a ∷ b ∷ c ∷ e ∷ []
dword_bytes-parts a b c e ha hb hc he = ground arith

word_bytes-parts : (a b : ℕ) → a < 256 → b < 256 → word_bytes (a + 256 * b) ≡ a ∷ b ∷ []
word_bytes-parts a b ha hb = ground arith

bytes_bounds :
    (d : ℕ)
    → (d % 256 < 256) × (d / 256 % 256 < 256) × (d / 65536 % 256 < 256) × (d / 16777216 % 256 < 256)
bytes_bounds d = omega arith

-- What they prepare has the highest byte first.
pub convert_lng-reverse :
    (d : ℕ)
    → (dword_bytes (convert_lng d) ≡ reverse (dword_bytes d))
      × (dword_bytes (convert_flt d) ≡ reverse (dword_bytes d))
      × (word_bytes (convert_int d) ≡ reverse (word_bytes d))
unfolding convert_lng convert_flt convert_int
convert_lng-reverse d =
    let (b0, b1, b2, b3) = bytes_bounds d in
    let four = dword_bytes-parts _ _ _ _ b3 b2 b1 b0 in (four, four, word_bytes-parts _ _ b1 b0)

-- A 16-bit value comes back zero-extended.
pub convert2_int-convert_int :
    (i : ℕ) → i < 2 ^ 32 → convert2_int (word_bytes (convert_int i)) ≡ i % 2 ^ 16
unfolding convert2_int convert_int
convert2_int-convert_int i h = omega arith

-- So an `int` comes back as it was exactly when it is at least 0 and below 65536: no negative
-- `INTEGER` that is written is read back.
pub convert2_int_iff :
    (i : ℕ) → i < 2 ^ 32 → (convert2_int (word_bytes (convert_int i)) ≡ i) ↔ (i < 2 ^ 16)
convert2_int_iff i h = rw (convert2_int-convert_int i h) (λ e. omega arith, λ l. omega arith)
