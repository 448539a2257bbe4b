-- ===== src/Sapi/Swap.antt =====
-- SAPI/CConnection.cpp, the conversions between the controller's byte order and the machine's.
-- The union `ConvHeap` on a little-endian machine: `s[0]` is the lowest byte of `l`, `i`, `dw`
-- and of the pattern of `f`. A buffer is the list of its bytes.
pub mod Laws
use edps_plc_data_acquisitio.Base.{ℕ, zero, suc, ◌+◌, ◌*◌, ◌/◌, ◌%◌, ◌≡◌, refl, [], ◌∷◌, Bytes}

-- `union ConvHeap`, by its bytes.
pub record ConvHeap : Type 0 where
  pub s0 : ℕ
  pub s1 : ℕ
  pub s2 : ℕ
  pub s3 : ℕ

-- Writing `l`, `i`, `dw` or the pattern of `f`, and reading it.
abbrev pub of_dword : ℕ → ConvHeap
of_dword d = record {
  s0 = d % 256;
  s1 = d / 256 % 256;
  s2 = d / 65536 % 256;
  s3 = d / 16777216 % 256;
}

abbrev pub dw : ConvHeap → ℕ
dw ss = ss.s0 + 256 * ss.s1 + 65536 * ss.s2 + 16777216 * ss.s3

-- Reading `sw`, the low word.
abbrev pub sw : ConvHeap → ℕ
sw ss = ss.s0 + 256 * ss.s1

-- The byte at `pData + i`; the sources read no byte past the buffers that they pass.
abbrev pub byte_at : Bytes → ℕ → ℕ
byte_at [] i = 0
byte_at (x ∷ xs) zero = x
byte_at (x ∷ xs) (suc i) = byte_at xs i

-- The memory of a `DWORD` and of a `WORD` variable.
abbrev pub dword_bytes : ℕ → Bytes
dword_bytes d = d % 256 ∷ d / 256 % 256 ∷ d / 65536 % 256 ∷ d / 16777216 % 256 ∷ []

abbrev pub word_bytes : ℕ → Bytes
word_bytes w = w % 256 ∷ w / 256 % 256 ∷ []

unfoldable pub convert2_flt : Bytes → ℕ
convert2_flt p = dw ss
  where
    ss : ConvHeap
    ss = record { s0 = byte_at p 3; s1 = byte_at p 2; s2 = byte_at p 1; s3 = byte_at p 0 }

unfoldable pub convert_flt : ℕ → ℕ
convert_flt f = dw (record { s0 = ss.s3; s1 = ss.s2; s2 = ss.s1; s3 = ss.s0 })
  where
    ss : ConvHeap
    ss = of_dword f

unfoldable pub convert2_lng : Bytes → ℕ
convert2_lng p = dw ss
  where
    ss : ConvHeap
    ss = record { s0 = byte_at p 3; s1 = byte_at p 2; s2 = byte_at p 1; s3 = byte_at p 0 }

unfoldable pub convert_lng : ℕ → ℕ
convert_lng l = dw (record { s0 = ss.s3; s1 = ss.s2; s2 = ss.s1; s3 = ss.s0 })
  where
    ss : ConvHeap
    ss = of_dword l

unfoldable pub convert2_int : Bytes → ℕ
convert2_int p = dw ss
  where
    ss : ConvHeap
    ss = record { s0 = byte_at p 1; s1 = byte_at p 0; s2 = 0; s3 = 0 }

unfoldable pub convert_int : ℕ → ℕ
convert_int i = sw (record { s0 = ss.s1; s1 = ss.s0; s2 = 0; s3 = 0 })
  where
    ss : ConvHeap
    ss = of_dword i

convert_lng_runs : convert_lng 0x0102_0304 ≡ 0x0403_0201
unfolding convert_lng
convert_lng_runs = refl
