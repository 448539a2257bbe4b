-- ===== src/Opc/Answer/Values.antt =====
-- `GetValueVariant` stays inside a buffer of 64 bytes.
use edps_plc_data_acquisitio.Base.{
  ℕ, ◌+◌, ◌≤◌, ◌<◌, ◌≡◌, true, Option, none, some, List, [], ◌∷◌, Bytes, length, ltb, arith,
  Bool-cases, inl, inr,
}
use edps_plc_data_acquisitio.Crt.RoundTrip.{length-ltoa}
use edps_plc_data_acquisitio.Opc.Params.{
  VarType, vt_i2, vt_i4, vt_r4, vt_r8, vt_bool, vt_i1, vt_ui1, vt_ui2, vt_ui4, vt_int, vt_uint,
  Variant, empty, scalar, byte_array, Ole,
}
use edps_plc_data_acquisitio.Opc.Answer.{
  Item, Reading, is_good, Value, text, error, overflow, up_to_nul, in_buffer, scalar_text,
  variant_text, get_value_variant,
}

-- `_gcvt` writes no more than the digits, a sign, a point, and an exponent of at most five
-- characters or as many zeros.
pub record GcvtLaws (ole : Ole) : Type 0 where
  pub flt_fits : (digits f : ℕ) → length (ole.gcvt_flt digits f) ≤ digits + 8
  pub dbl_fits : (digits d : ℕ) → length (ole.gcvt_dbl digits d) ≤ digits + 8

-- An array has room for its bytes and a terminator in `szDataBuf`.
abbrev pub IsShort : Variant → Type 0
IsShort (byte_array bytes) = length bytes < 64
IsShort empty = Unit {0}
IsShort (scalar vt d) = Unit {0}

abbrev pub IsShortItem : Option Item → Type 0
IsShortItem none = Unit {0}
IsShortItem (some i) = IsShort i.value

abbrev pub AllShort : List Reading → Type 0
AllShort [] = Unit {0}
AllShort (q ∷ qs) = IsShortItem q.item × AllShort qs

-- A value that stayed inside `szDataBuf`.
pub data Fitting : Value → Type 0 where
  fitting_text : {s : Bytes} → length s < 64 → Fitting (text s)
  fitting_error : {s : Bytes} → length s < 64 → Fitting (error s)

up_to_nul-length : (s : Bytes) → length (up_to_nul s) ≤ length s
unfolding up_to_nul
up_to_nul-length [] = omega arith
up_to_nul-length (c ∷ s) = ground (arith, up_to_nul-length s)

in_buffer-Fitting : (s : Bytes) → length s < 64 → Fitting (in_buffer 64 s)
in_buffer-Fitting s h = rw inside (fitting_text (omega (arith, up_to_nul-length s)))
  where
    inside : ltb (length s) 64 ≡ true
    inside = ground arith

module _ (ole : Ole) (laws : GcvtLaws ole) where
  scalar_text-Fitting : (vt : VarType) (d : ℕ) → Fitting (scalar_text ole 64 vt d)
  unfolding scalar_text
  scalar_text-Fitting vt_bool d = in_buffer-Fitting _ (ground arith)
  scalar_text-Fitting vt_r4 d = in_buffer-Fitting _ (omega (arith, laws.flt_fits 8 d))
  scalar_text-Fitting vt_r8 d = in_buffer-Fitting _ (omega (arith, laws.dbl_fits 12 d))
  scalar_text-Fitting vt_i2 d = in_buffer-Fitting _ (omega (arith, length-ltoa d))
  scalar_text-Fitting vt_i4 d = in_buffer-Fitting _ (omega (arith, length-ltoa d))
  scalar_text-Fitting vt_int d = in_buffer-Fitting _ (omega (arith, length-ltoa d))
  scalar_text-Fitting vt_ui2 d = in_buffer-Fitting _ (omega (arith, length-ltoa d))
  scalar_text-Fitting vt_ui4 d = in_buffer-Fitting _ (omega (arith, length-ltoa d))
  scalar_text-Fitting vt_uint d = in_buffer-Fitting _ (omega (arith, length-ltoa d))
  scalar_text-Fitting vt_i1 d = fitting_error (omega arith)
  scalar_text-Fitting vt_ui1 d = fitting_error (omega arith)

  variant_text-Fitting : (v : Variant) → IsShort v → Fitting (variant_text ole 64 v)
  unfolding variant_text
  variant_text-Fitting empty h = fitting_error (omega arith)
  variant_text-Fitting (scalar vt d) h = scalar_text-Fitting vt d
  variant_text-Fitting (byte_array bytes) h = elim (Bool-cases (ole.accesses bytes)) [
    | inl e ↦ rw e (in_buffer-Fitting bytes h)
    | inr e ↦ rw e (in_buffer-Fitting [] (omega arith))
  ]

  pub get_value_variant-Fitting :
      (i : Option Item) → IsShortItem i → Fitting (get_value_variant ole 64 i)
  unfolding get_value_variant
  get_value_variant-Fitting none h = fitting_error (omega arith)
  get_value_variant-Fitting (some i) h = elim (Bool-cases (is_good i.quality)) [
    | inl e ↦ rw e (variant_text-Fitting i.value h)
    | inr e ↦ rw e (fitting_error (omega arith))
  ]

-- The text that `GetValueVariant` returns, and what it adds to `dwGoodCount`.
abbrev pub value_text : Value → Bytes
value_text (text s) = s
value_text (error s) = s
value_text overflow = []

abbrev pub score : Value → ℕ
score (text s) = 1
score (error s) = 0
score overflow = 0

pub get_value_variant-short :
    (ole : Ole)
    → GcvtLaws ole
    → (i : Option Item) → IsShortItem i
    → length (value_text (get_value_variant ole 64 i)) < 64
get_value_variant-short ole laws i h = short (get_value_variant-Fitting ole laws i h)
  where
    short : {v : Value} → Fitting v → length (value_text v) < 64
    short (fitting_text l) = l
    short (fitting_error l) = l

abbrev pub long_array : ℕ → ℕ → Bytes → Reading
long_array id quality bytes = record {
  par_id = id;
  item = some (record { quality = quality; value = byte_array bytes });
}
