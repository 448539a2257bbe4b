-- ===== src/Opc/Frame.antt =====
-- OpcS7/EdpsParams.cpp, `GetNextValue`: a field of a request is its length in three decimal digits
-- and then its bytes. `split_field` takes the bytes up to the terminator of the text.
pub mod RoundTrip
use edps_plc_data_acquisitio.Base.{
  ℕ, zero, suc, ◌+◌, ◌-◌, ◌*◌, ◌/◌, ◌%◌, ◌≡◌, refl, Bool, ◌&&◌, [], ◌∷◌, ◌++◌, Bytes, codes, leb,
  length, take, drop, if◌then◌else◌,
}

-- `CharNumberic`.
unfoldable pub char_numeric : ℕ → Bool
char_numeric ch = leb 0x30 ch && leb ch 0x39

-- What `GetNextValue` finds at `Point`: no length, a value and the text behind it, or a length that
-- leads past the terminator: this call, where it copies, or the next one reads outside the text.
pub data Field : Type 0 where
  no_field : Field
  field : Bytes → Bytes → Field
  overrun : ℕ → Field

unfoldable pub field_of : ℕ → Bytes → Field
field_of n rest = if leb n (length rest) then field (take n rest) (drop n rest) else overrun n

unfoldable pub split_field : Bytes → Field
split_field (a ∷ b ∷ c ∷ rest) =
    if char_numeric a && char_numeric b && char_numeric c
    then field_of ((a - 0x30) * 100 + (b - 0x30) * 10 + (c - 0x30)) rest
    else no_field
split_field _ = no_field

-- The three digits of a length, as `GetMReadResult` writes them: each is taken modulo ten.
unfoldable pub three_digits : ℕ → Bytes
three_digits n = (n / 10 / 10 % 10 + b'0') ∷ (n / 10 % 10 + b'0') ∷ (n % 10 + b'0') ∷ []

-- A value with its length in front.
unfoldable pub frame : Bytes → Bytes
frame v = three_digits (length v) ++ v

split_example : split_field (codes "004LONG003288") ≡ field (codes "LONG") (codes "003288")
unfolding split_field char_numeric field_of
split_example = refl
