-- ===== src/Opc/Frame/RoundTrip.antt =====
-- A framed value is found again.
use edps_plc_data_acquisitio.Base.{
  ℕ, zero, suc, ◌+◌, ◌-◌, ◌*◌, ◌/◌, ◌%◌, ◌≤◌, ◌<◌, ◌≡◌, [], ◌∷◌, ◌++◌, Bytes, length, take, drop,
  true, length-append, take-append, drop-append, arith,
}
use edps_plc_data_acquisitio.Opc.Frame.{
  field, char_numeric, field_of, split_field, three_digits, frame,
}

digits_numeric : (d : ℕ) → d < 10 → char_numeric (d + b'0') ≡ true
unfolding char_numeric
digits_numeric d h = ground arith

field_of-append : (v rest : Bytes) → field_of (length v) (v ++ rest) ≡ field v rest
unfolding field_of
field_of-append v rest =
    ground (arith, length-append v rest, take-append v rest, drop-append v rest)

-- `GetNextValue` on a value of fewer than a thousand bytes with its length in front gives the value
-- and the text behind it.
pub split_field-frame :
    (v rest : Bytes) → length v < 1000 → split_field (frame v ++ rest) ≡ field v rest
unfolding split_field frame three_digits
split_field-frame v rest h =
    rw
      (
        digits_numeric (length v / 10 / 10 % 10) (omega arith),
        digits_numeric (length v / 10 % 10) (omega arith),
        digits_numeric (length v % 10) (omega arith),
        value,
      )
      (field_of-append v rest)
  where
    value :
        (length v / 10 / 10 % 10 + 48 - 48) * 100
          + (length v / 10 % 10 + 48 - 48) * 10
          + (length v % 10 + 48 - 48)
        ≡ length v
    value = omega arith

length-take-drop :
    (n : ℕ) (s : Bytes) → n ≤ length s → length s ≡ length (take n s) + length (drop n s)
length-take-drop zero s h = omega arith
length-take-drop (suc n) [] h = absurd (omega arith)
length-take-drop (suc n) (x ∷ s) h = omega (arith, length-take-drop n s)

field_of-length :
    (n : ℕ) (s v rest : Bytes) → field_of n s ≡ field v rest → length s ≡ length v + length rest
unfolding field_of
field_of-length n s v rest e = ground (arith, length-take-drop n s)

-- A field is taken from the front of the text: three bytes and the value.
pub split_field-length :
    (s v rest : Bytes) → split_field s ≡ field v rest → length s ≡ 3 + length v + length rest
unfolding split_field
split_field-length [] v rest e = ground arith
split_field-length (a ∷ []) v rest e = ground arith
split_field-length (a ∷ b ∷ []) v rest e = ground arith
split_field-length (a ∷ b ∷ c ∷ s) v rest e =
    ground (arith, field_of-length ((a - 0x30) * 100 + (b - 0x30) * 10 + (c - 0x30)) s v rest)
