-- ===== src/Sapi/Data/RoundTrip.antt =====
-- `ReadData` of the bytes that `WriteData` hands over for the same type.
use edps_plc_data_acquisitio.Base.{
  ℕ, ◌^◌, ◌<◌, ◌≡◌, refl, false, Bytes, ℤ, pos, is_neg, codes, bytes_eq, arith,
}
use edps_plc_data_acquisitio.Base.Run.{ok}
use edps_plc_data_acquisitio.Crt.{ltoa}
use edps_plc_data_acquisitio.Crt.RoundTrip.{atol-ltoa}
use edps_plc_data_acquisitio.Sapi.Env.{S7}
use edps_plc_data_acquisitio.Sapi.Swap.{
  dword_bytes, word_bytes, convert_lng, convert_int, convert2_int,
}
use edps_plc_data_acquisitio.Sapi.Swap.Laws.{convert2-convert, convert2_int-convert_int}
use edps_plc_data_acquisitio.Sapi.Transfer.{Vars, read}
use edps_plc_data_acquisitio.Sapi.Data.{
  long, integer, byte_len, kind_of, read_buffer, converted, read_kind, read_data, write_buffer,
  write_kind, write_data,
}

kind_of_long : kind_of (codes "LONG") ≡ long
unfolding kind_of bytes_eq
kind_of_long = refl

kind_of_integer : kind_of (codes "INTEGER") ≡ integer
unfolding kind_of bytes_eq
kind_of_integer = refl

-- What `ReadData` hands to `Read` for a buffer of `n` bytes.
abbrev pub asked : {W : Type 0} → S7 W → ℕ → ℕ → W → Vars
asked s7 con_ref n w = record { con_ref = con_ref; buf_len = pos n; buf = s7.uninit n w }

-- For every 32-bit number: `WriteData` of its decimal text as a LONG hands over four bytes, and a
-- `ReadData` of a LONG whose `Read` succeeds with these bytes gives the same text.
pub read_data-write_data_long :
    {W : Type 0} (s7 : S7 W) (fuel desc con_ref : ℕ) (item : Bytes) (n : ℕ) (w w' : W) (r : ℤ)
    (v : Vars)
    → n < 2 ^ 32
    → read s7 fuel desc item (asked s7 con_ref 4 w) w ≡ ok (r, v) w'
    → is_neg r ≡ false
    → v.buf ≡ dword_bytes (convert_lng n)
    → (write_data s7 fuel desc con_ref item (codes "LONG") (ltoa n)
        ≡ write_buffer s7 fuel desc con_ref item 4 v.buf)
      × (read_data s7 fuel desc con_ref item (codes "LONG") w
          ≡ ok (record { value = (r, byte_len (ltoa n)); con_ref = v.con_ref }) w')
unfolding read_data read_kind read_buffer converted write_data write_kind
read_data-write_data_long s7 fuel desc con_ref item n w w' r v small answered good same = (
  rw (kind_of_long, write_kind, atol-ltoa n small, same),
  rw (kind_of_long, read_kind, answered, good, same, (convert2-convert n small).0),
)

-- For every 16-bit number, the same of an INTEGER and two bytes.
pub read_data-write_data_integer :
    {W : Type 0} (s7 : S7 W) (fuel desc con_ref : ℕ) (item : Bytes) (n : ℕ) (w w' : W) (r : ℤ)
    (v : Vars)
    → n < 2 ^ 16
    → read s7 fuel desc item (asked s7 con_ref 2 w) w ≡ ok (r, v) w'
    → is_neg r ≡ false
    → v.buf ≡ word_bytes (convert_int n)
    → (write_data s7 fuel desc con_ref item (codes "INTEGER") (ltoa n)
        ≡ write_buffer s7 fuel desc con_ref item 2 v.buf)
      × (read_data s7 fuel desc con_ref item (codes "INTEGER") w
          ≡ ok (record { value = (r, byte_len (ltoa n)); con_ref = v.con_ref }) w')
unfolding read_data read_kind read_buffer converted write_data write_kind
read_data-write_data_integer s7 fuel desc con_ref item n w w' r v small answered good same = (
  rw (kind_of_integer, write_kind, atol-ltoa n (omega arith), same),
  rw (kind_of_integer, read_kind, answered, good, same, back),
)
  where
    back : convert2_int (word_bytes (convert_int n)) ≡ n
    back = omega (arith, convert2_int-convert_int n (omega arith))
