-- ===== src/Sapi/Data.antt =====
-- SAPI/CConnection.cpp, `CConnection::ReadData` and `CConnection::WriteData`: the choice of a
-- conversion by the name of the type. Both run on a connection's descriptor and reference, and
-- return the reference that the calls leave in the connection.
pub mod Ends
pub mod RoundTrip
use edps_plc_data_acquisitio.Base.{
  ℕ, ◌%◌, Bytes, ℤ, pos, minus, is_neg, signed32, [], ◌∷◌, ◌++◌, codes, bytes_eq, has_prefix, drop,
  if◌then◌else◌, ltb,
}
use edps_plc_data_acquisitio.Base.Run.{M, pure, ◌>>=◌}
use edps_plc_data_acquisitio.Crt.{atol, ltoa}
use edps_plc_data_acquisitio.Sapi.Env.{S7}
use edps_plc_data_acquisitio.Sapi.Swap.{
  byte_at, dword_bytes, word_bytes, convert2_flt, convert_flt, convert2_lng, convert_lng,
  convert2_int, convert_int,
}
use edps_plc_data_acquisitio.Sapi.Transfer.{Vars, read, write}

-- A BSTR: the bytes given to `SysAllocStringByteLen`, or the text given to `SysAllocString`, which
-- takes the narrow text that it is handed for wide characters.
pub data Bstr : Type 0 where
  byte_len : Bytes → Bstr
  wide : Bytes → Bstr

-- The types that the two functions know, in the order in which they ask.
pub data Kind : Type 0 where
  bit float long integer : Kind
  string_of : ℤ → Kind
  unknown : Kind

unfoldable pub kind_of : Bytes → Kind
kind_of type =
    if bytes_eq type (codes "BIT")
    then bit
    else if bytes_eq type (codes "FLOAT")
    then float
    else if bytes_eq type (codes "LONG")
    then long
    else if bytes_eq type (codes "INTEGER")
    then integer
    else if has_prefix (codes "STRING*") type
    then string_of (signed32 (atol (drop 7 type)))
    else unknown

-- What a call leaves: its result, and the connection's reference.
pub record Done (A : Type 0) : Type 0 where
  pub value : A
  pub con_ref : ℕ

abbrev pub error_text : Bstr
error_text = wide (codes "Error!!!")

module _ {W : Type 0} (s7 : S7 W) (fuel desc : ℕ) where
  -- `Read` into an uninitialised buffer of `n` bytes: the return value and the buffer.
  unfoldable pub read_buffer : ℕ → Bytes → ℕ → M W (Done (ℤ × Bytes))
  read_buffer con_ref item n w =
      let start : Vars = record { con_ref = con_ref; buf_len = pos n; buf = s7.uninit n w } in
      (do
        (res, v) ← read s7 fuel desc item start
        pure (record { value = (res, v.buf); con_ref = v.con_ref }))
        w

  -- The end of each branch of `ReadData`: an error text, or the converted buffer.
  unfoldable pub converted : (Bytes → Bytes) → Done (ℤ × Bytes) → Done (ℤ × Bstr)
  converted f d = record {
    value = (d.value.0, if is_neg d.value.0 then error_text else byte_len (f d.value.1));
    con_ref = d.con_ref;
  }

  unfoldable pub read_kind : ℕ → Bytes → Kind → M W (Done (ℤ × Bstr))
  read_kind con_ref item bit = do
    d ← read_buffer con_ref item 1
    pure (converted (λ buf. ltoa (byte_at buf 0 % 2)) d)
  read_kind con_ref item float = do
    d ← read_buffer con_ref item 4
    pure (converted (λ buf. s7.gcvt 12 (convert2_flt buf)) d)
  read_kind con_ref item long = do
    d ← read_buffer con_ref item 4
    pure (converted (λ buf. ltoa (convert2_lng buf)) d)
  read_kind con_ref item integer = do
    d ← read_buffer con_ref item 2
    pure (converted (λ buf. ltoa (convert2_int buf)) d)
  read_kind con_ref item (string_of (pos n)) =
      if ltb 0 n
      then (do d ← read_buffer con_ref item n; pure (converted (λ buf. buf) d))
      else pure (record {
        value = (minus 1, wide (codes "Error!!! Wrong parameter in STRING*"));
        con_ref = con_ref;
      })
  read_kind con_ref item (string_of other) = pure (record {
    value = (minus 1, wide (codes "Error!!! Wrong parameter in STRING*"));
    con_ref = con_ref;
  })
  read_kind con_ref item unknown =
      pure (record { value = (minus 1, wide (codes "Error!!! Unknown type!")); con_ref = con_ref })

  unfoldable pub read_data : ℕ → Bytes → Bytes → M W (Done (ℤ × Bstr))
  read_data con_ref item type = read_kind con_ref item (kind_of type)

  -- `Write` of `n` bytes from a buffer.
  unfoldable pub write_buffer : ℕ → Bytes → ℕ → Bytes → M W (Done ℤ)
  write_buffer con_ref item n buf = do
    (res, v) ← write s7 fuel desc item (record { con_ref = con_ref; buf_len = pos n; buf = buf })
    pure (record { value = res; con_ref = v.con_ref })

  -- The text stands in memory with its terminator.
  unfoldable pub write_kind : ℕ → Bytes → Kind → Bytes → M W (Done ℤ)
  write_kind con_ref item bit text = write_buffer con_ref item 1 (atol text % 256 ∷ [])
  write_kind con_ref item float text =
      write_buffer con_ref item 4 (dword_bytes (convert_flt (s7.atof text)))
  write_kind con_ref item long text =
      write_buffer con_ref item 4 (dword_bytes (convert_lng (atol text)))
  write_kind con_ref item integer text =
      write_buffer con_ref item 2 (word_bytes (convert_int (atol text)))
  write_kind con_ref item (string_of (pos n)) text =
      if ltb 0 n
      then write_buffer con_ref item n (text ++ 0 ∷ [])
      else pure (record { value = minus 5; con_ref = con_ref })
  write_kind con_ref item (string_of other) text =
      pure (record { value = minus 5; con_ref = con_ref })
  write_kind con_ref item unknown text = pure (record { value = minus 6; con_ref = con_ref })

  unfoldable pub write_data : ℕ → Bytes → Bytes → Bytes → M W (Done ℤ)
  write_data con_ref item type text = write_kind con_ref item (kind_of type) text
