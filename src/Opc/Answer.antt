-- ===== src/Opc/Answer.antt =====
-- OpcS7/EdpsParams.cpp, the answer to a read: `GetValueVariant` makes a text of an item's value, and
-- `CEdpsParamList::GetMReadResult` joins the numbers and the texts in a block that it lets grow.
pub mod Fits
pub mod Values
pub mod Reader
use edps_plc_data_acquisitio.Base.{
  ℕ, zero, suc, ◌+◌, ◌-◌, ◌*◌, ◌/◌, ◌%◌, ◌^◌, Bool, true, false, Option, none, some, List, [], ◌∷◌,
  ◌++◌, Bytes, codes, length, ltb, leb, ◌==◌, if◌then◌else◌,
}
use edps_plc_data_acquisitio.Crt.{ltoa}
use edps_plc_data_acquisitio.Opc.Frame.{three_digits}
use edps_plc_data_acquisitio.Opc.Params.{
  VarType, vt_i2, vt_i4, vt_r4, vt_r8, vt_bool, vt_i1, vt_ui1, vt_ui2, vt_ui4, vt_int, vt_uint,
  Variant, empty, scalar, byte_array, Ole,
}

-- `COPCItem`, as an answer sees it.
pub record Item : Type 0 where
  pub quality : ℕ
  pub value : Variant

-- A parameter with the item that `m_pItem` points to; it may be the null pointer.
pub record Reading : Type 0 where
  pub par_id : ℕ
  pub item : Option Item

-- `COPCItem::Quality`: both bits of the mask 0xC0 are set.
unfoldable pub is_good : ℕ → Bool
is_good quality = quality / 64 % 4 == 3

-- What `GetValueVariant` returns: the text in the buffer, which counts as good, or an error text; or
-- it has written behind the buffer.
pub data Value : Type 0 where
  text : Bytes → Value
  error : Bytes → Value
  overflow : Value

-- A text up to its terminator, in memory.
unfoldable pub up_to_nul : Bytes → Bytes
up_to_nul [] = []
up_to_nul (c ∷ s) = let rest = up_to_nul s in if c == 0 then [] else c ∷ rest

-- A text and its terminator must stay inside the buffer of `size` bytes.
abbrev pub in_buffer : ℕ → Bytes → Value
in_buffer size s = if ltb (length s) size then text (up_to_nul s) else overflow

module _ (ole : Ole) (size : ℕ) where
  unfoldable pub scalar_text : VarType → ℕ → Value
  scalar_text vt_bool d = in_buffer size (if d % 2 ^ 16 == 0 then codes "0" else codes "1")
  scalar_text vt_r4 d = in_buffer size (ole.gcvt_flt 8 d)
  scalar_text vt_r8 d = in_buffer size (ole.gcvt_dbl 12 d)
  scalar_text vt_i2 d = in_buffer size (ltoa d)
  scalar_text vt_i4 d = in_buffer size (ltoa d)
  scalar_text vt_int d = in_buffer size (ltoa d)
  scalar_text vt_ui2 d = in_buffer size (ltoa d)
  scalar_text vt_ui4 d = in_buffer size (ltoa d)
  scalar_text vt_uint d = in_buffer size (ltoa d)
  scalar_text vt_i1 d = error (codes "Error Type")
  scalar_text vt_ui1 d = error (codes "Error Type")

  -- The branches on `var.vt`.
  unfoldable pub variant_text : Variant → Value
  variant_text empty = error (codes "Error Type")
  variant_text (scalar vt d) = scalar_text vt d
  variant_text (byte_array bytes) =
      if ole.accesses bytes then in_buffer size bytes else in_buffer size []

  -- `GetValueVariant`.
  unfoldable pub get_value_variant : Option Item → Value
  get_value_variant none = error (codes "Error Read")
  get_value_variant (some i) =
      if is_good i.quality then variant_text i.value else error (codes "Error Read")

-- `szResult` with its size `nBufLen` and the bytes before `nBufPos`, and `dwOk`.
pub record Block : Type 0 where
  pub buf_len : ℕ
  pub out : Bytes
  pub ok : ℕ

-- `realloc`, if there is not enough space; the sizes are 32-bit numbers.
unfoldable pub grow : ℕ → Block → Block
grow need b =
    if ltb ((b.buf_len + (2 ^ 32 - length b.out)) % 2 ^ 32) (need + 7)
    then record b { buf_len = (b.buf_len + (need + 100)) % 2 ^ 32 }
    else b

-- The round behind `GetValueVariant`: the number and the text with their lengths, and a terminator,
-- which is the last byte written. `none` is a write behind the block.
unfoldable pub put : Bytes → Bytes → ℕ → Block → Option Block
put id value good b =
    let b' = grow (length id + length value) b in
    let out =
      b'.out ++ (three_digits (length id) ++ (id ++ (three_digits (length value) ++ value))) in
    if ltb (length out) b'.buf_len
    then some (record { buf_len = b'.buf_len; out = out; ok = b'.ok + good })
    else none

unfoldable pub put_value : ℕ → Value → Block → Option Block
put_value id (text s) b = put (ltoa id) s 1 b
put_value id (error s) b = put (ltoa id) s 0 b
put_value id overflow b = none

module _ (ole : Ole) where
  -- The loop over the list; `szDataBuf` has 64 bytes.
  unfoldable pub put_all : List Reading → Block → Option Block
  put_all [] b = some b
  put_all (q ∷ qs) b = elim (put_value q.par_id (get_value_variant ole 64 q.item) b) [
    | none ↦ none
    | some b' ↦ put_all qs b'
  ]

  abbrev first_block : List Reading → Block
  first_block qs = record { buf_len = length qs * 20 % 2 ^ 32; out = []; ok = 0 }

  -- `GetMReadResult`: the BSTR, or NULL where no value is good, and `dwOk`.
  unfoldable pub get_mread_result : List Reading → Option (Option Bytes × ℕ)
  get_mread_result qs = elim (put_all qs (first_block qs)) [
    | none ↦ none
    | some b ↦ some ((if b.ok == 0 then none else some b.out), b.ok)
  ]
