-- ===== src/Opc/Params.antt =====
-- OpcS7/EdpsParams.h and .cpp, the entries of a parameter list: `CEdpsParamList::AddItem` with the
-- value that a type and a text give, and the list's name with its hash.
use Prim.Native.Nat.{bit_or, bit_xor}
use edps_plc_data_acquisitio.Base.{
  ℕ, zero, suc, ◌+◌, ◌-◌, ◌*◌, ◌%◌, ◌^◌, Bool, true, false, ◌||◌, ◌&&◌, Option, none, some, List,
  [], ◌∷◌, ◌++◌, Bytes, codes, bytes_eq, has_prefix, length, drop, ltb, leb, if◌then◌else◌,
}
use edps_plc_data_acquisitio.Crt.{atol, ltoa}

-- `VT_I2`, `VT_I4`, `VT_R4`, `VT_R8`, `VT_BOOL`, `VT_I1`, `VT_UI1`, `VT_UI2`, `VT_UI4`, `VT_INT`
-- and `VT_UINT`.
pub data VarType : Type 0 where
  vt_i2 vt_i4 vt_r4 vt_r8 vt_bool vt_i1 vt_ui1 vt_ui2 vt_ui4 vt_int vt_uint : VarType

-- A VARIANT: `VT_EMPTY`, a scalar by its type and the 32-bit pattern in its data (that of a `double`
-- for `VT_R8`), or a one-dimensional array of bytes whose lowest index is 0.
pub data Variant : Type 0 where
  empty : Variant
  scalar : VarType → ℕ → Variant
  byte_array : Bytes → Variant

-- `CEdpsParam`. `item` is the position of the OPC item that `m_pItem` points to in its group's list.
pub record Param : Type 0 where
  pub par_id : ℕ
  pub item_id : Bytes
  pub val : Variant
  pub item : Option ℕ

-- What OLE and the run-time do: whether `SafeArrayCreate` gives an array of so many bytes that can
-- be accessed, whether `SafeArrayAccessData` gives the bytes of an array, `atof` to the pattern of a
-- `float`, and `_gcvt` with so many digits of the pattern of a `float` and of a `double`.
pub record Ole : Type 0 where
  pub creates : ℕ → Bool
  pub accesses : Bytes → Bool
  pub atof : Bytes → ℕ
  pub gcvt_flt : ℕ → ℕ → Bytes
  pub gcvt_dbl : ℕ → ℕ → Bytes

-- The loop that fills the array: from the terminator on, zeros. It reads `szData[i]` for every `i`
-- below `n`, also behind the terminator: `bytes_read` says how far, and `ParseRequest` takes that
-- into account. For the text of `SAPI_Write` the memory behind it is the caller's.
unfoldable pub fill : ℕ → Bytes → Bytes
fill zero text = []
fill (suc n) [] = 0 ∷ fill n []
fill (suc n) (c ∷ text) = c ∷ fill n text

module _ (ole : Ole) where
  string_value : ℕ → Bytes → Variant × Bool
  string_value n text = if ole.creates n then (byte_array (fill n text), true) else (empty, false)

  -- The value that the long form of `AddItem` stores, and what it returns.
  unfoldable pub value_of : Bytes → Bytes → Variant × Bool
  unfolding string_value
  value_of type text =
      if bytes_eq type (codes "BIT")
      then (scalar vt_bool (atol text), true)
      else if bytes_eq type (codes "FLOAT")
      then (scalar vt_r4 (ole.atof text), true)
      else if bytes_eq type (codes "LONG")
      then (scalar vt_i4 (atol text), true)
      else if bytes_eq type (codes "INTEGER")
      then (scalar vt_i2 (atol text), true)
      else if bytes_eq type (codes "BYTE") || bytes_eq type (codes "CHAR")
      then (scalar vt_ui1 (atol text), true)
      else if has_prefix (codes "STRING*") type
      then string_value (atol (drop 7 type)) text
      else (empty, false)

  -- `AddItem(dwParID, szItemId, szType, szData)`: the entry is appended whatever the type.
  unfoldable pub add_item_value : ℕ → Bytes → Bytes → Bytes → List Param → List Param × Bool
  add_item_value id item_id type text l =
      let (v, done) = value_of type text in
      (l ++ record { par_id = id; item_id = item_id; val = v; item = none } ∷ [], done)

-- How many bytes of the text the long form of `AddItem` reads by an index.
unfoldable pub bytes_read : Ole → Bytes → ℕ
bytes_read ole type =
    let n = atol (drop 7 type) in
    if has_prefix (codes "STRING*") type && ole.creates n then n else 0

-- `AddItem(dwParID, szItemId)`.
unfoldable pub add_item : ℕ → Bytes → List Param → List Param
add_item id item_id l =
    l ++ record { par_id = id; item_id = item_id; val = empty; item = none } ∷ []

-- A `char` widened to 32 bits with its sign.
abbrev widen : ℕ → ℕ
widen c = if ltb c 128 then c else c + (2 ^ 32 - 256)

-- A round of `AddHash`: the highest bit comes in below, and the byte is mixed in.
abbrev mix : ℕ → ℕ → ℕ
mix hash c = bit_xor (bit_or (hash * 2 % 2 ^ 32) (if leb (2 ^ 31) hash then 1 else 0)) (widen c)

mix_all : ℕ → Bytes → ℕ
mix_all hash [] = hash
mix_all hash (c ∷ s) = mix_all (mix hash c) s

-- `AddHash`.
unfoldable pub add_hash : ℕ → Bytes → ℕ
unfolding mix_all
add_hash hash s = bit_or (mix_all hash s) (length s)

unfoldable pub hash_of : ℕ → List Param → ℕ
hash_of hash [] = hash
hash_of hash (q ∷ qs) = hash_of (add_hash hash q.item_id) qs

unfoldable pub ids_text : List Param → Bytes
ids_text [] = []
ids_text (q ∷ qs) = ltoa q.par_id ++ b',' ∷ ids_text qs

-- `GetListName`: the numbers, each with a comma, and the hash. The text and its terminator go into
-- a block of ten bytes for each parameter; `none` is a write behind the block.
unfoldable pub get_list_name : List Param → Option Bytes
get_list_name [] = some []
get_list_name (q ∷ qs) =
    let name = ids_text (q ∷ qs) ++ ltoa (hash_of 0 (q ∷ qs)) in
    if ltb (length name) (length (q ∷ qs) * 10) then some name else none
