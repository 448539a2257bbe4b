-- ===== src/Opc/Request.antt =====
-- OpcS7/EdpsParams.cpp, `CEdpsParamList::ParseRequest`: the fields of a request, entry by entry, and
-- the block that the texts of the entries are copied into.
pub mod Bounds
pub mod Encode
pub mod RoundTrip
pub mod Values
pub mod WriteTrip
use edps_plc_data_acquisitio.Base.{
  ℕ, zero, suc, ◌+◌, Bool, true, false, List, [], ◌∷◌, ◌++◌, Bytes, codes, is_neg, is_zero,
  signed32, length, leb, ◌||◌, if◌then◌else◌,
}
use edps_plc_data_acquisitio.Crt.{atol}
use edps_plc_data_acquisitio.Opc.Frame.{no_field, field, overrun, split_field}
use edps_plc_data_acquisitio.Opc.Params.{Param, Ole, add_item, add_item_value, bytes_read}

-- `szRequest`, by the text from it on, and `szPtr`, by its distance from `m_pStringBuffer`.
pub record Cursor : Type 0 where
  pub request : Bytes
  pub ptr : ℕ

-- A step goes on, or leaves the loop by `break`; or it reads outside the request or the block, or
-- writes outside the block what it read inside the request, or does both in one copy; or the rounds
-- of the model are used up.
pub data Scan (A : Type 0) : Type 0 where
  got : A → Cursor → Scan A
  stopped : Scan A
  over_read : Scan A
  over_write : Scan A
  over_both : Scan A
  out_of_fuel : Scan A

abbrev pub P : Type 0 → Type 0
P A = Cursor → Scan A

abbrev pub and_then : {A B : Type 0} → Scan A → (A → P B) → Scan B
and_then (got a c) f = f a c
and_then stopped f = stopped
and_then over_read f = over_read
and_then over_write f = over_write
and_then over_both f = over_both
and_then out_of_fuel f = out_of_fuel

infixl 5 ◌>>=◌ ◌>>◌
abbrev pub ◌>>=◌ : {A B : Type 0} → P A → (A → P B) → P B
m >>= f = λ c. and_then (m c) f

abbrev pub ◌>>◌ : {A B : Type 0} → P A → P B → P B
m >> k = m >>= λ _. k

abbrev pub pure : {A : Type 0} → A → P A
pure a c = got a c

-- `GetNextValue(szRequest, NULL)`, and `szRequest += lPassed`.
unfoldable pub skip_value : P (Unit {0})
skip_value c = elim (split_field c.request) [
  | no_field ↦ stopped
  | field v rest ↦ got tt (record c { request = rest })
  | overrun n ↦ over_read
]

-- After an entry: another round, or the list as it was.
abbrev pub after_entry :
    Scan (List Param) → List Param → Cursor → (List Param → P (List Param)) → Scan (List Param)
after_entry (got l' c') l c more = more l' c'
after_entry stopped l c more = got l c
after_entry over_read l c more = over_read
after_entry over_write l c more = over_write
after_entry over_both l c more = over_both
after_entry out_of_fuel l c more = out_of_fuel

module _ (size : ℕ) where
  -- A write of `n` bytes at `szPtr` must stay inside the block.
  unfoldable pub room : ℕ → P (Unit {0})
  room n c = if leb (c.ptr + n) size then got tt c else over_write

  -- `GetNextValue(szRequest, szPtr)` writes the value and a terminator at `szPtr`. Where the length
  -- leads past the end of the request, the loop copies from behind it, and writes so many bytes.
  unfoldable pub copy_value : P Bytes
  copy_value c = elim (split_field c.request) [
    | no_field ↦ stopped
    | field v rest ↦ (room (length v + 1) >> pure v) (record c { request = rest })
    | overrun n ↦ if leb (c.ptr + (n + 1)) size then over_read else over_both
  ]

  -- A read of `n` bytes from `back` bytes before `szPtr` on must stay inside the block.
  unfoldable pub look : ℕ → ℕ → P (Unit {0})
  look back n c = if leb (c.ptr + n) (size + back) then got tt c else over_read

  -- `szPtr += n`.
  abbrev pub advance : ℕ → P (Unit {0})
  advance n c = got tt (record c { ptr = c.ptr + n })

  -- The connection's name and the item's address, as "S7:[name]address", and the type.
  unfoldable pub scan_names : P (Bytes × Bytes)
  scan_names = do
    skip_value
    room 4
    advance 4
    conn ← copy_value
    advance (length conn)
    room 1
    advance 1
    address ← copy_value
    advance (length address + 1)
    type ← copy_value
    advance (length type + 1)
    pure (codes "S7:[" ++ conn ++ b']' ∷ address, type)

  -- An entry of a read request: the number must be positive.
  unfoldable pub scan_read : List Param → P (List Param)
  scan_read l = do
    (item_id, type) ← scan_names
    text ← copy_value
    if is_neg (signed32 (atol text)) || is_zero (signed32 (atol text))
        then (λ _. stopped)
        else pure (add_item (atol text) item_id l)

  -- An entry of a write request: the numbers count up from 1.
  unfoldable pub scan_write : Ole → List Param → P (List Param)
  scan_write ole l = do
    (item_id, type) ← scan_names
    text ← copy_value
    advance (length text + 1)
    skip_value
    look (length text + 1) (bytes_read ole type)
    pure (add_item_value ole (length l + 1) item_id type text l).0

  unfoldable pub scan_entry : Ole → Bool → List Param → P (List Param)
  scan_entry ole true l = scan_read l
  scan_entry ole false l = scan_write ole l

  -- The loop, with so many rounds left. Its result is the list, whose length is `m_dwCount`.
  unfoldable pub scan_all : ℕ → Ole → Bool → List Param → Cursor → Scan (List Param)
  scan_all zero ole read l c = out_of_fuel
  scan_all (suc fuel) ole read l c =
      after_entry (scan_entry ole read l c) l c (scan_all fuel ole read)

-- `ParseRequest`: the block has room for the request and its terminator, and an entry takes three
-- bytes at least.
unfoldable pub parse_request : Ole → Bool → Bytes → Scan (List Param)
parse_request ole read request =
    scan_all (length request + 1) (suc (length request)) ole read []
      (record { request = request; ptr = 0 })
