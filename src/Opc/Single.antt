-- ===== src/Opc/Single.antt =====
-- OpcS7/EdpsParams.cpp, a request for one item: `SingleItem` finds it in the group or adds it,
-- `ReadValue` reads it and `WriteValue` writes it.
pub mod Keys
pub mod Named
use edps_plc_data_acquisitio.Base.{
  ℕ, ◌+◌, ◌==◌, ◌||◌, Bool, true, false, Option, none, some, List, [], ◌∷◌, ◌++◌, Bytes, codes,
  bytes_eq, ℤ, pos, minus, length, get_elem?, if◌then◌else◌,
}
use edps_plc_data_acquisitio.Opc.Items.{
  OpcItem, Server, failed, s_false, item_for_read, item_for_write, read_items, write_items,
}
use edps_plc_data_acquisitio.Opc.Params.{Param, Variant, Ole, add_item, add_item_value}
use edps_plc_data_acquisitio.Opc.Register.{Result, add_items}
use edps_plc_data_acquisitio.Opc.Join.{new_item, moved, change_at}
use edps_plc_data_acquisitio.Opc.Answer.{Item, Value, get_value_variant}

-- `GetItem(szItemId)`: where the first item with the name stands.
unfoldable pub position_named : Bytes → List OpcItem → Option ℕ
position_named name [] = none
position_named name (it ∷ its) =
    let rest = position_named name its in if bytes_eq it.item_id name then some 0 else moved rest

-- `Valid` of what `GetItem` found; there is no item behind a null pointer.
abbrev pub is_valid : Option OpcItem → Bool
is_valid none = false
is_valid (some it) = if it.is_invalid then false else true

abbrev pub found_at : Option ℕ → List OpcItem → Option OpcItem
found_at none its = none
found_at (some i) its = get_elem? its i

-- Where the item is, or will be, behind the others.
abbrev pub place : Option ℕ → List OpcItem → ℕ
place none its = length its
place (some i) its = i

-- `NewItem` with the next number, where no item has the name.
abbrev pub with_named : (uninit : ℕ) → Option ℕ → Bytes → List OpcItem → List OpcItem
with_named uninit none name its = its ++ new_item uninit name (length its + 1) ∷ []
with_named uninit (some i) name its = its

-- `m_pTail->m_pItem = pItem`.
unfoldable pub point_tail : ℕ → List Param → List Param
point_tail i [] = []
point_tail i (q ∷ []) = record q { item = some i } ∷ []
point_tail i (q ∷ r ∷ qs) = q ∷ point_tail i (r ∷ qs)

-- "S7:[", the connection, "]" and the item's address.
unfoldable pub joined_name : Bytes → Bytes → Bytes
joined_name conn item = codes "S7:[" ++ conn ++ b']' ∷ item

-- The type and the text of a write, or `none` for a read.
abbrev pub add_param : Ole → Option (Bytes × Bytes) → ℕ → Bytes → List Param → List Param × Bool
add_param ole none h name qs = (add_item h name qs, true)
add_param ole (some (type, text)) h name qs = add_item_value ole h name type text qs

-- The end of `SingleItem`: the parameter with the item's handle. An entry whose type is wrong stays
-- in the list, and points to no item.
unfoldable pub with_param :
    Ole → Option (Bytes × Bytes) → Bytes → ℕ → OpcItem → List Param → ℤ × List Param
with_param ole value name i it qs =
    let (qs', done) = add_param ole value it.h_client name qs in
    if done then (pos 0, point_tail i qs') else (minus 2, qs')

abbrev pub pointing :
    {W : Type 0}
    → Ole
    → Option (Bytes × Bytes)
    → Bytes
    → ℕ
    → List Param
    → List OpcItem
    → W
    → Option OpcItem
    → Option ((ℤ × List Param × List OpcItem) × W)
pointing ole value name i qs its w none = none
pointing ole value name i qs its w (some it) =
    let (code, qs') = with_param ole value name i it qs in some ((code, qs', its), w)

-- `SingleItem`; `add` is `IOPCItemMgt::AddItems`. The code is -1 where an item that is not valid is
-- not added, and -2 for a value that its type does not take. `none` is a null pointer.
unfoldable pub single_item :
    {W : Type 0}
    → Ole
    → (List (ℕ × Bytes) → W → (ℕ × List (ℕ × Result)) × W)
    → (uninit : ℕ) → (conn item : Bytes) → Option (Bytes × Bytes)
    → List Param
    → List OpcItem
    → W
    → Option ((ℤ × List Param × List OpcItem) × W)
single_item ole add uninit conn item value qs its w =
    let name = joined_name conn item in
    let found = position_named name its in
    let its1 = with_named uninit found name its in
    let ((hr, its2), w') = add_items add its1 w in
    let i = place found its in
    if is_valid (found_at found its)
    then pointing ole value name i qs its w (found_at (some i) its)
    else if failed hr || hr == s_false
    then some ((minus 1, qs, its2), w')
    else pointing ole value name i qs its2 w' (found_at (some i) its2)

-- The item that `m_pTail` points to; `none` where the list is empty or the pointer is NULL.
unfoldable pub tail_item : List Param → Option ℕ
tail_item [] = none
tail_item (q ∷ []) = q.item
tail_item (q ∷ r ∷ qs) = tail_item (r ∷ qs)

unfoldable pub tail_value : List Param → Option Variant
tail_value [] = none
tail_value (q ∷ []) = some q.val
tail_value (q ∷ r ∷ qs) = tail_value (r ∷ qs)

-- An item, as `GetValueVariant` sees it.
abbrev pub as_read : Option OpcItem → Option Item
as_read none = none
as_read (some it) = some (record { quality = it.quality; value = it.value })

abbrev pub as_text : Value → Option (Option Bytes)
as_text (Value.text s) = some (some s)
as_text (Value.error s) = some none
as_text Value.overflow = none

abbrev pub answered :
    {W : Type 0}
    → Ole
    → ℕ
    → Option ((ℕ × List OpcItem) × W)
    → Option ((Option Bytes × List OpcItem) × W)
answered ole i none = none
answered ole i (some ((hr, its), w)) =
    if failed hr
    then some ((none, its), w)
    else elim (as_text (get_value_variant ole 80 (as_read (get_elem? its i)))) [
      | none ↦ none
      | some r ↦ some ((r, its), w)
    ]

module _ {W : Type 0} (server : Server W) where
  -- `ReadValue`: the text of the item, or NULL. The buffer has 80 bytes, and `none` is a write
  -- behind it or a null pointer.
  unfoldable pub read_value :
      Ole → List Param → List OpcItem → W → Option ((Option Bytes × List OpcItem) × W)
  read_value ole qs its w = elim (tail_item qs) [
    | none ↦ some ((none, its), w)
    | some i ↦ answered ole i (read_items server true false (change_at i item_for_read its) w)
  ]

  -- The write of `WriteValue`, where the last parameter points to an item.
  abbrev pub write_at :
      Option ℕ → Option Variant → List OpcItem → W → Option ((Bool × List OpcItem) × W)
  write_at none v its w = some ((false, its), w)
  write_at (some i) none its w = some ((false, its), w)
  write_at (some i) (some v) its w =
      elim (write_items server (change_at i (item_for_write v) its) w) [
        | none ↦ none
        | some ((hr, its'), w') ↦
            some (((if failed hr || hr == s_false then false else true), its'), w')
      ]

  -- `WriteValue`; `none` is an access outside the array of the codes.
  unfoldable pub write_value : List Param → List OpcItem → W → Option ((Bool × List OpcItem) × W)
  write_value qs its w = write_at (tail_item qs) (tail_value qs) its w
