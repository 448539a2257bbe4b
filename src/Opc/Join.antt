-- ===== src/Opc/Join.antt =====
-- OpcS7/EdpsParams.cpp, `FindOrAddItemsToGroup`: the parameters of a request get their items in the
-- group. `AddItem` of OpcS7/OPCRelease/OPCItems.cpp makes the new ones.
use edps_plc_data_acquisitio.Base.{
  ℕ, zero, suc, ◌+◌, ◌==◌, Bool, true, false, Option, none, some, List, [], ◌∷◌, ◌++◌, Bytes, ℤ,
  pos, minus, length, if◌then◌else◌,
}
use edps_plc_data_acquisitio.Opc.Items.{OpcItem, failed, s_false, item_for_read, item_for_write}
use edps_plc_data_acquisitio.Opc.Params.{Param, empty}
use edps_plc_data_acquisitio.Opc.Register.{Result, add_items}
pub mod Choice
pub mod Distinct
pub mod Handles
pub mod Joined
pub mod Missing

-- `E_NOTIMPL`.
abbrev e_notimpl : ℕ
e_notimpl = 0x8000_4001

-- `Init` and `ItemNew`; the server's handle and the time are what memory holds.
unfoldable pub new_item : (uninit : ℕ) → Bytes → ℕ → OpcItem
new_item uninit item_id h_client = record {
  item_id = item_id;
  h_client = h_client;
  h_server = uninit;
  quality = 0;
  value = empty;
  time = uninit;
  hr = e_notimpl;
  is_new = true;
  for_read = false;
  for_write = false;
  is_invalid = false;
}

abbrev pub moved : Option ℕ → Option ℕ
moved none = none
moved (some i) = some (i + 1)

-- `GetItem(hClient)`: where the first item with the handle stands. The list grows by `realloc`,
-- which moves the items, but not their places.
unfoldable pub position_of : ℕ → List OpcItem → Option ℕ
position_of h [] = none
position_of h (it ∷ its) =
    let rest = position_of h its in if it.h_client == h then some 0 else moved rest

abbrev pub with_item : (uninit : ℕ) → Option ℕ → Param → List OpcItem → List OpcItem
with_item uninit none q its = its ++ new_item uninit q.item_id q.par_id ∷ []
with_item uninit (some i) q its = its

abbrev pub one_if_none : Option ℕ → ℕ
one_if_none none = 1
one_if_none (some i) = 0

-- The first loop: the items, with the new ones behind the others, and how many are new.
unfoldable pub add_missing : (uninit : ℕ) → List Param → List OpcItem → List OpcItem × ℕ
add_missing uninit [] its = (its, 0)
add_missing uninit (q ∷ qs) its =
    let found = position_of q.par_id its in
    let (its', added) = add_missing uninit qs (with_item uninit found q its) in
    (its', one_if_none found + added)

-- Every parameter points to the item with its number.
unfoldable pub point_to : List OpcItem → List Param → List Param
point_to its [] = []
point_to its (q ∷ qs) = record q { item = position_of q.par_id its } ∷ point_to its qs

unfoldable pub change_at : ℕ → (OpcItem → OpcItem) → List OpcItem → List OpcItem
change_at i f [] = []
change_at zero f (it ∷ its) = f it ∷ its
change_at (suc i) f (it ∷ its) = it ∷ change_at i f its

-- `InitReading` and `InitWriting`.
abbrev pub choice : Bool → Param → OpcItem → OpcItem
choice true q = item_for_read
choice false q = item_for_write q.val

abbrev pub choose_at : Option ℕ → Bool → Param → List OpcItem → Option (List OpcItem)
choose_at none set2read q its = none
choose_at (some i) set2read q its = some (change_at i (choice set2read q) its)

abbrev pub option_then : {A B : Type 0} → Option A → (A → Option B) → Option B
option_then none k = none
option_then (some a) k = k a

-- The last loop; `none` is a null pointer that is followed.
unfoldable pub choose_all : Bool → List Param → List OpcItem → Option (List OpcItem)
choose_all set2read [] its = some its
choose_all set2read (q ∷ qs) its =
    option_then (choose_at q.item set2read q its) (choose_all set2read qs)

abbrev pub finished :
    {W : Type 0}
    → ℤ
    → List Param
    → W
    → Option (List OpcItem)
    → Option ((ℤ × List Param × List OpcItem) × W)
finished code qs w none = none
finished code qs w (some its) = some ((code, qs, its), w)

-- `FindOrAddItemsToGroup`; `add` is `IOPCItemMgt::AddItems`. The code is -2 where the server adds no
-- item, -1 where it adds some of them, else the number of new items.
unfoldable pub find_or_add_items_to_group :
    {W : Type 0}
    → (List (ℕ × Bytes) → W → (ℕ × List (ℕ × Result)) × W)
    → (uninit : ℕ) → Bool
    → List Param
    → List OpcItem
    → W
    → Option ((ℤ × List Param × List OpcItem) × W)
find_or_add_items_to_group add uninit set2read qs its w =
    let (its1, added) = add_missing uninit qs its in
    let ((hr, its2), w') = add_items add its1 w in
    if added == 0
    then finished (pos 0) (point_to its1 qs) w (choose_all set2read (point_to its1 qs) its1)
    else if failed hr
    then some ((minus 2, point_to its1 qs, its2), w')
    else finished (if hr == s_false then minus 1 else pos added) (point_to its2 qs) w'
        (choose_all set2read (point_to its2 qs) its2)
