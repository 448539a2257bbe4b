-- ===== src/Opc/Register.antt =====
-- OpcS7/OPCRelease/OPCItems.cpp, `GetNewItems` and `SetNewItemsRes`, and `COPCGroup::AddItems` of
-- OpcS7/OPCRelease/OPCGroup.cpp: the new items of a group are registered in the server.
pub mod Registered
pub mod Uncoded
use edps_plc_data_acquisitio.Base.{
  ℕ, zero, suc, ◌+◌, Bool, true, false, List, [], ◌∷◌, Bytes, map, if◌then◌else◌,
}
use edps_plc_data_acquisitio.Opc.Items.{OpcItem, failed, s_false, keep, at_item}

-- A definition's client handle and name, and what the server gives for it: the code and its handle.
pub record Result : Type 0 where
  pub code : ℕ
  pub h_server : ℕ

-- `GetNewItems`.
unfoldable pub get_new_items : List OpcItem → List (ℕ × Bytes)
get_new_items its = map (λ it. (it.h_client, it.item_id)) (keep (λ it. it.is_new) its)

-- What the item of a definition takes: it is registered, or `SetInvalid` clears every other bit.
unfoldable pub register : Result → OpcItem → OpcItem
register r it =
    if failed r.code
    then record it {
      h_server = 0;
      is_new = false;
      for_read = false;
      for_write = false;
      is_invalid = true;
    }
    else record it { h_server = r.h_server; is_new = false }

-- `m_pItemsList[n].m_hrOperation = phr[n]`.
unfoldable pub set_code : ℕ → ℕ → List OpcItem → List OpcItem
set_code n code [] = []
set_code zero code (it ∷ its) = record it { hr = code } ∷ its
set_code (suc n) code (it ∷ its) = it ∷ set_code n code its

-- The loop of `SetNewItemsRes` from the `n`-th definition on.
unfoldable pub set_new_items_res : ℕ → List (ℕ × Result) → List OpcItem → List OpcItem
set_new_items_res n [] its = its
set_new_items_res n ((h, r) ∷ rs) its =
    let (changed, found) = at_item h (register r) (set_code n r.code its) in
    set_new_items_res (suc n) rs (if found then changed else its)

-- `COPCGroup::AddItems`; `add` is `IOPCItemMgt::AddItems`, with its results in the order of the
-- definitions.
unfoldable pub add_items :
    {W : Type 0}
    → (List (ℕ × Bytes) → W → (ℕ × List (ℕ × Result)) × W)
    → List OpcItem
    → W
    → (ℕ × List OpcItem) × W
add_items add its w = elim (get_new_items its) [
  | [] ↦ ((s_false, its), w)
  | d ∷ ds ↦
      let ((master, results), w') = add (d ∷ ds) w in
      ((master, if failed master then its else set_new_items_res 0 results its), w')
]
