-- ===== src/Opc/Items.antt =====
-- OpcS7/OPCRelease/OPCItems.h and .cpp, the items of a group, and `COPCGroup::ReadItems` and
-- `COPCGroup::WriteItems` of OpcS7/OPCRelease/OPCGroup.cpp, which read and write the chosen ones.
-- The OPC server is a parameter.
pub mod Chosen
pub mod Group
use mathlib.Core.Option
use edps_plc_data_acquisitio.Base.{
  ℕ, ◌^◌, Bool, true, false, ◌&&◌, ◌||◌, not, Option, none, some, List, [], ◌∷◌, Bytes, map, leb,
  ◌==◌, if◌then◌else◌,
}
use edps_plc_data_acquisitio.Opc.Params.{Variant, empty}

-- `COPCItem`. The bits 1, 2, 4 and 8 of `m_dwItemStatus` are `is_new` to `is_invalid`; `hr` is
-- `m_hrOperation`, a 32-bit pattern, and `time` is `m_ftTimeStamp`.
pub record OpcItem : Type 0 where
  pub item_id : Bytes
  pub h_client : ℕ
  pub h_server : ℕ
  pub quality : ℕ
  pub value : Variant
  pub time : ℕ
  pub hr : ℕ
  pub is_new : Bool
  pub for_read : Bool
  pub for_write : Bool
  pub is_invalid : Bool

-- `FAILED`.
abbrev pub failed : ℕ → Bool
failed hr = leb (2 ^ 31) hr

abbrev pub s_false : ℕ
s_false = 1

-- What an OPCITEMSTATE has beside its client handle, and its place in the array of error codes.
pub record State : Type 0 where
  pub value : Variant
  pub quality : ℕ
  pub time : ℕ
  pub error : ℕ

-- `IOPCSyncIO::Read` from the device or the cache gives its own result and an array of states, by
-- their client handles, or no array; `IOPCSyncIO::Write` gives its own result and error codes.
pub record Server (W : Type 0) : Type 0 where
  pub read : Bool → List ℕ → W → (ℕ × Option (List (ℕ × State))) × W
  pub write : List (ℕ × Variant) → W → (ℕ × List ℕ) × W

unfoldable pub keep : {A : Type 0} → (A → Bool) → List A → List A
keep p [] = []
keep p (x ∷ xs) = let rest = keep p xs in if p x then x ∷ rest else rest

-- `COPCItemsList::GetItem(hClient)` with a change to what it finds, and whether it finds it.
unfoldable pub at_item : ℕ → (OpcItem → OpcItem) → List OpcItem → List OpcItem × Bool
at_item h f [] = ([], false)
at_item h f (it ∷ its) =
    let (rest, found) = at_item h f its in
    if it.h_client == h then (f it ∷ its, true) else (it ∷ rest, found)

-- `ItemForRead` and `ItemForWrite`.
abbrev pub item_for_read : OpcItem → OpcItem
item_for_read it = record it { for_read = true }

abbrev pub item_for_write : Variant → OpcItem → OpcItem
item_for_write var it = record it { value = var; for_write = true }

unfoldable pub choise2_read : ℕ → List OpcItem → List OpcItem × Bool
choise2_read h = at_item h item_for_read

unfoldable pub choise2_write : ℕ → Variant → List OpcItem → List OpcItem × Bool
choise2_write h var = at_item h (item_for_write var)

-- The test in `GetItems2Read`, and in `GetItems2Write`.
unfoldable pub is_read : Bool → OpcItem → Bool
is_read all it = not it.is_invalid && (all || it.for_read)

unfoldable pub is_written : OpcItem → Bool
is_written it = not it.is_invalid && it.for_write

-- `GetItems2Read`: the server handles, and the items, each of the chosen ones marked.
unfoldable pub get_items2_read : Bool → List OpcItem → List ℕ × List OpcItem
get_items2_read all its = (
  map (λ it. it.h_server) (keep (is_read all) its),
  map (λ it. if is_read all it then item_for_read it else it) its,
)

unfoldable pub get_items2_write : List OpcItem → List (ℕ × Variant)
get_items2_write its = map (λ it. (it.h_server, it.value)) (keep is_written its)

-- The loop of `SetReadValue` and of `SetWriteResult`: the results are taken in order, each by the
-- first item on the way whose handle is the result's, until there is none left.
unfoldable pub in_order :
    {E : Type 0}
    → (OpcItem → ℕ)
    → (E → OpcItem → OpcItem)
    → List OpcItem
    → List (ℕ × E)
    → List OpcItem
in_order handle take_result [] results = []
in_order handle take_result (it ∷ its) [] = it ∷ its
in_order handle take_result (it ∷ its) ((h, e) ∷ results) =
    let taken = in_order handle take_result its results in
    let passed = in_order handle take_result its ((h, e) ∷ results) in
    if handle it == h then take_result e it ∷ taken else it ∷ passed

abbrev pub result_of : ℕ → ℕ → ℕ
result_of master error = if failed master then master else error

-- What an item takes from its state.
unfoldable pub take_state : ℕ → State → OpcItem → OpcItem
take_state master s it =
    if failed (result_of master s.error)
    then record it { for_read = false; value = empty; hr = result_of master s.error; quality = 0 }
    else record it {
      for_read = false;
      value = s.value;
      hr = result_of master s.error;
      quality = s.quality;
      time = s.time;
    }

-- `SetReadValue`; `none` is an access through a null pointer to the states.
unfoldable pub set_read_value : ℕ → Option (List (ℕ × State)) → List OpcItem → Option (List OpcItem)
set_read_value master none [] = some []
set_read_value master none (it ∷ its) = none
set_read_value master (some states) its =
    some (in_order (λ it. it.h_client) (take_state master) its states)

-- What an item takes from the result of a write.
unfoldable pub take_written : ℕ → ℕ → OpcItem → OpcItem
take_written master error it = record it { hr = result_of master error; for_write = false }

-- `pItemHd[n]` and `phr[n]` for each `n`; `none` is an access outside the array of the codes.
unfoldable pub paired : List (ℕ × Variant) → List ℕ → Option (List (ℕ × ℕ))
paired [] errors = some []
paired ((h, v) ∷ sent) [] = none
paired ((h, v) ∷ sent) (e ∷ errors) = Option.map (◌∷◌ (h, e)) (paired sent errors)

-- The handles that were sent, each with its code. Where the call has failed no code is read.
unfoldable pub results_of : ℕ → List (ℕ × Variant) → List ℕ → Option (List (ℕ × ℕ))
results_of master sent errors =
    if failed master then some (map (λ (h, v). (h, master)) sent) else paired sent errors

-- `SetWriteResult`: each handle that was sent is met, so each code is read.
unfoldable pub set_write_result :
    ℕ → List (ℕ × Variant) → List ℕ → List OpcItem → Option (List OpcItem)
set_write_result master sent errors its =
    Option.map (in_order (λ it. it.h_server) (take_written master) its)
      (results_of master sent errors)

module _ {W : Type 0} (server : Server W) where
  -- `COPCGroup::ReadItems`: the result and the items.
  unfoldable pub read_items : Bool → Bool → List OpcItem → W → Option ((ℕ × List OpcItem) × W)
  read_items device all its w =
      let (handles, marked) = get_items2_read all its in
      elim handles [
        | [] ↦ some ((s_false, marked), w)
        | h ∷ hs ↦
            let ((master, states), w') = server.read device (h ∷ hs) w in
            elim (set_read_value master states marked) [
              | none ↦ none
              | some its' ↦ some ((master, its'), w')
            ]
      ]

  -- `COPCGroup::WriteItems`.
  unfoldable pub write_items : List OpcItem → W → Option ((ℕ × List OpcItem) × W)
  write_items its w = elim (get_items2_write its) [
    | [] ↦ some ((s_false, its), w)
    | s ∷ sent ↦
        let ((master, errors), w') = server.write (s ∷ sent) w in
        elim (set_write_result master (s ∷ sent) errors its) [
          | none ↦ none
          | some its' ↦ some ((master, its'), w')
        ]
  ]
