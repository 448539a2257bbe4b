-- ===== src/Opc/Exports.antt =====
-- OpcS7/OpcS7.cpp: the exported functions that read and write.
pub mod Calls
pub mod Lending
pub mod Shut
pub mod Reach
use edps_plc_data_acquisitio.Base.{
  ℕ, ◌==◌, Bool, true, false, Option, none, some, List, [], Bytes, ℤ, pos, minus, is_neg, neg_part,
  map, length, if◌then◌else◌,
}
use edps_plc_data_acquisitio.Base.Run.{M, out_of_fuel, pure, ◌>>=◌, ◌>>◌, bad}
use edps_plc_data_acquisitio.Opc.Items.{OpcItem, failed, s_false, read_items, write_items}
use edps_plc_data_acquisitio.Opc.Params.{Param, get_list_name}
use edps_plc_data_acquisitio.Opc.Request.{Scan, parse_request}
use edps_plc_data_acquisitio.Opc.Request
use edps_plc_data_acquisitio.Opc.Answer.{Reading, get_mread_result}
use edps_plc_data_acquisitio.Opc.Join.{find_or_add_items_to_group}
use edps_plc_data_acquisitio.Opc.Single.{found_at, as_read, single_item, read_value, write_value}
use edps_plc_data_acquisitio.Opc.Globals.{Around, DllState, checked, on_items, via, release_group}
use edps_plc_data_acquisitio.Opc.Library.{rd_group_name, wr_group_name, get_opc_group}

-- The list that `ParseRequest` makes.
abbrev pub parsed : {W : Type 0} → Scan (List Param) → M (DllState W) (List Param)
parsed (Request.got l c) = pure l
parsed Request.stopped = bad
parsed Request.over_read = bad
parsed Request.over_write = bad
parsed Request.over_both = bad
parsed Request.out_of_fuel = λ g. out_of_fuel

-- The parameters of the list with the items that they point to.
abbrev pub readings : List OpcItem → List Param → List Reading
readings its qs = map (λ q. record { par_id = q.par_id; item = as_read (found_at q.item its) }) qs

-- The items of a group last, behind the code and the parameters.
abbrev pub items_last :
    {W : Type 0}
    → Option ((ℤ × List Param × List OpcItem) × W)
    → Option (((ℤ × List Param) × List OpcItem) × W)
items_last none = none
items_last (some ((code, qs, its), w)) = some (((code, qs), its), w)

-- A result and the items that stay as they are.
abbrev pub unchanged :
    {A W : Type 0} → List OpcItem → W → Option A → Option ((A × List OpcItem) × W)
unchanged its w none = none
unchanged its w (some a) = some ((a, its), w)

abbrev pub is_some : {A : Type 0} → Option A → Bool
is_some none = false
is_some (some a) = true

-- A code that `FindOrAddItemsToGroup` gives where no item was added.
abbrev pub none_added : ℤ → Bool
none_added code = neg_part code == 2

module _ {W : Type 0} (env : Around W) where
  -- What is done with the group that was found, which is released at the end.
  abbrev pub in_group : {A : Type 0} → A → (ℕ → M (DllState W) A) → Option ℕ → M (DllState W) A
  in_group refused body none = pure refused
  in_group refused body (some p) = do r ← body p; release_group p; pure r

  unfoldable pub single_in_group :
      ℕ → (conn item : Bytes) → Option (Bytes × Bytes) → M (DllState W) (ℤ × List Param)
  single_in_group p conn item value = on_items p (λ grp its w.
      via grp.items_mgt (λ i.
        items_last (single_item env.ole (env.item_mgt i) env.uninit conn item value [] its w)))

  unfoldable pub read_one : (conn item : Bytes) → ℕ → M (DllState W) (ℤ × Option Bytes)
  read_one conn item p = do
    (code, qs) ← single_in_group p conn item none
    if is_neg code then pure (minus 4, none) else (do
      text ←
          on_items p
            (λ grp its w. via grp.sync_io (λ i. read_value (env.sync_io i) env.ole qs its w))
      pure ((if is_some text then pos 0 else minus 5), text))

  -- `SAPI_Read`: the code and `*bsData`. The communication point and the type are not used.
  unfoldable pub sapi_read : (conn item : Bytes) → M (DllState W) (ℤ × Option Bytes)
  sapi_read conn item = do
    found ← get_opc_group env true rd_group_name
    in_group (minus 1, none) (read_one conn item) found

  unfoldable pub write_one : (conn item type text : Bytes) → ℕ → M (DllState W) ℤ
  write_one conn item type text p = do
    (code, qs) ← single_in_group p conn item (some (type, text))
    if is_neg code then pure (minus 4) else (do
      done ← on_items p (λ grp its w. via grp.sync_io (λ i. write_value (env.sync_io i) qs its w))
      pure (if done then pos 0 else minus 6))

  -- `SAPI_Write`.
  unfoldable pub sapi_write : (conn item type text : Bytes) → M (DllState W) ℤ
  sapi_write conn item type text = do
    found ← get_opc_group env true wr_group_name
    in_group (minus 1) (write_one conn item type text) found

  unfoldable pub join_group : (set2read : Bool) → List Param → ℕ → M (DllState W) (ℤ × List Param)
  join_group set2read qs p = on_items p (λ grp its w.
      via grp.items_mgt (λ i.
        items_last (find_or_add_items_to_group (env.item_mgt i) env.uninit set2read qs its w)))

  -- The result of a read, with the count of the good values.
  unfoldable pub answer_of : List Param → ℕ → M (DllState W) (Option Bytes × ℕ)
  answer_of qs p =
      on_items p (λ grp its w. unchanged its w (get_mread_result env.ole (readings its qs)))

  unfoldable pub read_many : List Param → ℕ → M (DllState W) (ℤ × Option Bytes)
  read_many qs p = do
    (code, qs') ← join_group true qs p
    if none_added code then pure (minus 4, none) else (do
      hr ←
          on_items p
            (λ grp its w. via grp.sync_io (λ i. read_items (env.sync_io i) true false its w))
      if failed hr then pure (minus 5, none) else (do
        (text, read) ← answer_of qs' p
        pure ((if read == 0 then minus 6 else pos 0), text)))

  -- The group whose name the parameters give.
  unfoldable pub group_of : List Param → M (DllState W) (Option ℕ)
  group_of qs = do name ← checked (get_list_name qs); get_opc_group env true name

  -- `SAPI_MRead`: the code and `*bsData`.
  unfoldable pub sapi_mread : (par_str : Bytes) → M (DllState W) (ℤ × Option Bytes)
  sapi_mread par_str = do
    qs ← parsed (parse_request env.ole true par_str)
    if length qs == 0
        then pure (minus 1, none)
        else (do found ← group_of qs; in_group (minus 2, none) (read_many qs) found)

  unfoldable pub write_many : List Param → ℕ → M (DllState W) ℤ
  write_many qs p = do
    (code, qs') ← join_group false qs p
    if none_added code then pure (minus 4) else (do
      hr ← on_items p (λ grp its w. via grp.sync_io (λ i. write_items (env.sync_io i) its w))
      pure (if hr == s_false then minus 6 else (if failed hr then minus 5 else pos 0)))

  -- `SAPI_MWrite`.
  unfoldable pub sapi_mwrite : (par_str : Bytes) → M (DllState W) ℤ
  sapi_mwrite par_str = do
    qs ← parsed (parse_request env.ole false par_str)
    if length qs == 0
        then pure (minus 1)
        else (do found ← group_of qs; in_group (minus 2) (write_many qs) found)
