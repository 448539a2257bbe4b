-- ===== src/Opc/Register/Registered.antt =====
-- Registering gives every new item the handle that the server has for it.
use edps_plc_data_acquisitio.Base.{ℕ, true, false, List, map, if◌then◌else◌, not}
use edps_plc_data_acquisitio.Opc.Items.{OpcItem, failed, keep}
use edps_plc_data_acquisitio.Opc.Register.{Result, register}

module _ (results : ℕ → Result) where
  abbrev pub answers : List OpcItem → List (ℕ × Result)
  answers its = map (λ it. (it.h_client, results it.h_client)) (keep (λ it. it.is_new) its)

  abbrev by_result : OpcItem → OpcItem
  by_result it = if it.is_new then register (results it.h_client) it else it

  -- What an item has after `AddItems`, but for the code: a new one is new no more, and has the
  -- server's handle for it; or, where its code is a failure, has the handle 0, is invalid and is not
  -- chosen.
  abbrev pub registered : OpcItem → OpcItem
  registered it =
      let r = results it.h_client in
      if not it.is_new
      then it
      else if failed r.code
      then record it {
        h_server = 0;
        is_new = false;
        for_read = false;
        for_write = false;
        is_invalid = true;
      }
      else record it { h_server = r.h_server; is_new = false }
