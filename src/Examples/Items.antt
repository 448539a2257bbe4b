-- ===== src/Examples/Items.antt =====
-- The items of a group at concrete inputs.
use edps_plc_data_acquisitio.Base.{
  ℕ, ◌-◌, ◌+◌, ◌≡◌, refl, Bool, true, false, some, List, [], ◌∷◌, map, codes, ◌==◌, if◌then◌else◌,
}
use edps_plc_data_acquisitio.Opc.Params.{scalar, vt_i4, empty}
use edps_plc_data_acquisitio.Opc.Items.{
  OpcItem, State, Server, keep, is_read, is_written, read_items, write_items,
}
use edps_plc_data_acquisitio.Opc.Items.Group.{after_read}
use edps_plc_data_acquisitio.Opc.Items.Group.{
  after_write, read_items-after_read, write_items-after_write,
}

abbrev item : ℕ → Bool → OpcItem
item n chosen = record {
  item_id = codes "S7:[A]DB1,INT0";
  h_client = n;
  h_server = n + 10;
  quality = 0;
  value = empty;
  time = 0;
  hr = 0;
  is_new = false;
  for_read = chosen;
  for_write = chosen;
  is_invalid = false;
}

abbrev items : List OpcItem
items = item 1 true ∷ item 2 false ∷ item 3 true ∷ []

-- The third item cannot be read.
abbrev state : ℕ → State
state n =
    if n == 3
    then record { value = empty; quality = 0; time = 0; error = 0xc004_0007 }
    else record { value = scalar vt_i4 n; quality = 0xc0; time = 5; error = 0 }

-- A server that counts its calls.
abbrev server : Server ℕ
server = record {
  read = λ device handles n. ((1, some (map (λ h. (h - 10, state (h - 10))) handles)), n + 1);
  write = λ values n. ((0, map (λ (h, v). 0) values), n + 1);
}

reads_two : keep (is_read false) items ≡ item 1 true ∷ item 3 true ∷ []
unfolding keep is_read
reads_two = refl

writes_two : keep is_written items ≡ item 1 true ∷ item 3 true ∷ []
unfolding keep is_written
writes_two = refl

read_items-after_read_example :
    read_items server true false items 0 ≡ some ((1, map (after_read false 1 state) items), 1)
read_items-after_read_example =
    read_items-after_read server true false 1 state items (item 1 true) (item 3 true ∷ []) 0 1
      ((refl, (refl, tt)), ((refl, tt), (tt, tt))) reads_two refl

write_items-after_write_example :
    write_items server items 0 ≡ some ((0, map (after_write 0 (λ h. 0)) items), 1)
write_items-after_write_example =
    write_items-after_write server 0 (λ h. 0) items (item 1 true) (item 3 true ∷ []) 0 1
      ((refl, (refl, tt)), ((refl, tt), (tt, tt))) writes_two refl
