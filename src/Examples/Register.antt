-- ===== src/Examples/Register.antt =====
-- Registering items at a concrete input.
use edps_plc_data_acquisitio.Base.{
  ℕ, ◌+◌, ◌≡◌, refl, Bool, true, false, List, [], ◌∷◌, map, codes, none, some, ℤ, Bytes, ◌==◌,
  if◌then◌else◌,
}
use edps_plc_data_acquisitio.Opc.Params.{Param, empty}
use edps_plc_data_acquisitio.Opc.Items.{OpcItem}
use edps_plc_data_acquisitio.Opc.Register.{Result}
use edps_plc_data_acquisitio.Opc.Join.{find_or_add_items_to_group}
use edps_plc_data_acquisitio.Opc.Join.Joined.{Found, find_or_add_items_to_group-Found}
use edps_plc_data_acquisitio.Opc.Items.Chosen.{Distinct}
use edps_plc_data_acquisitio.Opc.Join.Distinct.{find_or_add_items_to_group-Distinct}

abbrev named : ℕ → Bool → OpcItem
named n is_new = record {
  item_id = codes "S7:[A]DB1,INT0";
  h_client = n;
  h_server = 0;
  quality = 0;
  value = empty;
  time = 0;
  hr = 0;
  is_new = is_new;
  for_read = false;
  for_write = false;
  is_invalid = false;
}

abbrev waiting : List OpcItem
waiting = named 1 false ∷ named 2 true ∷ named 3 true ∷ []

-- The server does not know the third item.
abbrev result : ℕ → Result
result n =
    if n == 3
    then record { code = 0xc004_0007; h_server = 0 }
    else record { code = 0; h_server = n + 10 }

-- The third item is there; the fifth is new.
abbrev asked_for : List Param
asked_for =
    record { par_id = 3; item_id = codes "S7:[A]DB1,INT2"; val = empty; item = none }
    ∷ record { par_id = 5; item_id = codes "S7:[A]DB1,INT4"; val = empty; item = none }
    ∷ []

abbrev answering : List (ℕ × Bytes) → ℕ → (ℕ × List (ℕ × Result)) × ℕ
answering definitions n = ((0, map (λ (h, name). (h, result h)) definitions), n + 1)

find_or_add_items_to_group-Found_example :
    Found answering 0 true asked_for waiting 0
      (find_or_add_items_to_group answering 0 true asked_for waiting 0)
find_or_add_items_to_group-Found_example =
    find_or_add_items_to_group-Found answering 0 true asked_for waiting 0

waiting-Distinct : Distinct (λ it. it.h_client) waiting
waiting-Distinct = ((refl, (refl, tt)), ((refl, tt), (tt, tt)))

find_or_add_items_to_group-Distinct_example :
    (code : ℤ) × (qs' : List Param) × (its' : List OpcItem) × (w' : ℕ) × (find_or_add_items_to_group
        answering 0 true asked_for waiting 0
      ≡ some ((code, qs', its'), w'))
    × Distinct (λ it. it.h_client) its'
find_or_add_items_to_group-Distinct_example =
    find_or_add_items_to_group-Distinct answering 0 true asked_for waiting 0 waiting-Distinct
