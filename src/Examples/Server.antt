-- ===== src/Examples/Server.antt =====
-- The object lists and the groups of an OPC server at concrete inputs.
use edps_plc_data_acquisitio.Base.{
  ℕ, ◌==◌, ◌≡◌, refl, true, Option, none, some, List, [], ◌∷◌, Bytes, bytes_eq, codes, ltb,
  if◌then◌else◌, arith,
}
use edps_plc_data_acquisitio.Base.Run.{fault, Returns, ◌>>◌}
use edps_plc_data_acquisitio.Opc.Objects.{Object, ObjectList, Held, add, remove}
use edps_plc_data_acquisitio.Opc.Objects.Refines.{Holds, Added, add-Added}
use edps_plc_data_acquisitio.Opc.Objects.Remove.{Removed, remove-Removed, remove_full_faults}
use edps_plc_data_acquisitio.Opc.Objects.Walk.{Counted, AllLive}
use edps_plc_data_acquisitio.Opc.Group.{Group, Com, interface, can_end, new_group, upload_status}
use edps_plc_data_acquisitio.Opc.Server.{Server, get_group_by_name, add_group}
use edps_plc_data_acquisitio.Opc.Server.Find.{first_named, given}
use edps_plc_data_acquisitio.Opc.Server.Add.{
  HasGroups, Kept, Listed, built, get_group_by_name-first_named, add_group-Kept, add_group_faults,
}
use edps_plc_data_acquisitio.Opc.Server.Again.{add_group-get_group_by_name}

-- A server that grants every group; its world is the name of the last one, and the handle 5 has no
-- IOPCItemMgt.
abbrev granting : Com Bytes
granting = record {
  query = λ i kind w. ((if i == 5 then (if kind == 1 then 0x8000_4002 else 0) else 0, i), w);
  release_interface = λ i w. w;
  get_state = λ i w. ((0, record { name = w; h_client = 1; h_server = 7 }), w);
  add_group = λ name h w. ((0, if bytes_eq name (codes "Broken") then 5 else 1), name);
  remove_group = λ h forced w. (0, w);
  enumerate = λ w. ((0, 1 ∷ []), w);
}

abbrev group_a : Group
group_a = record {
  un_group = interface 1;
  items_mgt = interface 1;
  sync_io = interface 1;
  items = some [];
  h_server = 7;
  h_client = 1;
  name = codes "A";
  hr_last = 0;
}

abbrev object_a : Object Group
object_a = record { ref_count = 1; body = group_a }

abbrev two : List ℕ
two = 1 ∷ 2 ∷ []

-- The objects at 1, 2 and 3 are in use.
abbrev objects : ℕ → Option (Object Group)
objects p = if p == 0 then none else if ltb p 4 then some object_a else none

abbrev full_list : ObjectList
full_list = record { array = some 1 ∷ some 2 ∷ []; count = 2; ptr = 0; max_count = 2; add_size = 5 }

full_list-Holds : Holds full_list two
full_list-Holds = record {
  rest = [];
  slots = refl;
  counted = refl;
  sized = refl;
  grows = omega arith;
  small = omega arith;
}

abbrev full : Held Group
full = record { objects = objects; list = full_list }

add-Added_example : Returns (λ _ h'. Added full two 3 object_a h') (add 3 full)
add-Added_example = add-Added full two 3 object_a full_list-Holds (omega arith) refl

abbrev roomy_list : ObjectList
roomy_list = record full_list { array = some 1 ∷ some 2 ∷ none ∷ []; max_count = 3 }

roomy_list-Holds : Holds roomy_list two
roomy_list-Holds = record {
  rest = none ∷ [];
  slots = refl;
  counted = refl;
  sized = refl;
  grows = omega arith;
  small = omega arith;
}

remove-Removed_example :
    Returns
      (Removed (record full { list = roomy_list }) [] 1 (2 ∷ []) object_a)
      (remove can_end 0 (record full { list = roomy_list }))
remove-Removed_example =
    remove-Removed can_end (record full { list = roomy_list }) [] 1 (2 ∷ []) object_a
      roomy_list-Holds (omega arith) refl refl

remove_full_faults_example : remove can_end 1 full ≡ fault
remove_full_faults_example = remove_full_faults can_end full (1 ∷ []) 2 [] full_list-Holds refl

abbrev server : Server Bytes
server = record {
  connected = true;
  groups = some roomy_list;
  objects = objects;
  fresh = 4;
  hr_last = 0;
  world = [];
}

object_a-Counted : Counted object_a
object_a-Counted = record { counted_once = omega arith; room = omega arith }

all_live : AllLive objects two
all_live = ((object_a, refl, object_a-Counted), ((object_a, refl, object_a-Counted), tt))

get_group_by_name-first_named_example :
    Returns
      (λ r s'.
        (r ≡ first_named objects (codes "A") two 0)
        × (s'.objects ≡ given (first_named objects (codes "A") two 0).0 objects)
        × HasGroups s' two)
      (get_group_by_name granting (codes "A") server)
get_group_by_name-first_named_example =
    get_group_by_name-first_named granting server (codes "A") two
      (roomy_list, refl, roomy_list-Holds) all_live

server_groups : Listed server.groups two
server_groups = (roomy_list-Holds, omega arith)

add_group-Kept_example :
    Returns
      (λ r s'. (r ≡ some 4) × Kept objects 4 two (built granting server (codes "B")) s')
      (add_group granting (codes "B") server)
unfolding new_group upload_status bytes_eq
add_group-Kept_example = add_group-Kept granting server (codes "B") two refl server_groups refl refl

add_group_faults_example : add_group granting (codes "Broken") server ≡ fault
unfolding new_group upload_status bytes_eq
add_group_faults_example =
    add_group_faults granting server (codes "Broken") two refl server_groups refl refl

add_group-get_group_by_name_example :
    Returns
      (λ r s'. r ≡ (some 4, 2))
      ((add_group granting (codes "B") >> get_group_by_name granting (codes "B")) server)
unfolding new_group upload_status bytes_eq
add_group-get_group_by_name_example =
    add_group-get_group_by_name granting server (codes "B") two refl server_groups all_live refl
      refl refl refl refl
