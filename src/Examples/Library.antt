-- ===== src/Examples/Library.antt =====
-- The DLL at concrete inputs.
use edps_plc_data_acquisitio.Base.{
  ◌≡◌, refl, true, none, some, List, [], ◌∷◌, Bytes, codes, map, bytes_eq, pos, arith,
}
use edps_plc_data_acquisitio.Base.Run.{Run, ok, fault, out_of_fuel, Returns}
use edps_plc_data_acquisitio.Opc.Params.{scalar, vt_i4, Ole, add_item}
use edps_plc_data_acquisitio.Opc.Server.{
  get_group_by_name, add_group, make_list, keep_group, make_group,
}
use edps_plc_data_acquisitio.Opc.Objects.{new_list, add, write_entry, add_ref, release}
use edps_plc_data_acquisitio.Opc.Single.{
  single_item, joined_name, position_named, with_param, point_tail, tail_item, read_value,
}
use edps_plc_data_acquisitio.Opc.Single.Named.{Pointed, single_item-Pointed}
use edps_plc_data_acquisitio.Opc.Join.{new_item, change_at}
use edps_plc_data_acquisitio.Opc.Register.{
  add_items, get_new_items, set_new_items_res, set_code, register,
}
use edps_plc_data_acquisitio.Opc.Items.{
  OpcItem, keep, at_item, read_items, get_items2_read, is_read, set_read_value, in_order,
  take_state,
}
use edps_plc_data_acquisitio.Opc.Answer.{
  get_value_variant, is_good, variant_text, scalar_text, up_to_nul,
}
use edps_plc_data_acquisitio.Crt.{ltoa}
use edps_plc_data_acquisitio.Opc.Group.{Com, new_group, upload_status}
use edps_plc_data_acquisitio.Opc.Session.{
  Activation, connect, connect_class, disconnect, last_hr, set_up, watch_shutdown, advise_sink,
}
use edps_plc_data_acquisitio.Opc.Session.Ends.{SinkLaws}
use edps_plc_data_acquisitio.Opc.Globals.{Around, DllState, new_client, release_group}
use edps_plc_data_acquisitio.Opc.Library.{
  attach_process, sapi_shut, get_opc_group, select_server, connect_to_server, connect_main,
  find_or_add_group,
}
use edps_plc_data_acquisitio.Opc.Library.Owned.{Kept}
use edps_plc_data_acquisitio.Opc.Exports.{read_one, single_in_group, sapi_read}
use edps_plc_data_acquisitio.Opc.Exports.Shut.{Down}
use edps_plc_data_acquisitio.Opc.Exports.Reach.{
  Reach, loaded, attached, called, reading, Reach-Kept, sapi_shut-Refuses, Refuses,
}

abbrev state_of : {S A : Type 0} → S → Run S A → S
state_of s (ok a s') = s'
state_of s fault = s
state_of s out_of_fuel = s

-- A server that grants everything; its world is the name of its last group.
abbrev com_objects : Com Bytes
com_objects = record {
  query = λ i kind w. ((0, i), w);
  release_interface = λ i w. w;
  get_state = λ i w. ((0, record { name = w; h_client = 1; h_server = 7 }), w);
  add_group = λ name h w. ((0, 1), name);
  remove_group = λ h forced w. (0, w);
  enumerate = λ w. ((0, []), w);
}

abbrev activation : Activation Bytes
activation = record {
  clsid_from_prog_id = λ name w. ((0, 1), w);
  create_instance = λ id node w. (
    record {
      hr = 0;
      opc_common = record { hr = 0; itf = 2 };
      opc_server = record { hr = 0; itf = 3 };
      container = record { hr = 0; itf = 4 };
    },
    w,
  );
  set_client_name = λ i name w. w;
  set_locale_id = λ i id w. w;
  find_connection_point = λ i w. ((0, 5), w);
  advise = λ point w. ((0, 9, 1), w);
  unadvise = λ point cookie w. (1, w);
}

activation-laws : SinkLaws activation
activation-laws = record { keeps = λ point w e. refl; gives_back = λ point cookie w. omega arith }

abbrev ole : Ole
ole = record {
  creates = λ n. true;
  accesses = λ bytes. true;
  atof = λ text. 0;
  gcvt_flt = λ digits d. codes "0";
  gcvt_dbl = λ digits d. codes "0";
}

-- Every item has the value 17.
abbrev env : Around Bytes
env = record {
  api = com_objects;
  activation = activation;
  item_mgt = λ i items w. ((0, map (λ (h, name). (h, record { code = 0; h_server = h })) items), w);
  sync_io = λ i. record {
    read = λ device handles w. (
      (
        0,
        some (
            map (λ h. (h, record { value = scalar vt_i4 17; quality = 0xc0; time = 1; error = 0 }))
              handles),
      ),
      w,
    );
    write = λ values w. ((0, map (λ v. 0) values), w);
  };
  ole = ole;
  uninit = 0;
  client_name = codes "EDPS.S7OPCCLIENT.1";
  s7_opc_server = codes "OPC.SimaticNET";
  emergency_server_node = [];
}

abbrev at_start : DllState Bytes
at_start = state_of (loaded []) (attach_process env true (loaded []))

abbrev after_read : DllState Bytes
after_read = state_of at_start (sapi_read env (codes "A") (codes "DB1,INT0") at_start)

read-Reach : Reach env after_read
unfolding loaded attach_process new_client sapi_read get_opc_group select_server connect_to_server
    connect_main connect connect_class disconnect last_hr set_up watch_shutdown advise_sink
    find_or_add_group get_group_by_name add_group make_list new_list keep_group make_group new_group
    upload_status add write_entry add_ref read_one single_in_group single_item joined_name
    position_named new_item add_items get_new_items keep set_new_items_res set_code at_item register
    with_param add_item point_tail tail_item read_value change_at read_items get_items2_read is_read
    set_read_value in_order take_state get_value_variant is_good variant_text scalar_text ltoa
    up_to_nul release_group release bytes_eq
read-Reach =
    called {g' = after_read} (attached [] true {b = true} {g = at_start} refl) tt
      (reading (codes "A") (codes "DB1,INT0") (pos 0, some (codes "17")) refl)

Reach-Kept_example : Kept after_read
Reach-Kept_example = Reach-Kept env activation-laws read-Reach

sapi_shut-Refuses_example :
    Returns (λ r g'. (r ≡ pos 0) × Down env g' × Refuses env g') (sapi_shut env after_read)
sapi_shut-Refuses_example = sapi_shut-Refuses env activation-laws read-Reach

-- The items that a read leaves, and the next item of the group.
abbrev known : List OpcItem
known = (new_item 0 (codes "S7:[A]DB1,INT0") 1) ∷ []

single_item-Pointed_example :
    Pointed ole (env.item_mgt 1) 0 (codes "A") (codes "DB1,INT2") none [] known []
unfolding new_item
single_item-Pointed_example =
    single_item-Pointed ole (env.item_mgt 1) 0 (codes "A") (codes "DB1,INT2") none [] known []
      (refl, tt)
