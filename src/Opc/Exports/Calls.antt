-- ===== src/Opc/Exports/Calls.antt =====
-- The exported functions and the group that they use.
use edps_plc_data_acquisitio.Base.{
  ℕ, true, false, Option, none, some, List, Bytes, is_neg, length, ◌==◌,
}
use edps_plc_data_acquisitio.Base.Run.{M, and_then, Ends, ended, broke, bind-Ends, if_Ends}
use edps_plc_data_acquisitio.Opc.Items.{failed}
use edps_plc_data_acquisitio.Opc.Params.{Param, get_list_name}
use edps_plc_data_acquisitio.Opc.Request.{Scan}
use edps_plc_data_acquisitio.Opc.Request.Bounds.{
  Contained, listed, over_reads, over_copies, parse_request-Contained,
}
use edps_plc_data_acquisitio.Opc.Globals.{Around, DllState, checked}
use edps_plc_data_acquisitio.Opc.Library.{get_opc_group, rd_group_name, wr_group_name}
use edps_plc_data_acquisitio.Opc.Library.Owned.{Lending, Kept, RoomIn}
use edps_plc_data_acquisitio.Opc.Library.Selects.{get_opc_group-Lending}
use edps_plc_data_acquisitio.Opc.Session.Ends.{SinkLaws}
use edps_plc_data_acquisitio.Opc.Exports.{
  none_added, single_in_group, read_one, write_one, join_group, answer_of, read_many, write_many,
  group_of, parsed, sapi_read, sapi_write, sapi_mread, sapi_mwrite,
}
use edps_plc_data_acquisitio.Opc.Exports.Lending.{on_items-Lending, in_group-Kept}

module _ {W : Type 0} (env : Around W) where
  -- The group stays lent.
  abbrev LentStill : {A : Type 0} → ℕ → M (DllState W) A → Type 0
  LentStill p body =
      (g : DllState W) → Lending (some p) g → Ends (λ _ g'. Lending (some p) g') (body g)

  read_one-Lending : (conn item : Bytes) (p : ℕ) → LentStill p (read_one env conn item p)
  unfolding read_one single_in_group
  read_one-Lending conn item p g k = bind-Ends (on_items-Lending p _ g k) λ (code, qs) g1 k1.
      if_Ends {s = g1} (is_neg code) _ _ (λ bad_item. ended k1)
        λ good. bind-Ends (on_items-Lending p _ g1 k1) λ text g2 k2. ended k2

  write_one-Lending :
      (conn item type text : Bytes) (p : ℕ) → LentStill p (write_one env conn item type text p)
  unfolding write_one single_in_group
  write_one-Lending conn item type text p g k =
      bind-Ends (on_items-Lending p _ g k) λ (code, qs) g1 k1.
        if_Ends {s = g1} (is_neg code) _ _ (λ bad_item. ended k1)
          λ good. bind-Ends (on_items-Lending p _ g1 k1) λ done g2 k2. ended k2

  read_many-Lending : (qs : List Param) (p : ℕ) → LentStill p (read_many env qs p)
  unfolding read_many join_group answer_of
  read_many-Lending qs p g k = bind-Ends (on_items-Lending p _ g k) λ (code, qs') g1 k1.
      if_Ends {s = g1} (none_added code) _ _ (λ no_item. ended k1)
        λ good. bind-Ends (on_items-Lending p _ g1 k1) λ hr g2 k2.
          if_Ends {s = g2} (failed hr) _ _ (λ not_read. ended k2)
            λ done. bind-Ends (on_items-Lending p _ g2 k2) λ (text, read) g3 k3. ended k3

  write_many-Lending : (qs : List Param) (p : ℕ) → LentStill p (write_many env qs p)
  unfolding write_many join_group
  write_many-Lending qs p g k = bind-Ends (on_items-Lending p _ g k) λ (code, qs') g1 k1.
      if_Ends {s = g1} (none_added code) _ _ (λ no_item. ended k1)
        λ good. bind-Ends (on_items-Lending p _ g1 k1) λ hr g2 k2. ended k2

  module _ (laws : SinkLaws env.activation) (g : DllState W) (kept : Kept g) (room : RoomIn g) where
    pub sapi_read-Kept : (conn item : Bytes) → Ends (λ _ g'. Kept g') (sapi_read env conn item g)
    unfolding sapi_read
    sapi_read-Kept conn item =
        bind-Ends (get_opc_group-Lending env laws g rd_group_name kept room)
          (in_group-Kept env _ (read_one env conn item) (read_one-Lending conn item))

    pub sapi_write-Kept :
        (conn item type text : Bytes)
        → Ends (λ _ g'. Kept g') (sapi_write env conn item type text g)
    unfolding sapi_write
    sapi_write-Kept conn item type text =
        bind-Ends (get_opc_group-Lending env laws g wr_group_name kept room) (
          in_group-Kept env _ (write_one env conn item type text)
            (write_one-Lending conn item type text))

    group_of-Lending : (qs : List Param) → Ends (λ r g'. Lending r g') (group_of env qs g)
    unfolding group_of
    group_of-Lending qs = named (get_list_name qs)
      where
        named :
            (n : Option Bytes)
            → Ends
                (λ r g'. Lending r g')
                (and_then (checked n g) (λ name. get_opc_group env true name))
        named none = broke
        named (some name) = get_opc_group-Lending env laws g name kept room

    parsed-Kept :
        {A : Type 0} {r : Scan (List Param)} (body : List Param → M (DllState W) A)
        → Contained r
        → ((qs : List Param) → Ends (λ _ g'. Kept g') (body qs g))
        → Ends (λ _ g'. Kept g') (and_then (parsed r g) body)
    parsed-Kept body listed keeps = keeps _
    parsed-Kept body over_reads keeps = broke
    parsed-Kept body over_copies keeps = broke

    pub sapi_mread-Kept : (par_str : Bytes) → Ends (λ _ g'. Kept g') (sapi_mread env par_str g)
    unfolding sapi_mread
    sapi_mread-Kept par_str = parsed-Kept _ (parse_request-Contained env.ole true par_str) λ qs.
        if_Ends {s = g} (length qs == 0) _ _ (λ empty. ended kept)
          λ some_parameters.
            bind-Ends (group_of-Lending qs)
              (in_group-Kept env _ (read_many env qs) (read_many-Lending qs))

    pub sapi_mwrite-Kept : (par_str : Bytes) → Ends (λ _ g'. Kept g') (sapi_mwrite env par_str g)
    unfolding sapi_mwrite
    sapi_mwrite-Kept par_str = parsed-Kept _ (parse_request-Contained env.ole false par_str) λ qs.
        if_Ends {s = g} (length qs == 0) _ _ (λ empty. ended kept)
          λ some_parameters.
            bind-Ends (group_of-Lending qs)
              (in_group-Kept env _ (write_many env qs) (write_many-Lending qs))
