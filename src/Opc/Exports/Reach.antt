-- ===== src/Opc/Exports/Reach.antt =====
-- The states of the DLL that calls of its functions can reach.
use edps_plc_data_acquisitio.Base.{
  ◌≡◌, refl, Bool, true, false, Option, none, [], Bytes, ℤ, pos, minus, is_neg,
}
use edps_plc_data_acquisitio.Base.Run.{
  ok, Returns, returns, Ends, Ends-ok, Returns-Ends, map-Returns,
}
use edps_plc_data_acquisitio.Opc.Globals.{Around, DllState, new_client}
use edps_plc_data_acquisitio.Opc.Library.{attach_process, sapi_shut}
use edps_plc_data_acquisitio.Opc.Library.Owned.{Kept, RoomIn}
use edps_plc_data_acquisitio.Opc.Session.Ends.{SinkLaws}
use edps_plc_data_acquisitio.Opc.Exports.{sapi_read, sapi_write, sapi_mread, sapi_mwrite}
use edps_plc_data_acquisitio.Opc.Exports.Calls.{
  sapi_read-Kept, sapi_write-Kept, sapi_mread-Kept, sapi_mwrite-Kept,
}
use edps_plc_data_acquisitio.Opc.Exports.Shut.{
  Down, sapi_shut-Down, sapi_read-refused, sapi_write-refused, sapi_mread-refused,
  sapi_mwrite-refused,
}

module _ {W : Type 0} where
  -- The DLL is loaded, with zeros in its global variables.
  unfoldable pub loaded : W → DllState W
  loaded w = record {
    opc_server = none;
    main_server = false;
    snd_opc_server = none;
    snd_server = false;
    init_ok = false;
    objects = λ p. none;
    fresh = 1;
    world = w;
  }

module _ {W : Type 0} (env : Around W) where
  -- A call that returns.
  pub data Call (g g' : DllState W) : Type 0 where
    reading :
        (conn item : Bytes) (r : ℤ × Option Bytes) → sapi_read env conn item g ≡ ok r g' → Call g g'
    writing :
        (conn item type text : Bytes) (r : ℤ)
        → sapi_write env conn item type text g ≡ ok r g'
        → Call g g'
    reading_many :
        (par_str : Bytes) (r : ℤ × Option Bytes) → sapi_mread env par_str g ≡ ok r g' → Call g g'
    writing_many : (par_str : Bytes) (r : ℤ) → sapi_mwrite env par_str g ≡ ok r g' → Call g g'
    shutting : (r : ℤ) → sapi_shut env g ≡ ok r g' → Call g g'

  -- The list of the groups can grow before each call.
  pub data Reach : DllState W → Type 0 where
    attached :
        (w : W) (init : Bool) {b : Bool} {g : DllState W}
        → attach_process env init (loaded w) ≡ ok b g
        → Reach g
    called : {g g' : DllState W} → Reach g → RoomIn g → Call g g' → Reach g'

  attach_process-Kept :
      (w : W) (init : Bool) → Returns (λ _ g. Kept g) (attach_process env init (loaded w))
  unfolding attach_process loaded new_client
  attach_process-Kept w false = returns (refl, (refl, refl, refl, λ q. refl))
  attach_process-Kept w true = returns (
    refl,
    record {
      online = refl;
      served = record {
        addresses = [];
        lists = refl;
        once = tt;
        distinct = tt;
        below = tt;
        no_other = λ q a. refl;
      };
      watched = tt;
      no_groups = λ off q. refl;
    },
  )

  -- Every call that reads or writes is refused, gives no answer and changes nothing, or it commits a
  -- memory error on its request.
  pub record Refuses (g : DllState W) : Type 0 where
    pub reads : (conn item : Bytes) → sapi_read env conn item g ≡ ok (minus 1, none) g
    pub writes :
        (conn item type text : Bytes) → sapi_write env conn item type text g ≡ ok (minus 1) g
    pub reads_many :
        (par_str : Bytes)
        → Ends (λ r g'. (is_neg r.0 ≡ true) × (r.1 ≡ none) × (g' ≡ g)) (sapi_mread env par_str g)
    pub writes_many :
        (par_str : Bytes) → Ends (λ r g'. (is_neg r ≡ true) × (g' ≡ g)) (sapi_mwrite env par_str g)

  module _ (laws : SinkLaws env.activation) where
    Call-Kept : (g g' : DllState W) → Kept g → RoomIn g → Call g g' → Kept g'
    Call-Kept g g' kept room (reading conn item r e) =
        Ends-ok (sapi_read-Kept env laws g kept room conn item) e
    Call-Kept g g' kept room (writing conn item type text r e) =
        Ends-ok (sapi_write-Kept env laws g kept room conn item type text) e
    Call-Kept g g' kept room (reading_many par_str r e) =
        Ends-ok (sapi_mread-Kept env laws g kept room par_str) e
    Call-Kept g g' kept room (writing_many par_str r e) =
        Ends-ok (sapi_mwrite-Kept env laws g kept room par_str) e
    Call-Kept g g' kept room (shutting r e) =
        (Ends-ok (Returns-Ends (sapi_shut-Down env laws g kept)) e).2

    -- Where a connection point keeps one reference of what is advised, in every state that calls that
    -- return reach from the attachment of the DLL, with room for another group before each call: each
    -- group of the main server has one reference, that of its list, and there is no other group; the
    -- flag of the main server says whether it is connected, without it there is no group, and the
    -- second server is never connected.
    pub Reach-Kept : {g : DllState W} → Reach g → Kept g
    Reach-Kept (attached w init e) = Ends-ok (Returns-Ends (attach_process-Kept w init)) e
    Reach-Kept (called {g} {g'} r room c) = Call-Kept g g' (Reach-Kept r) room c

    -- Where a connection point keeps one reference of what is advised, SAPI_Shut in every state that
    -- calls that return reach from the attachment of the DLL, with room for another group before each
    -- call, returns 0 without a memory error, with no server connected and no group left. From then
    -- on SAPI_Read and SAPI_Write return -1, and SAPI_MRead and SAPI_MWrite end with a negative code
    -- or a memory error; none of them gives an answer or changes anything.
    pub sapi_shut-Refuses :
        {g : DllState W}
        → Reach g
        → Returns (λ r g'. (r ≡ pos 0) × Down env g' × Refuses g') (sapi_shut env g)
    sapi_shut-Refuses {g} reach =
        map-Returns (sapi_shut-Down env laws g (Reach-Kept reach)) λ r g' (e, down, _). (
          e,
          down,
          record {
            reads = sapi_read-refused env g' down;
            writes = sapi_write-refused env g' down;
            reads_many = sapi_mread-refused env g' down;
            writes_many = sapi_mwrite-refused env g' down;
          },
        )
