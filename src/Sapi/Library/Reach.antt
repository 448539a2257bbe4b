-- ===== src/Sapi/Library/Reach.antt =====
-- The states of the library that calls of its functions can reach.
use edps_plc_data_acquisitio.Base.{ℕ, ◌<◌, ◌≡◌, refl, Option, none, [], Bytes, ℤ, length, arith}
use edps_plc_data_acquisitio.Base.Run.{ok, Ends-ok, Returns-Ends}
use edps_plc_data_acquisitio.Sapi.Env.{S7, ClockLaws}
use edps_plc_data_acquisitio.Sapi.Store.{Globals, name_size}
use edps_plc_data_acquisitio.Sapi.Data.{Bstr}
use edps_plc_data_acquisitio.Sapi.Library.{sapi_shut, sapi_read, sapi_write}
use edps_plc_data_acquisitio.Sapi.Library.Connect.{Ready}
use edps_plc_data_acquisitio.Sapi.Library.Calls.{sapi_read-Finished, sapi_write-Finished}
use edps_plc_data_acquisitio.Sapi.Library.Shut.{sapi_shut-Empty}
use edps_plc_data_acquisitio.Sapi.Library.WellFormed.{WellFormed}

module _ {W : Type 0} where
  -- The program starts with zeros in its global variables.
  unfoldable pub start : W → Globals W
  start w = record {
    world = w;
    sess = λ i. 0;
    act_sess_qty = 0;
    heap = λ p. none;
    fresh = 1;
    con = [];
  }

  start-WellFormed : (w : W) → WellFormed (start w)
  unfolding start
  start-WellFormed w = record {
    balanced = record {
      counts = λ p s e. absurd (ground (arith, e));
      owned = tt;
      few = omega arith;
      unused = λ p l. refl;
      null_unused = refl;
      fresh_pos = omega arith;
      table_size = refl;
    };
    entries_live = λ i l. absurd (omega arith);
    distinct = λ i j before l. absurd (omega arith);
    sessions_fit = omega arith;
  }

module _ {W : Type 0} (s7 : S7 W) (fuel : ℕ) where
  -- A call that returns, with names that fit their arrays, for a connection that is known, or that
  -- is new where the table of sessions has room and that its processor has no session for, or finds
  -- a zero at its status.
  pub data Call (g g' : Globals W) : Type 0 where
    reading :
        (cp conn item type : Bytes) (r : ℤ × Option Bstr)
        → length cp < name_size
        → length conn < name_size
        → Ready s7 g cp conn
        → sapi_read s7 fuel cp conn item type g ≡ ok r g'
        → Call g g'
    writing :
        (cp conn item type text : Bytes) (r : ℤ)
        → length cp < name_size
        → length conn < name_size
        → Ready s7 g cp conn
        → sapi_write s7 fuel cp conn item type text g ≡ ok r g'
        → Call g g'
    shutting : (r : ℤ) → sapi_shut s7 g ≡ ok r g' → Call g g'

  pub data Reach : Globals W → Type 0 where
    started : (w : W) → Reach (start w)
    called : {g g' : Globals W} → Reach g → Call g g' → Reach g'

  module _ (laws : ClockLaws s7) (enough : 10_000 < fuel) where
    Call-WellFormed : (g g' : Globals W) → WellFormed g → Call g g' → WellFormed g'
    Call-WellFormed g g' wf (reading cp conn item type r short short_conn ready e) =
        (Ends-ok
          (sapi_read-Finished s7 laws fuel enough cp conn item type short short_conn g wf ready)
          e).0
    Call-WellFormed g g' wf (writing cp conn item type text r short short_conn ready e) =
        (Ends-ok
          (sapi_write-Finished s7 laws fuel enough cp conn item type short short_conn g wf ready
            text)
          e).0
    Call-WellFormed g g' wf (shutting r e) = (Ends-ok (Returns-Ends (sapi_shut-Empty s7 g wf)) e).2

    -- Where the clock keeps its laws and an attempt has more than 10,000 rounds, the tables fit
    -- together in every state that calls of the library that return reach from the start, with names
    -- that fit their arrays, where a new connection finds room in the table of sessions and either is
    -- the first to its processor or finds a zero in memory at its status: each open session counts
    -- its connections and has one at least, every connection has an open session, and the entries of
    -- the table are the open sessions: each is another one, and there are as many.
    pub Reach-WellFormed : {g : Globals W} → Reach g → WellFormed g
    Reach-WellFormed (started w) = start-WellFormed w
    Reach-WellFormed (called {g} {g'} r c) = Call-WellFormed g g' (Reach-WellFormed r) c
