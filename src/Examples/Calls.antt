-- ===== src/Examples/Calls.antt =====
-- Sequences of calls of SAPI/SAPIlib.cpp at concrete inputs.
use edps_plc_data_acquisitio.Base.{
  ℕ, ◌<◌, ◌+◌, ◌≡◌, refl, some, bytes_eq, overlay, codes, pos, arith,
}
use edps_plc_data_acquisitio.Base.Run.{Run, ok, fault, out_of_fuel, Returns, Ends}
use edps_plc_data_acquisitio.Crt.{ltoa}
use edps_plc_data_acquisitio.Sapi.Swap.{convert2_lng}
use edps_plc_data_acquisitio.Sapi.Data.{
  byte_len, kind_of, read_buffer, converted, read_kind, read_data,
}
use edps_plc_data_acquisitio.Sapi.Transfer.{
  read_message, after_message, after_switch, round, loop, attempts, read,
}
use edps_plc_data_acquisitio.Sapi.Store.{Globals, Session, deref, new_session, inc_ref, set_ord_num}
use edps_plc_data_acquisitio.Sapi.Connection.{
  search_sessions, blank, place_session, attach, create_and_attach, new_connection,
  delete_connection,
}
use edps_plc_data_acquisitio.Sapi.Library.{
  search_connections, nth_connection, keep_ref, connect, shut_on_error, sapi_read, sapi_write,
}
use edps_plc_data_acquisitio.Sapi.Library.WellFormed.{WellFormed, users}
use edps_plc_data_acquisitio.Sapi.Library.Uncounted.{new_connection-delete_connection}
use edps_plc_data_acquisitio.Sapi.Library.Reach.{
  start, Call, reading, started, called, Reach-WellFormed,
}
use edps_plc_data_acquisitio.Sapi.Library.Connect.{Connected, first, zero_status, connect-Connected}
use edps_plc_data_acquisitio.Sapi.Library.Calls.{Finished, sapi_read-Finished, sapi_write-Finished}
use edps_plc_data_acquisitio.Examples.Device.{Device, device, device-ClockLaws, off}
use edps_plc_data_acquisitio.Examples.Sapi.{connected, one_session, connected-WellFormed, replying}

-- The state that a run leaves.
abbrev left_by : {S A : Type 0} → Run S A → S → S
left_by (ok a s) d = s
left_by fault d = d
left_by out_of_fuel d = d

abbrev one_read : Globals Device
one_read =
    left_by
      (sapi_read device 10_001 (codes "CP") (codes "PLC1") (codes "DB1") (codes "LONG")
        (start replying))
      (start off)

read_first : Call device 10_001 (start replying) one_read
unfolding start sapi_read connect search_connections new_connection blank search_sessions
    create_and_attach place_session new_session set_ord_num inc_ref deref attach nth_connection
    read_data read_kind kind_of read_buffer converted read attempts loop round after_switch
    after_message read_message keep_ref shut_on_error bytes_eq overlay convert2_lng ltoa
read_first =
    reading (codes "CP") (codes "PLC1") (codes "DB1") (codes "LONG")
      (pos 4, some (byte_len (codes "258"))) (omega arith) (omega arith)
      (first (omega arith) λ k s below e. absurd (omega arith)) refl

Reach-WellFormed_example : WellFormed one_read
Reach-WellFormed_example =
    Reach-WellFormed device 10_001 device-ClockLaws (omega arith)
      (called (started replying) read_first)

connect-Connected_example :
    Returns (Connected device connected) (connect device (codes "CP2") (codes "PLC2") connected)
connect-Connected_example =
    connect-Connected device connected connected-WellFormed (codes "CP2") (codes "PLC2")
      (omega arith) (omega arith) (zero_status (omega arith) refl)

sapi_read-Finished_example :
    Ends
      (λ (r, _) g'. Finished device connected r g')
      (sapi_read device 10_001 (codes "CP") (codes "PLC1") (codes "DB1") (codes "LONG") connected)
sapi_read-Finished_example =
    sapi_read-Finished device device-ClockLaws 10_001 (omega arith) (codes "CP") (codes "PLC1")
      (codes "DB1") (codes "LONG") (omega arith) (omega arith) connected connected-WellFormed
      (zero_status (omega arith) refl)

sapi_write-Finished_example :
    Ends
      (λ r g'. Finished device connected r g')
      (sapi_write device 10_001
        (codes "CP")
        (codes "PLC1")
        (codes "DB1")
        (codes "LONG")
        (codes "258")
        connected)
sapi_write-Finished_example =
    sapi_write-Finished device device-ClockLaws 10_001 (omega arith) (codes "CP") (codes "PLC1")
      (codes "DB1") (codes "LONG") (omega arith) (omega arith) connected connected-WellFormed
      (zero_status (omega arith) refl) (codes "258")

-- Memory holds a 7 where the status of a new connection is.
new_connection-delete_connection_example :
    (i : ℕ) × (i < 1)
    × Returns
        (λ c g'.
          (g'.con ≡ connected.con)
          × (delete_connection (record device { uninit_status = λ d. pos 7 }) c g' ≡ ok tt g')
          × ((t : Session) × (g'.heap (connected.sess i) ≡ some t)
              × (t.ref_count ≡ users (connected.sess i) g'.con + 1)))
        (new_connection
          (record device { uninit_status = λ d. pos 7 })
          (codes "CP")
          (codes "PLC2")
          connected)
unfolding bytes_eq
new_connection-delete_connection_example =
    new_connection-delete_connection (record device { uninit_status = λ d. pos 7 }) connected
      (codes "CP") (codes "PLC2") 0 one_session connected-WellFormed (omega arith) refl
      (omega arith) refl refl
