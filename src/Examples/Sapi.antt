-- ===== src/Examples/Sapi.antt =====
-- SAPI/ at concrete inputs.
use edps_plc_data_acquisitio.Base.{
  ◌≤◌, ◌<◌, ◌^◌, ◌≡◌, ◌↔◌, refl, none, some, [], ◌∷◌, bytes_eq, overlay, codes, pos, minus, arith,
}
use edps_plc_data_acquisitio.Base.Run.{Run, ok, fault, out_of_fuel, Returns, Ends}
use edps_plc_data_acquisitio.Crt.{ltoa}
use edps_plc_data_acquisitio.Sapi.Swap.{
  dword_bytes, word_bytes, convert2_lng, convert_lng, convert2_flt, convert_flt, convert2_int,
  convert_int,
}
use edps_plc_data_acquisitio.Sapi.Swap.Laws.{
  convert2-convert, convert_lng-reverse, convert2_int_iff,
}
use edps_plc_data_acquisitio.Sapi.Data.{
  byte_len, kind_of, read_buffer, converted, read_kind, read_data, write_buffer, write_data,
}
use edps_plc_data_acquisitio.Sapi.Data.RoundTrip.{asked, read_data-write_data_long}
use edps_plc_data_acquisitio.Sapi.Transfer.{
  Vars, leave, restart, initiate_cnf, write_cnf, read_message, write_message, after_message,
  after_switch, round, loop, attempts, read, write,
}
use edps_plc_data_acquisitio.Sapi.Transfer.Ends.{IsCode, transfer-Ends}
use edps_plc_data_acquisitio.Sapi.Transfer.Late.{cleared, write_late_repeats}
use edps_plc_data_acquisitio.Sapi.Store.{
  Session, Connection, Globals, update, deref, new_session, inc_ref, set_ord_num,
}
use edps_plc_data_acquisitio.Sapi.Connection.{
  search_sessions, blank, place_session, attach, create_and_attach, new_connection,
}
use edps_plc_data_acquisitio.Sapi.Library.{
  search_connections, nth_connection, keep_ref, sapi_shut, connect, shut_on_error, sapi_read,
}
use edps_plc_data_acquisitio.Sapi.Library.WellFormed.{WellFormed}
use edps_plc_data_acquisitio.Sapi.Library.Shut.{Empty, sapi_shut-Empty}
use edps_plc_data_acquisitio.Examples.Device.{Device, device, device-ClockLaws, empty, off}

-- The value that a run returns.
abbrev value : {S A : Type 0} → Run S A → A → A
value (ok a s) d = a
value fault d = d
value out_of_fuel d = d

abbrev pub replying : Device
replying = record { now = 0; messages = 0 ∷ 0x0101 ∷ 0 ∷ 0x0301 ∷ []; memory = 0 ∷ 0 ∷ 1 ∷ 2 ∷ [] }

-- A LONG is read through a new session and connection.
read_long :
    value
      (sapi_read device 20
        (codes "CP")
        (codes "PLC1")
        (codes "DB1")
        (codes "LONG")
        (empty replying))
      (minus 7, some (byte_len []))
    ≡ (pos 4, some (byte_len (codes "258")))
unfolding sapi_read connect search_connections new_connection blank search_sessions
    create_and_attach place_session new_session set_ord_num inc_ref deref attach nth_connection
    read_data read_kind kind_of read_buffer converted read attempts loop round after_switch
    after_message read_message keep_ref shut_on_error bytes_eq overlay convert2_lng ltoa
read_long = refl

abbrev pub one_session : Session
one_session = record { ord_num = 0; status = pos 0; ref_count = 1; desc_cp = 7; name = codes "CP" }

abbrev pub one_connection : Connection
one_connection = record {
  status = pos 0;
  sess_status = pos 0;
  session = 1;
  desc_cp = 7;
  con_ref = 3;
  con_name = codes "PLC1";
}

-- A session at the address 1 with one connection.
abbrev pub connected : Globals Device
connected = record {
  world = off;
  sess = λ i. 1;
  act_sess_qty = 1;
  heap = update (λ p. none) 1 (some one_session);
  fresh = 2;
  con = one_connection ∷ [];
}

pub connected-WellFormed : WellFormed connected
connected-WellFormed = record {
  balanced = record {
    counts = λ p s e. ground arith;
    owned = (refl, omega arith, tt);
    few = omega arith;
    unused = λ p h. ground arith;
    null_unused = refl;
    fresh_pos = omega arith;
    table_size = refl;
  };
  entries_live = λ i h. omega arith;
  distinct = λ i j before h. absurd (omega arith);
  sessions_fit = omega arith;
}

sapi_shut-Empty_example :
    Returns (λ r g'. (r ≡ pos 0) × Empty device g' × WellFormed g') (sapi_shut device connected)
sapi_shut-Empty_example = sapi_shut-Empty device connected connected-WellFormed

transfer-Ends_example :
    Ends
      (λ (r, _) w'. IsCode r × (device.clock off ≤ device.clock w'))
      (read device 10_001 7
        (codes "DB1")
        (record { con_ref = 3; buf_len = pos 2; buf = 0 ∷ 0 ∷ [] })
        off)
    × Ends
        (λ (r, _) w'. IsCode r × (device.clock off ≤ device.clock w'))
        (write device 10_001 7
          (codes "DB1")
          (record { con_ref = 3; buf_len = pos 2; buf = 0 ∷ 0 ∷ [] })
          off)
transfer-Ends_example =
    transfer-Ends device device-ClockLaws 10_001 7 (codes "DB1")
      (record { con_ref = 3; buf_len = pos 2; buf = 0 ∷ 0 ∷ [] }) off (omega arith) (omega arith)

-- The confirmation comes 12 seconds after the attempt.
slow : Device
slow = record { now = 12_000; messages = 0x0302 ∷ 0x0101 ∷ []; memory = [] }

abbrev to_write : Vars
to_write = record { con_ref = 3; buf_len = pos 2; buf = 1 ∷ 2 ∷ [] }

write_late_repeats_example :
    (round device 7 (write_message device 7 (codes "DB1")) write_cnf 0 to_write slow
      ≡ ok
          (leave (restart (cleared to_write 3)))
          (record { now = 13_000; messages = 0x0101 ∷ []; memory = [] }))
    × ((w' : Device)
        → write_message device 7 (codes "DB1") initiate_cnf (cleared to_write 3) w'
          ≡ ok (some (cleared to_write 3)) (record w' { memory = [] }))
unfolding slow
write_late_repeats_example =
    write_late_repeats device 7 (codes "DB1") 0 to_write slow 3 _ _ refl refl (omega arith)
      (omega arith)

convert2-convert_example :
    (convert2_lng (dword_bytes (convert_lng 258)) ≡ 258)
    × (convert2_flt (dword_bytes (convert_flt 258)) ≡ 258)
convert2-convert_example = convert2-convert 258 (omega arith)

convert2_int_iff_example :
    (convert2_int (word_bytes (convert_int 4_294_967_295)) ≡ 4_294_967_295)
    ↔ (4_294_967_295 < 2 ^ 16)
convert2_int_iff_example = convert2_int_iff 4_294_967_295 (omega arith)

convert_lng-reverse_example :
    (dword_bytes (convert_lng 258) ≡ 0 ∷ 0 ∷ 1 ∷ 2 ∷ [])
    × (dword_bytes (convert_flt 258) ≡ 0 ∷ 0 ∷ 1 ∷ 2 ∷ [])
    × (word_bytes (convert_int 258) ≡ 1 ∷ 2 ∷ [])
convert_lng-reverse_example = convert_lng-reverse 258

answer : Vars
answer = record { con_ref = 3; buf_len = pos 4; buf = 0 ∷ 0 ∷ 1 ∷ 2 ∷ [] }

long_is_read :
    read device 20 7 (codes "DB1") (asked device 3 4 replying) replying
    ≡ ok (pos 4, answer) (record { now = 4; messages = []; memory = 0 ∷ 0 ∷ 1 ∷ 2 ∷ [] })
unfolding read attempts loop round after_switch after_message read_message overlay answer
long_is_read = refl

read_data-write_data_long_example :
    (write_data device 20 7 3 (codes "DB1") (codes "LONG") (ltoa 258)
      ≡ write_buffer device 20 7 3 (codes "DB1") 4 answer.buf)
    × (read_data device 20 7 3 (codes "DB1") (codes "LONG") replying
        ≡ ok
            (record { value = (pos 4, byte_len (ltoa 258)); con_ref = answer.con_ref })
            (record { now = 4; messages = []; memory = 0 ∷ 0 ∷ 1 ∷ 2 ∷ [] }))
unfolding answer convert_lng
read_data-write_data_long_example =
    read_data-write_data_long device 20 7 3 (codes "DB1") 258 replying
      (record { now = 4; messages = []; memory = 0 ∷ 0 ∷ 1 ∷ 2 ∷ [] }) (pos 4) answer (omega arith)
      long_is_read refl refl

replying_word : Device
replying_word = record { now = 0; messages = 0x0101 ∷ 0x0301 ∷ []; memory = 1 ∷ 2 ∷ [] }

answer_word : Vars
answer_word = record { con_ref = 3; buf_len = pos 2; buf = 1 ∷ 2 ∷ [] }

word_is_read :
    read device 20 7 (codes "DB1") (asked device 3 2 replying_word) replying_word
    ≡ ok (pos 2, answer_word) (record { now = 2; messages = []; memory = 1 ∷ 2 ∷ [] })
unfolding read attempts loop round after_switch after_message read_message replying_word overlay
    answer_word
word_is_read = refl
