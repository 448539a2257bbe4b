-- ===== src/Sapi/Transfer/Late.antt =====
-- `CConnection::Write` when the controller confirms after the ten seconds of the attempt.
use edps_plc_data_acquisitio.Base.{
  ℕ, ◌+◌, ◌/◌, ◌≤◌, ◌<◌, ◌≡◌, true, some, [], Bytes, pos, ltb, leb, length, arith,
}
use edps_plc_data_acquisitio.Base.Run.{ok}
use edps_plc_data_acquisitio.Sapi.Env.{S7}
use edps_plc_data_acquisitio.Sapi.Transfer.{
  Vars, leave, restart, initiate_cnf, write_cnf, var_name_size, write_message, after_message,
  after_switch, round,
}

abbrev pub cleared : Vars → ℕ → Vars
cleared v cref = record { con_ref = cref; buf_len = pos 0; buf = v.buf }

-- If the confirmation of a successful write arrives when ten seconds are over, the round does not
-- end the call: it goes back to `StartPoint` with a length of 0, and the next attempt, once it is
-- granted, asks the controller to write no byte at all to the variable.
pub write_late_repeats :
    {W : Type 0} (s7 : S7 W) (desc : ℕ) (name : Bytes) (start : ℕ) (v : Vars) (w : W) (cref : ℕ)
    (w₁ w₂ : W)
    → s7.receive desc v.con_ref w ≡ ((write_cnf, cref), w₁)
    → s7.get_write_cnf w₁ ≡ (pos 0, w₂)
    → start + 10 ≤ s7.clock (s7.abort desc cref w₂).1 / 1000
    → length name < var_name_size
    → (round s7 desc (write_message s7 desc name) write_cnf start v w
        ≡ ok
            (leave (restart (cleared v cref)))
            (s7.sleep 1000 (s7.abort desc cref (s7.abort desc cref w₂).1).1))
      × ((w' : W)
          → write_message s7 desc name initiate_cnf (cleared v cref) w'
            ≡ ok (some (cleared v cref)) (s7.write_req desc cref name [] (s7.get_initiate_cnf w')))
unfolding round after_switch after_message write_message
write_late_repeats s7 desc name start v w cref w₁ w₂ received confirmed late short =
    (rw (received, confirmed, over), λ w'. rw (fits, none_fits))
  where
    over : leb (start + 10) (s7.clock (s7.abort desc cref w₂).1 / 1000) ≡ true
    over = ground arith

    fits : ltb (length name) var_name_size ≡ true
    fits = ground arith

    none_fits : leb 0 (length v.buf) ≡ true
    none_fits = ground arith
