-- ===== src/Sapi/Transfer/Ends.antt =====
-- `CConnection::Read` and `CConnection::Write` end: a round sleeps a millisecond at least, and a
-- round that begins ten seconds after the attempt is the attempt's last.
use edps_plc_data_acquisitio.Base.{
  ℕ, zero, suc, ◌+◌, ◌*◌, ◌/◌, ◌≤◌, ◌<◌, inl, inr, Bool, true, false, Option, none, some, Bytes, ℤ,
  pos, minus, neg_part, is_zero, ltb, leb, ◌==◌, length, arith, Bool-cases, leb→gt, overlay,
  to_unsigned, if◌then◌else◌,
}
use edps_plc_data_acquisitio.Base.Run.{ok, M, Ends, ended, broke, bind-Ends, if_Ends}
use edps_plc_data_acquisitio.Sapi.Env.{S7, ClockLaws}
use edps_plc_data_acquisitio.Sapi.Transfer.{
  Vars, Exit, Next, returned, finished, restart, again, leave, no_msg, initiate_cnf, read_cnf,
  write_cnf, var_name_size, copy_fits, read_message, write_message, after_message, after_switch,
  round, loop, attempts, read, write,
}

-- The codes that the two functions return: -4 to -1, or a length.
abbrev pub IsCode : ℤ → Type 0
IsCode r = neg_part r ≤ 4

confirmed-IsCode : (b : Bool) (n : ℕ) → IsCode (if b then pos n else minus 4)
confirmed-IsCode true n = omega arith
confirmed-IsCode false n = omega arith

module _ {W : Type 0} (s7 : S7 W) (laws : ClockLaws s7) where
  open s7 use {clock}

  abbrev HandledFrom : W → Option Vars → W → Type 0
  HandledFrom w none w' = clock w ≤ clock w'
  HandledFrom w (some v) w' = IsCode v.buf_len × (clock w ≤ clock w')

  abbrev Handles : (ℕ → Vars → M W (Option Vars)) → Type 0
  Handles handle =
      (m : ℕ) (v : Vars) (w : W) → IsCode v.buf_len → Ends (HandledFrom w) (handle m v w)

  stored :
      {w w' : W} (desc con_ref : ℕ) (ret : ℤ) (len : ℕ) (buf : Bytes)
      → clock w ≤ clock w'
      → Ends (HandledFrom w) (
          ok
            (some (record {
              con_ref = con_ref;
              buf_len = if is_zero ret then pos len else minus 4;
              buf = buf;
            }))
            (s7.abort desc con_ref w').1)
  stored {w'} desc con_ref ret len buf le =
      ended (confirmed-IsCode (is_zero ret) len, omega (arith, laws.after_abort desc con_ref w'))

  read_message-Handles : (desc : ℕ) (name : Bytes) → Handles (read_message s7 desc name)
  unfolding read_message
  read_message-Handles desc name m v w c =
      if_Ends (m == no_msg) _ _ (λ _. ended (c, omega arith))
        λ _.
          if_Ends (m == initiate_cnf) _ _
            (λ _.
              bind-Ends {P = λ _ w'. clock w ≤ clock w'}
                (if_Ends (ltb (length name) var_name_size) _ _
                  (λ _. ended (
                    omega (
                      arith,
                      laws.after_get_initiate_cnf w,
                      laws.after_read_req desc v.con_ref name (s7.get_initiate_cnf w),
                    )))
                  (λ _. broke))
                λ _ _ le. ended (c, le))
            λ _.
              if_Ends (m == read_cnf) _ _
                (λ _.
                  bind-Ends {P = λ _ w'. clock w ≤ clock w'}
                    (if_Ends
                      (leb (length (s7.get_read_cnf (to_unsigned 65536 v.buf_len) w).0.2)
                        (length v.buf))
                      _ _ (λ _. ended (laws.after_get_read_cnf _ w)) (λ _. broke))
                    λ _ w' le.
                      let (ret, len, bytes) = (s7.get_read_cnf (to_unsigned 65536 v.buf_len) w).0 in
                      stored desc v.con_ref ret len (overlay bytes v.buf) le)
                (λ _. ended (omega arith))

  write_message-Handles : (desc : ℕ) (name : Bytes) → Handles (write_message s7 desc name)
  unfolding write_message
  write_message-Handles desc name m v w c =
      if_Ends (m == no_msg) _ _ (λ _. ended (c, omega arith))
        λ _.
          if_Ends (m == initiate_cnf) _ _
            (λ _.
              bind-Ends {P = λ _ w'. clock w ≤ clock w'}
                (if_Ends (ltb (length name) var_name_size) _ _
                  (λ _. ended (laws.after_get_initiate_cnf w)) (λ _. broke))
                λ _ w' le.
                  bind-Ends {P = λ _ w'. clock w ≤ clock w'}
                    (if_Ends (copy_fits s7 v) _ _
                      (λ _. ended (omega (arith, laws.after_write_req desc v.con_ref name _ w')))
                      (λ _. broke))
                    λ _ _ le'. ended (c, le'))
            λ _.
              if_Ends (m == write_cnf) _ _
                (λ _. ended (
                  ground arith,
                  omega (
                    arith,
                    laws.after_get_write_cnf w,
                    laws.after_abort desc v.con_ref (s7.get_write_cnf w).1,
                  ),
                ))
                (λ _. ended (omega arith))

  module _ (desc : ℕ) (handle : ℕ → Vars → M W (Option Vars)) (stop : ℕ) (h : Handles handle) where
    -- After a round that goes on, time has passed and the ten seconds were not over.
    abbrev RoundFrom : ℕ → W → Next → W → Type 0
    RoundFrom start w (again v) w' =
        IsCode v.buf_len × (suc (clock w) ≤ clock w') × (clock w < 1000 * (start + 10))
    RoundFrom start w (leave (returned r v)) w' = IsCode r × (clock w ≤ clock w')
    RoundFrom start w (leave (finished v)) w' = IsCode v.buf_len × (clock w ≤ clock w')
    RoundFrom start w (leave (restart v)) w' = IsCode v.buf_len × (clock w ≤ clock w')

    slept :
        (start m : ℕ) (v : Vars) (w w' : W)
        → IsCode v.buf_len
        → clock w ≤ clock w'
        → clock w' / 1000 < start + 10
        → clock w' + 1 ≤ clock (s7.sleep 1 w')
        → Ends
            (RoundFrom start w)
            (ok (if m == stop then leave (finished v) else again v) (s7.sleep 1 w'))
    slept start m v w w' c le early long = elim (Bool-cases (m == stop)) [
      | inl e ↦ rw e (ended (c, omega arith))
      | inr e ↦ rw e (ended (c, omega arith, omega arith))
    ]

    after_message-Ends :
        (start m : ℕ) (v : Vars) (w w' : W)
        → IsCode v.buf_len
        → clock w ≤ clock w'
        → Ends (RoundFrom start w) (after_message s7 desc handle stop start m v w')
    unfolding after_message
    after_message-Ends start m v w w' c le =
        if_Ends (leb (start + 10) (clock w' / 1000)) _ _
          (λ _. ended (
            c,
            omega (
              arith,
              laws.after_abort desc v.con_ref w',
              laws.sleep_lasts 1000 (s7.abort desc v.con_ref w').1,
            ),
          ))
          λ early.
            slept start m v w w' c le (leb→gt (start + 10) (clock w' / 1000) early)
              (laws.sleep_lasts 1 w')

    after_switch-Ends :
        (start m : ℕ) (v : Vars) (o : Option Vars) (w w' : W)
        → HandledFrom w o w'
        → Ends (RoundFrom start w) (after_switch s7 desc handle stop start m v o w')
    unfolding after_switch
    after_switch-Ends start m v none w w' le = ended (omega arith, le)
    after_switch-Ends start m v (some v') w w' (c, le) = after_message-Ends start m v' w w' c le

    round-Ends :
        (start : ℕ) (v : Vars) (w : W)
        → IsCode v.buf_len
        → Ends (RoundFrom start w) (round s7 desc handle stop start v w)
    unfolding round
    round-Ends start v w c =
        bind-Ends (h _ _ (s7.receive desc v.con_ref w).1 c)
          λ o w' from. after_switch-Ends start _ _ o w w' (later o w' from)
      where
        later :
            (o : Option Vars) (w' : W)
            → HandledFrom (s7.receive desc v.con_ref w).1 o w'
            → HandledFrom w o w'
        later none w' le = omega (arith, laws.after_receive desc v.con_ref w)
        later (some v') w' (c, le) = (c, omega (arith, laws.after_receive desc v.con_ref w))

    abbrev ExitFrom : W → Exit → W → Type 0
    ExitFrom w (returned r v) w' = IsCode r × (clock w ≤ clock w')
    ExitFrom w (finished v) w' = IsCode v.buf_len × (clock w ≤ clock w')
    ExitFrom w (restart v) w' = IsCode v.buf_len × (clock w ≤ clock w')

    -- The rounds left cover the milliseconds to the end of the ten seconds.
    loop-Ends :
        (fuel start : ℕ) (v : Vars) (w₀ w : W)
        → 0 < fuel
        → 1000 * (start + 10) < clock w + fuel
        → IsCode v.buf_len
        → clock w₀ ≤ clock w
        → Ends (ExitFrom w₀) (loop s7 desc handle stop fuel start v w)
    unfolding loop
    loop-Ends zero start v w₀ w p t c since = absurd (omega arith)
    loop-Ends (suc fuel) start v w₀ w p t c since = bind-Ends (round-Ends start v w c) (elim [
      | again v' ↦ λ w' (c', long, early).
          loop-Ends fuel start v' w₀ w' (omega arith) (omega arith) c' (omega arith)
      | leave (returned r v') ↦ λ w' from. ended (from.0, omega arith)
      | leave (finished v') ↦ λ w' from. ended (from.0, omega arith)
      | leave (restart v') ↦ λ w' from. ended (from.0, omega arith)
    ])

    abbrev ResultFrom : W → ℤ × Vars → W → Type 0
    ResultFrom w (r, v) w' = IsCode r × (clock w ≤ clock w')

    attempts-Ends :
        (left fuel : ℕ) (v : Vars) (w₀ w : W)
        → 10_000 < fuel
        → IsCode v.buf_len
        → clock w₀ ≤ clock w
        → Ends (ResultFrom w₀) (attempts s7 desc handle stop left fuel v w)
    unfolding attempts
    attempts-Ends zero fuel v w₀ w big c since = ended (omega arith, since)
    attempts-Ends (suc left) fuel v w₀ w big c since =
        let later = laws.after_initiate_req desc v.con_ref w in
        if_Ends (is_zero (s7.initiate_req desc v.con_ref w).0) _ _
          (λ _.
            bind-Ends
              (loop-Ends fuel (clock w / 1000) v w₀ (s7.initiate_req desc v.con_ref w).1
                (omega arith) (omega (arith, later)) c (omega (arith, later)))
              (elim [
                | returned r v' ↦ λ w' from. ended from
                | finished v' ↦ λ w' from. ended from
                | restart v' ↦ λ w' (c', le). attempts-Ends left fuel v' w₀ w' big c' le
              ]))
          (λ _. ended (omega arith, omega (arith, later)))

  -- On a clock that no call sets back and that a `Sleep` moves on, 10001 rounds for each attempt are
  -- enough for both functions, whatever the controller sends: each returns a code from -4 to -1 or a
  -- length, at a clock that is not behind, or breaks off at an access outside a buffer.
  pub transfer-Ends :
      (fuel desc : ℕ) (name : Bytes) (v : Vars) (w : W)
      → 10_000 < fuel
      → IsCode v.buf_len
      → Ends (λ (r, _) w'. IsCode r × (clock w ≤ clock w')) (read s7 fuel desc name v w)
        × Ends (λ (r, _) w'. IsCode r × (clock w ≤ clock w')) (write s7 fuel desc name v w)
  unfolding read write
  transfer-Ends fuel desc name v w big c = (
    attempts-Ends desc _ read_cnf (read_message-Handles desc name) 3 fuel v w w big c (omega arith),
    attempts-Ends desc _ write_cnf (write_message-Handles desc name) 3 fuel v w w big c
        (omega arith),
  )
