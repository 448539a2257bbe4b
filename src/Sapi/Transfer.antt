-- ===== src/Sapi/Transfer.antt =====
-- SAPI/CConnection.cpp, `CConnection::Read` and `CConnection::Write`. The two functions have the
-- same text but for the messages that they handle, so the loop stands here once, over a handler.
-- The texts written to the log are left out.
pub mod Ends
pub mod Late
use edps_plc_data_acquisitio.Base.{
  ℕ, zero, suc, ◌+◌, ◌/◌, Bool, Option, none, some, Bytes, ℤ, pos, minus, is_zero, to_unsigned, ltb,
  leb, ◌==◌, if◌then◌else◌, length, take, overlay,
}
use edps_plc_data_acquisitio.Base.Run.{Run, ok, fault, out_of_fuel, M, pure, ◌>>=◌, ◌>>◌, bad}
use edps_plc_data_acquisitio.Sapi.Env.{S7}

-- `S7_NO_MSG`, `S7_INITIATE_CNF`, `S7_READ_CNF`, `S7_WRITE_CNF`.
abbrev pub no_msg : ℕ
no_msg = 0

abbrev pub initiate_cnf : ℕ
initiate_cnf = 0x0101

abbrev pub read_cnf : ℕ
read_cnf = 0x0301

abbrev pub write_cnf : ℕ
write_cnf = 0x0302

-- The bytes of `var_name` and of `value` in `S7_READ_PARA` and `S7_WRITE_PARA`.
abbrev pub var_name_size : ℕ
var_name_size = 34

abbrev pub value_size : ℕ
value_size = 256

-- What a round changes: the member `wConRef`, the local `nBufLen` and the bytes at `pDataBuf`.
pub record Vars : Type 0 where
  pub con_ref : ℕ
  pub buf_len : ℤ
  pub buf : Bytes

-- How the `do` loop is left: by `return`, by its condition, or by `goto StartPoint`.
pub data Exit : Type 0 where
  returned : ℤ → Vars → Exit
  finished : Vars → Exit
  restart : Vars → Exit

pub data Next : Type 0 where
  again : Vars → Next
  leave : Exit → Next

module _ {W : Type 0} (s7 : S7 W) where
  open s7 use {
    initiate_req, receive, get_initiate_cnf, read_req, get_read_cnf, write_req, get_write_cnf,
    abort, clock, sleep,
  }

  abbrev pub call : {A : Type 0} → (W → A × W) → M W A
  call f w = let (a, w') = f w in ok a w'

  abbrev pub run : (W → W) → M W (Unit {0})
  run f w = ok tt (f w)

  -- `time`.
  abbrev pub seconds : M W ℕ
  seconds w = ok (clock w / 1000) w

  -- The `switch` of `Read`; `none` is its default case.
  unfoldable pub read_message : ℕ → Bytes → ℕ → Vars → M W (Option Vars)
  read_message desc name message v =
      if message == no_msg
      then pure (some v)
      else if message == initiate_cnf
      then (do
        run get_initiate_cnf
        if ltb (length name) var_name_size then run (read_req desc v.con_ref name) else bad
        pure (some v))
      else if message == read_cnf
      then (do
        (ret, len, stored) ← call (get_read_cnf (to_unsigned 65536 v.buf_len))
        if leb (length stored) (length v.buf) then pure tt else bad
        call (abort desc v.con_ref)
        pure (
            some (record v {
              buf_len = if is_zero ret then pos len else minus 4;
              buf = overlay stored v.buf;
            })))
      else pure none

  -- `memcpy(wp.value, pDataBuf, nBufLen)`: it must stay inside both buffers.
  abbrev pub copy_fits : Vars → Bool
  copy_fits v = elim v.buf_len [
    | pos n ↦ if leb n value_size then leb n (length v.buf) else Bool.false
    | _ ↦ Bool.false
  ]

  -- The `switch` of `Write`.
  unfoldable pub write_message : ℕ → Bytes → ℕ → Vars → M W (Option Vars)
  write_message desc name message v =
      if message == no_msg
      then pure (some v)
      else if message == initiate_cnf
      then (do
        run get_initiate_cnf
        if ltb (length name) var_name_size then pure tt else bad
        if copy_fits v
            then run (write_req desc v.con_ref name (take (to_unsigned 65536 v.buf_len) v.buf))
            else bad
        pure (some v))
      else if message == write_cnf
      then (do
        ret ← call get_write_cnf
        call (abort desc v.con_ref)
        pure (some (record v { buf_len = if is_zero ret then pos 0 else minus 4 })))
      else pure none

  module _ (desc : ℕ) (handle : ℕ → Vars → M W (Option Vars)) (stop : ℕ) where
    -- What follows the `switch`: the time-out test, and the condition of the loop.
    unfoldable pub after_message : (start message : ℕ) → Vars → M W Next
    after_message start message v = do
      finish ← seconds
      if leb (start + 10) finish
          then (do call (abort desc v.con_ref); run (sleep 1000); pure (leave (restart v)))
          else (do run (sleep 1); pure (if message == stop then leave (finished v) else again v))

    unfoldable pub after_switch : (start message : ℕ) → Vars → Option Vars → M W Next
    after_switch start message v none = pure (leave (returned (minus 2) v))
    after_switch start message v (some v') = after_message start message v'

    -- One round of the `do` loop.
    unfoldable pub round : (start : ℕ) → Vars → M W Next
    round start v = do
      (message, con_ref) ← call (receive desc v.con_ref)
      let v' = record v { con_ref = con_ref }
      handled ← handle message v'
      after_switch start message v' handled

    unfoldable pub loop : (fuel start : ℕ) → Vars → M W Exit
    loop zero start v = λ _. out_of_fuel
    loop (suc fuel) start v =
        round start v >>= elim [ again v' ↦ loop fuel start v' | leave e ↦ pure e ]

    -- `StartPoint`, with so many attempts left and so many rounds for each.
    unfoldable pub attempts : (left fuel : ℕ) → Vars → M W (ℤ × Vars)
    attempts zero fuel v = pure (minus 3, v)
    attempts (suc left) fuel v = do
      start ← seconds
      ret ← call (initiate_req desc v.con_ref)
      if is_zero ret
          then loop fuel start v >>= elim [
            | returned r v' ↦ pure (r, v')
            | finished v' ↦ pure (v'.buf_len, v')
            | restart v' ↦ attempts left fuel v'
          ]
          else pure (minus 1, v)

  -- `Read` and `Write` make three attempts.
  unfoldable pub read : (fuel desc : ℕ) → Bytes → Vars → M W (ℤ × Vars)
  read fuel desc name = attempts desc (read_message desc name) read_cnf 3 fuel

  unfoldable pub write : (fuel desc : ℕ) → Bytes → Vars → M W (ℤ × Vars)
  write fuel desc name = attempts desc (write_message desc name) write_cnf 3 fuel
