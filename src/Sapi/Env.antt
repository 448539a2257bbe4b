-- ===== src/Sapi/Env.antt =====
-- What SAPI/ calls and does not implement: the S7 programming interface of s7msc.lib (SAPI_S7.H
-- declares it), the clock, uninitialised memory and floating-point text. `W` is the world behind
-- the calls; a call takes it and returns it anew.
use edps_plc_data_acquisitio.Base.{ℕ, ◌+◌, ◌≤◌, Bytes, ℤ}

pub record S7 (W : Type 0) : Type 0 where
  -- `s7_get_vfd(cp, 0, &number, name)`: return value, number and name.
  pub get_vfd : Bytes → W → (ℤ × ℕ × Bytes) × W
  -- `s7_init(cp, name, &descriptor)`.
  pub init : Bytes → Bytes → W → (ℤ × ℕ) × W
  pub shut : ℕ → W → W
  pub last_iec_err_no : W → ℤ
  -- `s7_get_cref(descriptor, connection, &cref)`.
  pub get_cref : ℕ → Bytes → W → (ℤ × ℕ) × W
  pub initiate_req : ℕ → ℕ → W → ℤ × W
  -- `s7_receive(descriptor, &cref, &order)`: the message, and what it stores in `cref`.
  pub receive : ℕ → ℕ → W → (ℕ × ℕ) × W
  pub get_initiate_cnf : W → W
  -- The variable's name stands in the parameters; the return value is not used.
  pub read_req : ℕ → ℕ → Bytes → W → W
  -- `s7_get_read_cnf(NULL, &len, buffer)`: return value, the new `len`, and the bytes stored.
  pub get_read_cnf : ℕ → W → (ℤ × ℕ × Bytes) × W
  -- The variable's name and the value of `var_length` bytes; the return value is not used.
  pub write_req : ℕ → ℕ → Bytes → Bytes → W → W
  pub get_write_cnf : W → ℤ × W
  pub abort : ℕ → ℕ → W → ℤ × W
  -- Milliseconds; `time` gives the whole seconds of it.
  pub clock : W → ℕ
  pub sleep : ℕ → W → W
  -- What stands in memory before it is written: `n` bytes of a buffer, and the members
  -- `SessStatus` and `Session` of a new `CConnection`.
  pub uninit : ℕ → W → Bytes
  pub uninit_status : W → ℤ
  pub uninit_session : W → ℕ
  -- `atof` to the 32-bit pattern of a `float`, and `_gcvt` of such a pattern with so many digits.
  pub atof : Bytes → ℕ
  pub gcvt : ℕ → ℕ → Bytes

-- `Sleep(n)` lasts at least `n` milliseconds, and no call sets the clock back.
pub record ClockLaws {W : Type 0} (s7 : S7 W) : Type 0 where
  pub sleep_lasts : (n : ℕ) (w : W) → s7.clock w + n ≤ s7.clock (s7.sleep n w)
  pub after_initiate_req : (d c : ℕ) (w : W) → s7.clock w ≤ s7.clock (s7.initiate_req d c w).1
  pub after_receive : (d c : ℕ) (w : W) → s7.clock w ≤ s7.clock (s7.receive d c w).1
  pub after_get_initiate_cnf : (w : W) → s7.clock w ≤ s7.clock (s7.get_initiate_cnf w)
  pub after_read_req :
      (d c : ℕ) (name : Bytes) (w : W) → s7.clock w ≤ s7.clock (s7.read_req d c name w)
  pub after_get_read_cnf : (n : ℕ) (w : W) → s7.clock w ≤ s7.clock (s7.get_read_cnf n w).1
  pub after_write_req :
      (d c : ℕ) (name value : Bytes) (w : W) → s7.clock w ≤ s7.clock (s7.write_req d c name value w)
  pub after_get_write_cnf : (w : W) → s7.clock w ≤ s7.clock (s7.get_write_cnf w).1
  pub after_abort : (d c : ℕ) (w : W) → s7.clock w ≤ s7.clock (s7.abort d c w).1
