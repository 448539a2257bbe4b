-- ===== src/Examples/Device.antt =====
-- A communication processor for the examples: it grants every session and connection, hands out
-- the messages of a list, answers a read with the bytes that it holds, and counts milliseconds.
use edps_plc_data_acquisitio.Base.{
  ℕ, ◌+◌, ◌≤◌, none, List, [], ◌∷◌, Bytes, codes, pos, length, replicate, take, arith,
}
use edps_plc_data_acquisitio.Sapi.Env.{S7, ClockLaws}
use edps_plc_data_acquisitio.Sapi.Store.{Globals}

pub record Device : Type 0 where
  pub now : ℕ
  pub messages : List ℕ
  pub memory : Bytes

abbrev pub deliver : ℕ → List ℕ → Device → (ℕ × ℕ) × Device
deliver cref [] d = ((0, cref), d)
deliver cref (m ∷ ms) d = ((m, cref), record d { messages = ms })

abbrev pub device : S7 Device
device = record {
  get_vfd = λ cp d. ((pos 0, 1, codes "VFD"), d);
  init = λ cp vfd d. ((pos 0, 7), d);
  shut = λ desc d. d;
  last_iec_err_no = λ d. pos 0;
  get_cref = λ desc name d. ((pos 0, 3), d);
  initiate_req = λ desc cref d. (pos 0, d);
  receive = λ desc cref d. deliver cref d.messages d;
  get_initiate_cnf = λ d. d;
  read_req = λ desc cref name d. d;
  get_read_cnf = λ n d. let out = take n d.memory in ((pos 0, length out, out), d);
  write_req = λ desc cref name value d. record d { memory = value };
  get_write_cnf = λ d. (pos 0, d);
  abort = λ desc cref d. (pos 0, d);
  clock = λ d. d.now;
  sleep = λ n d. record d { now = d.now + n };
  uninit = λ n d. replicate n 0;
  uninit_status = λ d. pos 0;
  uninit_session = λ d. 0;
  atof = λ text. 0;
  gcvt = λ digits f. [];
}

deliver_now : (cref : ℕ) (ms : List ℕ) (d : Device) → d.now ≤ (deliver cref ms d).1.now
deliver_now cref [] d = omega arith
deliver_now cref (m ∷ ms) d = omega arith

pub device-ClockLaws : ClockLaws device
device-ClockLaws = record {
  sleep_lasts = λ n d. omega arith;
  after_initiate_req = λ desc cref d. omega arith;
  after_receive = λ desc cref d. deliver_now cref d.messages d;
  after_get_initiate_cnf = λ d. omega arith;
  after_read_req = λ desc cref name d. omega arith;
  after_get_read_cnf = λ n d. omega arith;
  after_write_req = λ desc cref name value d. omega arith;
  after_get_write_cnf = λ d. omega arith;
  after_abort = λ desc cref d. omega arith;
}

pub off : Device
off = record { now = 0; messages = []; memory = [] }

abbrev pub empty : Device → Globals Device
empty d = record {
  world = d;
  sess = λ i. 0;
  act_sess_qty = 0;
  heap = λ p. none;
  fresh = 1;
  con = [];
}
