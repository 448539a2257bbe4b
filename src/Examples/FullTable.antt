-- ===== src/Examples/FullTable.antt =====
-- Sixteen open sessions, each with a connection of its own.
use edps_plc_data_acquisitio.Base.{
  ℕ, zero, suc, ◌+◌, ◌≤◌, ◌<◌, ◌≡◌, refl, none, some, List, [], ◌∷◌, Option, bytes_eq, codes, pos,
  ltb, if◌then◌else◌, arith, sym, ◌∙◌, false,
}
use edps_plc_data_acquisitio.Base.Run.{fault}
use edps_plc_data_acquisitio.Sapi.Store.{Session, Connection, Globals}
use edps_plc_data_acquisitio.Sapi.Library.{connect}
use edps_plc_data_acquisitio.Sapi.Library.FullTable.{NoneNamed, connect_faults}
use edps_plc_data_acquisitio.Sapi.Library.WellFormed.{users, one_if_live, Owned, WellFormed}
use edps_plc_data_acquisitio.Examples.Device.{Device, device, off}

abbrev to_cp : Session
to_cp = record { ord_num = 0; status = pos 0; ref_count = 1; desc_cp = 7; name = codes "CP" }

abbrev sixteen : ℕ → Option Session
sixteen zero = none
sixteen (suc p) = if ltb p 16 then some to_cp else none

abbrev over : ℕ → Connection
over p = record {
  status = pos 0;
  sess_status = pos 0;
  session = p;
  desc_cp = 7;
  con_ref = 3;
  con_name = codes "PLC1";
}

-- A connection over each session from 1 to `n`.
abbrev over_each : ℕ → List Connection
over_each zero = []
over_each (suc n) = over (suc n) ∷ over_each n

abbrev full : Globals Device
full = record {
  world = off;
  sess = λ i. i + 1;
  act_sess_qty = 16;
  heap = sixteen;
  fresh = 17;
  con = over_each 16;
}

users-over_each : (p n : ℕ) → 1 ≤ p → users p (over_each n) ≡ (if ltb n p then 0 else 1)
users-over_each p zero l = ground arith
users-over_each p (suc n) l = ground (arith, users-over_each p n l)

sixteen_counts : (p : ℕ) (s : Session) → sixteen p ≡ some s → (s.ref_count ≡ 1) × (1 ≤ p) × (p ≤ 16)
sixteen_counts zero s e = ground arith
sixteen_counts (suc p) s e = ground arith

sixteen_unused : (p : ℕ) → 17 ≤ p → sixteen p ≡ none
sixteen_unused zero l = refl
sixteen_unused (suc p) l = ground arith

sixteen_live : (p : ℕ) → p < 16 → 1 ≤ one_if_live (sixteen (p + 1))
sixteen_live p l = ground arith

sixteen_called : (p : ℕ) (s : Session) → sixteen p ≡ some s → s.name ≡ codes "CP"
sixteen_called zero s e = ground arith
sixteen_called (suc p) s e = ground arith

sixteen_name : (p : ℕ) (s : Session) → sixteen p ≡ some s → bytes_eq s.name (codes "CP17") ≡ false
unfolding bytes_eq
sixteen_name p s e = rw (sixteen_called p s e) refl

one_user : (p : ℕ) → 1 ≤ p → p ≤ 16 → users p (over_each 16) ≡ 1
one_user p low high = rw (users-over_each p 16 low) (ground arith)

over_each-Owned : (n : ℕ) → n ≤ 16 → Owned sixteen (over_each n)
over_each-Owned zero l = tt
over_each-Owned (suc n) l = (refl, ground arith, over_each-Owned n (omega arith))

over_each-NoneNamed : (n : ℕ) → NoneNamed (codes "PLC2") (over_each n)
unfolding bytes_eq
over_each-NoneNamed zero = tt
over_each-NoneNamed (suc n) = (refl, over_each-NoneNamed n)

full-WellFormed : WellFormed full
full-WellFormed = record {
  balanced = record {
    counts = λ p s e.
        let (one, low, high) = sixteen_counts p s e in
        (one ∙ sym (one_user p low high), omega (arith, one_user p low high));
    owned = over_each-Owned 16 (omega arith);
    few = omega arith;
    unused = sixteen_unused;
    null_unused = refl;
    fresh_pos = omega arith;
    table_size = refl;
  };
  entries_live = sixteen_live;
  distinct = λ i j before below. ground arith;
  sessions_fit = omega arith;
}

connect_faults_example : connect device (codes "CP17") (codes "PLC2") full ≡ fault
connect_faults_example =
    connect_faults device full (codes "CP17") (codes "PLC2") full-WellFormed refl refl (omega arith)
      (omega arith) (over_each-NoneNamed 16) refl (λ k s l e. sixteen_name (k + 1) s e)
