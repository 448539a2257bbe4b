-- ===== src/Sapi/Data/Ends.antt =====
-- `ReadData` and `WriteData` end, for every type.
use edps_plc_data_acquisitio.Base.{
  ℕ, ◌≤◌, ◌<◌, Bytes, pos, negsuc, ltb, arith, Bool-cases, inl, inr,
}
use edps_plc_data_acquisitio.Base.Run.{Ends, ended, bind-Ends}
use edps_plc_data_acquisitio.Sapi.Env.{S7, ClockLaws}
use edps_plc_data_acquisitio.Sapi.Transfer.Ends.{transfer-Ends}
use edps_plc_data_acquisitio.Sapi.Data.{
  Kind, bit, float, long, integer, string_of, unknown, kind_of, read_buffer, read_kind, read_data,
  write_buffer, write_kind, write_data,
}

module _ {W : Type 0} (s7 : S7 W) (laws : ClockLaws s7) (fuel desc : ℕ)
    (enough : 10_000 < fuel) where
  open s7 use {clock}

  read_buffer-Ends :
      (con_ref : ℕ) (item : Bytes) (n : ℕ) (w : W)
      → Ends (λ d w'. clock w ≤ clock w') (read_buffer s7 fuel desc con_ref item n w)
  unfolding read_buffer
  read_buffer-Ends con_ref item n w =
      bind-Ends (transfer-Ends s7 laws fuel desc item _ w enough (omega arith)).0
        λ (r, v) w' (c, le). ended le

  write_buffer-Ends :
      (con_ref : ℕ) (item : Bytes) (n : ℕ) (buf : Bytes) (w : W)
      → Ends (λ d w'. clock w ≤ clock w') (write_buffer s7 fuel desc con_ref item n buf w)
  unfolding write_buffer
  write_buffer-Ends con_ref item n buf w =
      bind-Ends (transfer-Ends s7 laws fuel desc item _ w enough (omega arith)).1
        λ (r, v) w' (c, le). ended le

  read_kind-Ends :
      (con_ref : ℕ) (item : Bytes) (k : Kind) (w : W)
      → Ends (λ d w'. clock w ≤ clock w') (read_kind s7 fuel desc con_ref item k w)
  unfolding read_kind
  read_kind-Ends con_ref item bit w =
      bind-Ends (read_buffer-Ends con_ref item 1 w) λ d w' le. ended le
  read_kind-Ends con_ref item float w =
      bind-Ends (read_buffer-Ends con_ref item 4 w) λ d w' le. ended le
  read_kind-Ends con_ref item long w =
      bind-Ends (read_buffer-Ends con_ref item 4 w) λ d w' le. ended le
  read_kind-Ends con_ref item integer w =
      bind-Ends (read_buffer-Ends con_ref item 2 w) λ d w' le. ended le
  read_kind-Ends con_ref item (string_of (pos n)) w = elim (Bool-cases (ltb 0 n)) [
    | inl e ↦ rw e (bind-Ends (read_buffer-Ends con_ref item n w) λ d w' le. ended le)
    | inr e ↦ rw e (ended (omega arith))
  ]
  read_kind-Ends con_ref item (string_of (negsuc n)) w = ended (omega arith)
  read_kind-Ends con_ref item unknown w = ended (omega arith)

  write_kind-Ends :
      (con_ref : ℕ) (item : Bytes) (k : Kind) (text : Bytes) (w : W)
      → Ends (λ d w'. clock w ≤ clock w') (write_kind s7 fuel desc con_ref item k text w)
  unfolding write_kind
  write_kind-Ends con_ref item bit text w = write_buffer-Ends con_ref item 1 _ w
  write_kind-Ends con_ref item float text w = write_buffer-Ends con_ref item 4 _ w
  write_kind-Ends con_ref item long text w = write_buffer-Ends con_ref item 4 _ w
  write_kind-Ends con_ref item integer text w = write_buffer-Ends con_ref item 2 _ w
  write_kind-Ends con_ref item (string_of (pos n)) text w = elim (Bool-cases (ltb 0 n)) [
    | inl e ↦ rw e (write_buffer-Ends con_ref item n _ w)
    | inr e ↦ rw e (ended (omega arith))
  ]
  write_kind-Ends con_ref item (string_of (negsuc n)) text w = ended (omega arith)
  write_kind-Ends con_ref item unknown text w = ended (omega arith)

  pub read_data-Ends :
      (con_ref : ℕ) (item type : Bytes) (w : W)
      → Ends (λ d w'. clock w ≤ clock w') (read_data s7 fuel desc con_ref item type w)
  unfolding read_data
  read_data-Ends con_ref item type w = read_kind-Ends con_ref item (kind_of type) w

  pub write_data-Ends :
      (con_ref : ℕ) (item type text : Bytes) (w : W)
      → Ends (λ d w'. clock w ≤ clock w') (write_data s7 fuel desc con_ref item type text w)
  unfolding write_data
  write_data-Ends con_ref item type text w = write_kind-Ends con_ref item (kind_of type) text w
