-- ===== src/Sapi/Store.antt =====
-- SAPI/CPSession.cpp and the global tables: the sessions on the heap, `Sess` and `ActSessQty` of
-- SAPI/CConnection.cpp, `Con` and `ActConnQty` of SAPI/SAPIlib.cpp.
use edps_plc_data_acquisitio.Base.{
  ℕ, ◌+◌, ◌-◌, ◌%◌, ◌^◌, ◌||◌, not, Option, none, some, List, Bytes, codes, ℤ, pos, minus, ◌+ℤ◌,
  is_zero, length, ltb, ◌==◌, if◌then◌else◌,
}
use edps_plc_data_acquisitio.Base.Run.{Run, ok, fault, out_of_fuel, M, pure, ◌>>=◌, ◌>>◌, bad}
use edps_plc_data_acquisitio.Sapi.Env.{S7}

abbrev pub sess_qty : ℕ
sess_qty = 16

abbrev pub conn_qty : ℕ
conn_qty = 100

-- `BAD_DESC`.
abbrev pub bad_desc : ℕ
bad_desc = 0xffff_ffff

-- The size of `CPSessionName` and of `szConName`.
abbrev pub name_size : ℕ
name_size = 128

-- `CPSession`; a reference count is its 32-bit pattern.
pub record Session : Type 0 where
  pub ord_num : ℕ
  pub status : ℤ
  pub ref_count : ℕ
  pub desc_cp : ℕ
  pub name : Bytes

-- `CConnection`; `session` is an address.
pub record Connection : Type 0 where
  pub status : ℤ
  pub sess_status : ℤ
  pub session : ℕ
  pub desc_cp : ℕ
  pub con_ref : ℕ
  pub con_name : Bytes

-- `Sess` is an array of addresses, of which the first `act_sess_qty` are in use. `heap` holds the
-- sessions that are not deleted; `new` takes the address `fresh`, and 0 is the null pointer.
-- `con` is the part of `Con` that is in use; its length is `ActConnQty`.
pub record Globals (W : Type 0) : Type 0 where
  pub world : W
  pub sess : ℕ → ℕ
  pub act_sess_qty : ℕ
  pub heap : ℕ → Option Session
  pub fresh : ℕ
  pub con : List Connection

abbrev pub update {ℓ} : {A : Type ℓ} → (ℕ → A) → ℕ → A → ℕ → A
update f i a j = if j == i then a else f j

module _ {W : Type 0} where
  -- A call into the S7 library, and a run on the world alone.
  abbrev pub on_world : {A : Type 0} → (W → A × W) → M (Globals W) A
  on_world f g = let (a, w) = f g.world in ok a (record g { world = w })

  abbrev pub lifted : {A : Type 0} → Globals W → Run W A → Run (Globals W) A
  lifted g (ok a w) = ok a (record g { world = w })
  lifted g fault = fault
  lifted g out_of_fuel = out_of_fuel

  abbrev pub lift : {A : Type 0} → M W A → M (Globals W) A
  lift m g = lifted g (m g.world)

  -- Following a pointer to a session: a deleted one, or one that was never allocated, is a fault.
  unfoldable pub deref : ℕ → M (Globals W) Session
  deref p g = elim (g.heap p) [ none ↦ fault | some s ↦ ok s g ]

  abbrev pub store : ℕ → Session → M (Globals W) (Unit {0})
  store p s g = ok tt (record g { heap = update g.heap p (some s) })

  abbrev pub free : ℕ → M (Globals W) (Unit {0})
  free p g = ok tt (record g { heap = update g.heap p none })

  module _ (s7 : S7 W) where
    default_cp : Bytes
    default_cp = codes "CP_H1_1:"

    cp_or_default : Option Bytes → Bytes
    unfolding default_cp
    cp_or_default none = default_cp
    cp_or_default (some cp) = cp

    -- `CPSession::CPSession`; `sprintf` of the name must stay inside `CPSessionName`. `OrdNum` is
    -- not initialised, and nothing reads it before `SetOrdNum`.
    unfoldable pub new_session : Option Bytes → M (Globals W) Session
    unfolding cp_or_default
    new_session pszCP = do
      let cp = cp_or_default pszCP
      if ltb (length cp) name_size then pure tt else bad
      (ret, numb, vfd) ← on_world (s7.get_vfd cp)
      if not (is_zero ret) || numb == 0
          then (λ g.
              ok
                (record {
                  ord_num = 0;
                  status = s7.last_iec_err_no g.world +ℤ pos 1000;
                  ref_count = 0;
                  desc_cp = bad_desc;
                  name = cp;
                })
                g)
          else (do
            (ret', desc) ← on_world (s7.init cp vfd)
            pure (record {
              ord_num = 0;
              status = if is_zero ret' then pos 0 else minus 1;
              ref_count = 0;
              desc_cp = if is_zero ret' then desc else bad_desc;
              name = cp;
            }))

    -- `delete Session`: the destructor shuts the channel, and the object is gone.
    unfoldable pub delete_session : ℕ → M (Globals W) (Unit {0})
    delete_session p = do
      s ← deref p
      if s.desc_cp == bad_desc
          then pure tt
          else (λ g. ok tt (record g { world = s7.shut s.desc_cp g.world }))
      free p

  -- `IncRef` and `DecRef`; the second returns the new count.
  unfoldable pub inc_ref : ℕ → M (Globals W) (Unit {0})
  inc_ref p = do s ← deref p; store p (record s { ref_count = (s.ref_count + 1) % 2 ^ 32 })

  unfoldable pub dec_ref : ℕ → M (Globals W) ℕ
  dec_ref p = do
    s ← deref p
    let n = (s.ref_count + (2 ^ 32 - 1)) % 2 ^ 32
    store p (record s { ref_count = n })
    pure n

  unfoldable pub set_ord_num : ℕ → ℕ → M (Globals W) (Unit {0})
  set_ord_num p n = do s ← deref p; store p (record s { ord_num = n })
