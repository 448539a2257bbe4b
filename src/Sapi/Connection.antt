-- ===== src/Sapi/Connection.antt =====
-- SAPI/CConnection.cpp, the constructor and the destructor of `CConnection`: sharing one session
-- between the connections to a communication processor, and giving it up.
use edps_plc_data_acquisitio.Base.{
  ℕ, zero, suc, ◌+◌, ◌-◌, Bytes, ℤ, pos, minus, is_zero, some, length, ltb, ◌==◌, bytes_eq,
  if◌then◌else◌,
}
use edps_plc_data_acquisitio.Base.Run.{M, pure, ◌>>=◌, ◌>>◌, bad, get, modify}
use edps_plc_data_acquisitio.Sapi.Env.{S7}
use edps_plc_data_acquisitio.Sapi.Store.{
  Session, Connection, Globals, sess_qty, name_size, update, on_world, deref, new_session,
  delete_session, inc_ref, dec_ref, set_ord_num,
}

-- `for(iI = Num; iI < ActSessQty - 1; iI++) Sess[iI] = Sess[iI+1]`, with so many rounds left.
unfoldable pub shift_down : ℕ → ℕ → (ℕ → ℕ) → ℕ → ℕ
shift_down zero i sess = sess
shift_down (suc left) i sess = shift_down left (i + 1) (update sess i (sess (i + 1)))

-- What the constructor has set, up to its `return`.
abbrev pub failed : ℤ → Connection → Connection
failed status c = record c { status = status }

module _ {W : Type 0} where
  -- The first session of that name among so many entries of `Sess` from `i` on, or the end.
  unfoldable pub search_sessions : ℕ → ℕ → Bytes → M (Globals W) ℕ
  search_sessions zero i cp = pure i
  search_sessions (suc left) i cp = do
    g ← get
    s ← deref (g.sess i)
    if bytes_eq s.name cp then pure i else search_sessions left (i + 1) cp

  module _ (s7 : S7 W) where
    -- A new object: the members that the constructor may leave alone hold what memory held.
    -- `sprintf` of the name must stay inside `szConName`.
    unfoldable pub blank : Bytes → M (Globals W) Connection
    blank name = do
      if ltb (length name) name_size then pure tt else bad
      g ← get
      pure (record {
        status = pos 0;
        sess_status = s7.uninit_status g.world;
        session = s7.uninit_session g.world;
        desc_cp = 0;
        con_ref = 0;
        con_name = name;
      })

    -- `Sess[iI] = new CPSession(pszCP)`, at an address that was not used before.
    unfoldable pub place_session : ℕ → Bytes → M (Globals W) Session
    place_session i cp = do
      s ← new_session s7 (some cp)
      modify (λ g. record g {
        sess = update g.sess i g.fresh;
        heap = update g.heap g.fresh (some s);
        fresh = g.fresh + 1;
      })
      pure s

    -- From `Session = Sess[iI]` to the end.
    unfoldable pub attach : ℕ → Connection → M (Globals W) Connection
    attach i c = do
      g ← get
      let p = g.sess i
      inc_ref p
      s ← deref p
      (ret, con_ref) ← on_world (s7.get_cref s.desc_cp c.con_name)
      let joined = record c { session = p; desc_cp = s.desc_cp; con_ref = con_ref }
      pure (failed (if is_zero ret then pos 0 else minus 300) joined)

    -- The branch that has to create a session.
    unfoldable pub create_and_attach : ℕ → Bytes → Connection → M (Globals W) Connection
    create_and_attach i cp c = do
      s ← place_session i cp
      let c' = record c { sess_status = s.status }
      g ← get
      if is_zero s.status
          then (do
            set_ord_num (g.sess i) i
            modify (λ g. record g { act_sess_qty = g.act_sess_qty + 1 })
            attach i c')
          else (do delete_session s7 (g.sess i); pure (failed (minus 200) c'))

    -- `CConnection::CConnection`.
    unfoldable pub new_connection : Bytes → Bytes → M (Globals W) Connection
    new_connection cp name = do
      c ← blank name
      g ← get
      i ← search_sessions g.act_sess_qty 0 cp
      if i == g.act_sess_qty
          then (if g.act_sess_qty == sess_qty
              then pure (failed (minus 100) c)
              else create_and_attach i cp c)
          else attach i c

    -- The session is deleted and taken out of the table by the number that it was given.
    -- A count below zero is no part of the model: it is a fault.
    unfoldable pub drop_session : ℕ → M (Globals W) (Unit {0})
    drop_session p = do
      s ← deref p
      delete_session s7 p
      g ← get
      if g.act_sess_qty == 0 then bad else pure tt
      modify (λ g. record g {
        sess = shift_down (g.act_sess_qty - 1 - s.ord_num) s.ord_num g.sess;
        act_sess_qty = g.act_sess_qty - 1;
      })

    -- `CConnection::~CConnection`.
    unfoldable pub delete_connection : Connection → M (Globals W) (Unit {0})
    delete_connection c =
        if is_zero c.sess_status
        then (do n ← dec_ref c.session; if n == 0 then drop_session c.session else pure tt)
        else pure tt
