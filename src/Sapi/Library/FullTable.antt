-- ===== src/Sapi/Library/FullTable.antt =====
-- A connection to a communication processor that has no session, where the table of sessions is full.
use edps_plc_data_acquisitio.Base.{
  ℕ, ◌+◌, ◌<◌, ◌≡◌, ap, some, List, [], ◌∷◌, Bytes, bytes_eq, length, ltb, minus, pos, ◌==◌, true,
  false, arith,
}
use edps_plc_data_acquisitio.Base.Run.{ok, fault}
use edps_plc_data_acquisitio.Sapi.Env.{S7}
use edps_plc_data_acquisitio.Sapi.Store.{
  Session, Connection, Globals, sess_qty, conn_qty, name_size,
}
use edps_plc_data_acquisitio.Sapi.Connection.{blank, new_connection}
use edps_plc_data_acquisitio.Sapi.Library.{search_connections, connect}
use edps_plc_data_acquisitio.Sapi.Library.Attach.{search_sessions_none}
use edps_plc_data_acquisitio.Sapi.Library.Connect.{delete_blank_faults}
use edps_plc_data_acquisitio.Sapi.Library.WellFormed.{WellFormed}

-- No connection has the name.
abbrev pub NoneNamed : Bytes → List Connection → Type 0
NoneNamed conn [] = Unit {0}
NoneNamed conn (c ∷ cs) = (bytes_eq c.con_name conn ≡ false) × NoneNamed conn cs

module _ {W : Type 0} where
  search_connections_none :
      (cs : List Connection) (i : ℕ) (cp conn : Bytes) (g : Globals W)
      → NoneNamed conn cs
      → search_connections cs i cp conn g ≡ ok (i + length cs) g
  unfolding search_connections
  search_connections_none [] i cp conn g h = ap (λ n. ok n g) (omega arith)
  search_connections_none (c ∷ cs) i cp conn g (other, h) =
      rw (other, search_connections_none cs (i + 1) cp conn g h) (ap (λ n. ok n g) (omega arith))

module _ {W : Type 0} (s7 : S7 W) where
  -- The object of a constructor that found no entry for its session.
  abbrev unattached : Globals W → Bytes → Connection
  unattached g conn = record {
    status = minus 100;
    sess_status = s7.uninit_status g.world;
    session = s7.uninit_session g.world;
    desc_cp = 0;
    con_ref = 0;
    con_name = conn;
  }

  -- On tables that fit together, where memory is zero at the status and the session of the new object
  -- and sixteen sessions to other processors are open, a connection with a new name that the table of
  -- connections has room for is not refused: deleting the object that has no session follows its null
  -- pointer.
  pub connect_faults :
      (g : Globals W) (cp conn : Bytes)
      → WellFormed g
      → s7.uninit_status g.world ≡ pos 0
      → s7.uninit_session g.world ≡ 0
      → length conn < name_size
      → length g.con < conn_qty
      → NoneNamed conn g.con
      → g.act_sess_qty ≡ sess_qty
      → ((k : ℕ) (s : Session)
          → k < sess_qty
          → g.heap (g.sess k) ≡ some s
          → bytes_eq s.name cp ≡ false)
      → connect s7 cp conn g ≡ fault
  unfolding connect new_connection blank
  connect_faults g cp conn wf no_status no_session short free none_named full others = rw (
    search_connections_none g.con 0 cp conn g none_named,
    at_end,
    room,
    fits,
    search_sessions_none g.act_sess_qty 0 cp g (λ k l. wf.entries_live k (omega arith))
        (λ k s l e. others k s (omega arith) e),
    sess_end,
    table_full,
    delete_blank_faults s7 (unattached g conn) g wf no_session no_status,
  )
    where
      at_end : (0 + length g.con == length g.con) ≡ true
      at_end = ground arith

      room : (length g.con == conn_qty) ≡ false
      room = ground arith

      fits : ltb (length conn) name_size ≡ true
      fits = ground arith

      sess_end : (0 + g.act_sess_qty == g.act_sess_qty) ≡ true
      sess_end = ground arith

      table_full : (g.act_sess_qty == sess_qty) ≡ true
      table_full = ground arith
