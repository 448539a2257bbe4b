-- ===== src/Sapi/Library/Connect.antt =====
-- `CConnection::CConnection`, and the part of `SAPI_read` and `SAPI_write` that finds or makes a
-- connection, on tables that fit together.
use edps_plc_data_acquisitio.Base.{
  ℕ, ◌+◌, ◌≤◌, ◌<◌, ◌≡◌, refl, ap, ◌∙◌, inl, inr, ◌⊎◌, some, List, [], ◌∷◌, ◌++◌, Bytes, bytes_eq,
  pos, is_zero, length, length-append, ltb, ◌==◌, ==→eq, true, false, arith, Bool-cases,
  if◌then◌else◌,
}
use edps_plc_data_acquisitio.Base.Run.{
  M, and_then, modify, pure, ◌>>=◌, ◌>>◌, ok, fault, Returns, returns, bind-Returns,
}
use edps_plc_data_acquisitio.Sapi.Env.{S7}
use edps_plc_data_acquisitio.Sapi.Store.{
  Session, Connection, Globals, update, sess_qty, conn_qty, name_size, bad_desc, deref,
  delete_session, set_ord_num, dec_ref,
}
use edps_plc_data_acquisitio.Sapi.Connection.{
  search_sessions, blank, place_session, create_and_attach, new_connection, delete_connection,
}
use edps_plc_data_acquisitio.Sapi.Library.{Link, linked, refused, search_connections, connect}
use edps_plc_data_acquisitio.Sapi.Library.Cells.{session_of}
use edps_plc_data_acquisitio.Sapi.Library.Pending.{Pending-append, delete-Pending}
use edps_plc_data_acquisitio.Sapi.Library.Attach.{
  same, search_sessions_lem, search_sessions_none, tried-WellFormed,
}
use edps_plc_data_acquisitio.Sapi.Library.Construct.{
  zero_of_test, update-update, new_session-Returns, Made, attach_shared, attach_new,
}
use edps_plc_data_acquisitio.Sapi.Library.WellFormed.{Owned, WellFormed}

-- No session in the table is that of the processor.
abbrev pub NoSession : {W : Type 0} → Globals W → Bytes → Type 0
NoSession g cp =
    (k : ℕ) (s : Session)
    → k < g.act_sess_qty
    → g.heap (g.sess k) ≡ some s
    → bytes_eq s.name cp ≡ false

module _ {W : Type 0} (s7 : S7 W) where
  place_session-Returns :
      {B : Type 0} {Q : B → Globals W → Type 0} (i : ℕ) (cp : Bytes) (g : Globals W)
      (k : Session → M (Globals W) B)
      → length cp < name_size
      → ((w : W) (s : Session)
          → s.ref_count ≡ 0
          → Returns Q (
              k s (record g {
                world = w;
                sess = update g.sess i g.fresh;
                heap = update g.heap g.fresh (some s);
                fresh = g.fresh + 1;
              })))
      → Returns Q (and_then (place_session s7 i cp g) k)
  unfolding place_session
  place_session-Returns {B} {Q} i cp g k short next =
      bind-Returns {P = λ s g'. Returns Q (k s g')}
        (new_session-Returns s7 {Q = λ s g'. Returns Q (k s g')} cp g _ short
          λ w s zero_count. returns (next w s zero_count))
        λ s g' r. r

  module _ (g : Globals W) (wf : WellFormed g) (free : length g.con < conn_qty) where
    fits : (name : Bytes) → length name < name_size → ltb (length name) name_size ≡ true
    fits name short = ground arith

    has_room : g.act_sess_qty < sess_qty → (g.act_sess_qty == sess_qty) ≡ false
    has_room room = ground arith

    create_and_attach-Made :
        (cp : Bytes) (c : Connection)
        → length cp < name_size
        → g.act_sess_qty < sess_qty
        → Returns (Made s7 g) (create_and_attach s7 g.act_sess_qty cp c g)
    unfolding create_and_attach set_ord_num delete_session deref
    create_and_attach-Made cp c short room =
        place_session-Returns g.act_sess_qty cp g _ short λ w s zero_count.
          elim (Bool-cases (is_zero s.status)) [
            | inl good ↦
                rw
                  (
                    good,
                    same g.act_sess_qty,
                    same g.fresh,
                    deref,
                    update-update g.heap g.fresh (some s)
                        (some (record s { ord_num = g.act_sess_qty })),
                  )
                  (attach_new s7 g wf free w s (record c { sess_status = s.status }) zero_count
                    (zero_of_test s.status good) room)
            | inr bad ↦
                rw (bad, same g.act_sess_qty, same g.fresh, deref)
                  (elim (Bool-cases (s.desc_cp == bad_desc)) [
                    | inl b ↦ rw b (returns (refl, inl (bad, refl, tried-WellFormed g wf w s)))
                    | inr b ↦ rw b (returns (refl, inl (bad, refl, tried-WellFormed g wf _ s)))
                  ])
          ]

    new_connection-Made :
        (cp name : Bytes)
        → g.act_sess_qty < sess_qty
        → (s7.uninit_status g.world ≡ pos 0) ⊎ NoSession g cp
        → length cp < name_size
        → length name < name_size
        → Returns (Made s7 g) (new_connection s7 cp name g)
    unfolding new_connection blank
    new_connection-Made cp name room (inl zeroed) short short_name =
        let (i, searched, _, most) =
          search_sessions_lem g.act_sess_qty 0 cp g (λ k l. wf.entries_live k (omega arith)) in
        rw (fits name short_name, searched)
          (elim (Bool-cases (i == g.act_sess_qty)) [
            | inl at_end ↦
                rw (at_end, has_room room, ==→eq i g.act_sess_qty at_end)
                  (create_and_attach-Made cp _ short room)
            | inr found ↦ rw found (attach_shared s7 g wf free i _ (ground arith) zeroed)
          ])
    new_connection-Made cp name room (inr first) short short_name =
        rw (fits name short_name, searched, same g.act_sess_qty, has_room room)
          (create_and_attach-Made cp _ short room)
      where
        searched : search_sessions g.act_sess_qty 0 cp g ≡ ok g.act_sess_qty g
        searched =
            search_sessions_none g.act_sess_qty 0 cp g (λ k l. wf.entries_live k (omega arith))
              (λ k s l e. first k s (omega arith) e)
            ∙ ap (λ n. ok n g) (omega arith)

  search_connections_lem :
      (cs : List Connection) (i : ℕ) (cp conn : Bytes) (g : Globals W)
      → Owned g.heap cs
      → (j : ℕ) × (search_connections cs i cp conn g ≡ ok j g) × (j ≤ i + length cs)
  unfolding search_connections deref
  search_connections_lem [] i cp conn g o = (i, refl, omega arith)
  search_connections_lem (c ∷ cs) i cp conn g (st, l, o) =
      let (s, e) = session_of (g.heap c.session) l in
      let (j, e', r) = search_connections_lem cs (i + 1) cp conn g o in
      elim (Bool-cases (bytes_eq c.con_name conn)) [
        | inl match ↦ elim (Bool-cases (bytes_eq s.name cp)) [
          | inl found ↦ (i, rw (match, e, deref, found), omega arith)
          | inr other ↦ (j, rw (match, e, deref, other, e'), omega arith)
        ]
        | inr other ↦ (j, rw (other, e'), omega arith)
      ]

  -- A connection is there to use, or the call is refused by a code that is not 0, and the
  -- connections are as they were.
  abbrev pub Usable : Globals W → Link → Globals W → Type 0
  Usable g (linked i) g' = i < length g'.con
  Usable g (refused code) g' = (is_zero code ≡ false) × (g'.con ≡ g.con)

  abbrev pub Connected : Globals W → Link → Globals W → Type 0
  Connected g l g' = WellFormed g' × Usable g l g'

  pub delete_blank_faults :
      (c : Connection) (g : Globals W)
      → WellFormed g
      → c.session ≡ 0
      → c.sess_status ≡ pos 0
      → delete_connection s7 c g ≡ fault
  unfolding delete_connection dec_ref deref
  delete_blank_faults c g wf null st = rw (st, null, wf.balanced.null_unused, deref)

  -- What `connect` does with a new object.
  abbrev keep_or_delete : ℕ → Connection → M (Globals W) Link
  keep_or_delete i c =
      if is_zero c.status
      then (modify (λ g. record g { con = g.con ++ c ∷ [] }) >> pure (linked i))
      else (delete_connection s7 c >> pure (refused c.status))

  Made-Connected :
      (g g' : Globals W) (c : Connection) (i : ℕ)
      → i ≡ length g.con
      → Made s7 g c g'
      → Returns (Connected g) (keep_or_delete i c g')
  unfolding delete_connection
  Made-Connected g g' c i at_end (same_con, inl (st, bad, wf)) =
      rw (bad, st) (returns (wf, (bad, same_con)))
  Made-Connected g g' c i at_end (same_con, inr pending) = elim (Bool-cases (is_zero c.status)) [
    | inl good ↦ rw good (
        returns (
          Pending-append g' c pending,
          omega (arith, length-append g'.con (c ∷ []), ap (λ l. length l) same_con),
        ))
    | inr bad ↦ rw bad (
        bind-Returns (delete-Pending s7 g' c pending)
          λ _ g'' (wf, same). returns (wf, (bad, same ∙ same_con)))
  ]

  -- What a call needs of the state: the connection is there; or the table of sessions has room, and
  -- the processor has no session, or the memory of the new object held a zero where `SessStatus` is,
  -- which the constructor does not set for a connection that joins a session.
  pub data Ready (g : Globals W) (cp conn : Bytes) : Type 0 where
    known :
        (i : ℕ) → i < length g.con → search_connections g.con 0 cp conn g ≡ ok i g → Ready g cp conn
    first : g.act_sess_qty < sess_qty → NoSession g cp → Ready g cp conn
    zero_status : g.act_sess_qty < sess_qty → s7.uninit_status g.world ≡ pos 0 → Ready g cp conn

  module _ (g : Globals W) (wf : WellFormed g) (cp conn : Bytes) (short : length cp < name_size)
      (short_conn : length conn < name_size) where
    made_new :
        g.act_sess_qty < sess_qty
        → (s7.uninit_status g.world ≡ pos 0) ⊎ NoSession g cp
        → (i : ℕ) → i ≡ length g.con
        → length g.con < conn_qty
        → Returns (Connected g) ((new_connection s7 cp conn >>= keep_or_delete i) g)
    made_new room status i at_end free =
        bind-Returns (new_connection-Made g wf free cp conn room status short short_conn)
          λ c g' made. Made-Connected g g' c i at_end made

    connect_new :
        g.act_sess_qty < sess_qty
        → (s7.uninit_status g.world ≡ pos 0) ⊎ NoSession g cp
        → Returns (Connected g) (connect s7 cp conn g)
    unfolding connect
    connect_new room status =
        let (i, searched, most) = search_connections_lem g.con 0 cp conn g wf.balanced.owned in
        rw searched (elim (Bool-cases (i == length g.con)) [
          | inr found ↦ rw found (returns (wf, ground arith))
          | inl at_end ↦ rw at_end (elim (Bool-cases (length g.con == conn_qty)) [
            | inl full ↦ rw full (returns (wf, (refl, refl)))
            | inr few ↦ rw few (
                made_new room status i (==→eq i (length g.con) at_end)
                  (ground (arith, wf.balanced.few)))
          ])
        ])

    -- On tables that fit together, where names fit their arrays, and where the connection is known,
    -- or the table of sessions has room and either the processor has no session or memory held a
    -- zero at the status of the new object, finding or making a connection returns: the tables fit
    -- together again, and there is a connection to use, or a code that is not 0 and the connections
    -- as before.
    pub connect-Connected : Ready g cp conn → Returns (Connected g) (connect s7 cp conn g)
    unfolding connect
    connect-Connected (known i there searched) =
        rw (searched, other_end i there) (returns (wf, there))
      where
        other_end : (k : ℕ) → k < length g.con → (k == length g.con) ≡ false
        other_end k l = ground arith
    connect-Connected (first room none_named) = connect_new room (inr none_named)
    connect-Connected (zero_status room zero) = connect_new room (inl zero)
