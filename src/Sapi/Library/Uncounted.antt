-- ===== src/Sapi/Library/Uncounted.antt =====
-- A connection that joins a session, where memory held no zero at `SessStatus`: the constructor does
-- not set that member, and the destructor tests it.
use edps_plc_data_acquisitio.Base.{
  ℕ, zero, suc, ◌+◌, ◌%◌, ◌^◌, ◌≤◌, ◌<◌, ◌≡◌, refl, inl, inr, some, Bytes, bytes_eq, is_zero,
  length, ltb, ◌==◌, true, false, arith, Bool-cases,
}
use edps_plc_data_acquisitio.Base.Run.{ok, Returns}
use edps_plc_data_acquisitio.Sapi.Env.{S7}
use edps_plc_data_acquisitio.Sapi.Store.{Session, Globals, name_size, deref}
use edps_plc_data_acquisitio.Sapi.Connection.{
  search_sessions, blank, new_connection, delete_connection,
}
use edps_plc_data_acquisitio.Sapi.Library.Attach.{same}
use edps_plc_data_acquisitio.Sapi.Library.Cells.{session_of, users-le}
use edps_plc_data_acquisitio.Sapi.Library.Construct.{attach-Returns}
use edps_plc_data_acquisitio.Sapi.Library.WellFormed.{users, one_if_live, WellFormed}

module _ {W : Type 0} where
  -- The search ends at an entry, where one has the name.
  search_sessions_found :
      (left i : ℕ) (cp : Bytes) (g : Globals W) (k : ℕ) (s : Session)
      → ((k : ℕ) → k < i + left → 1 ≤ one_if_live (g.heap (g.sess k)))
      → i ≤ k
      → k < i + left
      → g.heap (g.sess k) ≡ some s
      → bytes_eq s.name cp ≡ true
      → (j : ℕ) × (search_sessions left i cp g ≡ ok j g) × (j < i + left)
  unfolding search_sessions deref
  search_sessions_found zero i cp g k s h low high e named = absurd (omega arith)
  search_sessions_found (suc left) i cp g k s h low high e named =
      let (t, f) = session_of (g.heap (g.sess i)) (h i (omega arith)) in
      elim (Bool-cases (bytes_eq t.name cp)) [
        | inl found ↦ (i, rw (f, deref, found), omega arith)
        | inr other ↦ elim (Bool-cases (i == k)) [
          | inl here ↦ absurd (ground (arith, f, e, named, other))
          | inr later ↦
              let (j, e', r) =
                search_sessions_found left (i + 1) cp g k s (λ k l. h k (omega arith))
                  (ground arith) (omega arith) e named in
              (j, rw (f, deref, other, e'), omega arith)
        ]
      ]

module _ {W : Type 0} (s7 : S7 W) where
  -- On tables that fit together, where an entry of the table has the processor's session, the name
  -- fits its array and memory holds no zero at the status of the new object, the constructor counts
  -- one more connection in a session of the table, and deleting the object at once changes nothing:
  -- the session counts one connection more than the connections that use it.
  pub new_connection-delete_connection :
      (g : Globals W) (cp name : Bytes) (k : ℕ) (s : Session)
      → WellFormed g
      → length name < name_size
      → is_zero (s7.uninit_status g.world) ≡ false
      → k < g.act_sess_qty
      → g.heap (g.sess k) ≡ some s
      → bytes_eq s.name cp ≡ true
      → (i : ℕ) × (i < g.act_sess_qty)
        × Returns
            (λ c g'.
              (g'.con ≡ g.con)
              × (delete_connection s7 c g' ≡ ok tt g')
              × ((t : Session) × (g'.heap (g.sess i) ≡ some t)
                  × (t.ref_count ≡ users (g.sess i) g'.con + 1)))
            (new_connection s7 cp name g)
  unfolding new_connection blank delete_connection
  new_connection-delete_connection g cp name k s wf short status below e named =
      let (i, searched, in_table) =
        search_sessions_found g.act_sess_qty 0 cp g k s (λ k l. wf.entries_live k (omega arith))
          (omega arith) (omega arith) e named in
      let (t, f) = session_of (g.heap (g.sess i)) (wf.entries_live i (omega arith)) in
      (
        i,
        omega arith,
        rw (fits, searched, inside i (omega arith))
            (attach-Returns s7 i _ g t f λ w c here st. (
              refl,
              rw (st, status),
              (
                record t { ref_count = (t.ref_count + 1) % 2 ^ 32 },
                rw (same (g.sess i)),
                omega (arith, wf.balanced.counts (g.sess i) t f, users-le (g.sess i) g.con),
              ),
            )),
      )
    where
      fits : ltb (length name) name_size ≡ true
      fits = ground arith

      inside : (j : ℕ) → j < g.act_sess_qty → (j == g.act_sess_qty) ≡ false
      inside j l = ground arith
