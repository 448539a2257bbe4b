-- ===== src/Sapi/Library/Attach.antt =====
-- The constructor of `CConnection` on tables that fit together.
use mathlib.Core.Path.{fun_ext}
use edps_plc_data_acquisitio.Base.{
  ℕ, zero, suc, ◌+◌, ◌≤◌, ◌<◌, ◌≡◌, refl, ap, ◌∙◌, inl, inr, none, some, List, [], ◌∷◌, Bytes,
  bytes_eq, pos, length, leb, leb→le, leb→gt, ◌==◌, ==→eq, true, false, arith, Bool-cases,
}
use edps_plc_data_acquisitio.Base.Run.{ok}
use edps_plc_data_acquisitio.Sapi.Store.{
  Session, Connection, Globals, update, sess_qty, conn_qty, deref,
}
use edps_plc_data_acquisitio.Sapi.Connection.{search_sessions}
use edps_plc_data_acquisitio.Sapi.Library.Cells.{
  live-update, live-update_above, session_of, Owned-store,
}
use edps_plc_data_acquisitio.Sapi.Library.Pending.{Pending}
use edps_plc_data_acquisitio.Sapi.Library.WellFormed.{
  users, one_if_live, Owned, Balanced, WellFormed,
}

pub same : (n : ℕ) → (n == n) ≡ true
same n = ground arith

module _ {W : Type 0} where
  -- The search follows live entries only, and changes nothing.
  pub search_sessions_lem :
      (left i : ℕ) (cp : Bytes) (g : Globals W)
      → ((k : ℕ) → k < i + left → 1 ≤ one_if_live (g.heap (g.sess k)))
      → (j : ℕ) × (search_sessions left i cp g ≡ ok j g) × (i ≤ j) × (j ≤ i + left)
  unfolding search_sessions deref
  search_sessions_lem zero i cp g h = (i, refl, omega arith, omega arith)
  search_sessions_lem (suc left) i cp g h =
      let (s, e) = session_of (g.heap (g.sess i)) (h i (omega arith)) in
      elim (Bool-cases (bytes_eq s.name cp)) [
        | inl found ↦ (i, rw (e, deref, found), omega arith, omega arith)
        | inr other ↦
            let (j, e', l, r) = search_sessions_lem left (i + 1) cp g (λ k l. h k (omega arith)) in
            (j, rw (e, deref, other, e'), omega arith, omega arith)
      ]

  pub search_sessions_none :
      (left i : ℕ) (cp : Bytes) (g : Globals W)
      → ((k : ℕ) → k < i + left → 1 ≤ one_if_live (g.heap (g.sess k)))
      → ((k : ℕ) (s : Session)
          → k < i + left
          → g.heap (g.sess k) ≡ some s
          → bytes_eq s.name cp ≡ false)
      → search_sessions left i cp g ≡ ok (i + left) g
  unfolding search_sessions deref
  search_sessions_none zero i cp g h other = ap (λ n. ok n g) (omega arith)
  search_sessions_none (suc left) i cp g h other =
      let (s, e) = session_of (g.heap (g.sess i)) (h i (omega arith)) in
      rw (e, deref, other i s (omega arith) e)
        (search_sessions_none left (i + 1) cp g (λ k l. h k (omega arith))
            (λ k t l f. other k t (omega arith) f)
          ∙ ap (λ n. ok n g) (omega arith))

  pub below-fresh :
      (g : Globals W) (cs : List Connection) (p : ℕ)
      → Balanced g cs
      → 1 ≤ one_if_live (g.heap p)
      → p < g.fresh
  below-fresh g cs p b l = elim (Bool-cases (leb g.fresh p)) [
    | inl h ↦ absurd (ground (arith, b.unused p (leb→le g.fresh p h)))
    | inr h ↦ leb→gt g.fresh p h
  ]

  -- The state after `attach` to the session at `p`.
  abbrev pub counted : Globals W → W → ℕ → Session → Globals W
  counted g w p s = record g { world = w; heap = update g.heap p (some s) }

  module _ (g : Globals W) (w : W) (c : Connection) (p : ℕ) (s t : Session) (wf : WellFormed g)
      (found : g.heap p ≡ some s) (one_more : t.ref_count ≡ users p g.con + 1)
      (here : c.session ≡ p) (own : c.sess_status ≡ pos 0) (free : length g.con < conn_qty) where
    b : Balanced g g.con
    b = wf.balanced

    used : 1 ≤ users p g.con
    used = (b.counts p s found).1

    shared-Balanced : Balanced (counted g w p t) (c ∷ g.con)
    shared-Balanced = record {
      counts = λ q r e. elim (Bool-cases (q == p)) [
        | inl at ↦ let at' = ==→eq q p at in ground arith
        | inr off ↦ ground (arith, b.counts q r)
      ];
      owned = (own, ground arith, Owned-store g.heap p t g.con b.owned);
      few = omega arith;
      unused = λ q l. ground (arith, b.unused q l, below-fresh g g.con p b (ground arith));
      null_unused = ground (arith, b.null_unused);
      fresh_pos = b.fresh_pos;
      table_size = ground (
        arith,
        live-update g.heap p g.fresh (some t),
        below-fresh g g.con p b (ground arith),
        b.table_size,
      );
    }

    -- Joining a session that is in use.
    pub shared-Pending : Pending (counted g w p t) c
    shared-Pending = record {
      balanced = shared-Balanced;
      entries_live = λ i l. ground (arith, wf.entries_live i l);
      distinct = wf.distinct;
      sessions_fit = wf.sessions_fit;
      own_number = λ none_else. absurd (omega (arith, used, ap (λ k. users k g.con) here));
      own_last = λ none_else. absurd (omega (arith, used, ap (λ k. users k g.con) here));
    }

  -- The state with a new session as the last entry of the table.
  abbrev pub placed : Globals W → W → Session → Globals W
  placed g w t = record g {
    world = w;
    sess = update g.sess g.act_sess_qty g.fresh;
    act_sess_qty = g.act_sess_qty + 1;
    heap = update g.heap g.fresh (some t);
    fresh = g.fresh + 1;
  }

  module _ (g : Globals W) (wf : WellFormed g) where
    no_users : (cs : List Connection) → Owned g.heap cs → users g.fresh cs ≡ 0
    no_users [] o = omega arith
    no_users (c ∷ cs) (st, l, o) = elim (Bool-cases (c.session == g.fresh)) [
      | inl at ↦
          absurd (
            ground
              (arith, wf.balanced.unused c.session (omega (arith, ==→eq c.session g.fresh at))))
      | inr off ↦ rw off (omega (arith, no_users cs o))
    ]

    pub nothing_fresh : g.heap g.fresh ≡ none
    nothing_fresh = wf.balanced.unused g.fresh (omega arith)

    entry-ne-fresh : (i : ℕ) → i < g.act_sess_qty → (g.sess i == g.fresh) ≡ false
    entry-ne-fresh i l = ground (arith, wf.entries_live i l, nothing_fresh)

    module _ (w : W) (c : Connection) (t : Session) (one : t.ref_count ≡ 1)
        (number : t.ord_num ≡ g.act_sess_qty) (here : c.session ≡ g.fresh)
        (own : c.sess_status ≡ pos 0) (free : length g.con < conn_qty)
        (room : g.act_sess_qty < sess_qty) where
      new-Balanced : Balanced (placed g w t) (c ∷ g.con)
      new-Balanced = record {
        counts = λ q r e. elim (Bool-cases (q == g.fresh)) [
          | inl at ↦
              let at' = ==→eq q g.fresh at in ground (arith, no_users g.con wf.balanced.owned)
          | inr off ↦ ground (arith, wf.balanced.counts q r)
        ];
        owned = (own, ground arith, Owned-store g.heap g.fresh t g.con wf.balanced.owned);
        few = omega arith;
        unused = λ q l. ground (arith, wf.balanced.unused q);
        null_unused = ground (arith, wf.balanced.null_unused, wf.balanced.fresh_pos);
        fresh_pos = omega arith;
        table_size =
            ground
              (arith, live-update_above g.heap g.fresh g.fresh (some t), wf.balanced.table_size);
      }

      -- The first connection of a new session.
      pub new-Pending : Pending (placed g w t) c
      new-Pending = record {
        balanced = new-Balanced;
        entries_live = λ i l. ground (arith, wf.entries_live i);
        distinct = λ i j before below. ground (arith, wf.distinct i j before, entry-ne-fresh i);
        sessions_fit = omega arith;
        own_number = λ alone r e. ground arith;
        own_last = λ alone i l. ground (arith, entry-ne-fresh i);
      }

    -- A new session that is deleted at once.
    abbrev pub tried : W → Session → Globals W
    tried w t = record g {
      world = w;
      sess = update g.sess g.act_sess_qty g.fresh;
      heap = update (update g.heap g.fresh (some t)) g.fresh none;
      fresh = g.fresh + 1;
    }

    tried_heap : (t : Session) → update (update g.heap g.fresh (some t)) g.fresh none ≡ g.heap
    tried_heap t = fun_ext λ q. elim (Bool-cases (q == g.fresh)) [
      | inl at ↦ rw at (ground (arith, nothing_fresh, ==→eq q g.fresh at))
      | inr off ↦ rw off
    ]

    pub tried-WellFormed : (w : W) (t : Session) → WellFormed (tried w t)
    tried-WellFormed w t = rw (tried_heap t) (record {
      balanced = record {
        counts = wf.balanced.counts;
        owned = wf.balanced.owned;
        few = wf.balanced.few;
        unused = λ q l. wf.balanced.unused q (omega arith);
        null_unused = wf.balanced.null_unused;
        fresh_pos = omega arith;
        table_size = ground (arith, wf.balanced.table_size, nothing_fresh);
      };
      entries_live = λ i l. ground (arith, wf.entries_live i l);
      distinct = λ i j before below. ground (arith, wf.distinct i j before below);
      sessions_fit = wf.sessions_fit;
    })
