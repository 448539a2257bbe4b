-- ===== src/Sapi/Library/Pending.antt =====
-- The tables while a new connection is not yet among the others.
use mathlib.Core.Path.{subst}
use edps_plc_data_acquisitio.Base.{
  ℕ, ◌+◌, ◌-◌, ◌≤◌, ◌<◌, ◌≡◌, refl, sym, inl, inr, Option, some, List, [], ◌∷◌, ◌++◌, length-append,
  ◌==◌, false, arith, Bool-cases,
}
use edps_plc_data_acquisitio.Base.Run.{Returns, map-Returns}
use edps_plc_data_acquisitio.Sapi.Env.{S7}
use edps_plc_data_acquisitio.Sapi.Store.{Session, Connection, Globals, sess_qty}
use edps_plc_data_acquisitio.Sapi.Connection.{shift_down, delete_connection}
use edps_plc_data_acquisitio.Sapi.Library.Cells.{session_of}
use edps_plc_data_acquisitio.Sapi.Library.Delete.{Left, delete_shared}
use edps_plc_data_acquisitio.Sapi.Library.WellFormed.{
  users, one_if_live, Owned, Balanced, WellFormed,
}

users-append :
    (p : ℕ) (cs : List Connection) (c : Connection) → users p (cs ++ c ∷ []) ≡ users p (c ∷ cs)
users-append p [] c = omega arith
users-append p (d ∷ cs) c = ground (arith, users-append p cs c)

Owned-append :
    (heap : ℕ → Option Session) (cs : List Connection) (c : Connection)
    → Owned heap (c ∷ cs)
    → Owned heap (cs ++ c ∷ [])
Owned-append heap [] c o = o
Owned-append heap (d ∷ cs) c (st, l, (st', l', o)) = (st', l', Owned-append heap cs c (st, l, o))

-- The connection `c` has its session, and is not in `Con`. Where it alone uses the session, that is
-- the last entry of the table, with its own number.
pub record Pending {W : Type 0} (g : Globals W) (c : Connection) : Type 0 where
  pub balanced : Balanced g (c ∷ g.con)
  pub entries_live : (i : ℕ) → i < g.act_sess_qty → 1 ≤ one_if_live (g.heap (g.sess i))
  pub distinct : (i j : ℕ) → i < j → j < g.act_sess_qty → (g.sess i == g.sess j) ≡ false
  pub sessions_fit : g.act_sess_qty ≤ sess_qty
  pub own_number :
      users c.session g.con ≡ 0
      → (s : Session) → g.heap c.session ≡ some s
      → s.ord_num + 1 ≡ g.act_sess_qty
  pub own_last :
      users c.session g.con ≡ 0 → (i : ℕ) → i + 1 < g.act_sess_qty → (g.sess i == c.session) ≡ false

-- `Con[iI]` keeps it.
pub Pending-append :
    {W : Type 0} (g : Globals W) (c : Connection)
    → Pending g c
    → WellFormed (record g { con = g.con ++ c ∷ [] })
Pending-append g c h = record {
  balanced = record {
    counts = λ p s e. rw (users-append p g.con c) (h.balanced.counts p s e);
    owned = Owned-append g.heap g.con c h.balanced.owned;
    few = omega (arith, length-append g.con (c ∷ []), h.balanced.few);
    unused = h.balanced.unused;
    null_unused = h.balanced.null_unused;
    fresh_pos = h.balanced.fresh_pos;
    table_size = h.balanced.table_size;
  };
  entries_live = h.entries_live;
  distinct = h.distinct;
  sessions_fit = h.sessions_fit;
}

module _ {W : Type 0} (s7 : S7 W) where
  shared-WellFormed :
      (g g' : Globals W) (c : Connection) (s : Session) (n : ℕ)
      → Pending g c
      → Balanced g' g.con
      → Left s7 g c.session s n g'
      → 1 ≤ n
      → WellFormed g'
  shared-WellFormed g g' c s n h b l more =
      let (same_qty, same_sess) = l.kept more in
      record {
        balanced = subst (λ cs. Balanced g' cs) (sym l.con) b;
        entries_live = λ i below.
            rw same_sess
              (omega (arith, h.entries_live i (omega arith), l.kept_live more (g.sess i)));
        distinct = λ i j before below. rw same_sess (h.distinct i j before (omega arith));
        sessions_fit = omega (arith, h.sessions_fit);
      }

  last-WellFormed :
      (g g' : Globals W) (c : Connection) (s : Session) (n : ℕ)
      → Pending g c
      → g.heap c.session ≡ some s
      → users c.session g.con ≡ n
      → Balanced g' g.con
      → Left s7 g c.session s n g'
      → n ≡ 0
      → WellFormed g'
  unfolding shift_down
  last-WellFormed g g' c s n h e u b l z =
      let (fewer, moved) = l.gone z in
      record {
        balanced = subst (λ cs. Balanced g' cs) (sym l.con) b;
        entries_live = λ i below.
            rw (moved, nothing_moves)
              (omega (
                arith,
                h.entries_live i (omega arith),
                l.gone_live z (g.sess i) (h.own_last (omega arith) i (omega arith)),
              ));
        distinct =
            λ i j before below. rw (moved, nothing_moves) (h.distinct i j before (omega arith));
        sessions_fit = omega (arith, h.sessions_fit);
      }
    where
      number : s.ord_num + 1 ≡ g.act_sess_qty
      number = h.own_number (omega arith) s e

      no_round : g.act_sess_qty - 1 - s.ord_num ≡ 0
      no_round = omega (arith, number)

      nothing_moves : shift_down (g.act_sess_qty - 1 - s.ord_num) s.ord_num g.sess ≡ g.sess
      nothing_moves = rw no_round

  -- `delete Con[iI]` takes it away again.
  pub delete-Pending :
      (g : Globals W) (c : Connection)
      → Pending g c
      → Returns (λ _ g'. WellFormed g' × (g'.con ≡ g.con)) (delete_connection s7 c g)
  delete-Pending g c h =
      let (s, e) = session_of (g.heap c.session) h.balanced.owned.1 in
      map-Returns (delete_shared s7 g c g.con s (users c.session g.con) h.balanced e refl)
        λ _ g' (b, l). (
          elim (Bool-cases (users c.session g.con == 0)) [
            | inl last ↦ last-WellFormed g g' c s _ h e refl b l (ground arith)
            | inr more ↦ shared-WellFormed g g' c s _ h b l (ground arith)
          ],
          l.con,
        )
