-- ===== src/Sapi/Library/Delete.antt =====
-- Deleting a connection keeps the tables balanced, and what it leaves of the other sessions.
use edps_plc_data_acquisitio.Base.{
  ℕ, suc, ◌+◌, ◌-◌, ◌%◌, ◌^◌, ◌≤◌, ◌<◌, ◌≡◌, refl, inl, inr, Option, none, some, List, ◌∷◌, ◌==◌,
  arith, Bool-cases, ==→eq, leb, leb→gt, leb→le, false,
}
use edps_plc_data_acquisitio.Base.Run.{ok, Returns, returns, bind-Returns, map-Returns}
use edps_plc_data_acquisitio.Sapi.Env.{S7}
use edps_plc_data_acquisitio.Sapi.Store.{
  Session, Connection, Globals, update, conn_qty, bad_desc, deref, delete_session, dec_ref,
}
use edps_plc_data_acquisitio.Sapi.Connection.{shift_down, drop_session, delete_connection}
use edps_plc_data_acquisitio.Sapi.Library.Cells.{
  live-update, users-le, session_of, Owned-free, Owned-store,
}
use edps_plc_data_acquisitio.Sapi.Library.WellFormed.{users, one_if_live, live, Counts, Balanced}

module _ {W : Type 0} (s7 : S7 W) where
  -- What a change of one heap cell leaves alone.
  pub record Changed (p : ℕ) (o : Option Session) (g g' : Globals W) : Type 0 where
    pub heap : g'.heap ≡ update g.heap p o
    pub fresh : g'.fresh ≡ g.fresh
    pub con : g'.con ≡ g.con

  delete_session-Changed :
      (p : ℕ) (s : Session) (g : Globals W)
      → g.heap p ≡ some s
      → Returns
          (λ _ g'. Changed p none g g' × (g'.act_sess_qty ≡ g.act_sess_qty) × (g'.sess ≡ g.sess))
          (delete_session s7 p g)
  unfolding delete_session deref
  delete_session-Changed p s g e = elim (Bool-cases (s.desc_cp == bad_desc)) [
    | inl b ↦
        rw (e, deref, b) (returns (record { heap = refl; fresh = refl; con = refl }, refl, refl))
    | inr b ↦
        rw (e, deref, b) (returns (record { heap = refl; fresh = refl; con = refl }, refl, refl))
  ]

  drop_session-Changed :
      (p : ℕ) (s : Session) (g : Globals W)
      → g.heap p ≡ some s
      → 0 < g.act_sess_qty
      → Returns
          (λ _ g'.
            Changed p none g g'
            × (g'.act_sess_qty + 1 ≡ g.act_sess_qty)
            × (g'.sess ≡ shift_down (g.act_sess_qty - 1 - s.ord_num) s.ord_num g.sess))
          (drop_session s7 p g)
  unfolding drop_session deref
  drop_session-Changed p s g e q =
      rw (e, deref)
        (bind-Returns (delete_session-Changed p s g e) λ _ g₁ (c, k, l).
          rw (nonzero g₁.act_sess_qty (omega arith)) (
            returns
              (record { heap = c.heap; fresh = c.fresh; con = c.con }, omega arith, rw (k, l))))
    where
      nonzero : (n : ℕ) → 0 < n → (n == 0) ≡ false
      nonzero n h = ground arith

  abbrev decremented : Globals W → ℕ → Session → ℕ → Globals W
  decremented g p s n = record g { heap = update g.heap p (some (record s { ref_count = n })) }

  dec_ref_lem :
      (g : Globals W) (p : ℕ) (s : Session) (n : ℕ)
      → g.heap p ≡ some s
      → s.ref_count ≡ suc n
      → n < conn_qty
      → dec_ref p g ≡ ok n (decremented g p s n)
  unfolding dec_ref deref
  dec_ref_lem g p s n e r h = rw (e, deref, wrap)
    where
      wrap : (s.ref_count + (2 ^ 32 - 1)) % 2 ^ 32 ≡ n
      wrap = omega arith

  module _ (g : Globals W) (c : Connection) (cs : List Connection) (b : Balanced g (c ∷ cs))
      (s : Session) (n : ℕ) (e : g.heap c.session ≡ some s) (u : users c.session cs ≡ n) where
    abbrev p : ℕ
    p = c.session

    others : (q : ℕ) → (q == p) ≡ false → users q (c ∷ cs) ≡ users q cs
    others q h = ground arith

    below : p < g.fresh
    below = elim (Bool-cases (leb g.fresh p)) [
      | inl h ↦ absurd (ground (arith, b.unused p (leb→le g.fresh p h)))
      | inr h ↦ leb→gt g.fresh p h
    ]

    kept-Counts : 1 ≤ n → Counts (decremented g p s n).heap cs
    kept-Counts h q t f = elim (Bool-cases (q == p)) [
      | inl at ↦ let at' = ==→eq q p at in ground arith
      | inr off ↦ ground (arith, others q off, b.counts q t)
    ]

    kept-Balanced : 1 ≤ n → Balanced (decremented g p s n) cs
    kept-Balanced h = record {
      counts = kept-Counts h;
      owned = Owned-store g.heap p _ cs b.owned.2;
      few = omega arith;
      unused = λ q l. ground (arith, b.unused q l, below);
      null_unused = ground (arith, b.null_unused);
      fresh_pos = b.fresh_pos;
      table_size =
          ground (arith, live-update g.heap p g.fresh (some (record s { ref_count = n })), below);
    }

    abbrev dropped_heap : ℕ → Option Session
    dropped_heap = update (decremented g p s n).heap p none

    dropped-Counts : Counts dropped_heap cs
    dropped-Counts q t f = elim (Bool-cases (q == p)) [
      | inl at ↦ absurd (ground arith)
      | inr off ↦ ground (arith, others q off, b.counts q t)
    ]

    dropped_live : live dropped_heap g.fresh + 1 ≡ live g.heap g.fresh
    dropped_live = ground (
      arith,
      live-update g.heap p g.fresh (some (record s { ref_count = n })),
      live-update (decremented g p s n).heap p g.fresh none,
      below,
    )

    dropped-Balanced :
        (g' : Globals W)
        → n ≡ 0
        → Changed p none (decremented g p s n) g'
        → g'.act_sess_qty + 1 ≡ g.act_sess_qty
        → Balanced g' cs
    dropped-Balanced g' z ch k = record {
      counts = rw ch.heap dropped-Counts;
      owned = rw ch.heap (Owned-free _ p cs (omega arith) (Owned-store g.heap p _ cs b.owned.2));
      few = omega arith;
      unused = rw (ch.heap, ch.fresh) (λ q l. ground (arith, b.unused q l));
      null_unused = rw ch.heap (ground (arith, b.null_unused));
      fresh_pos = rw ch.fresh b.fresh_pos;
      table_size = rw (ch.heap, ch.fresh) (omega (arith, dropped_live));
    }

    table_pos : 0 < g.act_sess_qty
    table_pos = omega (arith, dropped_live)

  -- What deleting the connection leaves: its session stays in the table if others use it, and is
  -- taken out by its number if not; every other session stays.
  pub record Left (g : Globals W) (p : ℕ) (s : Session) (n : ℕ) (g' : Globals W) : Type 0 where
    pub con : g'.con ≡ g.con
    pub kept : 1 ≤ n → (g'.act_sess_qty ≡ g.act_sess_qty) × (g'.sess ≡ g.sess)
    pub kept_live : 1 ≤ n → (q : ℕ) → one_if_live (g.heap q) ≤ one_if_live (g'.heap q)
    pub gone :
        n ≡ 0
        → (g'.act_sess_qty + 1 ≡ g.act_sess_qty)
          × (g'.sess ≡ shift_down (g.act_sess_qty - 1 - s.ord_num) s.ord_num g.sess)
    pub gone_live :
        n ≡ 0 → (q : ℕ) → (q == p) ≡ false → one_if_live (g.heap q) ≤ one_if_live (g'.heap q)

  kept-Left :
      (g : Globals W) (p : ℕ) (s : Session) (n : ℕ) → 1 ≤ n → Left g p s n (decremented g p s n)
  kept-Left g p s n h = record {
    con = refl;
    kept = λ _. (refl, refl);
    kept_live = λ _ q. live_after q;
    gone = λ z. absurd (omega arith);
    gone_live = λ z. absurd (omega arith);
  }
    where
      at_most_one : (o : Option Session) → one_if_live o ≤ 1
      at_most_one none = omega arith
      at_most_one (some t) = omega arith

      live_after : (q : ℕ) → one_if_live (g.heap q) ≤ one_if_live ((decremented g p s n).heap q)
      live_after q = elim (Bool-cases (q == p)) [
        | inl at ↦ rw at (at_most_one (g.heap q))
        | inr off ↦ rw off (omega arith)
      ]

  gone-Left :
      (g : Globals W) (p : ℕ) (s : Session) (n : ℕ) (g' : Globals W)
      → n ≡ 0
      → Changed p none (decremented g p s n) g'
      → g'.act_sess_qty + 1 ≡ g.act_sess_qty
      → g'.sess ≡ shift_down (g.act_sess_qty - 1 - s.ord_num) s.ord_num g.sess
      → Left g p s n g'
  gone-Left g p s n g' z ch k l = record {
    con = ch.con;
    kept = λ h. absurd (omega arith);
    kept_live = λ h. absurd (omega arith);
    gone = λ _. (k, l);
    gone_live = λ _ q off. rw (ch.heap, off) (omega arith);
  }

  pub delete_shared :
      (g : Globals W) (c : Connection) (cs : List Connection) (s : Session) (n : ℕ)
      → Balanced g (c ∷ cs)
      → g.heap c.session ≡ some s
      → users c.session cs ≡ n
      → Returns (λ _ g'. Balanced g' cs × Left g c.session s n g') (delete_connection s7 c g)
  unfolding delete_connection
  delete_shared g c cs s n b e u =
      rw (b.owned.0, dec_ref_lem g c.session s n e referenced few)
        (elim (Bool-cases (n == 0)) [
          | inl last ↦ rw last (
              map-Returns
                (drop_session-Changed c.session _ (decremented g c.session s n) at_p some_left)
                λ _ g' (ch, k, l). (
                  dropped-Balanced g c cs b s n e u g' (==→eq n 0 last) ch k,
                  gone-Left g c.session s n g' (==→eq n 0 last) ch k l,
                ))
          | inr more ↦ rw more (
              returns (
                kept-Balanced g c cs b s n e u (ground arith),
                kept-Left g c.session s n (ground arith),
              ))
        ])
    where
      referenced : s.ref_count ≡ suc n
      referenced = ground (arith, b.counts c.session s e, u)

      few : n < conn_qty
      few = omega (arith, users-le c.session cs, b.few)

      at_p : (decremented g c.session s n).heap c.session ≡ some (record s { ref_count = n })
      at_p = ground arith

      some_left : 0 < g.act_sess_qty
      some_left = table_pos g c cs b s n e u

  -- Deleting a connection never fails on balanced tables, and leaves them balanced.
  pub delete_connection-Balanced :
      (g : Globals W) (c : Connection) (cs : List Connection)
      → Balanced g (c ∷ cs)
      → Returns (λ _ g'. Balanced g' cs) (delete_connection s7 c g)
  delete_connection-Balanced g c cs b =
      let (s, e) = session_of (g.heap c.session) b.owned.1 in
      map-Returns (delete_shared g c cs s (users c.session cs) b e refl) λ _ g' (b', _). b'
