-- ===== src/Sapi/Library/Shut.antt =====
-- `SAPI_Shut` leaves nothing behind.
use edps_plc_data_acquisitio.Base.{
  ℕ, ◌≡◌, refl, inl, inr, none, List, [], ◌∷◌, pos, arith, Option-cases,
}
use edps_plc_data_acquisitio.Base.Run.{Returns, returns, bind-Returns}
use edps_plc_data_acquisitio.Sapi.Env.{S7}
use edps_plc_data_acquisitio.Sapi.Store.{Connection, Globals}
use edps_plc_data_acquisitio.Sapi.Library.{delete_all, sapi_shut}
use edps_plc_data_acquisitio.Sapi.Library.Cells.{live_empty}
use edps_plc_data_acquisitio.Sapi.Library.Delete.{delete_connection-Balanced}
use edps_plc_data_acquisitio.Sapi.Library.WellFormed.{Balanced, WellFormed}

module _ {W : Type 0} (s7 : S7 W) where
  delete_all-Balanced :
      (g : Globals W) (cs : List Connection)
      → Balanced g cs
      → Returns (λ _ g'. Balanced g' []) (delete_all s7 cs g)
  unfolding delete_all
  delete_all-Balanced g [] b = returns b
  delete_all-Balanced g (c ∷ cs) b =
      bind-Returns (delete_connection-Balanced s7 g c cs b) λ _ g' b'. delete_all-Balanced g' cs b'

  -- No connection, no session, and nothing left on the heap.
  pub record Empty (g : Globals W) : Type 0 where
    pub no_connection : g.con ≡ []
    pub no_session : g.act_sess_qty ≡ 0
    pub no_object : (p : ℕ) → g.heap p ≡ none

  Balanced-Empty : (g : Globals W) → Balanced g [] → Empty (record g { con = [] })
  Balanced-Empty g b = record {
    no_connection = refl;
    no_session = omega (arith, b.table_size, live_empty g.heap nothing g.fresh);
    no_object = nothing;
  }
    where
      nothing : (p : ℕ) → g.heap p ≡ none
      nothing p = elim (Option-cases (g.heap p)) [
        | inl e ↦ e
        | inr (s, e) ↦ absurd (omega (arith, b.counts p s e))
      ]

  -- `SAPI_Shut` on tables that fit together returns 0, commits no memory error, and leaves no
  -- connection, no entry in the session table and no session on the heap.
  pub sapi_shut-Empty :
      (g : Globals W)
      → WellFormed g
      → Returns (λ r g'. (r ≡ pos 0) × Empty g' × WellFormed g') (sapi_shut s7 g)
  unfolding sapi_shut
  sapi_shut-Empty g wf = bind-Returns (delete_all-Balanced g g.con wf.balanced) λ _ g' b.
      let empty = Balanced-Empty g' b in
      returns (
        refl,
        empty,
        record {
          balanced = record {
            counts = b.counts;
            owned = tt;
            few = omega arith;
            unused = b.unused;
            null_unused = b.null_unused;
            fresh_pos = b.fresh_pos;
            table_size = b.table_size;
          };
          entries_live = λ i h. absurd (omega (arith, empty.no_session));
          distinct = λ i j before h. absurd (omega (arith, empty.no_session));
          sessions_fit = omega (arith, empty.no_session);
        },
      )
