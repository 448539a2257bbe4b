-- ===== src/Sapi/Library/Calls.antt =====
-- `SAPI_read` and `SAPI_write` keep the tables together, in every sequence of calls.
use edps_plc_data_acquisitio.Base.{
  ℕ, zero, suc, ◌<◌, ◌≡◌, refl, inl, inr, ◌⊎◌, Option, some, List, [], ◌∷◌, Bytes, ℤ, is_neg,
  length, length-set, get_elem?, set, false, arith, Bool-cases,
}
use edps_plc_data_acquisitio.Base.Run.{
  M, and_then, map-Ends, Run, Ends, ended, broke, bind-Ends, Returns-Ends,
}
use edps_plc_data_acquisitio.Sapi.Env.{S7, ClockLaws}
use edps_plc_data_acquisitio.Sapi.Store.{Session, Connection, Globals, name_size, lifted}
use edps_plc_data_acquisitio.Sapi.Data.{Done}
use edps_plc_data_acquisitio.Sapi.Data.Ends.{read_data-Ends, write_data-Ends}
use edps_plc_data_acquisitio.Sapi.Library.{
  linked, refused, nth_connection, keep_ref, shut_on_error, transfer, sapi_read, sapi_write,
}
use edps_plc_data_acquisitio.Sapi.Library.Connect.{connect-Connected, Ready}
use edps_plc_data_acquisitio.Sapi.Library.Shut.{Empty, sapi_shut-Empty}
use edps_plc_data_acquisitio.Sapi.Library.WellFormed.{users, Owned, WellFormed}

nth_of_lt :
    (cs : List Connection) (i : ℕ) → i < length cs → (c : Connection) × (get_elem? cs i ≡ some c)
nth_of_lt [] i h = absurd (omega arith)
nth_of_lt (c ∷ cs) zero h = (c, refl)
nth_of_lt (c ∷ cs) (suc i) h = nth_of_lt cs i (omega arith)

abbrev referring : Connection → ℕ → Connection
referring c con_ref = record c { con_ref = con_ref }

users-set :
    (p : ℕ) (cs : List Connection) (i : ℕ) (c : Connection) (r : ℕ)
    → get_elem? cs i ≡ some c
    → users p (set cs i (referring c r)) ≡ users p cs
users-set p [] i c r e = refl
users-set p (d ∷ cs) zero c r e = ground (arith, e)
users-set p (d ∷ cs) (suc i) c r e = ground (arith, users-set p cs i c r e)

Owned-set :
    (heap : ℕ → Option Session) (cs : List Connection) (i : ℕ) (c : Connection) (r : ℕ)
    → get_elem? cs i ≡ some c
    → Owned heap cs
    → Owned heap (set cs i (referring c r))
Owned-set heap [] i c r e o = o
Owned-set heap (d ∷ cs) zero c r e (st, l, o) = (ground (arith, e), ground (arith, e), o)
Owned-set heap (d ∷ cs) (suc i) c r e (st, l, o) = (st, l, Owned-set heap cs i c r e o)

module _ {W : Type 0} where
  -- The state after a transfer on the connection `c`.
  abbrev used : Globals W → W → ℕ → Connection → ℕ → Globals W
  used g w i c r = record g { world = w; con = set g.con i (referring c r) }

  used-WellFormed :
      (g : Globals W) (w : W) (i : ℕ) (c : Connection) (r : ℕ)
      → get_elem? g.con i ≡ some c
      → WellFormed g
      → WellFormed (used g w i c r)
  used-WellFormed g w i c r e wf = record {
    balanced = record {
      counts = λ p s f. rw (users-set p g.con i c r e) (wf.balanced.counts p s f);
      owned = Owned-set g.heap g.con i c r e wf.balanced.owned;
      few = omega (arith, length-set g.con i (referring c r), wf.balanced.few);
      unused = wf.balanced.unused;
      null_unused = wf.balanced.null_unused;
      fresh_pos = wf.balanced.fresh_pos;
      table_size = wf.balanced.table_size;
    };
    entries_live = wf.entries_live;
    distinct = wf.distinct;
    sessions_fit = wf.sessions_fit;
  }

module _ {W : Type 0} (s7 : S7 W) where
  shut_on_error-Ends :
      (r : ℤ) (g : Globals W)
      → WellFormed g
      → Ends (λ _ g'. WellFormed g' × ((is_neg r ≡ false) ⊎ Empty s7 g')) (shut_on_error s7 r g)
  unfolding shut_on_error
  shut_on_error-Ends r g wf = elim (Bool-cases (is_neg r)) [
    | inl bad ↦ rw bad (
        bind-Ends (Returns-Ends (sapi_shut-Empty s7 g wf))
          λ _ g' (_, empty, wf'). ended (wf', inr empty))
    | inr good ↦ rw good (ended (wf, inl refl))
  ]

  -- After a call: the tables fit together, and where its result is an error, all is closed or no
  -- connection was made.
  abbrev pub Finished : Globals W → ℤ → Globals W → Type 0
  Finished g r g' = WellFormed g' × ((is_neg r ≡ false) ⊎ (Empty s7 g' ⊎ (g'.con ≡ g.con)))

  lift-Ends :
      {A B : Type 0} {Q : B → Globals W → Type 0} (g : Globals W) {r : Run W A}
      (k : A → M (Globals W) B)
      → Ends (λ _ _. Unit {0}) r
      → ((a : A) (w : W) → Ends Q (k a (record g { world = w })))
      → Ends Q (and_then (lifted g r) k)
  lift-Ends g k (ended p) next = next _ _
  lift-Ends g k broke next = broke

  transfer-Ends :
      {A : Type 0} (fuel : ℕ) (run : Connection → M W (Done A)) (code : A → ℤ) (i : ℕ)
      (g₀ g : Globals W)
      → ((c : Connection) (w : W) → Ends (λ d w'. Unit {0}) (run c w))
      → WellFormed g
      → i < length g.con
      → Ends (λ a g'. Finished g₀ (code a) g') (transfer s7 fuel run code i g)
  unfolding nth_connection keep_ref
  transfer-Ends fuel run code i g₀ g ends wf there =
      let (c, e) = nth_of_lt g.con i there in
      rw (e, nth_connection)
        (lift-Ends g _ (ends c g.world) λ d w.
          bind-Ends
            (shut_on_error-Ends (code d.value) (used g w i c d.con_ref)
              (used-WellFormed g w i c d.con_ref e wf))
            λ _ g' (wf', closed).
              ended (wf', elim closed [ inl good ↦ inl good | inr empty ↦ inr (inl empty) ]))

  module _ (laws : ClockLaws s7) (fuel : ℕ) (enough : 10_000 < fuel) (cp conn item type : Bytes)
      (short : length cp < name_size) (short_conn : length conn < name_size) (g : Globals W)
      (wf : WellFormed g) (ready : Ready s7 g cp conn) where
    -- Where names fit their arrays, the connection is known, or the table of sessions has room and
    -- either the processor has no session or memory held a zero at the status of the new object, the
    -- clock keeps its laws and an attempt has more than 10,000 rounds, SAPI_read on tables that fit
    -- together returns or breaks off at a memory error; where it returns, the tables fit together
    -- again, and after an error all is closed or no connection was made.
    pub sapi_read-Finished :
        Ends (λ (r, _) g'. Finished g r g') (sapi_read s7 fuel cp conn item type g)
    unfolding sapi_read
    sapi_read-Finished =
        bind-Ends (Returns-Ends (connect-Connected s7 g wf cp conn short short_conn ready)) (elim [
          | linked i ↦ λ g' (wf', there).
              bind-Ends
                (transfer-Ends fuel _ (λ r. r.0) i g g'
                  (λ c w.
                    map-Ends (read_data-Ends s7 laws fuel c.desc_cp enough c.con_ref item type w)
                      λ d w' le. tt)
                  wf' there)
                λ (r, text) g'' done. ended done
          | refused code ↦ λ g' (wf', (bad, same)). ended (wf', inr (inr same))
        ])

    -- Where names fit their arrays, the connection is known, or the table of sessions has room and
    -- either the processor has no session or memory held a zero at the status of the new object, the
    -- clock keeps its laws and an attempt has more than 10,000 rounds, SAPI_write on tables that fit
    -- together returns or breaks off at a memory error; where it returns, the tables fit together
    -- again, and after an error all is closed or no connection was made.
    pub sapi_write-Finished :
        (text : Bytes)
        → Ends (λ r g'. Finished g r g') (sapi_write s7 fuel cp conn item type text g)
    unfolding sapi_write
    sapi_write-Finished text =
        bind-Ends (Returns-Ends (connect-Connected s7 g wf cp conn short short_conn ready)) (elim [
          | linked i ↦ λ g' (wf', there).
              transfer-Ends fuel _ (λ r. r) i g g'
                (λ c w.
                  map-Ends
                    (write_data-Ends s7 laws fuel c.desc_cp enough c.con_ref item type text w)
                    λ d w' le. tt)
                wf' there
          | refused code ↦ λ g' (wf', (bad, same)). ended (wf', inr (inr same))
        ])
