-- ===== src/Sapi/Library/WellFormed.antt =====
-- When the tables of SAPI/ fit together: each live session counts its connections, the number of
-- live sessions is the size of the table, and each entry of the table is another live session.
use edps_plc_data_acquisitio.Base.{
  ℕ, zero, suc, ◌+◌, ◌≤◌, ◌<◌, ◌≡◌, Option, none, some, List, [], ◌∷◌, pos, length, ◌==◌, false,
  if◌then◌else◌,
}
use edps_plc_data_acquisitio.Sapi.Store.{Session, Connection, Globals, sess_qty, conn_qty}

-- How many of the connections use the session at `p`.
abbrev pub users : ℕ → List Connection → ℕ
users p [] = 0
users p (c ∷ cs) = (if c.session == p then 1 else 0) + users p cs

-- How many sessions are live below the address `n`.
abbrev pub one_if_live : Option Session → ℕ
one_if_live none = 0
one_if_live (some s) = 1

abbrev pub live : (ℕ → Option Session) → ℕ → ℕ
live heap zero = 0
live heap (suc n) = one_if_live (heap n) + live heap n

abbrev pub Counts : (heap : ℕ → Option Session) → List Connection → Type 0
Counts heap cs =
    (p : ℕ) (s : Session) → heap p ≡ some s → (s.ref_count ≡ users p cs) × (1 ≤ users p cs)

-- Every connection was made with a session, and the session is live.
abbrev pub Owned : (heap : ℕ → Option Session) → List Connection → Type 0
Owned heap [] = Unit {0}
Owned heap (c ∷ cs) = (c.sess_status ≡ pos 0) × (1 ≤ one_if_live (heap c.session)) × Owned heap cs

-- What the destructors need, of the connections that are not yet deleted.
pub record Balanced {W : Type 0} (g : Globals W) (cs : List Connection) : Type 0 where
  pub counts : Counts g.heap cs
  pub owned : Owned g.heap cs
  pub few : length cs ≤ conn_qty
  pub unused : (p : ℕ) → g.fresh ≤ p → g.heap p ≡ none
  pub null_unused : g.heap 0 ≡ none
  pub fresh_pos : 1 ≤ g.fresh
  pub table_size : g.act_sess_qty ≡ live g.heap g.fresh

pub record WellFormed {W : Type 0} (g : Globals W) : Type 0 where
  pub balanced : Balanced g g.con
  pub entries_live : (i : ℕ) → i < g.act_sess_qty → 1 ≤ one_if_live (g.heap (g.sess i))
  pub distinct : (i j : ℕ) → i < j → j < g.act_sess_qty → (g.sess i == g.sess j) ≡ false
  pub sessions_fit : g.act_sess_qty ≤ sess_qty
