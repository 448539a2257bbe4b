-- ===== src/Sapi/Library/Cells.antt =====
-- Counting live sessions and their connections after a write to one heap cell.
use edps_plc_data_acquisitio.Base.{
  ℕ, zero, suc, ◌+◌, ◌≤◌, ◌<◌, ◌≡◌, refl, inl, inr, Option, none, some, List, [], ◌∷◌, length, ◌==◌,
  arith, Bool-cases, ==→eq,
}
use edps_plc_data_acquisitio.Sapi.Store.{Session, Connection, update}
use edps_plc_data_acquisitio.Sapi.Library.WellFormed.{users, one_if_live, live, Owned}

-- Live sessions after a write to one address.
pub live-update_above :
    (heap : ℕ → Option Session) (p n : ℕ) (o : Option Session)
    → n ≤ p
    → live (update heap p o) n ≡ live heap n
live-update_above heap p zero o h = refl
live-update_above heap p (suc n) o h = ground (arith, live-update_above heap p n o)

pub live-update :
    (heap : ℕ → Option Session) (p n : ℕ) (o : Option Session)
    → p < n
    → live (update heap p o) n + one_if_live (heap p) ≡ live heap n + one_if_live o
live-update heap p zero o h = absurd (omega arith)
live-update heap p (suc n) o h = elim (Bool-cases (n == p)) [
  | inl e ↦ let e' = ==→eq n p e in ground (arith, live-update_above heap p n o)
  | inr e ↦ ground (arith, live-update heap p n o)
]

pub users-le : (p : ℕ) (cs : List Connection) → users p cs ≤ length cs
users-le p [] = omega arith
users-le p (c ∷ cs) = ground (arith, users-le p cs)

pub live_empty : (heap : ℕ → Option Session) → ((p : ℕ) → heap p ≡ none) → (n : ℕ) → live heap n ≡ 0
live_empty heap h zero = refl
live_empty heap h (suc n) = ground (arith, h n, live_empty heap h n)

pub session_of : (o : Option Session) → 1 ≤ one_if_live o → (s : Session) × (o ≡ some s)
session_of none h = absurd (omega arith)
session_of (some s) h = (s, refl)

-- Where no connection uses the session at `p`, the others keep theirs.
pub Owned-free :
    (heap : ℕ → Option Session) (p : ℕ) (cs : List Connection)
    → users p cs ≡ 0
    → Owned heap cs
    → Owned (update heap p none) cs
Owned-free heap p [] u o = tt
Owned-free heap p (c ∷ cs) u (st, l, o) = elim (Bool-cases (c.session == p)) [
  | inl e ↦ absurd (ground arith)
  | inr e ↦ (st, rw e l, Owned-free heap p cs (ground arith) o)
]

-- A write to a session leaves it live.
pub Owned-store :
    (heap : ℕ → Option Session) (p : ℕ) (s : Session) (cs : List Connection)
    → Owned heap cs
    → Owned (update heap p (some s)) cs
Owned-store heap p s [] o = tt
Owned-store heap p s (c ∷ cs) (st, l, o) = (st, ground arith, Owned-store heap p s cs o)
