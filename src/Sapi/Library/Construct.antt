-- ===== src/Sapi/Library/Construct.antt =====
-- `CConnection::CConnection` step by step: what each step leaves for the next.
use mathlib.Core.Path.{fun_ext}
use edps_plc_data_acquisitio.Base.{
  ℕ, ◌+◌, ◌%◌, ◌^◌, ◌<◌, ◌≡◌, refl, ◌∙◌, inl, inr, ◌⊎◌, Option, some, Bytes, ℤ, pos, negsuc,
  is_zero, not, ◌||◌, length, ltb, ◌==◌, true, false, arith, Bool, Bool-cases,
}
use edps_plc_data_acquisitio.Base.Run.{M, and_then, Returns, returns}
use edps_plc_data_acquisitio.Sapi.Env.{S7}
use edps_plc_data_acquisitio.Sapi.Store.{
  Session, Connection, Globals, update, sess_qty, conn_qty, name_size, deref, new_session, inc_ref,
}
use edps_plc_data_acquisitio.Sapi.Connection.{attach}
use edps_plc_data_acquisitio.Sapi.Library.Cells.{users-le, session_of}
use edps_plc_data_acquisitio.Sapi.Library.Pending.{Pending}
use edps_plc_data_acquisitio.Sapi.Library.Attach.{
  same, counted, shared-Pending, placed, new-Pending,
}
use edps_plc_data_acquisitio.Sapi.Library.WellFormed.{WellFormed}

pub zero_of_test : (z : ℤ) → is_zero z ≡ true → z ≡ pos 0
zero_of_test (pos n) e = ground arith
zero_of_test (negsuc n) e = ground arith

pub update-update :
    (heap : ℕ → Option Session) (p : ℕ) (o o' : Option Session)
    → update (update heap p o) p o' ≡ update heap p o'
update-update heap p o o' = fun_ext λ q. ground arith

module _ {W : Type 0} (s7 : S7 W) where
  -- A new session changes the world only, and counts no connection.
  pub new_session-Returns :
      {B : Type 0} {Q : B → Globals W → Type 0} (cp : Bytes) (g : Globals W)
      (k : Session → M (Globals W) B)
      → length cp < name_size
      → ((w : W) (s : Session) → s.ref_count ≡ 0 → Returns Q (k s (record g { world = w })))
      → Returns Q (and_then (new_session s7 (some cp) g) k)
  unfolding new_session
  new_session-Returns cp g k short next = rw fits (elim (Bool-cases refused) [
    | inl bad ↦ rw bad (next _ _ refl)
    | inr good ↦ rw good (next _ _ refl)
  ])
    where
      fits : ltb (length cp) name_size ≡ true
      fits = ground arith

      refused : Bool
      refused = not (is_zero (s7.get_vfd cp g.world).0.0) || (s7.get_vfd cp g.world).0.1 == 0

  -- `attach` to a session that exists counts the connection, and asks for its reference.
  pub attach-Returns :
      {P : Connection → Globals W → Type 0} (i : ℕ) (c : Connection) (g : Globals W) (s : Session)
      → g.heap (g.sess i) ≡ some s
      → ((w : W) (c' : Connection)
          → c'.session ≡ g.sess i
          → c'.sess_status ≡ c.sess_status
          → P c' (counted g w (g.sess i) (record s { ref_count = (s.ref_count + 1) % 2 ^ 32 })))
      → Returns P (attach s7 i c g)
  unfolding attach inc_ref deref
  attach-Returns i c g s e next =
      rw (e, deref, same (g.sess i), deref) (returns (next _ _ refl refl))

  -- What the constructor leaves: an object without a session, or one that waits for its place.
  abbrev pub Made : Globals W → Connection → Globals W → Type 0
  Made g c g' =
      (g'.con ≡ g.con)
      × (((is_zero c.sess_status ≡ false) × (is_zero c.status ≡ false) × WellFormed g')
          ⊎ Pending g' c)

  module _ (g : Globals W) (wf : WellFormed g) (free : length g.con < conn_qty) where
    pub attach_shared :
        (i : ℕ) (c : Connection)
        → i < g.act_sess_qty
        → c.sess_status ≡ pos 0
        → Returns (Made g) (attach s7 i c g)
    attach_shared i c below own =
        let (s, e) = session_of (g.heap (g.sess i)) (wf.entries_live i below) in
        attach-Returns i c g s e λ w c' here st. (
          refl,
          inr (
              shared-Pending g w c' (g.sess i) s _ wf e
                (omega (arith, wf.balanced.counts (g.sess i) s e, users-le (g.sess i) g.con)) here
                (st ∙ own) free),
        )

    pub attach_new :
        (w : W) (s : Session) (c : Connection)
        → s.ref_count ≡ 0
        → c.sess_status ≡ pos 0
        → g.act_sess_qty < sess_qty
        → Returns
            (Made g)
            (attach s7 g.act_sess_qty c (placed g w (record s { ord_num = g.act_sess_qty })))
    attach_new w s c zero_count own room =
        attach-Returns g.act_sess_qty c (placed g w t) t found
          λ w' c' here st. (refl, inr (pending w' c' here st))
      where
        t : Session
        t = record s { ord_num = g.act_sess_qty }

        counted_once : Session
        counted_once = record t { ref_count = (t.ref_count + 1) % 2 ^ 32 }

        at_end : (placed g w t).sess g.act_sess_qty ≡ g.fresh
        at_end = rw (same g.act_sess_qty)

        found : (placed g w t).heap ((placed g w t).sess g.act_sess_qty) ≡ some t
        found = rw (same g.act_sess_qty, same g.fresh)

        pending :
            (w' : W) (c' : Connection)
            → c'.session ≡ (placed g w t).sess g.act_sess_qty
            → c'.sess_status ≡ c.sess_status
            → Pending
                (counted (placed g w t) w' ((placed g w t).sess g.act_sess_qty) counted_once)
                c'
        pending w' c' here st =
            rw (same g.act_sess_qty, update-update g.heap g.fresh (some t) (some counted_once))
              (new-Pending g wf w' c' counted_once (omega arith) refl (here ∙ at_end) (st ∙ own)
                free room)
