-- ===== src/Opc/Session/Ends.antt =====
-- What `Disconnect` leaves.
use mathlib.Core.Path.{subst}
use edps_plc_data_acquisitio.Base.{
  ℕ, ◌≤◌, ◌≡◌, refl, sym, ◌∙◌, inl, inr, ◌==◌, true, false, Bool, Bool-cases, Option, none, some,
  arith, AvoidsIn,
}
use edps_plc_data_acquisitio.Base.Run.{Run, Ends, ended, broke, Returns, returns, bind-Returns, ok}
use edps_plc_data_acquisitio.Opc.Items.{failed}
use edps_plc_data_acquisitio.Opc.Objects.{ObjectList}
use edps_plc_data_acquisitio.Opc.Group.{Com}
use edps_plc_data_acquisitio.Opc.Server.{Server}
use edps_plc_data_acquisitio.Opc.Server.Find.{Groups}
use edps_plc_data_acquisitio.Opc.Server.Owns.{Owns, OwnsGroups}
use edps_plc_data_acquisitio.Opc.Server.Emptied.{Emptied, remove_groups-Emptied}
use edps_plc_data_acquisitio.Opc.Server.Remove.{remove_groups}
use edps_plc_data_acquisitio.Opc.Session.{
  Session, Activation, with_server, no_cookie, drop_sink, release_some, end_shutdown, disconnect,
}

-- A connection point keeps one reference of what is advised, and gives back no more.
pub record SinkLaws {W : Type 0} (com_api : Activation W) : Type 0 where
  pub keeps :
      (point : ℕ) (w : W)
      → failed (com_api.advise point w).0.0 ≡ false
      → (com_api.advise point w).0.2 ≡ 1
  pub gives_back : (point cookie : ℕ) (w : W) → (com_api.unadvise point cookie w).0 ≤ 1

-- Behind a connection point, the mini-object has its own reference and that of the point.
abbrev pub Watched : Option ℕ → Option ℕ → Type 0
Watched none sink = Unit {0}
Watched (some point) none = Unit {0}
Watched (some point) (some count) = count ≡ 2

pub Owns-same :
    (g g' : Option ObjectList) (objects objects' : Groups) (n n' : ℕ)
    → g' ≡ g
    → objects' ≡ objects
    → n' ≡ n
    → Owns g objects n
    → Owns g' objects' n'
Owns-same g g' objects objects' n n' eg eo en o =
    subst (λ x. Owns x objects' n') (sym eg)
      (subst (λ x. Owns g x n') (sym eo) (subst (Owns g objects) (sym en) o))

module _ {W : Type 0} where
  abbrev pub WatchedBy : Session W → Type 0
  WatchedBy s = Watched s.conn_shutdown s.sink

  -- The groups are as they were.
  abbrev pub SameGroups : Session W → Session W → Type 0
  SameGroups s s' =
      (s'.server.groups ≡ s.server.groups)
      × (s'.server.objects ≡ s.server.objects)
      × (s'.server.fresh ≡ s.server.fresh)

  abbrev pub Joined : Session W → Bool → Session W → Type 0
  Joined s b s' = (s'.server.connected ≡ b) × SameGroups s s' × WatchedBy s'

  -- The session without groups.
  abbrev pub Cleared : Session W → Session W → Type 0
  Cleared s s' =
      (s'.server.connected ≡ false)
      × (s'.server.groups ≡ none)
      × ((q : ℕ) → s'.server.objects q ≡ none)
      × (s'.server.fresh ≡ s.server.fresh)
      × WatchedBy s'

  abbrev pub with_world : W → Session W → Session W
  with_world w s = record s { server = record s.server { world = w } }

  pub with_server-Returns :
      {A : Type 0} {P : A → Server W → Type 0} {Q : A → Session W → Type 0} (s : Session W)
      {r : Run (Server W) A}
      → Returns P r
      → ((a : A) (t : Server W) → P a t → Q a (record s { server = t }))
      → Returns Q (with_server s r)
  with_server-Returns s (returns p) next = returns (next _ _ p)

  pub with_server-Ends :
      {A : Type 0} {P : A → Server W → Type 0} {Q : A → Session W → Type 0} (s : Session W)
      {r : Run (Server W) A}
      → Ends P r
      → ((a : A) (t : Server W) → P a t → Q a (record s { server = t }))
      → Ends Q (with_server s r)
  with_server-Ends s (ended p) next = ended (next _ _ p)
  with_server-Ends s broke next = broke

module _ {W : Type 0} (api : Com W) where
  remove-Emptied :
      (s : Server W) → OwnsGroups s → Returns (λ _ s'. Emptied api s s') (remove_groups api s)
  unfolding remove_groups
  remove-Emptied s o = removed s.groups refl o
    where
      removed :
          (g : Option ObjectList)
          → s.groups ≡ g
          → Owns g s.objects s.fresh
          → Returns (λ _ s'. Emptied api s s') (remove_groups api s)
      removed none e o =
          rw (e, remove_groups)
            (returns (e, λ q. o.no_other q (subst (AvoidsIn q) (sym o.lists) tt), refl, refl))
      removed (some l) e o =
          remove_groups-Emptied api s l o.addresses e o.lists o.once o.distinct o.no_other

module _ {W : Type 0} (api : Com W) (com_api : Activation W) (laws : SinkLaws com_api) where
  pub release_some_lem :
      (c : Option ℕ) (s : Session W)
      → (w : W) × (release_some api com_api c s ≡ ok tt (with_world w s))
  release_some_lem none s = (s.server.world, refl)
  release_some_lem (some i) s = (api.release_interface i s.server.world, refl)

  one_back :
      (point cookie : ℕ) (w : W)
      → ((com_api.unadvise point cookie w).0 == 0) ≡ false
      → (com_api.unadvise point cookie w).0 ≡ 1
  one_back point cookie w ne = ground (arith, laws.gives_back point cookie w, ne)

  -- The mini-object is given up, and the groups stay.
  end_shutdown-Returns :
      (s : Session W)
      → WatchedBy s
      → Returns
          (λ _ s'. SameGroups s s' × (s'.server.connected ≡ s.server.connected))
          (end_shutdown api com_api s.conn_shutdown s)
  unfolding drop_sink
  end_shutdown-Returns s watched = of_point s.conn_shutdown s.sink refl watched
    where
      of_point :
          (c k : Option ℕ)
          → s.sink ≡ k
          → Watched c k
          → Returns
              (λ _ s'. SameGroups s s' × (s'.server.connected ≡ s.server.connected))
              (end_shutdown api com_api c s)
      of_point none k e watched = returns ((refl, refl, refl), refl)
      of_point (some point) none e watched = rw e (returns ((refl, refl, refl), refl))
      of_point (some point) (some count) e watched = elim (Bool-cases (s.cookie == no_cookie)) [
        | inl unset ↦ rw (e, unset) (returns ((refl, refl, refl), refl))
        | inr set ↦ elim (Bool-cases ((com_api.unadvise point s.cookie s.server.world).0 == 0)) [
          | inl kept ↦ rw (e, set, watched, kept) (returns ((refl, refl, refl), refl))
          | inr given ↦
              rw (e, set, watched, given, one_back point s.cookie s.server.world given)
                (returns ((refl, refl, refl), refl))
        ]
      ]

  -- Disconnect on a session whose server owns its groups leaves no group and no list.
  pub disconnect-Cleared :
      (s : Session W)
      → s.server.connected ≡ true
      → OwnsGroups s.server
      → WatchedBy s
      → Returns (λ r s'. (r ≡ true) × Cleared s s') (disconnect api com_api s)
  unfolding disconnect
  disconnect-Cleared s online o watched = rw online (
      bind-Returns
        (end_shutdown-Returns (record s { server = record s.server { connected = true } }) watched)
        λ _ s1 (same_groups, _).
          bind-Returns
            (with_server-Returns {Q = λ _ s2. Emptied api s1.server s2.server} s1
              (remove-Emptied api s1.server
                (Owns-same _ _ _ _ _ _ same_groups.0 same_groups.1 same_groups.2 o))
              λ _ t emptied. emptied)
            λ _ s2 (gone, none_left, _, later).
              rw
                (release_some_lem s.common
                  (with_world (api.release_interface s.opc_server s2.server.world) s2)).1
                (returns (refl, (refl, gone, none_left, later ∙ same_groups.2, tt))))
