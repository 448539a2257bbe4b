-- ===== src/Opc/Session/Joins.antt =====
-- What `Connect` leaves.
use edps_plc_data_acquisitio.Base.{
  ℕ, ◌≡◌, refl, inl, inr, ◌==◌, ◌&&◌, not, false, Bool-cases, Option, none, some, Bytes, arith,
}
use edps_plc_data_acquisitio.Base.Run.{Returns, returns, bind-Returns, map-Returns}
use edps_plc_data_acquisitio.Opc.Items.{failed}
use edps_plc_data_acquisitio.Opc.Group.{Com}
use edps_plc_data_acquisitio.Opc.Session.{
  Session, Activation, Created, drop_sink, disconnect, advise_sink, watch_shutdown, watch_some,
  given_itf, last_hr, give_up, e_nointerface, set_up, connect_class, connect,
}
use edps_plc_data_acquisitio.Opc.Session.Ends.{
  SinkLaws, WatchedBy, SameGroups, Joined, with_world, release_some_lem,
}

module _ {W : Type 0} (api : Com W) (com_api : Activation W) (laws : SinkLaws com_api) where
  -- The groups and the connection are as they were.
  abbrev Watching : Session W → Session W → Type 0
  Watching s s' = SameGroups s s' × (s'.server.connected ≡ s.server.connected) × WatchedBy s'

  advise_sink-Watching :
      (point : ℕ) (s : Session W)
      → Returns (λ _ s'. Watching s s') (advise_sink api com_api point s)
  unfolding advise_sink drop_sink
  advise_sink-Watching point s =
      elim (Bool-cases (failed (com_api.advise point s.server.world).0.0)) [
        | inl refused ↦ rw refused (returns ((refl, refl, refl), refl, tt))
        | inr advised ↦ rw advised (
            returns
              ((refl, refl, refl), refl, omega (arith, laws.keeps point s.server.world advised)))
      ]

  watch_shutdown-Watching :
      (container : ℕ) (s : Session W)
      → Returns (λ _ s'. Watching s s') (watch_shutdown api com_api container s)
  unfolding watch_shutdown
  watch_shutdown-Watching container s =
      elim (Bool-cases (failed (com_api.find_connection_point container s.server.world).0.0)) [
        | inl none_found ↦ rw none_found (returns ((refl, refl, refl), refl, tt))
        | inr found ↦ rw found (
            bind-Returns
              (advise_sink-Watching (com_api.find_connection_point container s.server.world).0.1
                (with_world (com_api.find_connection_point container s.server.world).1 s))
              λ _ s' k. returns k)
      ]

  watch_some-Watching :
      (c : Option ℕ) (s : Session W)
      → WatchedBy s
      → Returns (λ _ s'. Watching s s') (watch_some api com_api c s)
  watch_some-Watching none s watched = returns ((refl, refl, refl), refl, watched)
  watch_some-Watching (some container) s watched = watch_shutdown-Watching container s

  set_up-Joined :
      (client_name : Bytes) (id : ℕ) (c : Created) (s : Session W)
      → WatchedBy s
      → Returns (λ b s'. Joined s b s') (set_up api com_api client_name id c s)
  unfolding set_up
  set_up-Joined client_name id c s watched =
      bind-Returns (watch_some-Watching (given_itf api com_api c.container) _ watched)
        λ _ s' (same_groups, online, watching). returns (online, same_groups, watching)

  give_up-Joined :
      (c : Created) (s : Session W)
      → s.server.connected ≡ false
      → WatchedBy s
      → Returns (λ b s'. Joined s b s') (give_up api com_api c s)
  unfolding give_up
  give_up-Joined c s offline watched =
      let r0 = release_some_lem api com_api laws (given_itf api com_api c.opc_common) s in
      let r1 =
        release_some_lem api com_api laws (given_itf api com_api c.opc_server)
          (with_world r0.0 s) in
      let r2 =
        release_some_lem api com_api laws (given_itf api com_api c.container) (with_world r1.0 s) in
      rw (r0.1, r1.1, r2.1) (returns (offline, (refl, refl, refl), watched))

  module _ (client_name : Bytes) (node : Option Bytes) where
    connect_class-Joined :
        (id : ℕ) (s : Session W)
        → s.server.connected ≡ false
        → WatchedBy s
        → Returns (λ b s'. Joined s b s') (connect_class api com_api client_name id node s)
    unfolding connect_class disconnect
    connect_class-Joined id s offline watched =
        rw offline (elim (Bool-cases (failed c.hr && not (c.hr == e_nointerface))) [
          | inl refused ↦ rw refused (returns (refl, (refl, refl, refl), watched))
          | inr made ↦ rw made (elim (Bool-cases (failed (last_hr api com_api c))) [
            | inl missing ↦ rw missing (map-Returns (give_up-Joined c _ refl watched) λ b s' k. k)
            | inr whole ↦
                rw whole (map-Returns (set_up-Joined client_name id c _ watched) λ b s' k. k)
          ])
        ])
      where
        c : Created
        c = (com_api.create_instance id node s.server.world).0

    -- Connect on a session that is not connected returns whether it is connected then, and keeps the
    -- groups.
    pub connect-Joined :
        (server_id : Bytes) (s : Session W)
        → s.server.connected ≡ false
        → WatchedBy s
        → Returns (λ b s'. Joined s b s') (connect api com_api client_name server_id node s)
    unfolding connect
    connect-Joined server_id s offline watched =
        elim (Bool-cases (failed (com_api.clsid_from_prog_id server_id s.server.world).0.0)) [
          | inl unknown_id ↦ rw unknown_id (returns (offline, (refl, refl, refl), watched))
          | inr known ↦ rw known (
              map-Returns
                (connect_class-Joined (com_api.clsid_from_prog_id server_id s.server.world).0.1
                  (with_world (com_api.clsid_from_prog_id server_id s.server.world).1 s) offline
                  watched)
                λ b s' k. k)
        ]
