-- ===== src/Opc/Library/Selects.antt =====
-- `GetOPCGroup` selects the main server, and lends one of its groups.
use mathlib.Core.Path.{subst}
use edps_plc_data_acquisitio.Base.{
  ◌≡◌, refl, sym, ap, ◌∙◌, ◌&&◌, not, true, false, Bool, Option, none, some, Bytes, ltb, length,
  arith, if◌then◌else◌,
}
use edps_plc_data_acquisitio.Base.Run.{
  Returns, returns, Ends, ended, bind-Ends, bind-Returns, if_Returns, if_Ends, Returns-Ends,
}
use edps_plc_data_acquisitio.Opc.Server.Owns.{Room}
use edps_plc_data_acquisitio.Opc.Session.Ends.{SinkLaws, Owns-same}
use edps_plc_data_acquisitio.Opc.Globals.{Around, Client, DllState, session_of, client_of}
use edps_plc_data_acquisitio.Opc.Library.{
  connect_main, connect_to_server, select_server, in_selected, find_or_add_group, get_opc_group,
}
use edps_plc_data_acquisitio.Opc.Session.Joins.{connect-Joined}
use edps_plc_data_acquisitio.Opc.Library.Owned.{
  no_false, Serves, ServesMain, Lending, Kept, RoomOf, RoomIn, keep_run-Returns, on_client_lem,
  search-Found, find-Lending,
}

module _ {W : Type 0} (env : Around W) where
  -- The DLL is ready, and no group is lent.
  record Ready (g : DllState W) : Type 0 where
    client : Client
    here : g.opc_server ≡ some client
    off : g.snd_server ≡ false
    ready : g.init_ok ≡ true
    serves : Serves none client g
    room : Room client.groups

  Kept-Ready :
      (g : DllState W) (m : Option Client)
      → g.opc_server ≡ m
      → g.snd_server ≡ false
      → g.init_ok ≡ true
      → ServesMain none m g
      → RoomOf m
      → Ready g
  Kept-Ready g none e off ready (_, _, down, _) room = no_false g.init_ok ready down
  Kept-Ready g (some c) e off ready s room = record {
    client = c;
    here = e;
    off = off;
    ready = ready;
    serves = s;
    room = room;
  }

  Ready-Kept : (g : DllState W) → Ready g → Kept g
  Ready-Kept g r = (r.off, subst (λ m. ServesMain none m g) (sym r.here) r.serves)

  module _ (laws : SinkLaws env.activation) where
    connect_main-Ready :
        (g : DllState W)
        → Ready g
        → g.main_server ≡ false
        → Returns (λ _ g'. Ready g') (connect_main env g)
    unfolding connect_main
    connect_main-Ready g r offline =
        bind-Returns
          (subst (Returns (λ b g'. Ready (record g' { main_server = b })))
            (sym (on_client_lem g r.client r.here _))
            (keep_run-Returns g
              (connect-Joined env.api env.activation laws env.client_name none env.s7_opc_server
                (session_of r.client g) (r.serves.online ∙ offline) r.serves.watched)
              λ b s' (online, same_groups, watched). record {
                client = client_of s';
                here = refl;
                off = r.off;
                ready = r.ready;
                serves = record {
                  online = online;
                  served =
                      Owns-same _ _ _ _ _ _ same_groups.0 same_groups.1 same_groups.2
                        r.serves.served;
                  watched = watched;
                  no_groups = λ no q. ap (λ f. f q) same_groups.1 ∙ r.serves.no_groups offline q;
                };
                room = subst Room (sym same_groups.0) r.room;
              }))
          λ b g' k. returns k

    connect_to_server-Ready :
        (g : DllState W) → Ready g → Returns (λ _ g'. Ready g') (connect_to_server env g)
    unfolding connect_to_server
    connect_to_server-Ready g r =
        bind-Returns (if_Returns g.main_server _ _ (λ on. returns r) (connect_main-Ready g r))
          λ _ g' k.
            bind-Returns
              (if_Returns
                (not g'.snd_server && (not g'.init_ok && ltb 0 (length env.emergency_server_node)))
                _ _ (λ both. absurd (ground (arith, both, k.ready))) λ no. returns k)
              λ _ g'' k. returns k

    -- `GetOPCGroup` has selected the main server, or none.
    abbrev Selected : Option Bool → DllState W → Type 0
    Selected none g = Ready g
    Selected (some false) g = ⊥
    Selected (some true) g = Ready g × (g.main_server ≡ true)

    selected_lem :
        (g : DllState W) (b : Bool)
        → g.main_server ≡ b
        → Ready g
        → Selected (if b then some true else none) g
    selected_lem g true e r = (r, e)
    selected_lem g false e r = r

    select_server-Selected :
        (g : DllState W) → Ready g → Returns (λ r g'. Selected r g') (select_server env true g)
    unfolding select_server
    select_server-Selected g r =
        bind-Returns
          (if_Returns g.main_server _ _ (λ on. returns r)
            λ off. bind-Returns (connect_to_server-Ready g r) λ _ g' k. returns k)
          λ _ g' k. returns (selected_lem g' g'.main_server refl k)

    in_selected-Lending :
        (name : Bytes) (r : Option Bool) (g : DllState W)
        → Selected r g
        → Ends (λ r g'. Lending r g') (in_selected env name r g)
    unfolding find_or_add_group
    in_selected-Lending name none g r = ended (Ready-Kept g r)
    in_selected-Lending name (some false) g k = absurd k
    in_selected-Lending name (some true) g (r, on) =
        bind-Ends (search-Found env name g r.client r.here r.off on r.serves r.room)
          λ found g' f. find-Lending env name found.0 g' f

    -- GetOPCGroup on a DLL that owns its groups gives a group that is lent, or NULL, and all else is
    -- owned; or it deletes a group that was not built.
    pub get_opc_group-Lending :
        (g : DllState W) (name : Bytes)
        → Kept g
        → RoomIn g
        → Ends (λ r g'. Lending r g') (get_opc_group env true name g)
    unfolding get_opc_group
    get_opc_group-Lending g name kept room =
        if_Ends (not g.init_ok) _ _ (λ down. ended kept)
          λ up.
            bind-Ends
              (Returns-Ends (
                select_server-Selected g
                  (Kept-Ready g g.opc_server refl kept.0 (ready g.init_ok up) kept.1 room)))
              λ r g' k. in_selected-Lending name r g' k
      where
        ready : (b : Bool) → not b ≡ false → b ≡ true
        ready true e = refl
        ready false e = absurd (ground (arith, e))
