-- ===== src/Opc/Exports/Lending.antt =====
-- A group that is lent, while its items are worked on and when it is released.
use mathlib.Core.Path.{subst, fun_ext}
use edps_plc_data_acquisitio.Base.{
  ℕ, ◌≡◌, refl, sym, ap, ◌∙◌, inl, inr, ◌==◌, ==→eq, ◌&&◌, true, false, Bool, Bool-cases, Option,
  none, some, List, arith, if◌then◌else◌,
}
use edps_plc_data_acquisitio.Base.Run.{
  M, Returns, returns, Ends, ended, broke, bind-Ends, Returns-Ends,
}
use edps_plc_data_acquisitio.Opc.Items.{OpcItem}
use edps_plc_data_acquisitio.Opc.Objects.{Object, ObjectList, new_list, release}
use edps_plc_data_acquisitio.Opc.Objects.Owned.{Once, AllOnce-changed}
use edps_plc_data_acquisitio.Opc.Objects.Walk.{same, release-add_ref}
use edps_plc_data_acquisitio.Opc.Group.{Group, can_end, is_set, has_items}
use edps_plc_data_acquisitio.Opc.Server.Find.{Groups, given-some}
use edps_plc_data_acquisitio.Opc.Server.Owns.{Lent}
use edps_plc_data_acquisitio.Opc.Globals.{
  Around, Client, DllState, keep_objects, keep_items, on_items_in, on_items, release_group,
}
use edps_plc_data_acquisitio.Opc.Library.Owned.{Serves, ServesMain, Lending, Kept}
use edps_plc_data_acquisitio.Opc.Exports.{in_group}

no_none : {A : Type 0} (x : Option A) (a : A) → x ≡ some a → x ≡ none → {B : Type 0} → B
no_none x a e n = absurd (ground (arith, sym e ∙ n))

-- The list of items is another one.
with_items_can_end :
    (g : Group) (its : List OpcItem)
    → can_end g ≡ true
    → can_end (record g { items = some its }) ≡ true
with_items_can_end g its e =
    parts (is_set g.un_group) (is_set g.items_mgt) (is_set g.sync_io) (has_items g.items) e
  where
    parts : (a b c d : Bool) → (a && b && c && d) ≡ true → (a && b && c && true) ≡ true
    parts a b c d e = ground (arith, e)

module _ (groups : Option ObjectList) (objects : Groups) (fresh p : ℕ)
    (l : Lent groups objects fresh p) where
  -- The group that is lent has two references.
  lent_twice : objects p ≡ some (record { ref_count = 2; body = l.group.body })
  lent_twice = ap (λ f. f p) l.one_more ∙ rw (same p, l.group.live) refl

  Lent-rebodied :
      (body : Group)
      → can_end body ≡ true
      → Lent groups
          (λ q. if q == p then some (record { ref_count = 2; body = body }) else objects q)
          fresh
          p
  Lent-rebodied body ends = record {
    before = changed;
    one_more = fun_ext λ q. elim (Bool-cases (q == p)) [
      | inl here ↦ rw (here, same p) refl
      | inr there ↦ rw there (ap (λ f. f q) l.one_more ∙ rw there refl)
    ];
    owned = record {
      addresses = l.owned.addresses;
      lists = l.owned.lists;
      once =
          AllOnce-changed can_end l.before changed p l.owned.addresses (λ q ne. rw ne refl)
            changed_once l.owned.once;
      distinct = l.owned.distinct;
      below = l.owned.below;
      no_other = λ q a. elim (Bool-cases (q == p)) [
        | inl here ↦
            no_none (l.before q) _ (ap l.before (==→eq q p here) ∙ l.group.live)
              (l.owned.no_other q a)
        | inr there ↦ rw there (l.owned.no_other q a)
      ];
    };
    group = changed_once;
  }
    where
      changed : Groups
      changed = λ q. if q == p then some (record { ref_count = 1; body = body }) else l.before q

      changed_once : Once can_end changed p
      changed_once = record { body = body; live = rw (same p) refl; ends = ends }

module _ {W A : Type 0} (p : ℕ)
    (f : Group → List OpcItem → W → Option ((A × List OpcItem) × W)) where
  on_items-Serves :
      (g : DllState W) (c : Client)
      → g.opc_server ≡ some c
      → g.snd_server ≡ false
      → Serves (some p) c g
      → Ends (λ _ g'. Lending (some p) g') (on_items p f g)
  on_items-Serves g c e off s =
      rw (lent_twice c.groups g.objects g.fresh p s.served) (of_items s.served.group.body.items)
    where
      lent : Object Group
      lent = record { ref_count = 2; body = s.served.group.body }

      kept :
          (r : Option ((A × List OpcItem) × W))
          → Ends (λ _ g'. Lending (some p) g') (keep_items p lent r g)
      kept none = broke
      kept (some ((a, its), w)) = ended (
        off,
        subst
            (λ m. ServesMain (some p) m (record g {
              objects = λ q.
                  if q == p
                  then some (record lent { body = record lent.body { items = some its } })
                  else g.objects q;
              world = w;
            }))
            (sym e)
            (record {
              online = s.online;
              served =
                  Lent-rebodied c.groups g.objects g.fresh p s.served _
                    (with_items_can_end s.served.group.body its s.served.group.ends);
              watched = s.watched;
              no_groups = λ no.
                  no_none (g.objects p) _ (lent_twice c.groups g.objects g.fresh p s.served)
                    (s.no_groups no p);
            }),
      )

      of_items :
          (i : Option (List OpcItem))
          → Ends (λ _ g'. Lending (some p) g') (on_items_in p lent i f g)
      of_items none = broke
      of_items (some its) = kept (f lent.body its g.world)

  pub on_items-Lending :
      (g : DllState W) → Lending (some p) g → Ends (λ _ g'. Lending (some p) g') (on_items p f g)
  on_items-Lending g (off, s) = of_main g.opc_server refl s
    where
      of_main :
          (m : Option Client)
          → g.opc_server ≡ m
          → ServesMain (some p) m g
          → Ends (λ _ g'. Lending (some p) g') (on_items p f g)
      of_main none e (lent, _, _, _) = no_none (some p) p refl lent
      of_main (some c) e s = on_items-Serves g c e off s

module _ {W : Type 0} where
  -- Giving the group back leaves none that is lent.
  release_group-Kept :
      (g : DllState W) (p : ℕ) → Lending (some p) g → Returns (λ _ g'. Kept g') (release_group p g)
  unfolding release_group
  release_group-Kept g p (off, s) = of_main g.opc_server refl s
    where
      of_main :
          (m : Option Client)
          → g.opc_server ≡ m
          → ServesMain (some p) m g
          → Returns
              (λ _ g'. Kept g')
              (keep_objects g
                (release can_end p (record { objects = g.objects; list = new_list 1 1 })))
      of_main none e (lent, _, _, _) = no_none (some p) p refl lent
      of_main (some c) e s =
          subst (λ r. Returns (λ _ g'. Kept g') (keep_objects g r))
            (sym (
              ap (λ f. release can_end p (record { objects = f; list = new_list 1 1 }))
                (s.served.one_more ∙ sym (given-some s.served.before p one s.served.group.live))
              ∙ release-add_ref can_end (record { objects = s.served.before; list = new_list 1 1 })
                  p one s.served.group.live
                  (record { counted_once = omega arith; room = omega arith })))
            (returns (
              off,
              subst (λ m. ServesMain none m (record g { objects = s.served.before })) (sym e)
                  (record {
                    online = s.online;
                    served = s.served.owned;
                    watched = s.watched;
                    no_groups = λ no.
                        no_none (g.objects p) _ (lent_twice c.groups g.objects g.fresh p s.served)
                          (s.no_groups no p);
                  }),
            ))
        where
          one : Object Group
          one = record { ref_count = 1; body = s.served.group.body }

  module _ {A : Type 0} (env : Around W) (refused : A) (body : ℕ → M (DllState W) A)
      (keeps : (p : ℕ) (g : DllState W)
        → Lending (some p) g
        → Ends (λ _ g'. Lending (some p) g') (body p g)) where
    -- Whatever is done with the group that was found, it is given back.
    pub in_group-Kept :
        (r : Option ℕ) (g : DllState W)
        → Lending r g
        → Ends (λ _ g'. Kept g') (in_group env refused body r g)
    in_group-Kept none g k = ended k
    in_group-Kept (some p) g k =
        bind-Ends (keeps p g k)
          λ a g' k'. bind-Ends (Returns-Ends (release_group-Kept g' p k')) λ _ g'' k''. ended k''
