-- ===== src/Opc/Server/Emptied.antt =====
-- What `COpcServer::RemoveGroups` leaves.
use mathlib.Core.Path.{subst, fun_ext}
use edps_plc_data_acquisitio.Base.{
  ℕ, zero, suc, ◌+◌, ◌%◌, ◌^◌, ◌≤◌, ◌≡◌, refl, sym, ap, ◌∙◌, inl, inr, ◌==◌, ◌&&◌, true, false,
  Bool, Bool-cases, none, some, List, [], ◌∷◌, ◌++◌, length, length-append, arith, AvoidsIn,
  DistinctIn, if◌then◌else◌,
}
use edps_plc_data_acquisitio.Base.Run.{
  ok, Returns, returns, modify, ◌>>◌, bind-Returns, map-Returns,
}
use edps_plc_data_acquisitio.Opc.Objects.{ObjectList, Held, first, delete_list}
use edps_plc_data_acquisitio.Opc.Objects.Arrays.{append-snoc}
use edps_plc_data_acquisitio.Opc.Objects.Owned.{Once, AllOnce, AllOnce-changed, delete_list-Deleted}
use edps_plc_data_acquisitio.Opc.Objects.Refines.{Holds}
use edps_plc_data_acquisitio.Opc.Objects.Walk.{at_ptr, Counted, AllLive, same, at_ptr-Holds}
use edps_plc_data_acquisitio.Opc.Group.{Group, Com, can_end, is_set, has_items, detouch}
use edps_plc_data_acquisitio.Opc.Server.{Server, on_groups}
use edps_plc_data_acquisitio.Opc.Server.Add.{back-Returns}
use edps_plc_data_acquisitio.Opc.Server.Find.{
  Groups, head, at_head, referred-head, next-head, release_head,
}
use edps_plc_data_acquisitio.Opc.Server.Remove.{detouch_group, remove_each, remove_groups}

pub AllOnce-AllLive :
    (objects : Groups) (xs : List ℕ) → AllOnce can_end objects xs → AllLive objects xs
AllOnce-AllLive objects [] all = tt
AllOnce-AllLive objects (x ∷ xs) (o, all) = (
  (
    record { ref_count = 1; body = o.body },
    o.live,
    record { counted_once = omega arith; room = omega arith },
  ),
  AllOnce-AllLive objects xs all,
)

AllOnce-behind :
    (objects : Groups) (ys : List ℕ) (x : ℕ) (zs : List ℕ)
    → AllOnce can_end objects (ys ++ x ∷ zs)
    → AllOnce can_end objects zs
AllOnce-behind objects [] x zs (o, all) = all
AllOnce-behind objects (y ∷ ys) x zs (o, all) = AllOnce-behind objects ys x zs all

AllOnce-at :
    (objects : Groups) (ys : List ℕ) (x : ℕ) (zs : List ℕ)
    → AllOnce can_end objects (ys ++ x ∷ zs)
    → Once can_end objects x
AllOnce-at objects [] x zs (o, all) = o
AllOnce-at objects (y ∷ ys) x zs (o, all) = AllOnce-at objects ys x zs all

AvoidsIn-at :
    (q : ℕ) (ys : List ℕ) (x : ℕ) (zs : List ℕ) → AvoidsIn q (ys ++ x ∷ zs) → (x == q) ≡ false
AvoidsIn-at q [] x zs (ne, a) = ne
AvoidsIn-at q (y ∷ ys) x zs (ne, a) = AvoidsIn-at q ys x zs a

and_last : (a b c d : Bool) → (a && b && c && d) ≡ true → d ≡ true
and_last a b c d e = elim (Bool-cases d) [
  | inl last ↦ last
  | inr no_last ↦ ground (arith, e, no_last)
]

module _ {W : Type 0} (api : Com W) where
  detouch-can_end : (g : Group) (w : W) → can_end g ≡ true → can_end (detouch api g w).0 ≡ true
  unfolding detouch
  detouch-can_end g w e =
      and_last (is_set g.un_group) (is_set g.items_mgt) (is_set g.sync_io) (has_items g.items) e

  -- The server while its list is walked.
  abbrev walk : Server W → Held Group → Server W
  walk s h = record s { groups = some h.list; objects = h.objects }

  -- The object at an address has other contents.
  abbrev rebodied : ℕ → Group → Held Group → Held Group
  rebodied x body h = record h {
    objects = λ q. if q == x then some (record { ref_count = 1; body = body }) else h.objects q;
  }

  module _ (s : Server W) (h : Held Group) (x : ℕ) (o : Once can_end h.objects x) where
    detouched : Group
    detouched = (detouch api o.body s.world).0

    detouched_world : W
    detouched_world = (detouch api o.body s.world).1

    rebodied-Once : Once can_end (rebodied x detouched h).objects x
    unfolding detouched
    rebodied-Once = record {
      body = detouched;
      live = rw (same x) refl;
      ends = detouch-can_end o.body s.world o.ends;
    }

    detouch_walked :
        (n : ℕ) (zs : List ℕ)
        → detouch_group api x (walk s (at_head (x ∷ zs) n h))
          ≡ ok o.body (
              walk
                (record s { world = detouched_world })
                (at_head (x ∷ zs) n (rebodied x detouched h)))
    unfolding detouch_group detouched detouched_world
    detouch_walked n zs =
        rw (same x, o.live)
          (ap
            (λ f.
              ok o.body
                (walk (record s { world = detouched_world }) (at_ptr n (record h { objects = f }))))
            (fun_ext λ q. elim (Bool-cases (q == x)) [
              | inl here ↦ rw (here, same x) refl
              | inr there ↦ rw there refl
            ]))

  -- The walk has changed the contents of the objects, and the world.
  record Walked (s : Server W) (h : Held Group) (xs : List ℕ) (s' : Server W) : Type 0 where
    held : Held Group
    world : W
    ends : s' ≡ walk (record s { world = world }) held
    holds : Holds held.list xs
    once : AllOnce can_end held.objects xs
    others : (q : ℕ) → AvoidsIn q xs → held.objects q ≡ h.objects q

  module _ (s : Server W) (h : Held Group) (x : ℕ) (o : Once can_end h.objects x) (ys zs : List ℕ)
      (hs : Holds h.list (ys ++ x ∷ zs)) (all : AllOnce can_end h.objects (ys ++ x ∷ zs)) where
    after : Held Group
    unfolding detouched
    after = rebodied x (detouched s h x o) h

    after-AllOnce : AllOnce can_end after.objects (ys ++ x ∷ zs)
    unfolding after
    after-AllOnce =
        AllOnce-changed can_end h.objects after.objects x (ys ++ x ∷ zs) (λ q ne. rw ne refl)
          (rebodied-Once s h x o) all

    asked : W
    asked = (api.remove_group o.body.h_server false (detouched_world s h x o)).1

    on : Holds h.list ((ys ++ x ∷ []) ++ zs)
    on = subst (λ l. Holds h.list l) (sym (append-snoc ys x zs)) hs

    moved : (length ys + 1) % 2 ^ 32 ≡ length (ys ++ x ∷ [])
    moved = omega (arith, hs.small, hs.sized, length-append ys (x ∷ zs), length-append ys (x ∷ []))

    once_more : Counted (record { ref_count = 1; body = (rebodied-Once s h x o).body })
    once_more = record { counted_once = omega arith; room = omega arith }

    remove_step :
        (fuel : ℕ)
        → remove_each api (suc fuel) (some x) (walk s (at_head (x ∷ zs) (length ys) h))
          ≡ remove_each api fuel
              (head zs)
              (walk (record s { world = asked }) (at_head zs (length (ys ++ x ∷ [])) after))
    unfolding remove_each after asked
    remove_step fuel =
        rw
          (
            detouch_walked s h x o (length ys) zs,
            release_head after (length ys) x zs _ (rebodied-Once s h x o).live once_more,
            next-head after (length ys) (ys ++ x ∷ []) zs on
                (AllOnce-AllLive after.objects zs
                  (AllOnce-behind after.objects ys x zs after-AllOnce))
                moved,
          )
          refl

  remove_each-Walked :
      (s : Server W) (h : Held Group) (fuel : ℕ) (ys zs : List ℕ)
      → Holds h.list (ys ++ zs)
      → AllOnce can_end h.objects (ys ++ zs)
      → length zs ≤ fuel
      → Returns
          (λ _ s'. Walked s h (ys ++ zs) s')
          (remove_each api fuel (head zs) (walk s (at_head zs (length ys) h)))
  unfolding remove_each after
  remove_each-Walked s h fuel ys [] hs all le = returns (record {
    held = at_ptr (length ys) h;
    world = s.world;
    ends = refl;
    holds = at_ptr-Holds (length ys) h (ys ++ []) hs;
    once = all;
    others = λ q a. refl;
  })
  remove_each-Walked s h zero ys (x ∷ zs) hs all le = absurd (omega arith)
  remove_each-Walked s h (suc fuel) ys (x ∷ zs) hs all le =
      rw (remove_step s h x o ys zs hs all fuel) (
        map-Returns
          (remove_each-Walked (record s { world = asked s h x o ys zs hs all })
            (after s h x o ys zs hs all) fuel (ys ++ x ∷ []) zs (on s h x o ys zs hs all)
            (subst (AllOnce can_end (after s h x o ys zs hs all).objects)
              (sym (append-snoc ys x zs)) (after-AllOnce s h x o ys zs hs all))
            (omega arith))
          λ _ s' k. record {
            held = k.held;
            world = k.world;
            ends = k.ends;
            holds = subst (Holds k.held.list) (append-snoc ys x zs) k.holds;
            once = subst (AllOnce can_end k.held.objects) (append-snoc ys x zs) k.once;
            others = λ q a.
                k.others q (subst (AvoidsIn q) (sym (append-snoc ys x zs)) a)
                ∙ rw (apart q (AvoidsIn-at q ys x zs a)) refl;
          })
    where
      o : Once can_end h.objects x
      o = AllOnce-at h.objects ys x zs all

      apart : (q : ℕ) → (x == q) ≡ false → (q == x) ≡ false
      apart q ne = ground (arith, ne)

  -- There is no list, and no group.
  abbrev pub Emptied : Server W → Server W → Type 0
  Emptied s s' =
      (s'.groups ≡ none)
      × ((q : ℕ) → s'.objects q ≡ none)
      × (s'.connected ≡ s.connected)
      × (s'.fresh ≡ s.fresh)

  -- RemoveGroups on a list that holds distinct groups, each with one reference and no other group
  -- beside them, returns, deletes every group and leaves no list.
  pub remove_groups-Emptied :
      (s : Server W) (l : ObjectList) (xs : List ℕ)
      → s.groups ≡ some l
      → Holds l xs
      → AllOnce can_end s.objects xs
      → DistinctIn xs
      → ((q : ℕ) → AvoidsIn q xs → s.objects q ≡ none)
      → Returns (λ _ s'. Emptied s s') (remove_groups api s)
  unfolding remove_groups first
  remove_groups-Emptied s l xs e hs all distinct no_other =
      rw
        (
          e,
          referred-head (record { objects = s.objects; list = l }) [] xs hs
              (AllOnce-AllLive s.objects xs all),
        )
        (bind-Returns
          (remove_each-Walked s (record { objects = s.objects; list = l }) (l.count + 1) [] xs hs
            all (omega (arith, hs.counted)))
          λ _ s' k.
            subst
              (λ t.
                Returns (λ _ s'. Emptied s s')
                  ((on_groups (delete_list can_end) >> modify (λ s'. record s' { groups = none }))
                    t))
              (sym k.ends)
              (bind-Returns
                (back-Returns api
                  {Q = λ _ t.
                    ((q : ℕ) → t.objects q ≡ none)
                    × (t.connected ≡ s.connected)
                    × (t.fresh ≡ s.fresh)}
                  (walk (record s { world = k.world }) k.held)
                  (delete_list-Deleted can_end k.held xs k.holds k.once distinct
                    λ q a. k.others q a ∙ no_other q a)
                  λ _ h gone. (gone, refl, refl))
                λ _ t (gone, c, f). returns (refl, gone, c, f)))
