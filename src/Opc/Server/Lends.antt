-- ===== src/Opc/Server/Lends.antt =====
-- `AddGroup` on a server that owns its groups.
use mathlib.Core.Path.{subst, fun_ext}
use edps_plc_data_acquisitio.Base.{
  ℕ, ◌+◌, ◌≡◌, refl, sym, ap, ◌∙◌, inl, inr, ◌==◌, ==→eq, false, Bool-cases, some, List, [], ◌∷◌,
  ◌++◌, Bytes, arith, AvoidsIn, DistinctIn, if◌then◌else◌,
}
use edps_plc_data_acquisitio.Base.Run.{Ends, ended, broke, Returns-Ends, map-Ends}
use edps_plc_data_acquisitio.Opc.Items.{failed}
use edps_plc_data_acquisitio.Opc.Objects.{Object}
use edps_plc_data_acquisitio.Opc.Objects.Owned.{Once, AllOnce, AllOnce-avoided}
use edps_plc_data_acquisitio.Opc.Objects.Walk.{same}
use edps_plc_data_acquisitio.Opc.Group.{Group, Com, can_end}
use edps_plc_data_acquisitio.Opc.Server.{Server, add_group}
use edps_plc_data_acquisitio.Opc.Server.Add.{
  make_list_lem, Kept, Listed, listed, new_group-can_end, answer, built, add_group-Kept,
  add_group_faults,
}
use edps_plc_data_acquisitio.Opc.Server.Find.{Groups}
use edps_plc_data_acquisitio.Opc.Server.Owns.{
  AllBelow, Lists, Lists-listed, Listed-Lists, Room, Owns, Lent, Served, OwnsGroups, ServedBy,
  AvoidsIn-below,
}

AllOnce-snoc :
    (objects : Groups) (xs : List ℕ) (p : ℕ)
    → AllOnce can_end objects xs
    → Once can_end objects p
    → AllOnce can_end objects (xs ++ p ∷ [])
AllOnce-snoc objects [] p all o = (o, tt)
AllOnce-snoc objects (x ∷ xs) p (ox, all) o = (ox, AllOnce-snoc objects xs p all o)

AvoidsIn-snoc :
    (q : ℕ) (xs : List ℕ) (p : ℕ) → AvoidsIn q (xs ++ p ∷ []) → AvoidsIn q xs × ((p == q) ≡ false)
AvoidsIn-snoc q [] p (ne, a) = (tt, ne)
AvoidsIn-snoc q (x ∷ xs) p (ne, a) = let (b, last) = AvoidsIn-snoc q xs p a in ((ne, b), last)

AvoidsIn-with :
    (q : ℕ) (xs : List ℕ) (p : ℕ) → AvoidsIn q xs → (p == q) ≡ false → AvoidsIn q (xs ++ p ∷ [])
AvoidsIn-with q [] p a last = (last, tt)
AvoidsIn-with q (x ∷ xs) p (ne, a) last = (ne, AvoidsIn-with q xs p a last)

DistinctIn-snoc : (xs : List ℕ) (p : ℕ) → DistinctIn xs → AvoidsIn p xs → DistinctIn (xs ++ p ∷ [])
DistinctIn-snoc [] p d a = (tt, tt)
DistinctIn-snoc (x ∷ xs) p (ax, d) (ne, a) =
    (AvoidsIn-with x xs p ax (ground (arith, ne)), DistinctIn-snoc xs p d a)

AllBelow-snoc : (n : ℕ) (xs : List ℕ) → AllBelow n xs → AllBelow (n + 1) (xs ++ n ∷ [])
AllBelow-snoc n [] b = (omega arith, tt)
AllBelow-snoc n (x ∷ xs) (l, b) = (omega arith, AllBelow-snoc n xs b)

module _ {W : Type 0} (api : Com W) where
  module _ (s : Server W) (name : Bytes) (o : OwnsGroups s) where
    -- Before the call of the server there is a list.
    Owns-listed : Owns (some (listed s.groups)) s.objects s.fresh
    Owns-listed = record {
      addresses = o.addresses;
      lists = Lists-listed s.groups o.addresses o.lists;
      once = o.once;
      distinct = o.distinct;
      below = o.below;
      no_other = o.no_other;
    }

    -- The group that was built has one reference, and then a second one.
    Kept-Lent :
        (s' : Server W)
        → failed (built api s name).hr_last ≡ false
        → Kept s.objects s.fresh o.addresses (built api s name) s'
        → Lent s'.groups s'.objects s'.fresh s.fresh
    Kept-Lent s' whole k = record {
      before = λ q. if q == s.fresh then some one else s.objects q;
      one_more = fun_ext (λ q. elim (Bool-cases (q == s.fresh)) [
        | inl here ↦ ap s'.objects (==→eq q s.fresh here) ∙ k.counted ∙ rw (here, same s.fresh) refl
        | inr there ↦ k.others q there ∙ rw there refl
      ]);
      owned = record {
        addresses = o.addresses ++ s.fresh ∷ [];
        lists = subst (λ g. Lists g (o.addresses ++ s.fresh ∷ [])) (sym k.listed.1) k.listed.2;
        once =
            AllOnce-snoc _ o.addresses s.fresh
              (AllOnce-avoided can_end s.objects _ s.fresh o.addresses (λ q ne. rw ne refl)
                (AvoidsIn-below s.fresh o.addresses o.below) o.once)
              new_once;
        distinct =
            DistinctIn-snoc o.addresses s.fresh o.distinct
              (AvoidsIn-below s.fresh o.addresses o.below);
        below =
            subst (λ n. AllBelow n (o.addresses ++ s.fresh ∷ [])) (sym k.next_address)
              (AllBelow-snoc s.fresh o.addresses o.below);
        no_other = λ q a.
            rw (apart q (AvoidsIn-snoc q o.addresses s.fresh a).1)
              (o.no_other q (AvoidsIn-snoc q o.addresses s.fresh a).0);
      };
      group = new_once;
    }
      where
        one : Object Group
        one = record { ref_count = 1; body = built api s name }

        new_once : Once can_end (λ q. if q == s.fresh then some one else s.objects q) s.fresh
        new_once = record {
          body = built api s name;
          live = rw (same s.fresh) refl;
          ends = new_group-can_end api _ _ whole;
        }

        apart : (q : ℕ) → (s.fresh == q) ≡ false → (q == s.fresh) ≡ false
        apart q ne = ground (arith, ne)

    -- AddGroup on a server that owns its groups, whose list can grow, gives a group that is lent, or
    -- NULL, or it deletes a group that was not built.
    pub add_group-Served : Room s.groups → Ends (λ r s'. ServedBy s r s') (add_group api name s)
    unfolding add_group
    add_group-Served room = elim (Bool-cases s.connected) [
      | inr offline ↦ rw offline (ended (o, refl))
      | inl online ↦ elim (Bool-cases (failed (answer api s name).0.0)) [
        | inl refused ↦ rw (make_list_lem api s, online, refused) (ended (Owns-listed, refl))
        | inr granted ↦ elim (Bool-cases (failed (built api s name).hr_last)) [
          | inl broken ↦
              subst (Ends (λ r s'. ServedBy s r s'))
                (sym (add_group_faults api s name o.addresses online groups granted broken)) broke
          | inr whole ↦
              map-Ends
                (Returns-Ends (add_group-Kept api s name o.addresses online groups granted whole))
                λ r s' (e, k). (
                  subst (λ r. Served r s'.groups s'.objects s'.fresh) (sym e)
                      (Kept-Lent s' whole k),
                  k.online ∙ sym online,
                )
        ]
      ]
    ]
      where
        groups : Listed s.groups o.addresses
        groups = Listed-Lists s.groups o.addresses o.lists room
