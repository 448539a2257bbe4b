-- ===== src/Opc/Server/Owns.antt =====
-- A server owns its groups: each group of the list has one reference, and there is no other group. A
-- group that was looked up or added is lent: it has one reference more.
use mathlib.Core.Path.{subst}
use edps_plc_data_acquisitio.Base.{
  ℕ, ◌+◌, ◌^◌, ◌<◌, ◌≡◌, refl, sym, ap, ◌∙◌, inl, inr, Bool-cases, Option, none, some, List, [],
  ◌∷◌, Bytes, arith, AvoidsIn, DistinctIn,
}
use edps_plc_data_acquisitio.Base.Run.{Returns, returns}
use edps_plc_data_acquisitio.Opc.Objects.{ObjectList}
use edps_plc_data_acquisitio.Opc.Objects.Owned.{Once, AllOnce}
use edps_plc_data_acquisitio.Opc.Objects.Refines.{Holds}
use edps_plc_data_acquisitio.Opc.Group.{Com, can_end}
use edps_plc_data_acquisitio.Opc.Server.{Server, get_group_by_name}
use edps_plc_data_acquisitio.Opc.Server.Add.{Listed, listed, Listed-Holds, back-Returns}
use edps_plc_data_acquisitio.Opc.Server.Find.{
  Groups, given, first_named, is_named, find_group-first_named,
}
use edps_plc_data_acquisitio.Opc.Server.Emptied.{AllOnce-AllLive}

abbrev pub AllBelow : ℕ → List ℕ → Type 0
AllBelow n [] = Unit {0}
AllBelow n (x ∷ xs) = (x < n) × AllBelow n xs

-- The list is `xs`; none before it is made.
abbrev pub Lists : Option ObjectList → List ℕ → Type 0
Lists none xs = xs ≡ []
Lists (some l) xs = Holds l xs

pub Lists-listed : (g : Option ObjectList) (xs : List ℕ) → Lists g xs → Holds (listed g) xs
Lists-listed none xs e = (Listed-Holds none xs e).0
Lists-listed (some l) xs h = h

-- The array of the list can grow.
abbrev pub Room : Option ObjectList → Type 0
Room none = Unit {0}
Room (some l) = l.max_count + l.add_size < 2 ^ 32

pub Listed-Lists : (g : Option ObjectList) (xs : List ℕ) → Lists g xs → Room g → Listed g xs
Listed-Lists none xs e room = e
Listed-Lists (some l) xs h room = (h, room)

pub record Owns (groups : Option ObjectList) (objects : Groups) (fresh : ℕ) : Type 0 where
  pub addresses : List ℕ
  pub lists : Lists groups addresses
  pub once : AllOnce can_end objects addresses
  pub distinct : DistinctIn addresses
  pub below : AllBelow fresh addresses
  pub no_other : (q : ℕ) → AvoidsIn q addresses → objects q ≡ none

-- The group at an address has a reference beside that of the list.
pub record Lent (groups : Option ObjectList) (objects : Groups) (fresh p : ℕ) : Type 0 where
  pub before : Groups
  pub one_more : objects ≡ given (some p) before
  pub owned : Owns groups before fresh
  pub group : Once can_end before p

abbrev pub Served : Option ℕ → Option ObjectList → Groups → ℕ → Type 0
Served none groups objects fresh = Owns groups objects fresh
Served (some p) groups objects fresh = Lent groups objects fresh p

pub AvoidsIn-below : (n : ℕ) (xs : List ℕ) → AllBelow n xs → AvoidsIn n xs
AvoidsIn-below n [] b = tt
AvoidsIn-below n (x ∷ xs) (l, b) = (ground (arith, l), AvoidsIn-below n xs b)

Once-first_named :
    (objects : Groups) (name : Bytes) (xs : List ℕ) (i p : ℕ)
    → AllOnce can_end objects xs
    → (first_named objects name xs i).0 ≡ some p
    → Once can_end objects p
Once-first_named objects name [] i p all e = absurd (ground (arith, e))
Once-first_named objects name (x ∷ xs) i p (o, all) e =
    elim (Bool-cases (is_named name (objects x))) [
      | inl here ↦ subst (Once can_end objects) (ground (arith, rw here at e)) o
      | inr there ↦ Once-first_named objects name xs (i + 1) p all (rw there at e)
    ]

-- The objects stay as they were, but for a reference of what is found.
first_named-Served :
    (l : ObjectList) (objects objects' : Groups) (fresh : ℕ) (name : Bytes)
    (o : Owns (some l) objects fresh) (l' : ObjectList) (r : Option ℕ)
    → Holds l' o.addresses
    → (first_named objects name o.addresses 0).0 ≡ r
    → objects' ≡ given (first_named objects name o.addresses 0).0 objects
    → Served r (some l') objects' fresh
first_named-Served l objects objects' fresh name o l' none hs e eq =
    subst (λ f. Owns (some l') f fresh) (sym (eq ∙ ap (λ f. given f objects) e))
      (record {
        addresses = o.addresses;
        lists = hs;
        once = o.once;
        distinct = o.distinct;
        below = o.below;
        no_other = o.no_other;
      })
first_named-Served l objects objects' fresh name o l' (some p) hs e eq = record {
  before = objects;
  one_more = eq ∙ ap (λ f. given f objects) e;
  owned = record {
    addresses = o.addresses;
    lists = hs;
    once = o.once;
    distinct = o.distinct;
    below = o.below;
    no_other = o.no_other;
  };
  group = Once-first_named objects name o.addresses 0 p o.once e;
}

module _ {W : Type 0} where
  abbrev pub OwnsGroups : Server W → Type 0
  OwnsGroups s = Owns s.groups s.objects s.fresh

  -- What the caller is given is lent, and the server is connected as it was.
  abbrev pub ServedBy : Server W → Option ℕ → Server W → Type 0
  ServedBy s r s' = Served r s'.groups s'.objects s'.fresh × (s'.connected ≡ s.connected)

module _ {W : Type 0} (api : Com W) where
  get_group-at :
      (s : Server W) (name : Bytes) (g : Option ObjectList)
      → s.groups ≡ g
      → Owns g s.objects s.fresh
      → Returns
          (λ r s'. ServedBy s r.0 s' × (Room s.groups → Room s'.groups))
          (get_group_by_name api name s)
  unfolding get_group_by_name
  get_group-at s name none e o = rw e (returns ((o, refl), λ room. room))
  get_group-at s name (some l) e o = rw e (
      back-Returns api (record s { groups = some l })
        (find_group-first_named (record { objects = s.objects; list = l }) name o.addresses o.lists
          (AllOnce-AllLive s.objects o.addresses o.once))
        λ r h (r_eq, o_eq, hs, same_max, same_add). (
          (
            first_named-Served l s.objects h.objects s.fresh name o h.list r.0 hs
                (sym (ap (λ f. f.0) r_eq)) o_eq,
            refl,
          ),
          λ room. omega (arith, room, same_max, same_add),
        ))

  pub get_group_by_name-Served :
      (s : Server W) (name : Bytes)
      → OwnsGroups s
      → Returns
          (λ r s'. ServedBy s r.0 s' × (Room s.groups → Room s'.groups))
          (get_group_by_name api name s)
  get_group_by_name-Served s name o = get_group-at s name s.groups refl o
