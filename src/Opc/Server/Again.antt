-- ===== src/Opc/Server/Again.antt =====
-- A group that was added is found again by its name.
use edps_plc_data_acquisitio.Base.{
  ℕ, ◌+◌, ◌≡◌, refl, sym, ap, ◌∙◌, inl, inr, ◌==◌, ==→eq, true, false, Bool-cases, none, some, List,
  [], ◌∷◌, ◌++◌, Bytes, bytes_eq, length, arith,
}
use edps_plc_data_acquisitio.Base.Run.{◌>>◌, Returns, bind-Returns, map-Returns}
use edps_plc_data_acquisitio.Opc.Items.{failed}
use edps_plc_data_acquisitio.Opc.Objects.{Object}
use edps_plc_data_acquisitio.Opc.Objects.Walk.{Counted, AllLive}
use edps_plc_data_acquisitio.Opc.Group.{Group, Com}
use edps_plc_data_acquisitio.Opc.Server.{Server, get_group_by_name, add_group}
use edps_plc_data_acquisitio.Opc.Server.Find.{Groups, first_named}
use edps_plc_data_acquisitio.Opc.Server.Add.{
  Listed, answer, built, add_group-Kept, get_group_by_name-first_named,
}

module _ (objects objects' : Groups) (p : ℕ) (unused : objects p ≡ none)
    (others : (q : ℕ) → (q == p) ≡ false → objects' q ≡ objects q) where
  -- An object that lives is not at the unused address.
  kept_object : (x : ℕ) (o : Object Group) → objects x ≡ some o → objects' x ≡ some o
  kept_object x o e = elim (Bool-cases (x == p)) [
    | inl here ↦ absurd (ground (arith, sym e ∙ ap objects (==→eq x p here) ∙ unused))
    | inr there ↦ others x there ∙ e
  ]

  AllLive-snoc :
      (xs : List ℕ) (o : Object Group)
      → AllLive objects xs
      → objects' p ≡ some o
      → Counted o
      → AllLive objects' (xs ++ p ∷ [])
  AllLive-snoc [] o live e c = ((o, e, c), tt)
  AllLive-snoc (x ∷ xs) o ((o', e', c'), live) e c =
      ((o', kept_object x o' e', c'), AllLive-snoc xs o live e c)

  first_named-snoc :
      (name : Bytes) (xs : List ℕ) (o : Object Group) (i : ℕ)
      → AllLive objects xs
      → (first_named objects name xs i).0 ≡ none
      → objects' p ≡ some o
      → bytes_eq o.body.name name ≡ true
      → first_named objects' name (xs ++ p ∷ []) i ≡ (some p, i + length xs)
  first_named-snoc name [] o i live fresh_name e named =
      rw (e, named) (ap (λ n. (some p, n)) (omega arith))
  first_named-snoc name (x ∷ xs) o i ((o', e', c'), live) fresh_name e named =
      elim (Bool-cases (bytes_eq o'.body.name name)) [
        | inl here ↦ absurd (ground (arith, sym (found here) ∙ fresh_name))
        | inr there ↦
            rw (kept_object x o' e', there)
              (first_named-snoc name xs o (i + 1) live (sym (passed there) ∙ fresh_name) e named
                ∙ ap (λ n. (some p, n)) (omega arith))
      ]
    where
      found : bytes_eq o'.body.name name ≡ true → (first_named objects name (x ∷ xs) i).0 ≡ some x
      found here = rw (e', here) refl

      passed :
          bytes_eq o'.body.name name ≡ false
          → (first_named objects name (x ∷ xs) i).0 ≡ (first_named objects name xs (i + 1)).0
      passed there = rw (e', there) refl

module _ {W : Type 0} (api : Com W) where
  -- Where the objects of the list live and none has the name, the next address is unused, and the
  -- server grants the group and gives it that name, GetGroupByName after AddGroup finds the new
  -- group behind the others.
  pub add_group-get_group_by_name :
      (s : Server W) (name : Bytes) (xs : List ℕ) (online : s.connected ≡ true)
      (groups : Listed s.groups xs)
      → AllLive s.objects xs
      → s.objects s.fresh ≡ none
      → (first_named s.objects name xs 0).0 ≡ none
      → failed (answer api s name).0.0 ≡ false
      → failed (built api s name).hr_last ≡ false
      → bytes_eq (built api s name).name name ≡ true
      → Returns
          (λ r s'. r ≡ (some s.fresh, length xs))
          ((add_group api name >> get_group_by_name api name) s)
  add_group-get_group_by_name s name xs online groups live unused fresh_name granted whole named =
      bind-Returns (add_group-Kept api s name xs online groups granted whole) λ _ s' (_, kept).
        map-Returns
          (get_group_by_name-first_named api s' name (xs ++ s.fresh ∷ []) kept.listed (
            AllLive-snoc s.objects s'.objects s.fresh unused kept.others xs _ live kept.counted
              twice))
          λ r s'' (e, _, _).
            e
            ∙ first_named-snoc s.objects s'.objects s.fresh unused kept.others name xs _ 0 live
                fresh_name kept.counted named
            ∙ ap (λ n. (some s.fresh, n)) (omega arith)
    where
      twice : Counted (record { ref_count = 2; body = built api s name })
      twice = record { counted_once = omega arith; room = omega arith }
