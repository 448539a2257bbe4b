-- ===== src/Opc/Objects/Owned.antt =====
-- A list that owns its objects: each has one reference, the list's. Its destructor deletes them.
use mathlib.Core.Path.{subst}
use edps_plc_data_acquisitio.Base.{
  ℕ, Bool, ◌+◌, ◌≡◌, refl, sym, ap, ◌∙◌, inl, inr, ◌==◌, ==→eq, true, false, Bool-cases, Option,
  none, some, List, [], ◌∷◌, ◌++◌, map, length, length-append, arith, AvoidsIn, DistinctIn,
}
use edps_plc_data_acquisitio.Base.Run.{ok, Returns, returns}
use edps_plc_data_acquisitio.Opc.Objects.{Object, Held, change, release, release_from, delete_list}
use edps_plc_data_acquisitio.Opc.Objects.Arrays.{append-snoc, length-slots, slots-split}
use edps_plc_data_acquisitio.Opc.Objects.Refines.{Holds, with_slots, at_slots}
use edps_plc_data_acquisitio.Opc.Objects.Remove.{release_lem, pointer_lem}

module _ {A : Type 0} (can_end : A → Bool) where
  -- An object with one reference that can be deleted.
  pub record Once (objects : ℕ → Option (Object A)) (x : ℕ) : Type 0 where
    pub body : A
    pub live : objects x ≡ some (record { ref_count = 1; body = body })
    pub ends : can_end body ≡ true

  abbrev pub AllOnce : (ℕ → Option (Object A)) → List ℕ → Type 0
  AllOnce objects [] = Unit {0}
  AllOnce objects (x ∷ xs) = Once objects x × AllOnce objects xs

  -- Another object changes, or the same one has one reference again.
  Once-changed :
      (objects objects' : ℕ → Option (Object A)) (p x : ℕ)
      → ((q : ℕ) → (q == p) ≡ false → objects' q ≡ objects q)
      → ((x == p) ≡ true → Once objects' x)
      → Once objects x
      → Once objects' x
  Once-changed objects objects' p x others at_p o = elim (Bool-cases (x == p)) [
    | inl here ↦ at_p here
    | inr there ↦ record { body = o.body; live = others x there ∙ o.live; ends = o.ends }
  ]

  pub AllOnce-changed :
      (objects objects' : ℕ → Option (Object A)) (p : ℕ) (xs : List ℕ)
      → ((q : ℕ) → (q == p) ≡ false → objects' q ≡ objects q)
      → Once objects' p
      → AllOnce objects xs
      → AllOnce objects' xs
  AllOnce-changed objects objects' p [] others at_p all = tt
  AllOnce-changed objects objects' p (x ∷ xs) others at_p (o, all) = (
    Once-changed objects objects' p x others
        (λ here. subst (Once objects') (sym (==→eq x p here)) at_p) o,
    AllOnce-changed objects objects' p xs others at_p all,
  )

  pub AllOnce-avoided :
      (objects objects' : ℕ → Option (Object A)) (p : ℕ) (xs : List ℕ)
      → ((q : ℕ) → (q == p) ≡ false → objects' q ≡ objects q)
      → AvoidsIn p xs
      → AllOnce objects xs
      → AllOnce objects' xs
  AllOnce-avoided objects objects' p [] others avoided all = tt
  AllOnce-avoided objects objects' p (x ∷ xs) others (ne, avoided) (o, all) = (
    record { body = o.body; live = others x ne ∙ o.live; ends = o.ends },
    AllOnce-avoided objects objects' p xs others avoided all,
  )

  -- The last reference is given back.
  release-Once :
      (h : Held A) (x : ℕ) (o : Once h.objects x) → release can_end x h ≡ ok tt (change x none h)
  release-Once h x o =
      release_lem can_end x h (record { ref_count = 1; body = o.body }) o.live (rw (o.ends) refl)

  release_from-Deleted :
      (h : Held A) (n : ℕ) (ys zs : List ℕ) (rest : List (Option ℕ)) (i : ℕ)
      → i ≡ length (map some ys)
      → AllOnce h.objects zs
      → DistinctIn zs
      → ((q : ℕ) → AvoidsIn q zs → h.objects q ≡ none)
      → Returns
          (λ _ h'. (q : ℕ) → h'.objects q ≡ none)
          (release_from can_end (length zs) i (with_slots (map some (ys ++ zs) ++ rest) n h))
  unfolding release_from
  release_from-Deleted h n ys [] rest i e all distinct no_other = returns λ q. no_other q tt
  release_from-Deleted h n ys (x ∷ zs) rest i e (o, all) (avoided, distinct) no_other =
      rw
        (
          e,
          slots-split ys x zs rest,
          pointer_lem h n (map some ys) (map some zs ++ rest) x,
          release-Once (with_slots (map some ys ++ some x ∷ (map some zs ++ rest)) n h) x o,
        )
        (subst
          (λ a.
            Returns (λ _ h'. (q : ℕ) → h'.objects q ≡ none)
              (release_from can_end (length zs) (length (map some ys) + 1)
                (with_slots a n (change x none h))))
          (ap (λ l. map some l ++ rest) (append-snoc ys x zs) ∙ slots-split ys x zs rest)
          (release_from-Deleted (change x none h) n (ys ++ x ∷ []) zs rest _
            (omega (arith, length-slots ys, length-slots (ys ++ x ∷ []), length-append ys (x ∷ [])))
            (AllOnce-avoided h.objects (change x none h).objects x zs (λ q ne. rw ne refl) avoided
              all)
            distinct others))
    where
      others : (q : ℕ) → AvoidsIn q zs → (change x none h).objects q ≡ none
      others q a = elim (Bool-cases (q == x)) [
        | inl here ↦ rw here refl
        | inr there ↦ rw there (no_other q (ground (arith, there), a))
      ]

  -- The destructor of a list that holds distinct objects, each with one reference and no other object
  -- beside them, deletes every object.
  pub delete_list-Deleted :
      (h : Held A) (xs : List ℕ)
      → Holds h.list xs
      → AllOnce h.objects xs
      → DistinctIn xs
      → ((q : ℕ) → AvoidsIn q xs → h.objects q ≡ none)
      → Returns (λ _ h'. (q : ℕ) → h'.objects q ≡ none) (delete_list can_end h)
  unfolding delete_list
  delete_list-Deleted h xs hs all distinct no_other =
      subst (λ k. Returns (λ _ h'. (q : ℕ) → h'.objects q ≡ none) (release_from can_end k 0 h))
        (sym hs.counted)
        (at_slots
          (λ h'.
            Returns (λ _ h''. (q : ℕ) → h''.objects q ≡ none)
              (release_from can_end (length xs) 0 h'))
          h xs hs.rest hs.slots hs.counted
          (release_from-Deleted h (length (map some xs)) [] xs hs.rest 0 refl all distinct
            no_other))
