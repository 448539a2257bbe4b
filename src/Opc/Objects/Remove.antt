-- ===== src/Opc/Objects/Remove.antt =====
-- The list of objects as a list: `Remove`.
use mathlib.Core.Path.{subst}
use mathlib.Core.List.{append_assoc, append-nil}
use edps_plc_data_acquisitio.Base.{
  ℕ, Bool, Option-cases, suc, ◌+◌, ◌-◌, ◌<◌, ◌≡◌, refl, sym, ap, ◌∙◌, inl, inr, ltb, ◌&&◌, not,
  Bool-cases, true, false, Option, some, List, [], ◌∷◌, ◌++◌, map, length, length-append, arith,
}
use edps_plc_data_acquisitio.Base.Run.{ok, fault, Returns, returns}
use edps_plc_data_acquisitio.Opc.Objects.{
  Object, Held, change, is_none, released, release, pointer_at, read_entry, move_down, remove,
}
use edps_plc_data_acquisitio.Opc.Objects.Arrays.{
  get-append, get-append_next, get-append_end, append-snoc, length-slots, slots-append, slots-split,
}
use edps_plc_data_acquisitio.Opc.Objects.Refines.{Holds, with_slots, write_next}

module _ {A : Type 0} where
  -- Nothing undefined comes of a `Release` of the object.
  abbrev pub CanRelease : (A → Bool) → Object A → Type 0
  CanRelease can_end o = (is_none (released o) && not (can_end o.body)) ≡ false

  pub release_lem :
      (can_end : A → Bool) (p : ℕ) (h : Held A) (o : Object A)
      → h.objects p ≡ some o
      → CanRelease can_end o
      → release can_end p h ≡ ok tt (change p (released o) h)
  unfolding release
  release_lem can_end p h o live fine = rw (live, fine) refl

  pub read_next :
      (h : Held A) (n : ℕ) (xs ys : List (Option ℕ)) (x : Option ℕ)
      → read_entry (length xs) (with_slots (xs ++ x ∷ ys) n h)
        ≡ ok x (with_slots (xs ++ x ∷ ys) n h)
  unfolding read_entry
  read_next h n xs ys x = rw (get-append xs x ys) refl

  move_step :
      (h : Held A) (n left : ℕ) (pre ys : List (Option ℕ)) (x y : Option ℕ)
      → move_down (suc left) (length pre) (with_slots (pre ++ x ∷ y ∷ ys) n h)
        ≡ move_down left (length pre + 1) (with_slots (pre ++ y ∷ y ∷ ys) n h)
  unfolding move_down read_entry
  move_step h n left pre ys x y =
      rw (get-append_next pre x y ys, write_next h n pre (y ∷ ys) x y) refl

  one_on :
      (h : Held A) (n left : ℕ) (pre ys : List (Option ℕ)) (m : Option ℕ)
      → move_down left (length pre + 1) (with_slots (pre ++ m ∷ ys) n h)
        ≡ move_down left (length (pre ++ m ∷ [])) (with_slots ((pre ++ m ∷ []) ++ ys) n h)
  one_on h n left pre ys m = rw (append-snoc pre m ys, length-append pre (m ∷ [])) refl

  -- The entries behind the index move down; the first entry that is not in use is copied.
  move_down_lem :
      (h : Held A) (n : ℕ) (mid pre : List (Option ℕ)) (x r : Option ℕ) (rest : List (Option ℕ))
      → move_down (suc (length mid)) (length pre) (with_slots (pre ++ x ∷ (mid ++ r ∷ rest)) n h)
        ≡ ok tt (with_slots (pre ++ (mid ++ r ∷ r ∷ rest)) n h)
  unfolding move_down
  move_down_lem h n [] pre x r rest = move_step h n 0 pre rest x r
  move_down_lem h n (m ∷ mid) pre x r rest =
      move_step h n (suc (length mid)) pre (mid ++ r ∷ rest) x m
      ∙ one_on h n (suc (length mid)) pre (m ∷ (mid ++ r ∷ rest)) m
      ∙ move_down_lem h n mid (pre ++ m ∷ []) m r rest
      ∙ ap (λ a. ok tt (with_slots a n h)) (append-snoc pre m (mid ++ r ∷ r ∷ rest))

  move_faults :
      (h : Held A) (n : ℕ) (mid pre : List (Option ℕ)) (x : Option ℕ)
      → move_down (suc (length mid)) (length pre) (with_slots (pre ++ x ∷ mid) n h) ≡ fault
  unfolding move_down read_entry
  move_faults h n [] pre x = rw (get-append_end pre x) refl
  move_faults h n (m ∷ mid) pre x =
      move_step h n (suc (length mid)) pre mid x m
      ∙ one_on h n (suc (length mid)) pre (m ∷ mid) m
      ∙ move_faults h n mid (pre ++ m ∷ []) m

  pub pointer_lem :
      (h : Held A) (n : ℕ) (xs ys : List (Option ℕ)) (x : ℕ)
      → pointer_at (length xs) (with_slots (xs ++ some x ∷ ys) n h)
        ≡ ok x (with_slots (xs ++ some x ∷ ys) n h)
  unfolding pointer_at
  pointer_lem h n xs ys x = rw (read_next h n xs ys (some x)) refl

  module _ (can_end : A → Bool) (h : Held A) (n i : ℕ) (pre mid : List (Option ℕ)) (x : ℕ)
      (at_pre : i ≡ length pre) (sized : n ≡ length pre + suc (length mid)) where
    inside : ltb (length pre) n ≡ true
    inside = ground (arith, sized)

    to_move : n - length pre ≡ suc (length mid)
    to_move = omega (arith, sized)

    remove_at :
        (o : Object A) (r : Option ℕ) (rest : List (Option ℕ))
        → h.objects x ≡ some o
        → CanRelease can_end o
        → remove can_end i (with_slots (pre ++ some x ∷ (mid ++ r ∷ rest)) n h)
          ≡ ok true (with_slots (pre ++ (mid ++ r ∷ r ∷ rest)) (n - 1) (change x (released o) h))
    unfolding remove
    remove_at o r rest live fine =
        rw
          (
            at_pre,
            inside,
            pointer_lem h n pre (mid ++ r ∷ rest) x,
            release_lem can_end x (with_slots (pre ++ some x ∷ (mid ++ r ∷ rest)) n h) o live fine,
            to_move,
            move_down_lem (change x (released o) h) n mid pre (some x) r rest,
          )
          refl

    remove_at_faults : remove can_end i (with_slots (pre ++ some x ∷ mid) n h) ≡ fault
    unfolding remove release
    remove_at_faults =
        rw (at_pre, inside, pointer_lem h n pre mid x)
          (elim (Option-cases (h.objects x)) [
            | inl gone ↦ rw gone refl
            | inr (o, live) ↦
                rw live (elim (Bool-cases (is_none (released o) && not (can_end o.body))) [
                  | inl undefined ↦ rw undefined refl
                  | inr fine ↦
                      rw (fine, to_move, move_faults (change x (released o) h) n mid pre (some x))
                        refl
                ])
          ])

  -- The list without the object, which has one reference less or is deleted.
  abbrev pub Removed :
      Held A → (ys : List ℕ) → ℕ → (zs : List ℕ) → Object A → Bool → Held A → Type 0
  Removed h ys x zs o b h' =
      (b ≡ true) × Holds h'.list (ys ++ zs) × (h'.objects ≡ (change x (released o) h).objects)

  -- Where the array is not full and the object's Release is defined, Remove takes the object at an
  -- index out of the list, gives back its reference and keeps the order of the others.
  pub remove-Removed :
      (can_end : A → Bool) (h : Held A) (ys : List ℕ) (x : ℕ) (zs : List ℕ) (o : Object A)
      → Holds h.list (ys ++ x ∷ zs)
      → h.list.count < h.list.max_count
      → h.objects x ≡ some o
      → CanRelease can_end o
      → Returns (Removed h ys x zs o) (remove can_end (length ys) h)
  remove-Removed can_end h ys x zs o hs room live fine = removed hs.rest refl
    where
      n : h.list.count ≡ length (map some ys) + suc (length (map some zs))
      n = omega (arith, hs.counted, length-append ys (x ∷ zs), length-slots ys, length-slots zs)

      removed :
          (rest : List (Option ℕ))
          → rest ≡ hs.rest
          → Returns (Removed h ys x zs o) (remove can_end (length ys) h)
      removed [] e = absurd (omega (arith, hs.sized, hs.counted, ap (λ l. length l) e))
      removed (r ∷ rest) e =
          subst
            (λ a.
              Returns (Removed h ys x zs o)
                (remove can_end (length ys) (with_slots a h.list.count h)))
            (sym (
              hs.slots
              ∙ ap (λ l. map some (ys ++ x ∷ zs) ++ l) (sym e)
              ∙ slots-split ys x zs (r ∷ rest)))
            (rw
              (remove_at can_end h h.list.count (length ys) (map some ys) (map some zs) x
                (sym (length-slots ys)) n o r rest live fine)
              (returns (
                refl,
                record {
                  rest = r ∷ r ∷ rest;
                  slots =
                      rw
                        (
                          slots-append ys zs,
                          append_assoc (map some ys) (map some zs) (r ∷ r ∷ rest),
                        )
                        refl;
                  counted = omega (arith, n, length-slots ys, length-slots zs, length-append ys zs);
                  sized = omega (
                    arith,
                    hs.sized,
                    length-append ys (x ∷ zs),
                    length-append ys zs,
                    ap (λ l. length l) e,
                  );
                  grows = hs.grows;
                  small = hs.small;
                },
                refl,
              )))

  -- Remove on a list whose array is full reads the entry behind the array.
  pub remove_full_faults :
      (can_end : A → Bool) (h : Held A) (ys : List ℕ) (x : ℕ) (zs : List ℕ)
      → Holds h.list (ys ++ x ∷ zs)
      → h.list.count ≡ h.list.max_count
      → remove can_end (length ys) h ≡ fault
  remove_full_faults can_end h ys x zs hs full = faulted hs.rest refl
    where
      n : h.list.count ≡ length (map some ys) + suc (length (map some zs))
      n = omega (arith, hs.counted, length-append ys (x ∷ zs), length-slots ys, length-slots zs)

      faulted : (rest : List (Option ℕ)) → rest ≡ hs.rest → remove can_end (length ys) h ≡ fault
      faulted (r ∷ rest) e = absurd (omega (arith, hs.sized, hs.counted, ap (λ l. length l) e))
      faulted [] e =
          subst (λ a. remove can_end (length ys) (with_slots a h.list.count h) ≡ fault)
            (sym (
              hs.slots
              ∙ ap (λ l. map some (ys ++ x ∷ zs) ++ l) (sym e)
              ∙ slots-split ys x zs []
              ∙ ap (λ l. map some ys ++ some x ∷ l) (append-nil (map some zs))))
            (remove_at_faults can_end h h.list.count (length ys) (map some ys) (map some zs) x
              (sym (length-slots ys)) n)
