-- ===== src/Opc/Objects/Walk.antt =====
-- Walking through the list with `First` and `Next`, and giving references back.
use mathlib.Core.Path.{fun_ext}
use edps_plc_data_acquisitio.Base.{
  ℕ, Bool, ◌+◌, ◌-◌, ◌%◌, ◌^◌, ◌<◌, ◌≤◌, ◌≡◌, refl, sym, ap, ◌∙◌, inl, inr, ◌==◌, ==→eq, ltb, true,
  false, Bool-cases, Option, none, some, List, [], ◌∷◌, ◌++◌, map, get_elem?, length, length-append,
  arith,
}
use edps_plc_data_acquisitio.Base.Run.{ok}
use edps_plc_data_acquisitio.Opc.Objects.{
  Object, Held, change, released, release, pointer_at, read_entry, referred,
}
use edps_plc_data_acquisitio.Opc.Objects.Arrays.{get-append, length-slots, slots-split}
use edps_plc_data_acquisitio.Opc.Objects.Refines.{Holds, referred_to, add_ref_lem}
use edps_plc_data_acquisitio.Opc.Objects.Remove.{release_lem}

pub same : (n : ℕ) → (n == n) ≡ true
same n = ground arith

module _ {A : Type 0} where
  -- The list is walked up to the index.
  abbrev pub at_ptr : ℕ → Held A → Held A
  at_ptr n h = record h { list = record h.list { ptr = n } }

  -- An object whose count can go up and down.
  pub record Counted (o : Object A) : Type 0 where
    pub counted_once : 1 ≤ o.ref_count
    pub room : o.ref_count + 1 < 2 ^ 32

  abbrev pub AllLive : (ℕ → Option (Object A)) → List ℕ → Type 0
  AllLive objects [] = Unit {0}
  AllLive objects (x ∷ xs) =
      ((o : Object A) × (objects x ≡ some o) × Counted o) × AllLive objects xs

  given_back : (o : Object A) → Counted o → released (referred_to o) ≡ some o
  given_back o c = rw (back, nonzero) refl
    where
      back : ((o.ref_count + 1) % 2 ^ 32 + 2 ^ 32 - 1) % 2 ^ 32 ≡ o.ref_count
      back = omega (arith, c.counted_once, c.room)

      nonzero : (o.ref_count == 0) ≡ false
      nonzero = ground (arith, c.counted_once)

  -- Giving back a reference that was just taken leaves the state before.
  pub release-add_ref :
      (can_end : A → Bool) (h : Held A) (x : ℕ) (o : Object A)
      → h.objects x ≡ some o
      → Counted o
      → release can_end x (change x (some (referred_to o)) h) ≡ ok tt h
  release-add_ref can_end h x o live c =
      release_lem can_end x (change x (some (referred_to o)) h) (referred_to o) (rw (same x) refl)
        (rw (given_back o c) refl)
      ∙ ap (λ f. ok tt (record h { objects = f }))
          (fun_ext λ q. elim (Bool-cases (q == x)) [
            | inl here ↦ rw (here, given_back o c, ==→eq q x here) (sym live)
            | inr there ↦ rw there refl
          ])

  entry_lem :
      (h : Held A) (ys : List ℕ) (x : ℕ) (zs : List ℕ)
      → Holds h.list (ys ++ x ∷ zs)
      → get_elem? h.list.array (length ys) ≡ some (some x)
  entry_lem h ys x zs hs =
      ap (λ a. get_elem? a (length ys)) (hs.slots ∙ slots-split ys x zs hs.rest)
      ∙ rw (sym (length-slots ys)) (get-append (map some ys) (some x) (map some zs ++ hs.rest))

  -- The entry behind `ys`.
  pub referred_here :
      (h : Held A) (ys : List ℕ) (x : ℕ) (zs : List ℕ) (o : Object A)
      → Holds h.list (ys ++ x ∷ zs)
      → h.objects x ≡ some o
      → referred (length ys) h ≡ ok (some x) (change x (some (referred_to o)) h)
  unfolding referred pointer_at read_entry
  referred_here h ys x zs o hs live =
      rw (inside, entry_lem h ys x zs hs, add_ref_lem x h o live) refl
    where
      inside : ltb (length ys) h.list.count ≡ true
      inside = ground (arith, hs.counted, length-append ys (x ∷ zs))

  pub referred_end :
      (h : Held A) (xs : List ℕ) → Holds h.list xs → referred (length xs) h ≡ ok none h
  unfolding referred
  referred_end h xs hs = rw outside refl
    where
      outside : ltb (length xs) h.list.count ≡ false
      outside = ground (arith, hs.counted)

  pub at_ptr-Holds :
      (n : ℕ) (h : Held A) (xs : List ℕ) → Holds h.list xs → Holds (at_ptr n h).list xs
  at_ptr-Holds n h xs hs = record {
    rest = hs.rest;
    slots = hs.slots;
    counted = hs.counted;
    sized = hs.sized;
    grows = hs.grows;
    small = hs.small;
  }
