-- ===== src/Opc/Objects/Refines.antt =====
-- The list of objects as a list: `Add`.
use mathlib.Core.Path.{subst}
use edps_plc_data_acquisitio.Base.{
  ℕ, zero, suc, ◌+◌, ◌-◌, ◌%◌, ◌^◌, ◌<◌, ◌≤◌, ◌≡◌, refl, sym, ap, ◌∙◌, inl, inr, ◌==◌, ==→eq,
  Bool-cases, ltb, true, Option, none, some, List, [], ◌∷◌, ◌++◌, map, replicate, take, drop,
  length, length-append, length-replicate, take-append, arith,
}
use edps_plc_data_acquisitio.Base.Run.{Run, and_then, modify, ◌>>◌, ok, Returns, returns}
use edps_plc_data_acquisitio.Opc.Objects.{
  Object, ObjectList, Held, change, add_ref, write_entry, grow, add,
}
use edps_plc_data_acquisitio.Opc.Objects.Arrays.{set-append, append-snoc, length-slots, slots-snoc}

-- The list stands for the addresses `xs`; `rest` is the part of the array behind them.
pub record Holds (l : ObjectList) (xs : List ℕ) : Type 0 where
  pub rest : List (Option ℕ)
  pub slots : l.array ≡ map some xs ++ rest
  pub counted : l.count ≡ length xs
  pub sized : l.max_count ≡ length xs + length rest
  pub grows : 1 ≤ l.add_size
  pub small : l.max_count < 2 ^ 32

length-drop : (n : ℕ) (xs : List (Option ℕ)) → length (drop n xs) ≡ length xs - n
length-drop zero xs = omega arith
length-drop (suc n) [] = omega arith
length-drop (suc n) (x ∷ xs) = omega (arith, length-drop n xs)

take_slots :
    (xs : List ℕ) (n : ℕ) (rest : List (Option ℕ))
    → n ≡ length xs
    → take n (map some xs ++ rest) ≡ map some xs
take_slots xs n rest e = rw (e, sym (length-slots xs)) (take-append (map some xs) rest)

grow-Holds :
    (l : ObjectList) (xs : List ℕ)
    → Holds l xs
    → l.max_count + l.add_size < 2 ^ 32
    → Holds (grow l) xs
unfolding grow
grow-Holds l xs h fits = record {
  rest = drop l.count (replicate ((l.max_count + l.add_size) % 2 ^ 32) none);
  slots =
      ap (λ a. a ++ drop l.count (replicate ((l.max_count + l.add_size) % 2 ^ 32) none))
        (ap (λ a. take l.count a) h.slots ∙ take_slots xs l.count h.rest h.counted);
  counted = h.counted;
  sized = omega (
    arith,
    h.sized,
    h.counted,
    length-drop l.count (replicate ((l.max_count + l.add_size) % 2 ^ 32) none),
    length-replicate {A = Option ℕ} ((l.max_count + l.add_size) % 2 ^ 32) none,
  );
  grows = h.grows;
  small = omega arith;
}

module _ {A : Type 0} where
  -- The state with an array and a count.
  abbrev pub with_slots : List (Option ℕ) → ℕ → Held A → Held A
  with_slots a n h = record h { list = record h.list { array = a; count = n } }

  pub write_next :
      (h : Held A) (n : ℕ) (xs ys : List (Option ℕ)) (x e : Option ℕ)
      → write_entry (length xs) e (with_slots (xs ++ x ∷ ys) n h)
        ≡ ok tt (with_slots (xs ++ e ∷ ys) n h)
  unfolding write_entry
  write_next h n xs ys x e = rw (inside, set-append xs x e ys) refl
    where
      inside : ltb (length xs) (length (xs ++ x ∷ ys)) ≡ true
      inside = ground (arith, length-append xs (x ∷ ys))

  -- The object with one more reference.
  abbrev pub referred_to : Object A → Object A
  referred_to o = record o { ref_count = (o.ref_count + 1) % 2 ^ 32 }

  pub add_ref_lem :
      (p : ℕ) (h : Held A) (o : Object A)
      → h.objects p ≡ some o
      → add_ref p h ≡ ok tt (change p (some (referred_to o)) h)
  unfolding add_ref
  add_ref_lem p h o live = rw live refl

  abbrev pub Added : Held A → List ℕ → ℕ → Object A → Held A → Type 0
  Added h xs p o h' =
      Holds h'.list (xs ++ p ∷ []) × (h'.objects ≡ (change p (some (referred_to o)) h).objects)

  -- `Add` where the array has room.
  abbrev put : ℕ → Held A → Run (Held A) (Unit {0})
  put p h = and_then (write_entry h.list.count (some p) h) (λ _.
      modify (λ h'. record h' { list = record h'.list { count = h'.list.count + 1 } }) >> add_ref p)

  put-Added :
      (h : Held A) (xs : List ℕ) (r : Option ℕ) (rest : List (Option ℕ)) (p : ℕ) (o : Object A)
      → h.list.max_count ≡ length xs + length (r ∷ rest)
      → 1 ≤ h.list.add_size
      → h.list.max_count < 2 ^ 32
      → h.objects p ≡ some o
      → Returns
          (λ _ h'. Added h xs p o h')
          (put p (with_slots (map some xs ++ r ∷ rest) (length (map some xs)) h))
  put-Added h xs r rest p o sized grows small live =
      rw
        (
          write_next h (length (map some xs)) (map some xs) rest r (some p),
          add_ref_lem p (with_slots (map some xs ++ some p ∷ rest) (length (map some xs) + 1) h) o
              live,
        )
        (returns (
          record {
            rest = rest;
            slots = sym (rw (slots-snoc xs p) (append-snoc (map some xs) (some p) rest));
            counted = omega (arith, length-slots xs, length-append xs (p ∷ []));
            sized = omega (arith, sized, length-append xs (p ∷ []));
            grows = grows;
            small = small;
          },
          refl,
        ))

  pub at_slots :
      (P : Held A → Type 0) (h : Held A) (xs : List ℕ) (rest : List (Option ℕ))
      → h.list.array ≡ map some xs ++ rest
      → h.list.count ≡ length xs
      → P (with_slots (map some xs ++ rest) (length (map some xs)) h)
      → P h
  at_slots P h xs rest e n p =
      subst (λ a. P (with_slots a h.list.count h)) (sym e)
        (subst (λ k. P (with_slots (map some xs ++ rest) k h)) (length-slots xs ∙ sym n) p)

  placed :
      (h : Held A) (xs : List ℕ) (rest : List (Option ℕ)) (p : ℕ) (o : Object A)
      → h.list.array ≡ map some xs ++ rest
      → h.list.count ≡ length xs
      → h.list.max_count ≡ length xs + length rest
      → 1 ≤ h.list.add_size
      → h.list.max_count < 2 ^ 32
      → length xs < h.list.max_count
      → h.objects p ≡ some o
      → Returns (λ _ h'. Added h xs p o h') (put p h)
  placed h xs [] p o e n sized grows small room live = absurd (omega arith)
  placed h xs (r ∷ rest) p o e n sized grows small room live =
      at_slots (λ h'. Returns (λ _ h''. Added h xs p o h'') (put p h')) h xs (r ∷ rest) e n
        (put-Added h xs r rest p o sized grows small live)

  -- Add puts a live object behind the others of the list, with one more reference; where the array
  -- is full it grows. The array's next size fits 32 bits.
  pub add-Added :
      (h : Held A) (xs : List ℕ) (p : ℕ) (o : Object A)
      → Holds h.list xs
      → h.list.max_count + h.list.add_size < 2 ^ 32
      → h.objects p ≡ some o
      → Returns (λ _ h'. Added h xs p o h') (add p h)
  unfolding add grow
  add-Added h xs p o hs fits live = elim (Bool-cases (h.list.count == h.list.max_count)) [
    | inl full ↦ rw full (
        let gs = grow-Holds h.list xs hs fits in
        placed (record h { list = grow h.list }) xs gs.rest p o gs.slots gs.counted gs.sized
          gs.grows gs.small
          (omega (arith, hs.counted, hs.sized, hs.grows, ==→eq h.list.count h.list.max_count full))
          live)
    | inr room ↦ rw room (
        placed h xs hs.rest p o hs.slots hs.counted hs.sized hs.grows hs.small
          (ground (arith, hs.counted, hs.sized)) live)
  ]
