-- ===== src/Opc/Items/Chosen.antt =====
-- Reading and writing change the chosen items, each by its own result, and no other.
use edps_plc_data_acquisitio.Base.{
  ℕ, Bool, true, false, ◌≡◌, refl, ap, sym, ◌∙◌, some, List, [], ◌∷◌, map, ◌==◌, ◌&&◌, ◌||◌, not,
  arith, Bool-cases, inl, inr, if◌then◌else◌,
}
use edps_plc_data_acquisitio.Opc.Items.{
  OpcItem, State, failed, keep, item_for_read, is_read, in_order, result_of, take_state,
  set_read_value,
}

module _ (handle : OpcItem → ℕ) where
  -- No item of the list has the handle `h`.
  abbrev pub Avoids : ℕ → List OpcItem → Type 0
  Avoids h [] = Unit {0}
  Avoids h (it ∷ its) = ((handle it == h) ≡ false) × Avoids h its

  -- No two items have the same handle.
  abbrev pub Distinct : List OpcItem → Type 0
  Distinct [] = Unit {0}
  Distinct (it ∷ its) = Avoids (handle it) its × Distinct its

module _ {E : Type 0} (handle : OpcItem → ℕ) (take_result : E → OpcItem → OpcItem)
    (chosen : OpcItem → Bool) (answer : OpcItem → E) where
  abbrev pub results : List OpcItem → List (ℕ × E)
  results its = map (λ it. (handle it, answer it)) (keep chosen its)

  abbrev pub each_own : List OpcItem → List OpcItem
  each_own = map (λ it. if chosen it then take_result (answer it) it else it)

  -- An item with another handle than those of the results is passed.
  passes :
      (it : OpcItem) (its others : List OpcItem)
      → Avoids handle (handle it) others
      → in_order handle take_result (it ∷ its) (results others)
        ≡ it ∷ in_order handle take_result its (results others)
  unfolding in_order keep
  passes it [] [] h = refl
  passes it (i ∷ its) [] h = refl
  passes it its (other ∷ others) (differs, h) = elim (Bool-cases (chosen other)) [
    | inl e ↦ rw (e, other_way (handle it) (handle other) differs) refl
    | inr e ↦ rw e (passes it its others h)
  ]
    where
      other_way : (a b : ℕ) → (b == a) ≡ false → (a == b) ≡ false
      other_way a b d = ground arith

  -- Every chosen item takes its own result.
  pub in_order-each_own :
      (its : List OpcItem)
      → Distinct handle its
      → in_order handle take_result its (results its) ≡ each_own its
  unfolding keep in_order
  in_order-each_own [] h = refl
  in_order-each_own (it ∷ its) (h, hs) = elim (Bool-cases (chosen it)) [
    | inl e ↦
        rw (e, same (handle it)) (ap (◌∷◌ (take_result (answer it) it)) (in_order-each_own its hs))
    | inr e ↦ rw e (passes it its its h ∙ ap (◌∷◌ it) (in_order-each_own its hs))
  ]
    where
      same : (a : ℕ) → (a == a) ≡ true
      same a = ground arith

-- The item as `GetItems2Read` leaves it.
abbrev pub marked : Bool → OpcItem → OpcItem
marked all it = if is_read all it then item_for_read it else it

module _ (all : Bool) (master : ℕ) (states : ℕ → State) where
  abbrev pub state_of : OpcItem → ℕ × State
  state_of it = (it.h_client, states it.h_client)

  abbrev pub by_state : OpcItem → OpcItem
  by_state it = if is_read all it then take_state master (states it.h_client) it else it

  still_read : (it : OpcItem) → is_read all it ≡ true → is_read all (item_for_read it) ≡ true
  unfolding is_read
  still_read it e = by_bits it.is_invalid all it.for_read e
    where
      by_bits :
          (bad every read : Bool)
          → (not bad && (every || read)) ≡ true
          → (not bad && (every || true)) ≡ true
      by_bits true every read e = e
      by_bits false true read e = refl
      by_bits false false read e = refl

  marked-is_read : (it : OpcItem) → is_read all (marked all it) ≡ is_read all it
  marked-is_read it = elim (Bool-cases (is_read all it)) [
    | inl e ↦ rw e (still_read it e)
    | inr e ↦ rw e e
  ]

  take_state-marked :
      (s : State) (it : OpcItem) → take_state master s (item_for_read it) ≡ take_state master s it
  unfolding take_state
  take_state-marked s it = elim (Bool-cases (failed (result_of master s.error))) [
    | inl e ↦ rw e refl
    | inr e ↦ rw e refl
  ]

  marked-state_of :
      (its : List OpcItem)
      → map state_of (keep (is_read all) (map (marked all) its))
        ≡ map state_of (keep (is_read all) its)
  unfolding keep
  marked-state_of [] = refl
  marked-state_of (it ∷ its) = elim (Bool-cases (is_read all it)) [
    | inl e ↦ rw (e, still_read it e) (ap (◌∷◌ (state_of it)) (marked-state_of its))
    | inr e ↦ rw (e, e) (marked-state_of its)
  ]

  marked-by_state : (its : List OpcItem) → map by_state (map (marked all) its) ≡ map by_state its
  marked-by_state [] = refl
  marked-by_state (it ∷ its) = elim (Bool-cases (is_read all it)) [
    | inl e ↦
        rw (e, still_read it e, take_state-marked (states it.h_client) it)
          (ap (◌∷◌ (take_state master (states it.h_client) it)) (marked-by_state its))
    | inr e ↦ rw (e, e) (ap (◌∷◌ it) (marked-by_state its))
  ]

  marked-Distinct :
      (its : List OpcItem)
      → Distinct (λ it. it.h_client) its
      → Distinct (λ it. it.h_client) (map (marked all) its)
  marked-Distinct [] h = tt
  marked-Distinct (it ∷ its) (h, hs) = elim (Bool-cases (is_read all it)) [
    | inl e ↦ rw e (avoids it.h_client its h, marked-Distinct its hs)
    | inr e ↦ rw e (avoids it.h_client its h, marked-Distinct its hs)
  ]
    where
      avoids :
          (k : ℕ) (l : List OpcItem)
          → Avoids (λ it. it.h_client) k l
          → Avoids (λ it. it.h_client) k (map (marked all) l)
      avoids k [] a = tt
      avoids k (i ∷ l) (d, a) = elim (Bool-cases (is_read all i)) [
        | inl e ↦ rw e (d, avoids k l a)
        | inr e ↦ rw e (d, avoids k l a)
      ]

  pub set_read_value-by_state :
      (its : List OpcItem)
      → Distinct (λ it. it.h_client) its
      → set_read_value master (some (map state_of (keep (is_read all) its))) (map (marked all) its)
        ≡ some (map by_state its)
  unfolding set_read_value
  set_read_value-by_state its h = ap some (
      ap (in_order (λ it. it.h_client) (take_state master) (map (marked all) its))
        (sym (marked-state_of its))
      ∙ in_order-each_own (λ it. it.h_client) (take_state master) (is_read all)
          (λ it. states it.h_client) (map (marked all) its) (marked-Distinct its h)
      ∙ marked-by_state its)
