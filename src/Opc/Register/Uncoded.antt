-- ===== src/Opc/Register/Uncoded.antt =====
-- The loop of `SetNewItemsRes` without the codes that it stores.
use edps_plc_data_acquisitio.Base.{
  ℕ, zero, suc, true, false, ◌≡◌, ◌≢◌, refl, ap, sym, ◌∙◌, List, [], ◌∷◌, map, ◌==◌, arith,
  Bool-cases, inl, inr,
}
use edps_plc_data_acquisitio.Opc.Items.{OpcItem, failed, at_item}
use edps_plc_data_acquisitio.Opc.Register.{Result, register, set_code, set_new_items_res}

-- An item without the code of its last operation.
abbrev pub uncoded : OpcItem → OpcItem
uncoded it = record it { hr = 0 }

pub register-uncoded :
    (r : Result) (it : OpcItem) → uncoded (register r it) ≡ register r (uncoded it)
unfolding register
register-uncoded r it = elim (Bool-cases (failed r.code)) [ inl e ↦ rw e refl | inr e ↦ rw e refl ]

pub register-h_client : (r : Result) (it : OpcItem) → (register r it).h_client ≡ it.h_client
unfolding register
register-h_client r it = elim (Bool-cases (failed r.code)) [ inl e ↦ rw e refl | inr e ↦ rw e refl ]

set_code-uncoded :
    (n code : ℕ) (its : List OpcItem) → map uncoded (set_code n code its) ≡ map uncoded its
unfolding set_code
set_code-uncoded n code [] = refl
set_code-uncoded zero code (it ∷ its) = refl
set_code-uncoded (suc n) code (it ∷ its) = ap (◌∷◌ (uncoded it)) (set_code-uncoded n code its)

module _ (h : ℕ) (f : OpcItem → OpcItem) (it : OpcItem) (its : List OpcItem) where
  pub at_item_here : (it.h_client == h) ≡ true → at_item h f (it ∷ its) ≡ (f it ∷ its, true)
  unfolding at_item
  at_item_here e = rw e refl

  pub at_item_past :
      (it.h_client == h) ≡ false
      → at_item h f (it ∷ its) ≡ (it ∷ (at_item h f its).0, (at_item h f its).1)
  unfolding at_item
  at_item_past e = rw e refl

at_item-uncoded :
    (h : ℕ) (r : Result) (its : List OpcItem)
    → map uncoded (at_item h (register r) its).0 ≡ (at_item h (register r) (map uncoded its)).0
unfolding at_item
at_item-uncoded h r [] = refl
at_item-uncoded h r (it ∷ its) = elim (Bool-cases (it.h_client == h)) [
  | inl e ↦
      ap (λ p. map uncoded p.0) (at_item_here h (register r) it its e)
      ∙ ap (λ i. i ∷ map uncoded its) (register-uncoded r it)
      ∙ sym (ap (λ p. p.0) (at_item_here h (register r) (uncoded it) (map uncoded its) e))
  | inr e ↦
      ap (λ p. map uncoded p.0) (at_item_past h (register r) it its e)
      ∙ ap (◌∷◌ (uncoded it)) (at_item-uncoded h r its)
      ∙ sym (ap (λ p. p.0) (at_item_past h (register r) (uncoded it) (map uncoded its) e))
]

not_found :
    (h : ℕ) (f : OpcItem → OpcItem) (its : List OpcItem)
    → (at_item h f its).1 ≡ false
    → (at_item h f its).0 ≡ its
unfolding at_item
not_found h f [] e = refl
not_found h f (it ∷ its) e = elim (Bool-cases (it.h_client == h)) [
  | inl same ↦ absurd (differ (sym (ap (λ p. p.1) (at_item_here h f it its same)) ∙ e))
  | inr other ↦
      ap (λ p. p.0) (at_item_past h f it its other)
      ∙ ap (◌∷◌ it) (not_found h f its (sym (ap (λ p. p.1) (at_item_past h f it its other)) ∙ e))
]
  where
    differ : true ≢ false
    differ e = ground (arith, e)

-- The loop without the codes.
unfoldable pub at_each : List (ℕ × Result) → List OpcItem → List OpcItem
at_each [] its = its
at_each ((h, r) ∷ rs) its = at_each rs (at_item h (register r) its).0

pub set_new_items_res-uncoded :
    (n : ℕ) (rs : List (ℕ × Result)) (its : List OpcItem)
    → map uncoded (set_new_items_res n rs its) ≡ at_each rs (map uncoded its)
unfolding set_new_items_res at_each
set_new_items_res-uncoded n [] its = refl
set_new_items_res-uncoded n ((h, r) ∷ rs) its =
    elim (Bool-cases (at_item h (register r) (set_code n r.code its)).1) [
      | inl e ↦ rw e (
          set_new_items_res-uncoded (suc n) rs _
          ∙ ap (at_each rs) (
              at_item-uncoded h r (set_code n r.code its)
              ∙ ap (λ l. (at_item h (register r) l).0) (set_code-uncoded n r.code its)))
      | inr e ↦ rw e (
          set_new_items_res-uncoded (suc n) rs its
          ∙ ap (at_each rs) (
              sym (set_code-uncoded n r.code its)
              ∙ ap (map uncoded) (sym (not_found h (register r) (set_code n r.code its) e))
              ∙ at_item-uncoded h r (set_code n r.code its)
              ∙ ap (λ l. (at_item h (register r) l).0) (set_code-uncoded n r.code its)))
    ]
