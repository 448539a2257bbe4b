-- ===== src/Opc/Join/Missing.antt =====
-- The first loop of `FindOrAddItemsToGroup`: every parameter's item is in the group.
use edps_plc_data_acquisitio.Base.{
  ℕ, ◌≡◌, refl, ap, sym, ◌∙◌, Option, none, some, List, [], ◌∷◌, ◌++◌,
}
use mathlib.Core.List.{append-nil, append_assoc}
use edps_plc_data_acquisitio.Opc.Items.{OpcItem}
use edps_plc_data_acquisitio.Opc.Params.{Param}
use edps_plc_data_acquisitio.Opc.Join.{new_item, position_of, with_item, add_missing}
use edps_plc_data_acquisitio.Opc.Join.Handles.{handles, Has, Has-append, Has-last, position_of-Has}

abbrev pub AllHave : List Param → List ℕ → Type 0
AllHave [] hs = Unit {0}
AllHave (q ∷ qs) hs = Has q.par_id hs × AllHave qs hs

module _ (uninit : ℕ) where
  handles-append :
      (its : List OpcItem) (it : OpcItem)
      → handles (its ++ it ∷ []) ≡ handles its ++ it.h_client ∷ []
  handles-append [] it = refl
  handles-append (x ∷ its) it = ap (◌∷◌ x.h_client) (handles-append its it)

  with_item-Has :
      (p : Option ℕ) (q : Param) (its : List OpcItem) (h : ℕ)
      → Has h (handles its)
      → Has h (handles (with_item uninit p q its))
  with_item-Has none q its h m =
      rw (handles-append its (new_item uninit q.item_id q.par_id)) (Has-append h (handles its) _ m)
  with_item-Has (some i) q its h m = m

  with_item_own :
      (p : Option ℕ) (q : Param) (its : List OpcItem)
      → position_of q.par_id its ≡ p
      → Has q.par_id (handles (with_item uninit p q its))
  unfolding new_item
  with_item_own none q its e =
      rw (handles-append its (new_item uninit q.item_id q.par_id)) (Has-last q.par_id (handles its))
  with_item_own (some i) q its e = position_of-Has q.par_id i its e

  add_missing-Has :
      (qs : List Param) (its : List OpcItem) (h : ℕ)
      → Has h (handles its)
      → Has h (handles (add_missing uninit qs its).0)
  unfolding add_missing
  add_missing-Has [] its h m = m
  add_missing-Has (q ∷ qs) its h m =
      add_missing-Has qs (with_item uninit (position_of q.par_id its) q its) h
        (with_item-Has (position_of q.par_id its) q its h m)

  pub add_missing-AllHave :
      (qs : List Param) (its : List OpcItem) → AllHave qs (handles (add_missing uninit qs its).0)
  unfolding add_missing
  add_missing-AllHave [] its = tt
  add_missing-AllHave (q ∷ qs) its =
      let its' = with_item uninit (position_of q.par_id its) q its in
      (
        add_missing-Has qs its' q.par_id (with_item_own (position_of q.par_id its) q its refl),
        add_missing-AllHave qs its',
      )

  with_item_behind :
      (p : Option ℕ) (q : Param) (its : List OpcItem)
      → (news : List ℕ) × (handles (with_item uninit p q its) ≡ handles its ++ news)
  with_item_behind none q its = (_, handles-append its (new_item uninit q.item_id q.par_id))
  with_item_behind (some i) q its = ([], sym (append-nil (handles its)))

  -- The new items stand behind the others.
  pub add_missing_behind :
      (qs : List Param) (its : List OpcItem)
      → (news : List ℕ) × (handles (add_missing uninit qs its).0 ≡ handles its ++ news)
  unfolding add_missing
  add_missing_behind [] its = ([], sym (append-nil (handles its)))
  add_missing_behind (q ∷ qs) its =
      let (some_news, e) = with_item_behind (position_of q.par_id its) q its in
      let (more, e') = add_missing_behind qs (with_item uninit (position_of q.par_id its) q its) in
      (some_news ++ more, e' ∙ ap (λ l. l ++ more) e ∙ append_assoc (handles its) some_news more)
