-- ===== src/Opc/Join/Joined.antt =====
-- Every parameter of a request gets the item with its number, and the item is chosen.
use edps_plc_data_acquisitio.Base.{
  ℕ, ◌==◌, ◌≡◌, ◌⊎◌, refl, ap, sym, ◌∙◌, inl, inr, Bool, Bool-cases, Option, some, List, [], ◌∷◌,
  ◌++◌, Bytes, ℤ, pos, minus, map, if◌then◌else◌,
}
use mathlib.Core.Path.{subst}
use edps_plc_data_acquisitio.Opc.Items.{OpcItem, failed, s_false}
use edps_plc_data_acquisitio.Opc.Params.{Param}
use edps_plc_data_acquisitio.Opc.Register.{Result, add_items}
use edps_plc_data_acquisitio.Opc.Join.{
  add_missing, point_to, choose_all, finished, find_or_add_items_to_group,
}
use edps_plc_data_acquisitio.Opc.Join.Handles.{handles, handles-add_items}
use edps_plc_data_acquisitio.Opc.Join.Missing.{AllHave, add_missing-AllHave, add_missing_behind}
use edps_plc_data_acquisitio.Opc.Join.Choice.{AllJoined, point_to-Pointing, choose_all-AllJoined}

ids : List Param → List ℕ
ids qs = map (λ q. q.par_id) qs

ids-point_to : (its : List OpcItem) (qs : List Param) → ids (point_to its qs) ≡ ids qs
unfolding ids point_to
ids-point_to its [] = refl
ids-point_to its (q ∷ qs) = ap (◌∷◌ q.par_id) (ids-point_to its qs)

AllJoined-chosen :
    (b : Bool) (qs : List Param) (its : List OpcItem)
    → AllHave qs (handles its)
    → (its' : List OpcItem) × (choose_all b (point_to its qs) its ≡ some its')
      × (handles its' ≡ handles its)
      × AllJoined b its' (point_to its qs)
AllJoined-chosen b qs its h =
    let (its', done, same, joined, still) =
      choose_all-AllJoined b (point_to its qs) its (point_to-Pointing qs its h) in
    (its', done, same, joined)

module _ {W : Type 0} (add : List (ℕ × Bytes) → W → (ℕ × List (ℕ × Result)) × W) (uninit : ℕ)
    (b : Bool) (qs : List Param) (its : List OpcItem) (w : W) where
  -- What `FindOrAddItemsToGroup` leaves.
  pub record Found (r : Option ((ℤ × List Param × List OpcItem) × W)) : Type 0 where
    pub code : ℤ
    pub params : List Param
    pub items : List OpcItem
    pub world : W
    pub returned : r ≡ some ((code, params, items), world)
    pub same_ids : map (λ q. q.par_id) params ≡ map (λ q. q.par_id) qs
    pub same_handles : handles items ≡ handles (add_missing uninit qs its).0
    pub behind : (news : List ℕ) × (handles items ≡ handles its ++ news)
    pub joined : (code ≡ minus 2) ⊎ AllJoined b items params

  chosen-Found :
      (code : ℤ) (its' : List OpcItem) (w' : W)
      → AllHave qs (handles its')
      → handles its' ≡ handles (add_missing uninit qs its).0
      → Found (finished code (point_to its' qs) w' (choose_all b (point_to its' qs) its'))
  unfolding ids
  chosen-Found code its' w' h e =
      let (its'', done, same, joined) = AllJoined-chosen b qs its' h in
      rw done (record {
        code = code;
        params = point_to its' qs;
        items = its'';
        world = w';
        returned = refl;
        same_ids = ids-point_to its' qs;
        same_handles = same ∙ e;
        behind = let (news, e') = add_missing_behind uninit qs its in (news, same ∙ e ∙ e');
        joined = inr joined;
      })

  its1 : List OpcItem
  its1 = (add_missing uninit qs its).0

  after_handles : handles (add_items add its1 w).0.1 ≡ handles (add_missing uninit qs its).0
  unfolding its1
  after_handles = handles-add_items add its1 w

  have_before : AllHave qs (handles its1)
  unfolding its1
  have_before = add_missing-AllHave uninit qs its

  have_after : AllHave qs (handles (add_items add its1 w).0.1)
  have_after = subst (λ hs. AllHave qs hs) (sym (handles-add_items add its1 w)) have_before

  -- FindOrAddItemsToGroup follows no null pointer, whatever the server answers: the parameters keep
  -- their numbers, and the items of the group keep their handles and places, with new ones behind
  -- them; and unless the result is -2, every parameter points to an item with its number, which is
  -- chosen to be read, or written.
  pub find_or_add_items_to_group-Found : Found (find_or_add_items_to_group add uninit b qs its w)
  unfolding find_or_add_items_to_group ids its1
  find_or_add_items_to_group-Found = elim (Bool-cases ((add_missing uninit qs its).1 == 0)) [
    | inl none_new ↦ rw none_new (chosen-Found (pos 0) its1 w have_before refl)
    | inr some_new ↦ elim (Bool-cases (failed (add_items add its1 w).0.0)) [
      | inl refused ↦
          rw (some_new, refused)
            (record {
              code = minus 2;
              params = point_to its1 qs;
              items = (add_items add its1 w).0.1;
              world = (add_items add its1 w).1;
              returned = refl;
              same_ids = ids-point_to its1 qs;
              same_handles = after_handles;
              behind =
                  let (news, e) = add_missing_behind uninit qs its in (news, after_handles ∙ e);
              joined = inl refl;
            })
      | inr granted ↦
          rw (some_new, granted)
            (chosen-Found
              (if (add_items add its1 w).0.0 == s_false
                then minus 1
                else pos (add_missing uninit qs its).1)
              (add_items add its1 w).0.1 (add_items add its1 w).1 have_after after_handles)
    ]
  ]
