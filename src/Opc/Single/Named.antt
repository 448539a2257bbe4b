-- ===== src/Opc/Single/Named.antt =====
-- The parameter of `SingleItem` and the item that it points to.
use edps_plc_data_acquisitio.Base.{
  ℕ, ◌≡◌, refl, sym, ap, ◌∙◌, inl, inr, ◌==◌, ◌||◌, Bool-cases, true, Option, none, some, List, [],
  ◌∷◌, ◌++◌, Bytes, bytes_eq, bytes_eq_refl, ℤ, pos, minus, get_elem?, arith,
}
use mathlib.Core.Path.{subst}
use edps_plc_data_acquisitio.Opc.Items.{OpcItem, failed, s_false}
use edps_plc_data_acquisitio.Opc.Params.{Param, Ole, add_item, add_item_value, value_of}
use edps_plc_data_acquisitio.Opc.Register.{Result, add_items}
use edps_plc_data_acquisitio.Opc.Join.{new_item}
use edps_plc_data_acquisitio.Opc.Single.{
  position_named, is_valid, found_at, place, with_named, point_tail, joined_name, with_param,
  single_item, tail_item,
}
use edps_plc_data_acquisitio.Opc.Single.Keys.{
  keys, keys-add_items, Counts, NamedIn, NamedAt, Counts-snoc, NamedIn-last, NamedIn-get,
  position_named-NamedAt,
}

-- The handles of the items count up from 1, as `SingleItem` gives them.
abbrev pub Numbered : List OpcItem → Type 0
Numbered its = Counts 1 (keys its)

point_tail-append :
    (i : ℕ) (qs : List Param) (q : Param)
    → point_tail i (qs ++ q ∷ []) ≡ qs ++ record q { item = some i } ∷ []
unfolding point_tail
point_tail-append i [] q = refl
point_tail-append i (r ∷ []) q = refl
point_tail-append i (r ∷ s ∷ qs) q = ap (◌∷◌ r) (point_tail-append i (s ∷ qs) q)

tail_item-append : (qs : List Param) (q : Param) → tail_item (qs ++ q ∷ []) ≡ q.item
unfolding tail_item
tail_item-append [] q = refl
tail_item-append (r ∷ []) q = refl
tail_item-append (r ∷ s ∷ qs) q = tail_item-append (s ∷ qs) q

tail_item-point_tail :
    (i : ℕ) (qs : List Param) (q : Param) → tail_item (point_tail i (qs ++ q ∷ [])) ≡ some i
tail_item-point_tail i qs q =
    ap tail_item (point_tail-append i qs q) ∙ tail_item-append qs (record q { item = some i })

-- Where the value is taken, the last parameter points to the item.
with_param_tail :
    (ole : Ole) (value : Option (Bytes × Bytes)) (name : Bytes) (i : ℕ) (it : OpcItem)
    (qs : List Param)
    → (with_param ole value name i it qs).0 ≡ pos 0
    → tail_item (with_param ole value name i it qs).1 ≡ some i
unfolding with_param add_item add_item_value
with_param_tail ole none name i it qs e = tail_item-point_tail i qs _
with_param_tail ole (some (type, text)) name i it qs e =
    elim (Bool-cases (value_of ole type text).1) [
      | inl taken ↦ rw taken (tail_item-point_tail i qs _)
      | inr refused ↦ absurd (ground (arith, rw refused at e))
    ]

module _ {W : Type 0} (ole : Ole) (add : List (ℕ × Bytes) → W → (ℕ × List (ℕ × Result)) × W)
    (uninit : ℕ) (conn item : Bytes) (value : Option (Bytes × Bytes)) (qs : List Param)
    (its : List OpcItem) (w : W) where
  -- The call returns; the handles still count up, and a code 0 means that the last parameter points to
  -- an item with the joined name.
  pub record Pointed : Type 0 where
    pub code : ℤ
    pub params : List Param
    pub items : List OpcItem
    pub world : W
    pub returned :
        single_item ole add uninit conn item value qs its w ≡ some ((code, params, items), world)
    pub numbered : Numbered items
    pub points :
        code ≡ pos 0
        → (i : ℕ) × (it : OpcItem) × (tail_item params ≡ some i)
          × (get_elem? items i ≡ some it)
          × (bytes_eq it.item_id (joined_name conn item) ≡ true)

  abbrev found : Option ℕ
  found = position_named (joined_name conn item) its

  abbrev grown_items : List OpcItem
  grown_items = with_named uninit found (joined_name conn item) its

  abbrev result : (ℕ × List OpcItem) × W
  result = add_items add grown_items w

  grown-Numbered :
      (p : Option ℕ) → Numbered its → Numbered (with_named uninit p (joined_name conn item) its)
  unfolding new_item
  grown-Numbered none c = Counts-snoc 1 its _ c (omega arith)
  grown-Numbered (some i) c = c

  placed-NamedIn :
      (p : Option ℕ)
      → NamedAt (joined_name conn item) its p
      → NamedIn
          (joined_name conn item)
          (place p its)
          (keys (with_named uninit p (joined_name conn item) its))
  unfolding new_item
  placed-NamedIn none n =
      NamedIn-last (joined_name conn item) its _ (bytes_eq_refl (joined_name conn item))
  placed-NamedIn (some i) n = n

  valid_place :
      (p : Option ℕ)
      → is_valid (found_at p its) ≡ true
      → NamedAt (joined_name conn item) its p
      → NamedIn (joined_name conn item) (place p its) (keys its)
  valid_place none e n = absurd (ground (arith, e))
  valid_place (some i) e n = n

  -- SingleItem on a group whose items are numbered from 1 follows no null pointer, whatever the server
  -- answers: it returns, the items are numbered from 1, and where the code is 0 the last parameter
  -- points to an item of the group whose name is the joined one.
  pub single_item-Pointed : Numbered its → Pointed
  unfolding single_item
  single_item-Pointed c = elim (Bool-cases (is_valid (found_at found its))) [
    | inl valid ↦
        let (it, e, n) =
          NamedIn-get (joined_name conn item) (place found its) its
            (valid_place found valid (position_named-NamedAt (joined_name conn item) its)) in
        record {
          code = (with_param ole value (joined_name conn item) (place found its) it qs).0;
          params = (with_param ole value (joined_name conn item) (place found its) it qs).1;
          items = its;
          world = w;
          returned = rw (valid, e) refl;
          numbered = c;
          points = λ ok.
              (place found its, it, with_param_tail ole value _ (place found its) it qs ok, e, n);
        }
    | inr unknown ↦ elim (Bool-cases (failed result.0.0 || result.0.0 == s_false)) [
      | inl refused ↦ record {
        code = minus 1;
        params = qs;
        items = result.0.1;
        world = result.1;
        returned = rw (unknown, refused) refl;
        numbered = after_add;
        points = λ ok. absurd (ground (arith, ok));
      }
      | inr added ↦
          let (it, e, n) = NamedIn-get (joined_name conn item) (place found its) result.0.1 (
            subst (NamedIn (joined_name conn item) (place found its))
              (sym (keys-add_items add grown_items w))
              (placed-NamedIn found (position_named-NamedAt (joined_name conn item) its))) in
          record {
            code = (with_param ole value (joined_name conn item) (place found its) it qs).0;
            params = (with_param ole value (joined_name conn item) (place found its) it qs).1;
            items = result.0.1;
            world = result.1;
            returned = rw (unknown, added, e) refl;
            numbered = after_add;
            points = λ ok.
                (place found its, it, with_param_tail ole value _ (place found its) it qs ok, e, n);
          }
    ]
  ]
    where
      after_add : Numbered result.0.1
      after_add = subst (Counts 1) (sym (keys-add_items add grown_items w)) (grown-Numbered found c)
