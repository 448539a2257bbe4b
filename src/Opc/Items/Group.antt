-- ===== src/Opc/Items/Group.antt =====
-- `COPCGroup::ReadItems` and `COPCGroup::WriteItems` with a server that answers for each handle.
use mathlib.Core.Option
use edps_plc_data_acquisitio.Base.{
  ℕ, Bool, true, false, ◌≡◌, refl, ap, sym, ◌∙◌, some, List, [], ◌∷◌, map, if◌then◌else◌, ◌&&◌,
  ◌||◌, not, Bool-cases, inl, inr, map_each,
}
use edps_plc_data_acquisitio.Opc.Params.{Variant, empty}
use edps_plc_data_acquisitio.Opc.Items.{
  OpcItem, State, Server, failed, keep, is_read, is_written, get_items2_read, get_items2_write,
  take_state, in_order, set_read_value, take_written, paired, results_of, set_write_result,
  read_items, write_items,
}
use edps_plc_data_acquisitio.Opc.Items.Chosen.{
  Distinct, in_order-each_own, marked, state_of, by_state, set_read_value-by_state,
}

-- What an item has after a read: one that is valid, and asked for or in a read of all, has the
-- value, the quality and the time of its state and the code of its state, and is no longer asked for;
-- where the call or the state has failed, it has no value and the quality 0, and keeps its time. The
-- code of a call that failed stands for that of the state.
abbrev pub after_read : Bool → ℕ → (ℕ → State) → OpcItem → OpcItem
after_read all master states it =
    let s = states it.h_client in
    let hr = if failed master then master else s.error in
    if not it.is_invalid && (all || it.for_read)
    then (if failed hr
        then record it { hr = hr; value = empty; quality = 0; for_read = false }
        else record it {
          hr = hr;
          value = s.value;
          quality = s.quality;
          time = s.time;
          for_read = false;
        })
    else it

-- What an item has after a write: one that is valid and was to be written has the code of the call
-- where that failed and else its own code, and is no longer to be written.
abbrev pub after_write : ℕ → (ℕ → ℕ) → OpcItem → OpcItem
after_write master codes it =
    if not it.is_invalid && it.for_write
    then record it { hr = if failed master then master else codes it.h_server; for_write = false }
    else it

by_state-after_read :
    (all : Bool) (master : ℕ) (states : ℕ → State) (it : OpcItem)
    → by_state all master states it ≡ after_read all master states it
unfolding take_state is_read
by_state-after_read all master states it = refl

module _ {W : Type 0} (server : Server W) where
  -- Where the items have distinct client handles and the server answers the handles of the chosen
  -- ones with their states in order, `ReadItems` gives each valid item that is asked for, or each
  -- valid item in a read of all, the code, the value, the quality and the time of its own state, or
  -- no value and the quality 0 where the call or its state failed, and asks for it no more; every
  -- other item is as it was.
  pub read_items-after_read :
      (device all : Bool) (master : ℕ) (states : ℕ → State) (its : List OpcItem) (first : OpcItem)
      (more : List OpcItem) (w w' : W)
      → Distinct (λ it. it.h_client) its
      → keep (is_read all) its ≡ first ∷ more
      → server.read device (map (λ it. it.h_server) (first ∷ more)) w
        ≡ ((master, some (map (λ it. (it.h_client, states it.h_client)) (first ∷ more))), w')
      → read_items server device all its w
        ≡ some ((master, map (after_read all master states) its), w')
  unfolding read_items get_items2_read
  read_items-after_read device all master states its first more w w' distinct chosen answered =
      rw (chosen, read_items, answered, set, answered) refl
    where
      set :
          set_read_value master
            (some (map (state_of all master states) (first ∷ more)))
            (map (marked all) its)
          ≡ some (map (after_read all master states) its)
      set =
          ap
            (λ l.
              set_read_value master (some (map (state_of all master states) l))
                (map (marked all) its))
            (sym chosen)
          ∙ set_read_value-by_state all master states its distinct
          ∙ ap some (map_each (by_state-after_read all master states) its)

  abbrev by_result : ℕ → (ℕ → ℕ) → OpcItem → OpcItem
  by_result master codes it =
      if is_written it then take_written master (codes it.h_server) it else it

  by_result-after_write :
      (master : ℕ) (codes : ℕ → ℕ) (it : OpcItem)
      → by_result master codes it ≡ after_write master codes it
  unfolding take_written is_written
  by_result-after_write master codes it = refl

  code_of :
      (master : ℕ) (codes : ℕ → ℕ)
      → failed master ≡ true
      → (it : OpcItem)
      → (if is_written it then take_written master master it else it) ≡ by_result master codes it
  unfolding take_written
  code_of master codes bad it = rw bad refl

  paired-codes :
      (codes : ℕ → ℕ) (its : List OpcItem)
      → paired (map (λ it. (it.h_server, it.value)) its) (map (λ it. codes it.h_server) its)
        ≡ some (map {B = ℕ × ℕ} (λ it. (it.h_server, codes it.h_server)) its)
  unfolding paired
  paired-codes codes [] = refl
  paired-codes codes (it ∷ its) =
      ap (Option.map (◌∷◌ (it.h_server, codes it.h_server))) (paired-codes codes its)

  -- A code that is not read does not matter.
  set_write_result-by_result :
      (master : ℕ) (codes : ℕ → ℕ) (sent its : List OpcItem)
      → keep is_written its ≡ sent
      → Distinct (λ it. it.h_server) its
      → set_write_result master
          (map (λ it. (it.h_server, it.value)) sent)
          (map (λ it. codes it.h_server) sent)
          its
        ≡ some (map (by_result master codes) its)
  unfolding set_write_result results_of
  set_write_result-by_result master codes sent its chosen distinct =
      elim (Bool-cases (failed master)) [
        | inl bad ↦ rw bad (
            ap (λ rs. some (in_order (λ it. it.h_server) (take_written master) its rs))
              (all_master sent ∙ ap (map {B = ℕ × ℕ} (λ it. (it.h_server, master))) (sym chosen))
            ∙ ap some (
                in_order-each_own (λ it. it.h_server) (take_written master) is_written
                  (λ it. master) its distinct
                ∙ map_each (code_of master codes bad) its))
        | inr good ↦ rw good (
            ap (Option.map (in_order (λ it. it.h_server) (take_written master) its)) (
              paired-codes codes sent
              ∙ ap (λ l. some (map {B = ℕ × ℕ} (λ it. (it.h_server, codes it.h_server)) l))
                  (sym chosen))
            ∙ ap some (
                in_order-each_own (λ it. it.h_server) (take_written master) is_written
                  (λ it. codes it.h_server) its distinct))
      ]
    where
      all_master :
          (l : List OpcItem)
          → map {B = ℕ × ℕ}
              (λ (h, v). (h, master))
              (map {B = ℕ × Variant} (λ it. (it.h_server, it.value)) l)
            ≡ map (λ it. (it.h_server, master)) l
      all_master [] = refl
      all_master (it ∷ l) = ap (◌∷◌ (it.h_server, master)) (all_master l)

  -- Where the items have distinct server handles and the server answers with a code for each handle
  -- in order, `WriteItems` sends the handle and the value of each valid item that is to be written,
  -- which takes its own code, or that of the call where it failed, and is to be written no more;
  -- every other item is as it was.
  pub write_items-after_write :
      (master : ℕ) (codes : ℕ → ℕ) (its : List OpcItem) (first : OpcItem) (more : List OpcItem)
      (w w' : W)
      → Distinct (λ it. it.h_server) its
      → keep is_written its ≡ first ∷ more
      → server.write (map (λ it. (it.h_server, it.value)) (first ∷ more)) w
        ≡ ((master, map (λ it. codes it.h_server) (first ∷ more)), w')
      → write_items server its w ≡ some ((master, map (after_write master codes) its), w')
  unfolding write_items get_items2_write
  write_items-after_write master codes its first more w w' distinct chosen answered =
      rw (chosen, write_items, answered, set, answered) refl
    where
      set :
          set_write_result master
            (map (λ it. (it.h_server, it.value)) (first ∷ more))
            (map (λ it. codes it.h_server) (first ∷ more))
            its
          ≡ some (map (after_write master codes) its)
      set =
          set_write_result-by_result master codes (first ∷ more) its chosen distinct
          ∙ ap some (map_each (by_result-after_write master codes) its)
