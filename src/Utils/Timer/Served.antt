-- ===== src/Utils/Timer/Served.antt =====
-- The timers of Windows that run for a `CEdpsTimer`, in every sequence of its calls.
use mathlib.Core.Path.{subst}
use edps_plc_data_acquisitio.Base.{
  ℕ, ◌≤◌, ◌≡◌, ◌⊎◌, inl, inr, ◌==◌, not, true, false, Bool, Bool-cases, ==→eq, refl, sym, ap, ◌∙◌,
  List, ◌∷◌, ℤ, pos, negsuc, pos_part, minus, is_zero, arith,
}
use edps_plc_data_acquisitio.Utils.Timer.{
  Queues, Timer, s_ok, same_int, is_enabled, result_of, at_least_10, new_timer, delete_timer,
  create_timer, restart_timer, final_construct, wait_or_timer_callback, put_enabled, put_interval,
}
use edps_plc_data_acquisitio.Utils.Timer.Laws.{Unused, TimerLaws, without-own}

same_int-eq : (a b : ℤ) → same_int a b ≡ true → a ≡ b
same_int-eq (pos a) (pos b) e = ap pos (==→eq a b e)
same_int-eq (negsuc a) (negsuc b) e = ap negsuc (==→eq a b e)
same_int-eq (pos a) (negsuc b) e = ground arith
same_int-eq (negsuc a) (pos b) e = ground arith

module _ {W : Type 0} {os : Queues W} (laws : TimerLaws os) (others : List (ℕ × ℕ)) where
  -- The timers that run are the others, and the object's own where it is enabled.
  abbrev pub Own : Bool → (period handle : ℕ) → W → Type 0
  Own true period h w = (laws.live w ≡ (h, period) ∷ others) × ((h == 0) ≡ false) × Unused h others
  Own false period h w = (laws.live w ≡ others) × (h ≡ 0)

  pub record Served (t : Timer W) : Type 0 where
    pub range : (t.interval ≡ minus 1) ⊎ (10 ≤ pos_part t.interval)
    pub own : Own (is_enabled t) (pos_part t.interval) t.timer t.world

  Own-world :
      (b : Bool) (period h : ℕ) (w w' : W)
      → laws.live w' ≡ laws.live w
      → Own b period h w
      → Own b period h w'
  Own-world true period h w w' e (l, r, u) = (e ∙ l, r, u)
  Own-world false period h w w' e (l, r) = (e ∙ l, r)

  pub delete_timer-Own :
      (period : ℕ) (t : Timer W)
      → Own true period t.timer t.world
      → Own false period 0 (os.delete t.queue t.timer t.world)
  delete_timer-Own period t (l, _, u) =
      (laws.delete_live _ _ _ ∙ rw l (without-own t.timer period others u), refl)

  create-Own :
      (q period : ℕ) (w : W)
      → laws.live w ≡ others
      → (os.create q period w).0.0 ≡ true
      → Own true period (os.create q period w).0.1 (os.create q period w).1
  create-Own q period w l e =
      let (h, u) = laws.create_fresh q period w e in
      (
        laws.create_live q period w e ∙ ap (λ ts. ((os.create q period w).0.1, period) ∷ ts) l,
        h,
        subst (λ ts. Unused (os.create q period w).0.1 ts) l u,
      )

  record Restarted (t t' : Timer W) : Type 0 where
    own : Own (is_enabled t) (pos_part t.interval) t'.timer t'.world
    same_enabled : t'.enabled ≡ t.enabled
    same_interval : t'.interval ≡ t.interval

  created :
      (t : Timer W)
      → is_enabled t ≡ true
      → laws.live t.world ≡ others
      → (create_timer os t).0 ≡ true
      → Restarted t (create_timer os t).1
  unfolding create_timer
  created t on l done = record {
    own = rw on (create-Own t.queue (pos_part t.interval) t.world l done);
    same_enabled = refl;
    same_interval = refl;
  }

  -- `RestartTimer` with what held before of the object.
  restart_timer-Own :
      (before : Bool) (before_int : ℤ) (t : Timer W)
      → Own before (pos_part before_int) t.timer t.world
      → (restart_timer os before before_int t).0 ≡ true
      → Restarted t (restart_timer os before before_int t).1
  unfolding restart_timer delete_timer
  restart_timer-Own true before_int t own = elim (Bool-cases (is_enabled t)) [
    | inr off ↦
        rw (off, off)
          λ done. record {
            own = rw off (delete_timer-Own (pos_part before_int) t own);
            same_enabled = refl;
            same_interval = refl;
          }
    | inl on ↦ elim (Bool-cases (same_int before_int t.interval)) [
      | inl same ↦
          rw (on, same, on, same)
            λ done. record {
              own = rw on (
                  subst (λ i. Own true (pos_part i) t.timer t.world)
                    (same_int-eq before_int t.interval same) own);
              same_enabled = refl;
              same_interval = refl;
            }
      | inr other ↦
          rw (on, other, on, other)
            λ done.
              let c =
                created (delete_timer os t) on (delete_timer-Own (pos_part before_int) t own).0
                  done in
              record { own = c.own; same_enabled = c.same_enabled; same_interval = c.same_interval }
    ]
  ]
  restart_timer-Own false before_int t (l, null) = elim (Bool-cases (is_enabled t)) [
    | inl on ↦ rw on λ done. created t on l done
    | inr off ↦
        rw off λ done. record { own = rw off (l, null); same_enabled = refl; same_interval = refl }
  ]

  result_ok : (b : Bool) → result_of b ≡ s_ok → b ≡ true
  result_ok true e = refl
  result_ok false e = ground arith

  clipped : (a : ℤ) → 10 ≤ pos_part (at_least_10 a)
  clipped (pos n) = ground arith
  clipped (negsuc n) = omega arith

  Restarted-Served :
      (t t' : Timer W)
      → (t.interval ≡ minus 1) ⊎ (10 ≤ pos_part t.interval)
      → Restarted t t'
      → Served t'
  Restarted-Served t t' r h = record {
    range = subst (λ i. (i ≡ minus 1) ⊎ (10 ≤ pos_part i)) (sym h.same_interval) r;
    own = rw (h.same_enabled, h.same_interval) h.own;
  }

  pub new_timer-Served : (q : ℕ) (w : W) → laws.live w ≡ others → Served (new_timer q w)
  unfolding new_timer
  new_timer-Served q w l = record { range = inl refl; own = (l, refl) }

  pub final_construct-Served : (t : Timer W) → Served t → Served (final_construct os t).1
  unfolding final_construct
  final_construct-Served t h = elim (Bool-cases (t.queue == 0)) [
    | inl none ↦ rw none (record {
      range = h.range;
      own = Own-world _ _ _ _ _ (laws.create_queue_live t.world) h.own;
    })
    | inr some ↦ rw some h
  ]

  pub put_enabled-Served :
      (val : ℤ) (t : Timer W)
      → Served t
      → (put_enabled os val t).0 ≡ s_ok
      → Served (put_enabled os val t).1
  unfolding put_enabled
  put_enabled-Served val t h e =
      Restarted-Served (record t { enabled = not (is_zero val) }) _ h.range
        (restart_timer-Own (is_enabled t) t.interval (record t { enabled = not (is_zero val) })
          h.own (result_ok _ e))

  pub put_interval-Served :
      (val : ℤ) (t : Timer W)
      → Served t
      → (put_interval os val t).0 ≡ s_ok
      → Served (put_interval os val t).1
  unfolding put_interval
  put_interval-Served val t h e =
      Restarted-Served (record t { interval = at_least_10 val }) _ (inr (clipped val))
        (restart_timer-Own (is_enabled t) t.interval (record t { interval = at_least_10 val }) h.own
          (result_ok _ e))

  pub callback-Served : (t : Timer W) → Served t → Served (wait_or_timer_callback os t)
  unfolding wait_or_timer_callback
  callback-Served t h = record {
    range = h.range;
    own = Own-world _ _ _ _ _ (laws.raise_live t.world) h.own;
  }
