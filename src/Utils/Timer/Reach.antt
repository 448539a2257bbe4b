-- ===== src/Utils/Timer/Reach.antt =====
-- What a `CEdpsTimer` promises in every state that its calls reach.
use edps_plc_data_acquisitio.Base.{
  ℕ, ◌≤◌, ◌≡◌, ◌⊎◌, inl, inr, ◌==◌, not, true, false, Bool, Bool-cases, refl, List, ◌∷◌, ℤ,
  pos_part, minus, is_zero, if◌then◌else◌, arith,
}
use edps_plc_data_acquisitio.Utils.Timer.{
  Queues, Timer, s_ok, is_enabled, new_timer, final_construct, final_release,
  wait_or_timer_callback, put_enabled, put_interval, get_enabled, get_interval,
}
use edps_plc_data_acquisitio.Utils.Timer.Laws.{TimerLaws}
use edps_plc_data_acquisitio.Utils.Timer.Served.{
  Own, Served, new_timer-Served, final_construct-Served, put_enabled-Served, put_interval-Served,
  callback-Served, delete_timer-Own,
}

module _ {W : Type 0} (os : Queues W) where
  -- A call of the object, or of Windows. A property is put without an error.
  pub data Call : Timer W → Timer W → Type 0 where
    constructing : {t : Timer W} → Call t (final_construct os t).1
    enabling :
        {t : Timer W} (val : ℤ) → (put_enabled os val t).0 ≡ s_ok → Call t (put_enabled os val t).1
    setting :
        {t : Timer W} (val : ℤ)
        → (put_interval os val t).0 ≡ s_ok
        → Call t (put_interval os val t).1
    expiring : {t : Timer W} → Call t (wait_or_timer_callback os t)

  -- The states of a new object in the world `w`.
  pub data Reach (w : W) : Timer W → Type 0 where
    made : (queue : ℕ) → Reach w (new_timer queue w)
    called : {t t' : Timer W} → Reach w t → Call t t' → Reach w t'

module _ {W : Type 0} {os : Queues W} (laws : TimerLaws os) where
  Call-Served :
      {others : List (ℕ × ℕ)} {t t' : Timer W}
      → Served laws others t
      → Call os t t'
      → Served laws others t'
  Call-Served {others} h (constructing {t}) = final_construct-Served laws others t h
  Call-Served {others} h (enabling {t} val e) = put_enabled-Served laws others val t h e
  Call-Served {others} h (setting {t} val e) = put_interval-Served laws others val t h e
  Call-Served {others} h (expiring {t}) = callback-Served laws others t h

  Reach-Served : {w : W} {t : Timer W} → Reach os w t → Served laws (laws.live w) t
  Reach-Served {w} (made queue) = new_timer-Served laws (laws.live w) queue w refl
  Reach-Served (called r c) = Call-Served (Reach-Served r) c

  runs_or_rests :
      (others : List (ℕ × ℕ)) (b : Bool) (period h : ℕ) (w : W)
      → Own laws others b period h w
      → laws.live w ≡ (if not b then others else (h, period) ∷ others)
  runs_or_rests others true period h w (l, r, u) = l
  runs_or_rests others false period h w (l, r) = l

  enabled_flag : (t : Timer W) → is_zero (get_enabled t) ≡ not (is_enabled t)
  unfolding get_enabled
  enabled_flag t = elim (Bool-cases (is_enabled t)) [ inl on ↦ rw on refl | inr off ↦ rw off refl ]

  -- In every state that the calls of a CEdpsTimer reach, where puts succeed: the timers of Windows
  -- that run are those of the start, and the object's own with Interval as its period where Enabled
  -- is true; Interval is -1 or at least 10.
  pub Reach-live :
      {w : W} {t : Timer W}
      → Reach os w t
      → (laws.live t.world ≡ (
          if is_zero (get_enabled t)
          then laws.live w
          else (t.timer, pos_part (get_interval t)) ∷ laws.live w))
        × ((get_interval t ≡ minus 1) ⊎ (10 ≤ pos_part (get_interval t)))
  unfolding get_interval
  Reach-live {w} {t} r =
      let h = Reach-Served r in
      (
        rw (enabled_flag t) (
            runs_or_rests (laws.live w) (is_enabled t) (pos_part t.interval) t.timer t.world h.own),
        h.range,
      )

  released :
      (others : List (ℕ × ℕ)) (b : Bool) (period : ℕ) (t : Timer W)
      → Own laws others b period t.timer t.world
      → laws.live (final_release os t).world ≡ others
  unfolding final_release
  released others true period t (l, h, u) = rw h (delete_timer-Own laws others period t (l, h, u)).0
  released others false period t (l, null) = rw timer_null l
    where
      timer_null : (t.timer == 0) ≡ true
      timer_null = ground (arith, null)

  -- From every state that the calls of a CEdpsTimer reach, where puts succeed, FinalRelease leaves
  -- the timers of the start and no other.
  pub final_release-live :
      {w : W} {t : Timer W} → Reach os w t → laws.live (final_release os t).world ≡ laws.live w
  final_release-live {w} {t} r =
      released (laws.live w) (is_enabled t) (pos_part t.interval) t (Reach-Served r).own
