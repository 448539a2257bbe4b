-- ===== src/Utils/Timer/Enable.antt =====
-- `put_Enabled` of an object that does not run: the timer that it starts, or that Windows refuses.
use edps_plc_data_acquisitio.Base.{
  ℕ, zero, suc, ◌%◌, ◌^◌, ◌≤◌, ◌≡◌, not, true, false, refl, ℤ, pos, negsuc, pos_part, minus,
  is_zero, arith,
}
use edps_plc_data_acquisitio.Utils.Timer.{
  Queues, Timer, s_ok, e_fail, same_int, is_positive, is_enabled, result_of, create_timer,
  restart_timer, wait_or_timer_callback, put_enabled, get_enabled, get_hits_count,
}
use edps_plc_data_acquisitio.Utils.Timer.Laws.{TimerLaws}

same_int_refl : (a : ℤ) → same_int a a ≡ true
same_int_refl (pos n) = ground arith
same_int_refl (negsuc n) = ground arith

positive : (a : ℤ) → 10 ≤ pos_part a → is_positive a ≡ true
positive (pos n) l = ground arith
positive (negsuc n) l = absurd (omega arith)

module _ {W : Type 0} (os : Queues W) where
  restart_on :
      (i : ℤ) (t : Timer W) → is_enabled t ≡ true → restart_timer os false i t ≡ create_timer os t
  unfolding restart_timer
  restart_on i t on = rw on refl

  restart_kept :
      (t : Timer W) → is_enabled t ≡ true → restart_timer os true t.interval t ≡ (true, t)
  unfolding restart_timer
  restart_kept t on = rw (on, same_int_refl t.interval, on, same_int_refl t.interval) refl

  abbrev put : ℤ → Timer W → Timer W
  put val t = record t { enabled = not (is_zero val) }

  module _ (val : ℤ) (t : Timer W) (nonzero : is_zero val ≡ false)
      (range : 10 ≤ pos_part t.interval) where
    is_on : is_enabled (put val t) ≡ true
    is_on = rw (nonzero, positive t.interval range) refl

    put_enabled_starts :
        is_enabled t ≡ false
        → put_enabled os val t
          ≡ (result_of (create_timer os (put val t)).0, (create_timer os (put val t)).1)
    unfolding put_enabled
    put_enabled_starts off = rw (off, restart_on t.interval (put val t) is_on) refl

    put_enabled_again : put_enabled os val (put val t) ≡ (s_ok, put val t)
    unfolding put_enabled
    put_enabled_again = rw (is_on, restart_kept (put val t) is_on) refl

module _ {W : Type 0} {os : Queues W} (laws : TimerLaws os) where
  -- Where Windows refuses a timer to an object that is to be enabled, put_Enabled fails, but then
  -- Enabled is true, no timer was added, and putting the same value again reports success and
  -- changes nothing.
  pub put_enabled_refused :
      (val : ℤ) (t : Timer W)
      → is_enabled t ≡ false
      → is_zero val ≡ false
      → 10 ≤ pos_part t.interval
      → (os.create t.queue (pos_part t.interval) t.world).0.0 ≡ false
      → ((put_enabled os val t).0 ≡ e_fail)
        × (get_enabled (put_enabled os val t).1 ≡ minus 1)
        × (laws.live (put_enabled os val t).1.world ≡ laws.live t.world)
        × (put_enabled os val (put_enabled os val t).1 ≡ (s_ok, (put_enabled os val t).1))
  unfolding create_timer get_enabled
  put_enabled_refused val t off nonzero range refused =
      rw (put_enabled_starts os val t nonzero range off, refused, is_on os val t nonzero range)
        (
          refl,
          refl,
          laws.create_fails t.queue (pos_part t.interval) t.world refused,
          put_enabled_again os val (create_timer os (put os val t)).1 nonzero range,
        )

  -- `WaitOrTimerCallback` so many times.
  abbrev pub expired : ℕ → Timer W → Timer W
  expired zero t = t
  expired (suc n) t = wait_or_timer_callback os (expired n t)

  counted : (n : ℕ) (t : Timer W) → t.heat_count ≡ 0 → (expired n t).heat_count ≡ n % 2 ^ 32
  unfolding wait_or_timer_callback
  counted zero t e = e
  counted (suc n) t e = omega (arith, counted n t e)

  -- Putting a true Enabled on an object that does not run and has an interval of at least 10 starts
  -- the count at 0: after n expiries HitsCount is n modulo 2^32.
  pub put_enabled-hits :
      (val : ℤ) (t : Timer W) (n : ℕ)
      → is_enabled t ≡ false
      → is_zero val ≡ false
      → 10 ≤ pos_part t.interval
      → get_hits_count (expired n (put_enabled os val t).1) ≡ n % 2 ^ 32
  unfolding create_timer get_hits_count
  put_enabled-hits val t n off nonzero range =
      rw (put_enabled_starts os val t nonzero range off)
        (counted n (create_timer os (put os val t)).1 refl)
