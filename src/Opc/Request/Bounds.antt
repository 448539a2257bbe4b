-- ===== src/Opc/Request/Bounds.antt =====
-- `ParseRequest` stays inside the block that it allocates, and ends.
use edps_plc_data_acquisitio.Base.{
  ℕ, zero, suc, ◌+◌, ◌≤◌, ◌<◌, ◌≡◌, refl, ◌⊎◌, inl, inr, Bool, true, false, List, [], Bytes, is_neg,
  is_zero, signed32, length, leb, arith, Bool-cases, ◌||◌, if◌then◌else◌,
}
use edps_plc_data_acquisitio.Crt.{atol}
use edps_plc_data_acquisitio.Opc.Frame.{Field, no_field, field, overrun, split_field}
use edps_plc_data_acquisitio.Opc.Frame.RoundTrip.{split_field-length}
use edps_plc_data_acquisitio.Opc.Params.{Param, Ole}
use edps_plc_data_acquisitio.Opc.Request.{
  Cursor, Scan, got, stopped, over_read, over_both, P, and_then, pure, after_entry, skip_value,
  room, look, copy_value, scan_names, scan_read, scan_write, scan_entry, scan_all, parse_request,
}

-- A step that writes only inside the block, and leaves `Q`.
data Safe {A : Type 0} (Q : A → Cursor → Type 0) : Scan A → Type 0 where
  safe : {a : A} {c : Cursor} → Q a c → Safe Q (got a c)
  safe_stop : Safe Q stopped
  safe_read : Safe Q over_read
  safe_both : Safe Q over_both

bind-Safe :
    {A B : Type 0} {Q : A → Cursor → Type 0} {R : B → Cursor → Type 0} {r : Scan A} {f : A → P B}
    → Safe Q r
    → ((a : A) (c : Cursor) → Q a c → Safe R (f a c))
    → Safe R (and_then r f)
bind-Safe (safe q) next = next _ _ q
bind-Safe safe_stop next = safe_stop
bind-Safe safe_read next = safe_read
bind-Safe safe_both next = safe_both

Field-cases :
    (f : Field)
    → (f ≡ no_field)
      ⊎ ((n : ℕ) × (f ≡ overrun n))
      ⊎ ((v : Bytes) × (rest : Bytes) × (f ≡ field v rest))
Field-cases no_field = inl refl
Field-cases (overrun n) = inr (inl (n, refl))
Field-cases (field v rest) = inr (inr (v, rest, refl))

-- The block has `size` bytes, and the text had `total` bytes when an entry began.
module _ (size total : ℕ) where
  -- Beside the text that is left, `k` bytes of the block are to spare; `n` bytes were taken.
  abbrev Slack : ℕ → ℕ → Cursor → Type 0
  Slack k n c = (c.ptr + length c.request + k ≤ size) × (length c.request + n ≤ total)

  skip_value-Safe :
      (k n : ℕ) (c : Cursor) → Slack k n c → Safe (λ _. Slack (k + 3) (n + 3)) (skip_value c)
  unfolding skip_value
  skip_value-Safe k n c h = elim (Field-cases (split_field c.request)) [
    | inl e ↦ rw (e, skip_value) safe_stop
    | inr (inl (m, e)) ↦ rw (e, skip_value) safe_read
    | inr (inr (v, rest, e)) ↦
        let long = split_field-length c.request v rest e in
        rw (e, skip_value) (safe (omega (arith, long), omega (arith, long)))
  ]

  room-Safe :
      (m k n : ℕ) (c : Cursor)
      → Slack k n c
      → c.ptr + m ≤ size
      → Safe (λ _. Slack k n) (room size m c)
  unfolding room
  room-Safe m k n c h fits = elim (Bool-cases (leb (c.ptr + m) size)) [
    | inl e ↦ rw e (safe h)
    | inr e ↦ absurd (ground arith)
  ]

  look-Safe :
      (back m k n : ℕ) (c : Cursor) → Slack k n c → Safe (λ _. Slack k n) (look size back m c)
  unfolding look
  look-Safe back m k n c h = elim (Bool-cases (leb (c.ptr + m) (size + back))) [
    | inl e ↦ rw e (safe h)
    | inr e ↦ rw e safe_read
  ]

  copy_value-Safe :
      (k n : ℕ) (c : Cursor)
      → Slack k n c
      → Safe (λ v c'. Slack (k + 3 + length v) n c') (copy_value size c)
  unfolding copy_value
  copy_value-Safe k n c h = elim (Field-cases (split_field c.request)) [
    | inl e ↦ rw (e, copy_value) safe_stop
    | inr (inl (m, e)) ↦ elim (Bool-cases (leb (c.ptr + (m + 1)) size)) [
      | inl fits ↦ rw (e, copy_value, fits) safe_read
      | inr over ↦ rw (e, copy_value, over) safe_both
    ]
    | inr (inr (v, rest, e)) ↦
        let long = split_field-length c.request v rest e in
        rw (e, copy_value)
          (bind-Safe
            (room-Safe (length v + 1) (k + 3 + length v) n (record c { request = rest })
              (omega (arith, long), omega (arith, long)) (omega (arith, long)))
            λ _ c' s. safe s)
  ]

  scan_names-Safe : (c : Cursor) → Slack 1 0 c → Safe (λ _. Slack 3 3) (scan_names size c)
  unfolding scan_names
  scan_names-Safe c h = bind-Safe (skip_value-Safe 1 0 c h) λ _ c₁ s₁.
      bind-Safe (room-Safe 4 4 3 c₁ (omega arith) (omega arith)) λ _ c₂ s₂.
        bind-Safe (copy_value-Safe 0 3 (record c₂ { ptr = c₂.ptr + 4 }) (omega arith)) λ conn c₃ s₃.
          bind-Safe
            (room-Safe 1 3 3 (record c₃ { ptr = c₃.ptr + length conn }) (omega arith) (omega arith))
            λ _ c₄ s₄.
              bind-Safe (copy_value-Safe 2 3 (record c₄ { ptr = c₄.ptr + 1 }) (omega arith))
                λ address c₅ s₅.
                  bind-Safe
                    (copy_value-Safe 4 3 (record c₅ { ptr = c₅.ptr + (length address + 1) })
                      (omega arith))
                    λ type c₆ s₆. safe (omega arith)

  scan_entry-Safe :
      (ole : Ole) (read : Bool) (l : List Param) (c : Cursor)
      → Slack 1 0 c
      → Safe (λ _. Slack 1 3) (scan_entry size ole read l c)
  unfolding scan_entry scan_read scan_write
  scan_entry-Safe ole true l c h = bind-Safe (scan_names-Safe c h) λ _ c₁ s₁.
      bind-Safe (copy_value-Safe 3 3 c₁ s₁) λ text c₂ s₂.
        positive (is_neg (signed32 (atol text)) || is_zero (signed32 (atol text))) _ c₂
          (omega arith)
    where
      positive :
          (b : Bool) (l' : List Param) (c' : Cursor)
          → Slack 1 3 c'
          → Safe (λ _. Slack 1 3) ((if b then (λ _. stopped) else pure l') c')
      positive true l' c' s = safe_stop
      positive false l' c' s = safe s
  scan_entry-Safe ole false l c h = bind-Safe (scan_names-Safe c h) λ _ c₁ s₁.
      bind-Safe (copy_value-Safe 3 3 c₁ s₁) λ text c₂ s₂.
        bind-Safe
          (skip_value-Safe 2 3 (record c₂ { ptr = c₂.ptr + (length text + 1) }) (omega arith))
          λ _ c₃ s₃. bind-Safe (look-Safe _ _ 5 6 c₃ s₃) λ _ c₄ s₄. safe (omega arith)

-- What `ParseRequest` may come to: a list, a read outside the request or the block, or a copy that
-- reads outside the request and writes outside the block.
pub data Contained : Scan (List Param) → Type 0 where
  listed : {l : List Param} {c : Cursor} → Contained (got l c)
  over_reads : Contained over_read
  over_copies : Contained over_both

after_entry-Contained :
    {Q : List Param → Cursor → Type 0} {r : Scan (List Param)} (l : List Param) (c : Cursor)
    (more : List Param → P (List Param))
    → Safe Q r
    → ((l' : List Param) (c' : Cursor) → Q l' c' → Contained (more l' c'))
    → Contained (after_entry r l c more)
after_entry-Contained l c more (safe q) next = next _ _ q
after_entry-Contained l c more safe_stop next = listed
after_entry-Contained l c more safe_read next = over_reads
after_entry-Contained l c more safe_both next = over_copies

scan_all-Contained :
    (fuel size : ℕ) (ole : Ole) (read : Bool) (l : List Param) (c : Cursor)
    → c.ptr + length c.request + 1 ≤ size
    → length c.request < fuel
    → Contained (scan_all size fuel ole read l c)
unfolding scan_all
scan_all-Contained zero size ole read l c h f = absurd (omega arith)
scan_all-Contained (suc fuel) size ole read l c h f =
    after_entry-Contained l c _ (scan_entry-Safe size (length c.request) ole read l c (omega arith))
      λ l' c' s. scan_all-Contained fuel size ole read l' c' (omega arith) (omega arith)

-- For every text of a request, read or write, `ParseRequest` ends its loop with a list of entries, or
-- breaks off where it reads outside the request or the block: whatever it copies from inside the
-- request, it writes inside the block that it allocated for the texts. Only a value whose length
-- leads past the end of the request is written outside that block.
pub parse_request-Contained :
    (ole : Ole) (read : Bool) (request : Bytes) → Contained (parse_request ole read request)
unfolding parse_request
parse_request-Contained ole read request =
    scan_all-Contained (suc (length request)) (length request + 1) ole read []
      (record { request = request; ptr = 0 }) (omega arith) (omega arith)
