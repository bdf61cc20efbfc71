-- ===== src/Live/Budget.antt =====
-- The colour of the budget's gauge in the dashboard of src/live.rs, beside the flags that the daemon
-- of src/daemon.rs keeps.
use netmeter.Prelude.{
  ℕ, ◌%◌, ◌≡◌, refl, ap, ◌∙◌, sym, Bool, true, false, some, Text, leb, arith, inl, inr, Bool-cases,
  ◌↔◌, nat_beq, text_eq,
}
use netmeter.Prelude.Int.{ℤ, pos}
use netmeter.Prelude.Float.{Float, FloatLaws, Printing, PercentLaws, word_limit}
use netmeter.Config.{Config, effective_budget, tz_local}
use netmeter.Db.{Db}
use netmeter.Db.Time.{Calendar, budget_window_start}
use netmeter.Db.Window.{window_sum, used_bytes, budget_key}
use netmeter.Daemon.Budget.{crossed, check_budget, gib}
use netmeter.Daemon.Budget.Laws.{IsFlag, IsExact, is_crossed}
use netmeter.Fmt.{clamp}
use netmeter.Live.{Live, refresh, query_budget}
use netmeter.Live.Texts.{Colour, Strip, month_strip, budget_frac, colour_of}

abbrev red_colour : Colour → Bool
red_colour Colour.red = true
red_colour Colour.yellow = false
red_colour Colour.green = false

-- The strip is a gauge in red.
unfoldable pub is_red : Strip → Bool
is_red (Strip.gauge title pct colour) = red_colour colour
is_red (Strip.line text) = false

module _ (f : Float) (p : Printing f) (laws : PercentLaws f) where
  -- Cutting off to 0 and 1 does not change whether a hundred percent are reached.
  percent-clamp :
      (x : f.Real)
      → leb 100 (f.trunc_u64 (f.mul (clamp f p x) (f.literal 100 1))) ≡ f.le (f.literal 1 1) x
  unfolding clamp
  percent-clamp x = elim (Bool-cases (f.lt x (f.literal 0 1))) [
    | inl low ↦ rw low (
        laws.hundredfold (f.literal 0 1) laws.lt-zero_irrefl laws.one-lt-zero
        ∙ laws.one-le-zero
        ∙ sym (laws.negative x low))
    | inr high ↦ rw high (elim (Bool-cases (f.lt (f.literal 1 1) x)) [
      | inl above ↦ rw above (
          laws.hundredfold (f.literal 1 1) laws.one-lt-zero laws.one-lt-one
          ∙ laws.one-le-one
          ∙ sym (laws.above_one x above))
      | inr below ↦ rw below (laws.hundredfold x high below)
    ])
  ]

  red_colour-colour_of : (pct : ℕ) → red_colour (colour_of f p pct) ≡ leb 100 pct
  red_colour-colour_of pct = elim (Bool-cases (leb 100 pct)) [
    | inl full ↦ rw full refl
    | inr left ↦
        rw left
          (elim (Bool-cases (leb 80 pct)) [ inl warn ↦ rw warn refl | inr calm ↦ rw calm refl ])
  ]

  -- With a share that is not negative, the strip is red where the share is one or more.
  is_red-month_strip :
      (cfg : Config f.Real) (s : Live) (period : Text) (gb : f.Real)
      → effective_budget f cfg ≡ some (period, gb)
      → f.le (f.literal 0 1) (budget_frac f p (some (period, gb)) s.month_used) ≡ true
      → is_red (month_strip f p cfg s)
        ≡ f.le (f.literal 1 1) (budget_frac f p (some (period, gb)) s.month_used)
  unfolding month_strip is_red
  is_red-month_strip cfg s period gb budget positive =
      rw (budget, positive) (red_colour-colour_of _ ∙ percent-clamp _)

module _ (f : Float) (laws : FloatLaws f) (j : Calendar) (cfg : Config f.Real) (now : ℤ)
    (db : Db) where
  month_used-refresh :
      (s : Live) (period : Text) (gb : f.Real)
      → s.tick_n % 5 ≡ 1
      → effective_budget f cfg ≡ some (period, gb)
      → (refresh f j cfg now (some db) s).month_used
        ≡ used_bytes cfg.budget_basis
            (window_sum (budget_window_start j now (tz_local cfg) period) db.samples)
  unfolding refresh query_budget
  month_used-refresh s period gb fifth budget =
      let now_read : nat_beq (s.tick_n % 5) 1 ≡ true = ground (arith, fifth) in
      rw (now_read, budget) refl

  -- With a positive budget of a whole number of bytes and a use that floating point holds exactly,
  -- an 80 percent flag of 0 or 1 and no 100 percent flag yet, where floating point obeys its laws,
  -- the dashboard's strip, at a turn that reads the database, is a gauge in red exactly where the
  -- daemon's check of the same database at the same time sets the 100 percent flag of the current
  -- window.
  pub is_red-crossed :
      (p : Printing f) (percent : PercentLaws f) (s : Live) (period : Text) (gb : f.Real) (u b : ℕ)
      → s.tick_n % 5 ≡ 1
      → effective_budget f cfg ≡ some (period, gb)
      → f.mul gb (f.literal gib 1) ≡ f.of (pos b)
      → IsExact f gb
          (used_bytes cfg.budget_basis
            (window_sum (budget_window_start j now (tz_local cfg) period) db.samples))
          u
          b
      → IsFlag (crossed (budget_key j now (tz_local cfg) period) db.budget_events).0
      → (crossed (budget_key j now (tz_local cfg) period) db.budget_events).1 ≡ pos 0
      → (is_red (month_strip f p cfg (refresh f j cfg now (some db) s)) ≡ true) ↔ (
          (crossed
            (budget_key j now (tz_local cfg) period)
            (check_budget f j cfg now db).budget_events).1
          ≡ pos 1)
  unfolding budget_frac
  is_red-crossed p percent s period gb u b fifth budget whole x h80 fresh =
      let frac = f.div (f.of (pos u)) (f.of (pos b)) in
      let shown = refresh f j cfg now (some db) s in
      let share : budget_frac f p (some (period, gb)) shown.month_used ≡ frac =
        rw (month_used-refresh s period gb fifth budget, x.use_is, budget_frac, whole) refl in
      let positive : f.le (f.literal 0 1) frac ≡ true = rw (percent.literal_zero) (
        laws.div_nonneg (f.of (pos u)) b (laws.of_mono 0 u (omega arith))
          (laws.of_mono u word_limit (omega (arith, x.use_exact))) x.some_budget
          (omega (arith, x.budget_exact))) in
      let red : is_red (month_strip f p cfg shown) ≡ f.le (f.literal 1 1) frac =
        is_red-month_strip f p percent cfg shown period gb budget (rw share positive)
        ∙ ap (f.le (f.literal 1 1)) share in
      let full = laws.one-le-div u b x.use_exact x.budget_exact x.some_budget in
      let crosses = is_crossed f laws j cfg now db period gb u b budget x h80 (inl fresh) in
      (
        (λ r. crosses.1 (inr (full.0 (sym red ∙ r)))),
        (λ c. elim (crosses.0 c) [
          | inl before ↦ ground (arith, before, fresh)
          | inr over ↦ red ∙ full.1 over
        ]),
      )
