-- ===== src/Daemon/Budget/Laws.antt =====
-- What `check_budget` of src/daemon.rs records.
use netmeter.Prelude.{
  ℕ, ◌≤◌, ◌<◌, ◌≡◌, refl, ap, Bool, true, false, Option, none, some, lookup, upsert, lookup-upsert,
  get_or, or_else, Text, if◌then◌else◌, ◌==◌, text_eq, arith, beq_refl, text_beq_iff, inl, inr,
  Bool-cases, ◌↔◌, ◌⊎◌,
}
use netmeter.Prelude.Int.{ℤ, pos, leb_ℤ, beq_ℤ}
use netmeter.Prelude.Float.{Float, FloatLaws, exact_limit}
use netmeter.Config.{Config, effective_budget, tz_local}
use netmeter.Db.{Db}
use netmeter.Db.Time.{Calendar, budget_window_start}
use netmeter.Db.Window.{window_sum, used_bytes, budget_key}
use netmeter.Daemon.Budget.{
  Events, crossed, cross80, cross100, record_crossing, gib, check_period, check_budget,
}

-- The flag after a check: set if it was set, or if its threshold is reached now.
abbrev pub flag : Bool → ℤ → ℤ
flag over old = if over then (if beq_ℤ old (pos 0) then pos 1 else old) else old

-- A column of the table holds 0 or 1.
abbrev pub IsFlag : ℤ → Type 0
IsFlag c = (c ≡ pos 0) ⊎ (c ≡ pos 1)

or_else-get_or :
    (d : ℤ × ℤ) (f : ℤ × ℤ → ℤ × ℤ) (o : Option (ℤ × ℤ)) → or_else (f d) f o ≡ f (get_or o d)
or_else-get_or d f none = refl
or_else-get_or d f (some c) = refl

crossed-upsert :
    (key k : Text) (f : ℤ × ℤ → ℤ × ℤ) (events : Events)
    → crossed k (upsert key (f (pos 0, pos 0)) f events)
      ≡ (if key == k then f (crossed key events) else crossed k events)
crossed-upsert key k f events = elim (Bool-cases (key == k)) [
  | inl same ↦
      rw (lookup-upsert key k (f (pos 0, pos 0)) f events, same)
        (or_else-get_or (pos 0, pos 0) f (lookup key events))
  | inr other ↦ rw (lookup-upsert key k (f (pos 0, pos 0)) f events, other)
]

crossed-cross80 :
    (key k : Text) (events : Events)
    → crossed k (cross80 key events)
      ≡ (if key == k then (pos 1, (crossed key events).1) else crossed k events)
crossed-cross80 key k events = crossed-upsert key k (λ c. (pos 1, c.1)) events

crossed-cross100 :
    (key k : Text) (events : Events)
    → crossed k (cross100 key events) ≡ (if key == k then (pos 1, pos 1) else crossed k events)
crossed-cross100 key k events = crossed-upsert key k (λ c. (pos 1, pos 1)) events

crossed_same :
    (key k : Text) (events : Events) → (key == k) ≡ true → crossed key events ≡ crossed k events
crossed_same key k events h = ap (λ t. crossed t events) ((text_beq_iff key k).0 h)

-- Where reaching 100 percent implies reaching 80 and the 80 percent flag is 0 or 1, recording sets
-- the flags of the thresholds that are reached, keeps those that were set and leaves every other
-- window's row alone.
crossed-record_crossing :
    (over80 over100 : Bool) (key k : Text) (events : Events)
    → (over100 ≡ true → over80 ≡ true)
    → IsFlag (crossed key events).0
    → crossed k (record_crossing over80 over100 key events) ≡ (
        if key == k
        then (flag over80 (crossed key events).0, flag over100 (crossed key events).1)
        else crossed k events)
unfolding record_crossing
crossed-record_crossing true true key k events h w = ground (
  arith,
  crossed-cross80 key k events,
  crossed-cross100 key k events,
  crossed-cross100 key k (cross80 key events),
  crossed_same key k events,
)
crossed-record_crossing true false key k events h w =
    ground (arith, crossed-cross80 key k events, crossed_same key k events)
crossed-record_crossing false true key k events h w = cc (h refl)
crossed-record_crossing false false key k events h w = ground (arith, crossed_same key k events)

-- The values for which the tests are exact: a budget and a use of at most 2 ^ 53 bytes.
pub record IsExact (f : Float) (gb : f.Real) (used : ℤ) (u b : ℕ) : Type 0 where
  pub use_is : used ≡ pos u
  pub budget_is : f.trunc (f.mul gb (f.literal gib 1)) ≡ pos b
  pub use_exact : u ≤ exact_limit
  pub budget_exact : b ≤ exact_limit
  pub some_budget : 0 < b

flag_iff :
    {P : Type 0} (over : Bool) (old : ℤ)
    → IsFlag old
    → ((over ≡ true) ↔ P)
    → (flag over old ≡ pos 1) ↔ ((old ≡ pos 1) ⊎ P)
flag_iff true old h e = ((λ _. inr (e.0 refl)), (λ _. ground arith))
flag_iff false old h e = ((λ q. inl q), elim [ inl q ↦ q | inr p ↦ cc (e.1 p) ])

-- The events after a check with a budget, where the numbers are exact.
checked :
    (f : Float) (j : Calendar) (cfg : Config f.Real) (now : ℤ) (db : Db) (period : Text)
    (gb : f.Real) (u b : ℕ)
    → effective_budget f cfg ≡ some (period, gb)
    → IsExact f gb
        (used_bytes cfg.budget_basis
          (window_sum (budget_window_start j now (tz_local cfg) period) db.samples))
        u
        b
    → (check_budget f j cfg now db).budget_events
      ≡ record_crossing
          (f.le (f.literal 8 10) (f.div (f.of (pos u)) (f.of (pos b))))
          (f.le (f.literal 1 1) (f.div (f.of (pos u)) (f.of (pos b))))
          (budget_key j now (tz_local cfg) period)
          db.budget_events
unfolding check_budget check_period
checked f j cfg now db period gb u b e x =
    let positive : leb_ℤ (pos b) (pos 0) ≡ false = ground (arith, x.some_budget) in
    rw (e, check_budget, x.budget_is, check_period, positive, x.use_is)

module _ (f : Float) (laws : FloatLaws f) (j : Calendar) (cfg : Config f.Real) (now : ℤ)
    (db : Db) where
  -- The flags of a window after the check: those of the current one are set where its thresholds
  -- are reached.
  crossed-check_budget :
      (period : Text) (gb : f.Real) (u b : ℕ) (k : Text)
      → effective_budget f cfg ≡ some (period, gb)
      → IsExact f gb
          (used_bytes cfg.budget_basis
            (window_sum (budget_window_start j now (tz_local cfg) period) db.samples))
          u
          b
      → IsFlag (crossed (budget_key j now (tz_local cfg) period) db.budget_events).0
      → crossed k (check_budget f j cfg now db).budget_events ≡ (
          if budget_key j now (tz_local cfg) period == k
          then (
            flag
                (f.le (f.literal 8 10) (f.div (f.of (pos u)) (f.of (pos b))))
                (crossed (budget_key j now (tz_local cfg) period) db.budget_events).0,
            flag
                (f.le (f.literal 1 1) (f.div (f.of (pos u)) (f.of (pos b))))
                (crossed (budget_key j now (tz_local cfg) period) db.budget_events).1,
          )
          else crossed k db.budget_events)
  crossed-check_budget period gb u b k e x h80 = rw (checked f j cfg now db period gb u b e x) (
      crossed-record_crossing _ _ (budget_key j now (tz_local cfg) period) k db.budget_events
        (laws.le_trans (f.literal 8 10) (f.literal 1 1) _ laws.le-literal) h80)

  -- The 100 percent flag of the current window after the check.
  pub is_crossed :
      (period : Text) (gb : f.Real) (u b : ℕ)
      → effective_budget f cfg ≡ some (period, gb)
      → IsExact f gb
          (used_bytes cfg.budget_basis
            (window_sum (budget_window_start j now (tz_local cfg) period) db.samples))
          u
          b
      → IsFlag (crossed (budget_key j now (tz_local cfg) period) db.budget_events).0
      → IsFlag (crossed (budget_key j now (tz_local cfg) period) db.budget_events).1
      → ((crossed
            (budget_key j now (tz_local cfg) period)
            (check_budget f j cfg now db).budget_events).1
          ≡ pos 1)
        ↔ (((crossed (budget_key j now (tz_local cfg) period) db.budget_events).1 ≡ pos 1)
            ⊎ (b ≤ u))
  is_crossed period gb u b e x h80 h100 =
      let key = budget_key j now (tz_local cfg) period in
      rw (crossed-check_budget period gb u b key e x h80, beq_refl key)
        (flag_iff _ (crossed key db.budget_events).1 h100
          (laws.one-le-div u b x.use_exact x.budget_exact x.some_budget))

  -- Where floating point obeys its laws, with a budget on, with a positive budget and a use that
  -- floating point holds exactly, and flags that are 0 or 1, after a check the 100 percent flag of
  -- the current window is 1 exactly where it was 1 before or the bytes used in the window reach the
  -- budget, and the row of any other window is as it was.
  pub check_budget_lem :
      (period : Text) (gb : f.Real) (u b : ℕ) (k : Text)
      → effective_budget f cfg ≡ some (period, gb)
      → IsExact f gb
          (used_bytes cfg.budget_basis
            (window_sum (budget_window_start j now (tz_local cfg) period) db.samples))
          u
          b
      → IsFlag (crossed (budget_key j now (tz_local cfg) period) db.budget_events).0
      → IsFlag (crossed (budget_key j now (tz_local cfg) period) db.budget_events).1
      → (budget_key j now (tz_local cfg) period == k) ≡ false
      → (((crossed
              (budget_key j now (tz_local cfg) period)
              (check_budget f j cfg now db).budget_events).1
            ≡ pos 1)
          ↔ (((crossed (budget_key j now (tz_local cfg) period) db.budget_events).1 ≡ pos 1)
              ⊎ (b ≤ u)))
        × (crossed k (check_budget f j cfg now db).budget_events ≡ crossed k db.budget_events)
  check_budget_lem period gb u b k e x h80 h100 other = (
    is_crossed period gb u b e x h80 h100,
    rw (crossed-check_budget period gb u b k e x h80, other),
  )
