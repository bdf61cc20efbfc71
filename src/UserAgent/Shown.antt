-- ===== src/UserAgent/Shown.antt =====
-- What was shown by the notifier of src/user_agent.rs over all its starts.
use netmeter.Prelude.{
  ℕ, ◌≡◌, Bool, true, false, refl, ◌∙◌, if◌then◌else◌, ◌&&◌, ◌||◌, beq_refl, not, List, [], ◌∷◌,
  Option, none, some, Text, text_eq, pair_eq, nat_eq, arith, Bool-cases,
}
use netmeter.Prelude.Int.{ℤ, pos, beq_ℤ}
use netmeter.Prelude.Float.{Float}
use netmeter.Config.{Config, effective_budget, tz_local}
use netmeter.Db.{Db}
use netmeter.Db.Time.{Calendar}
use netmeter.Db.Window.{budget_key}
use netmeter.Daemon.Budget.{crossed}
use netmeter.UserAgent.{
  Agent, Turn, Start, sentinel, message, notify, announce, check_window, check_once, run, run_all,
}

-- Every text that was shown is the message of one mark, in the order of the marks, and no mark was
-- there when its message was shown.
pub data Told : Agent → Type 0 where
  nothing : Told (record { sent = []; shown = [] })
  one_more :
      {a : Agent} (pct : ℕ) (adv key : Text)
      → sentinel (key, pct) a ≡ false
      → Told a
      → Told (notify (message pct adv key) (key, pct) a)

if-Told : (c : Bool) {a b : Agent} → Told a → Told b → Told (if c then a else b)
if-Told true a b = a
if-Told false a b = b

-- A fresh threshold is shown and marked, another one is left.
tell-Told :
    (fresh : Bool) (pct : ℕ) (adv key : Text) (a : Agent)
    → (fresh ≡ true → sentinel (key, pct) a ≡ false)
    → Told a
    → Told (if fresh then notify (message pct adv key) (key, pct) a else a)
tell-Told true pct adv key a unmarked told = one_more pct adv key (unmarked refl) told
tell-Told false pct adv key a unmarked told = told

-- The mark of 80 percent is not the one of 100 percent.
sentinel-other :
    (fresh : Bool) (body key : Text) (a : Agent)
    → sentinel (key, 100) (if fresh then notify body (key, 80) a else a) ≡ sentinel (key, 100) a
unfolding notify sentinel
sentinel-other true body key a = ground arith
sentinel-other false body key a = refl

unmarked_if_fresh : (c m : Bool) → (c && not m) ≡ true → m ≡ false
unmarked_if_fresh true true fresh = ground (arith, fresh)
unmarked_if_fresh true false fresh = refl
unmarked_if_fresh false m fresh = ground (arith, fresh)

announce-Told : (adv key : Text) (c : ℤ × ℤ) (a : Agent) → Told a → Told (announce adv key c a)
unfolding announce
announce-Told adv key (c80, c100) a told =
    let fresh80 = beq_ℤ c80 (pos 1) && not (sentinel (key, 80) a) in
    tell-Told _ 100 adv key _
      (λ fresh. sentinel-other fresh80 _ key a ∙ unmarked_if_fresh _ _ fresh)
      (tell-Told fresh80 80 adv key a (unmarked_if_fresh _ _) told)

-- From a to b, the thresholds of a window that were crossed are marked, and no others are.
pub AreMarked : Text → ℤ × ℤ → Agent → Agent → Type 0
AreMarked key c a b =
    (sentinel (key, 80) b ≡ (beq_ℤ c.0 (pos 1) || sentinel (key, 80) a))
    × (sentinel (key, 100) b ≡ (beq_ℤ c.1 (pos 1) || sentinel (key, 100) a))

announce-marks : (adv key : Text) (c : ℤ × ℤ) (a : Agent) → AreMarked key c a (announce adv key c a)
unfolding AreMarked announce notify sentinel
announce-marks adv key (c80, c100) a =
    let same = beq_refl key in
    let at80 = Bool-cases (beq_ℤ c80 (pos 1)) in
    let at100 = Bool-cases (beq_ℤ c100 (pos 1)) in
    (ground (arith, same, at80, at100), ground (arith, same, at80, at100))

module _ (f : Float) (j : Calendar) where
  check_window-Told :
      (o : Option (Text × f.Real)) (cfg : Config f.Real) (has_session : Bool) (now : ℤ) (db : Db)
      (a : Agent)
      → Told a
      → Told (check_window f j o cfg has_session now db a)
  unfolding check_window
  check_window-Told none cfg has_session now db a told = told
  check_window-Told (some (period, gb)) cfg has_session now db a told =
      if-Told (cfg.notify_on_budget && has_session) (announce-Told _ _ _ a told) told

  check_once-Told :
      (cfg : Config f.Real) (has_session : Bool) (now : ℤ) (db : Option Db) (a : Agent)
      → Told a
      → Told (check_once f j cfg has_session now db a)
  unfolding check_once
  check_once-Told cfg has_session now none a told = told
  check_once-Told cfg has_session now (some db) a told =
      check_window-Told (effective_budget f cfg) cfg has_session now db a told

  run-Told :
      (cfg : Config f.Real) (once : Bool) (ts : List Turn) (a : Agent)
      → Told a
      → Told (run f j cfg once ts a)
  unfolding run
  run-Told cfg once [] a told = told
  run-Told cfg once (t ∷ ts) a told =
      let checked = check_once-Told cfg t.has_session t.now t.db a told in
      if-Told once checked (run-Told cfg once ts _ checked)

  run_all-Told : (starts : List (Start f.Real)) (a : Agent) → Told a → Told (run_all f j starts a)
  unfolding run_all
  run_all-Told [] a told = told
  run_all-Told (s ∷ ss) a told = run_all-Told ss _ (run-Told s.cfg s.once s.turns a told)

  check_once-marks :
      (cfg : Config f.Real) (now : ℤ) (db : Db) (a : Agent) (period : Text) (gb : f.Real)
      → effective_budget f cfg ≡ some (period, gb)
      → cfg.notify_on_budget ≡ true
      → let key = budget_key j now (tz_local cfg) period in
        AreMarked key (crossed key db.budget_events) a (check_once f j cfg true now (some db) a)
  unfolding check_once check_window
  check_once-marks cfg now db a period gb budget on = rw (budget, on) (announce-marks _ _ _ a)

  -- If, at first, every text shown is the message of one mark, which was not there before, this is
  -- so after any starts of the notifier, whatever the configuration, the clock and the database of
  -- each turn, and after one more check; and if that check has a display, a budget and
  -- notifications on, it leaves a mark of 80 and of 100 percent of the window exactly where the
  -- database says that the threshold was crossed or the mark was there: each threshold of a window
  -- that was crossed is shown, and once.
  pub check_once-run_all :
      (starts : List (Start f.Real)) (cfg : Config f.Real) (now : ℤ) (db : Db) (a : Agent)
      (period : Text) (gb : f.Real)
      → Told a
      → effective_budget f cfg ≡ some (period, gb)
      → cfg.notify_on_budget ≡ true
      → let key = budget_key j now (tz_local cfg) period in
        let before = run_all f j starts a in
        let after = check_once f j cfg true now (some db) before in
        Told before × (Told after × AreMarked key (crossed key db.budget_events) before after)
  check_once-run_all starts cfg now db a period gb told budget on =
      let before = run_all-Told starts a told in
      (
        before,
        (
          check_once-Told cfg true now (some db) _ before,
          check_once-marks cfg now db _ period gb budget on,
        ),
      )
