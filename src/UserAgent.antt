-- ===== src/UserAgent.antt =====
-- src/user_agent.rs: the notifier of a user's session. The sentinel files are the list of (key,
-- percent) that were marked; whether a session has a display, and the clock, are arguments.
pub mod Laws
pub mod Shown
use netmeter.Prelude.{
  ℕ, Bool, true, false, not, ◌&&◌, ◌||◌, List, [], ◌∷◌, ◌++◌, any, Option, none, some, Text, codes,
  if◌then◌else◌, ◌==◌, nat_eq, text_eq, pair_eq,
}
use netmeter.Prelude.Int.{ℤ, pos, beq_ℤ}
use netmeter.Prelude.Decimal.{print_nat}
use netmeter.Prelude.Float.{Float}
use netmeter.Config.{Config, effective_budget, tz_local}
use netmeter.Db.{Db}
use netmeter.Db.Time.{Calendar}
use netmeter.Db.Window.{budget_key, period_adverb}
use netmeter.Daemon.Budget.{crossed}

pub record Agent : Type 0 where
  pub sent : List (Text × ℕ)
  pub shown : List Text

-- `sentinel`: the file `budget-{month}-{pct}.sent` is there.
unfoldable pub sentinel : Text × ℕ → Agent → Bool
sentinel mark a = any (λ m. m == mark) a.sent

-- The body of a notification.
unfoldable pub message : ℕ → Text → Text → Text
message pct adv key =
    codes "NetMeter: "
    ++ (print_nat pct ++ (codes "% of " ++ (adv ++ (codes " budget used (" ++ (key ++ codes ")")))))

-- `notify`, then `mark_sent`.
unfoldable pub notify : Text → Text × ℕ → Agent → Agent
notify body mark a = record { sent = mark ∷ a.sent; shown = a.shown ++ body ∷ [] }

-- The two tests: a threshold that was crossed and has no sentinel is shown. Both sentinels are
-- read first.
unfoldable pub announce : Text → Text → ℤ × ℤ → Agent → Agent
unfolding notify sentinel
announce adv key (c80, c100) a =
    let fresh80 = beq_ℤ c80 (pos 1) && not (sentinel (key, 80) a) in
    let fresh100 = beq_ℤ c100 (pos 1) && not (sentinel (key, 100) a) in
    let b = if fresh80 then notify (message 80 adv key) (key, 80) a else a in
    if fresh100 then notify (message 100 adv key) (key, 100) b else b

module _ (f : Float) (j : Calendar) where
  -- The check once the budget is known; without one nothing happens.
  unfoldable pub check_window :
      Option (Text × f.Real) → Config f.Real → Bool → ℤ → Db → Agent → Agent
  check_window none cfg has_session now db a = a
  check_window (some (period, gb)) cfg has_session now db a =
      let key = budget_key j now (tz_local cfg) period in
      let told = announce (period_adverb period) key (crossed key db.budget_events) a in
      if cfg.notify_on_budget && has_session then told else a

  -- `check_once`; the database is none where it cannot be opened.
  unfoldable pub check_once : Config f.Real → Bool → ℤ → Option Db → Agent → Agent
  check_once cfg has_session now none a = a
  check_once cfg has_session now (some db) a =
      check_window (effective_budget f cfg) cfg has_session now db a

-- What a turn of the loop meets: whether the session has a display, the clock, and the database.
pub record Turn : Type 0 where
  pub has_session : Bool
  pub now : ℤ
  pub db : Option Db

-- A start of the notifier: its configuration, the flag `once`, and the turns until it is stopped.
pub record Start (R : Type 0) : Type 0 where
  pub cfg : Config R
  pub once : Bool
  pub turns : List Turn

module _ (f : Float) (j : Calendar) where
  -- `run`: a check, and without `once` a pause and the next one.
  unfoldable pub run : Config f.Real → Bool → List Turn → Agent → Agent
  run cfg once [] a = a
  run cfg once (t ∷ ts) a =
      let b = check_once f j cfg t.has_session t.now t.db a in
      let rest = run cfg once ts b in if once then b else rest

  -- The sentinel files stay from one start to the next.
  unfoldable pub run_all : List (Start f.Real) → Agent → Agent
  run_all [] a = a
  run_all (s ∷ ss) a = run_all ss (run s.cfg s.once s.turns a)
