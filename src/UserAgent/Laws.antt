-- ===== src/UserAgent/Laws.antt =====
-- What the notifier of src/user_agent.rs shows.
use netmeter.Prelude.{
  ℕ, ◌≡◌, refl, Bool, ◌&&◌, ◌||◌, Option, none, some, Text, ◌==◌, nat_eq, text_eq, pair_eq,
  beq_refl, arith, Bool-cases, inl, inr,
}
use netmeter.Prelude.Int.{ℤ, pos, beq_ℤ}
use netmeter.Prelude.Float.{Float}
use netmeter.Config.{Config, effective_budget}
use netmeter.Db.{Db}
use netmeter.Db.Time.{Calendar}
use netmeter.UserAgent.{Agent, sentinel, notify, announce, check_window, check_once}

-- A mark that was made is found, and so is every earlier one.
sentinel-notify :
    (body : Text) (mark other : Text × ℕ) (a : Agent)
    → sentinel other (notify body mark a) ≡ (mark == other || sentinel other a)
unfolding sentinel notify
sentinel-notify body mark other a = refl

-- A second round over the same crossings shows nothing.
announce_idem :
    (adv key : Text) (c : ℤ × ℤ) (a : Agent)
    → announce adv key c (announce adv key c a) ≡ announce adv key c a
unfolding announce
announce_idem adv key (c80, c100) a =
    ground (arith, beq_refl key, Bool-cases (beq_ℤ c80 (pos 1)), Bool-cases (beq_ℤ c100 (pos 1)))

check_window_idem :
    (f : Float) (j : Calendar) (o : Option (Text × f.Real)) (cfg : Config f.Real)
    (has_session : Bool) (now : ℤ) (db : Db) (a : Agent)
    → check_window f j o cfg has_session now db (check_window f j o cfg has_session now db a)
      ≡ check_window f j o cfg has_session now db a
unfolding check_window
check_window_idem f j none cfg has_session now db a = refl
check_window_idem f j (some (period, gb)) cfg has_session now db a =
    elim (Bool-cases (cfg.notify_on_budget && has_session)) [
      | inl on ↦ rw on (announce_idem _ _ _ a)
      | inr off ↦ rw off
    ]

-- A round of the notifier after another one with the same configuration, clock and database changes
-- nothing: each threshold of a window is shown once.
check_once_idem :
    (f : Float) (j : Calendar) (cfg : Config f.Real) (has_session : Bool) (now : ℤ) (db : Option Db)
    (a : Agent)
    → check_once f j cfg has_session now db (check_once f j cfg has_session now db a)
      ≡ check_once f j cfg has_session now db a
unfolding check_once
check_once_idem f j cfg has_session now none a = refl
check_once_idem f j cfg has_session now (some db) a =
    check_window_idem f j (effective_budget f cfg) cfg has_session now db a
