-- ===== src/Service.antt =====
-- The control of the service in src/main.rs: `cmd_daemon`, `daemon_install` and what they call.
-- Commands and the file system answer as the parameter Host says; what was done is a log.
pub mod Install
pub mod Laws
pub mod Success
use netmeter.Prelude.{ℕ, ◌≡◌, Bool, true, false, List, [], ◌∷◌, Option, none, some, Text, codes}

-- What the program asks of the machine, with the arguments that matter.
pub data Action : Type 0 where
  copy_file : Text → Text → Action
  set_mode : Text → Action
  run_command : List Text → Action
  load_ruleset : Text → Action
  create_dirs : Text → Action
  write_file : Text → Text → Action

-- How it went: an error of the system call or of the start, or the command's exit, successful or
-- not. A call of the file system that is done answers `exited true`.
pub data Answer : Type 0 where
  io_error : Answer
  exited : Bool → Answer

-- Errors of the program: the own path is unknown, or an action failed.
pub data Failure : Type 0 where
  no_own_path : Failure
  action_failed : Action → Failure

pub data Result {ℓ} (A : Type ℓ) : Type ℓ where
  ok : A → Result A
  err : Failure → Result A

-- What was done so far, the last first.
abbrev pub Log : Type 0
Log = List Action

-- A part of the program: its result and the log after it.
abbrev pub Act {ℓ} : Type ℓ → Type ℓ
Act A = Log → Result A × Log

abbrev pub and_then {ℓ κ} :
    {A : Type ℓ} {B : Type κ} → Result A × Log → (A → Act B) → Result B × Log
and_then (ok a, log) k = k a log
and_then (err e, log) k = (err e, log)

infixl 5 ◌>>=◌ ◌>>◌
abbrev pub ◌>>=◌ {ℓ κ} : {A : Type ℓ} {B : Type κ} → Act A → (A → Act B) → Act B
m >>= k = λ log. and_then (m log) k

abbrev pub ◌>>◌ {ℓ κ} : {A : Type ℓ} {B : Type κ} → Act A → Act B → Act B
m >> n = m >>= λ _. n

abbrev pub done : Act (Unit {0})
done log = (ok tt, log)

-- What the machine answers to an action after those of the log, and what it shows the program.
pub record Host : Type 0 where
  pub answer : Log → Action → Answer
  pub own_path : Option Text
  pub env : Text → Option Text
  -- the home directory of a user's number, none where there is none or it is no text
  pub home_of : ℕ → Option Text
  pub exists : Text → Bool
  pub service_unit : Text
  pub agent_unit : Text

abbrev pub systemctl : List Text → Action
systemctl args = run_command (codes "systemctl" ∷ args)

module _ (h : Host) where
  -- The action, whatever comes of it: `let _ =`, `.ok()`.
  unfoldable pub try_to : Action → Act Answer
  try_to a log = (ok (h.answer log a), a ∷ log)

  abbrev pub require_io : Action → Answer → Act (Unit {0})
  require_io a io_error log = (err (action_failed a), log)
  require_io a (exited b) log = (ok tt, log)

  abbrev pub require_success : Action → Answer → Act (Unit {0})
  require_success a (exited true) log = (ok tt, log)
  require_success a (exited false) log = (err (action_failed a), log)
  require_success a io_error log = (err (action_failed a), log)

  -- The action, where an error of the system ends the program: `?`.
  unfoldable pub must : Action → Act (Unit {0})
  must a = try_to a >>= require_io a

  -- The command, where also an unsuccessful end does.
  unfoldable pub must_succeed : Action → Act (Unit {0})
  must_succeed a = try_to a >>= require_success a

  -- `run_systemctl`.
  abbrev pub run_systemctl : List Text → Act (Unit {0})
  run_systemctl args = must_succeed (systemctl args)
