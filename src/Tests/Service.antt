-- ===== src/Tests/Service.antt =====
-- The theorems on the control of the service in src/main.rs at concrete inputs.
use netmeter.Prelude.{◌≡◌, refl, true, false, [], none, some, Text, codes, text_eq}
use netmeter.Service.{
  Action, copy_file, set_mode, run_command, create_dirs, write_file, must, try_to, load_ruleset,
  Answer, io_error, exited, action_failed, ok, Log, Host,
}
use netmeter.Service.Install.{install_bin, install_self, daemon_install}
use netmeter.Service.Laws.{HasEnded, daemon_install-failed}
use netmeter.Service.Success.{is_fatal, finished, daemon_install-succeeds}

abbrev own_file : Text
own_file = codes "/home/ann/netmeter"

-- All goes well but for nft, which does not take the ruleset.
abbrev answers : Action → Answer
answers (load_ruleset t) = exited false
answers _ = exited true

-- The copy is refused.
abbrev refuses : Action → Answer
refuses (copy_file from to) = io_error
refuses _ = exited true

abbrev machine : (Action → Answer) → Host
machine f = record {
  answer = λ log a. f a;
  own_path = some own_file;
  env = λ name. none;
  home_of = λ uid. none;
  exists = λ path. false;
  service_unit = codes "[Service]";
  agent_unit = codes "[Service]";
}

abbrev copying : Action
copying = copy_file own_file install_bin

daemon_install-failed_example :
    HasEnded (machine refuses) (action_failed copying) (daemon_install (machine refuses) [] []).1
unfolding daemon_install install_self must try_to
daemon_install-failed_example =
    daemon_install-failed (machine refuses) [] [] (action_failed copying) refl

fatal_answers : (log : Log) (a : Action) → is_fatal a ≡ true → answers a ≡ exited true
fatal_answers log (copy_file from to) f = refl
fatal_answers log (set_mode path) f = refl
fatal_answers log (run_command args) f = refl
fatal_answers log (load_ruleset t) f = absurd cc
fatal_answers log (create_dirs path) f = refl
fatal_answers log (write_file path t) f = refl

daemon_install-succeeds_example :
    (before : Log) × (daemon_install (machine answers) [] [] ≡ (ok tt, finished before))
daemon_install-succeeds_example =
    daemon_install-succeeds (machine answers) fatal_answers own_file [] [] refl
