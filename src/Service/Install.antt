-- ===== src/Service/Install.antt =====
-- `cmd_daemon`, `daemon_install`, `install_self` and `sudo_user_home` of src/main.rs, and
-- `install_nft` of src/capture.rs.
use netmeter.Prelude.{
  ℕ, ◌-◌, ◌^◌, true, false, List, [], ◌∷◌, ◌++◌, Option, none, some, Text, codes, ◌==◌, text_eq,
  if◌then◌else◌,
}
use netmeter.Prelude.Decimal.{parse_unsigned}
use netmeter.Prelude.Strings.{strip_suffix}
use netmeter.Capture.Ruleset.{render_ruleset}
use netmeter.Service.{
  Action, copy_file, set_mode, run_command, load_ruleset, create_dirs, write_file, Answer, io_error,
  exited, no_own_path, ok, err, Act, ◌>>=◌, ◌>>◌, done, Host, try_to, must, must_succeed,
  run_systemctl,
}

-- `INSTALL_BIN`.
abbrev pub install_bin : Text
install_bin = codes "/usr/bin/netmeter"

abbrev pub unit_path : Text
unit_path = codes "/etc/systemd/system/netmeter.service"

abbrev pub state_dir : Text
state_dir = codes "/var/lib/netmeter"

abbrev pub reload : List Text
reload = codes "daemon-reload" ∷ []

-- A command of systemctl on the service.
abbrev pub of_service : Text → List Text
of_service verb = verb ∷ codes "netmeter.service" ∷ []

abbrev pub find_user : Action
find_user = run_command (codes "id" ∷ codes "netmeter" ∷ [])

abbrev pub chown_state : Action
chown_state = run_command (codes "chown" ∷ codes "netmeter:netmeter" ∷ state_dir ∷ [])

-- `PathBuf::push` of a relative path.
unfoldable pub push : Text → Text → Text
push [] rest = rest
push (c ∷ path) rest = elim (strip_suffix (c ∷ path) b'/') [
  | none ↦ c ∷ path ++ b'/' ∷ rest
  | some dir ↦ c ∷ path ++ rest
]

module _ (h : Host) where
  abbrev pub install_from : Option Text → Act (Unit {0})
  install_from none log = (err no_own_path, log)
  install_from (some cur) log =
      (if cur == install_bin
          then done
          else must h (copy_file cur install_bin) >> must h (set_mode install_bin))
        log

  -- `install_self`.
  unfoldable pub install_self : Act (Unit {0})
  install_self = install_from h.own_path

  -- `install_nft`: any old table goes first, the new one is loaded as a transaction.
  unfoldable pub install_nft : List Text → Act (Unit {0})
  install_nft subnets =
      try_to h (
        run_command
          (codes "nft" ∷ codes "destroy" ∷ codes "table" ∷ codes "inet" ∷ codes "netmeter" ∷ []))
      >> must_succeed h (load_ruleset (render_ruleset subnets))

  -- `if let Err(e) = …`: the error is shown, and the program goes on.
  abbrev pub or_warn : Act (Unit {0}) → Act (Unit {0})
  or_warn m log = (ok tt, (m log).1)

  abbrev pub add_user : Answer → Act (Unit {0})
  add_user (exited false) =
      try_to h (
        run_command (
          codes "useradd"
          ∷ codes "-r"
          ∷ codes "-s"
          ∷ codes "/usr/sbin/nologin"
          ∷ codes "-d"
          ∷ state_dir
          ∷ codes "netmeter"
          ∷ []))
      >> done
  add_user (exited true) = done
  add_user io_error = done

  -- The user netmeter, if `id` does not find it.
  unfoldable pub ensure_user : Act (Unit {0})
  ensure_user = try_to h find_user >>= add_user

  -- `users_home`.
  unfoldable pub users_home : Text → Option Text
  users_home user = let p = codes "/home/" ++ user in if h.exists p then some p else none

  abbrev pub home_by_name : Option Text → Option Text
  home_by_name none = none
  home_by_name (some user) = users_home user

  abbrev pub home_by_entry : Option Text → Option Text
  home_by_entry none = home_by_name (h.env (codes "SUDO_USER"))
  home_by_entry (some p) = if h.exists p then some p else home_by_name (h.env (codes "SUDO_USER"))

  abbrev pub home_by_uid : Option ℕ → Option Text
  home_by_uid none = home_by_name (h.env (codes "SUDO_USER"))
  home_by_uid (some uid) = home_by_entry (h.home_of uid)

  -- `sudo_user_home`: without SUDO_UID there is none.
  unfoldable pub sudo_user_home : Option Text
  sudo_user_home = elim (h.env (codes "SUDO_UID")) [
    | none ↦ none
    | some t ↦ home_by_uid (parse_unsigned (2 ^ 32 - 1) t)
  ]

  -- The unit of the user's agent, where the home directory is known.
  unfoldable pub install_agent : Option Text → Act (Unit {0})
  install_agent none = done
  install_agent (some home) =
      try_to h (create_dirs (push home (codes ".config/systemd/user")))
      >> try_to h (
          write_file (push home (codes ".config/systemd/user/netmeter-agent.service")) h.agent_unit)
      >> done

  -- `daemon_install`.
  unfoldable pub daemon_install : List Text → Act (Unit {0})
  daemon_install subnets = do
    install_self
    or_warn (install_nft subnets)
    try_to h (create_dirs state_dir)
    ensure_user
    try_to h chown_state
    must h (write_file unit_path h.service_unit)
    install_agent sudo_user_home
    run_systemctl h reload
    run_systemctl h (of_service (codes "enable"))
    run_systemctl h (of_service (codes "restart"))

-- `DaemonOp`.
pub data DaemonOp : Type 0 where
  run start stop restart install uninstall : DaemonOp

-- `cmd_daemon`; the daemon itself is an argument.
unfoldable pub cmd_daemon : Host → Act (Unit {0}) → List Text → DaemonOp → Act (Unit {0})
cmd_daemon h daemon subnets run = daemon
cmd_daemon h daemon subnets start = run_systemctl h (of_service (codes "start"))
cmd_daemon h daemon subnets stop = run_systemctl h (of_service (codes "stop"))
cmd_daemon h daemon subnets restart = run_systemctl h (of_service (codes "restart"))
cmd_daemon h daemon subnets install = daemon_install h subnets
cmd_daemon h daemon subnets uninstall =
    run_systemctl h (codes "disable" ∷ codes "--now" ∷ codes "netmeter.service" ∷ [])
