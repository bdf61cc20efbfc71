-- ===== src/Service/Success.antt =====
-- What an installation of the service in src/main.rs does where nothing that it depends on fails.
use netmeter.Prelude.{
  ◌≡◌, refl, ◌∙◌, ap, Bool, true, false, List, [], ◌∷◌, Option, none, some, Text, codes, ◌==◌,
  text_eq, Bool-cases, inl, inr,
}
use netmeter.Service.{
  Action, copy_file, set_mode, run_command, load_ruleset, create_dirs, write_file, Answer, io_error,
  exited, ok, Log, Act, and_then, ◌>>=◌, ◌>>◌, Host, try_to, must, must_succeed, run_systemctl,
  systemctl,
}
use netmeter.Service.Install.{
  install_bin, unit_path, state_dir, reload, of_service, install_self, install_nft, or_warn,
  add_user, ensure_user, sudo_user_home, install_agent, install_from, find_user, chown_state,
  daemon_install,
}

-- The actions whose failure ends an installation.
abbrev pub is_fatal : Action → Bool
is_fatal (copy_file from to) = true
is_fatal (set_mode path) = true
is_fatal (run_command []) = false
is_fatal (run_command (c ∷ args)) = c == codes "systemctl"
is_fatal (load_ruleset t) = false
is_fatal (create_dirs path) = false
is_fatal (write_file path t) = path == unit_path

-- The last three actions.
abbrev pub finished : Log → Log
finished log =
    systemctl (of_service (codes "restart"))
    ∷ systemctl (of_service (codes "enable"))
    ∷ systemctl reload
    ∷ log

module _ (h : Host)
    (fine : (log : Log) (a : Action) → is_fatal a ≡ true → h.answer log a ≡ exited true) where
  -- The part succeeds after these actions.
  abbrev Runs : {A : Type 0} → Act A → Log → Type 0
  Runs {A} m log = (a : A) × (after : Log) × (m log ≡ (ok a, after))

  bind-Runs :
      {A B : Type 0} (m : Act A) (k : A → Act B) (log : Log)
      → Runs m log
      → ((a : A) (after : Log) → Runs (k a) after)
      → Runs (m >>= k) log
  bind-Runs m k log (a, after, e) q =
      let (b, last, f) = q a after in (b, last, ap (λ r. and_then r k) e ∙ f)

  must-Runs : (a : Action) → is_fatal a ≡ true → (log : Log) → Runs (must h a) log
  unfolding must try_to
  must-Runs a f log = (tt, a ∷ log, rw (fine log a f))

  must_succeed_lem :
      (a : Action) → is_fatal a ≡ true → (log : Log) → must_succeed h a log ≡ (ok tt, a ∷ log)
  unfolding must_succeed try_to
  must_succeed_lem a f log = rw (fine log a f)

  install_self-Runs : (cur : Text) → h.own_path ≡ some cur → (log : Log) → Runs (install_self h) log
  unfolding install_self
  install_self-Runs cur known log = elim (Bool-cases (cur == install_bin)) [
    | inl same ↦ (tt, log, ap (λ o. install_from h o log) known ∙ rw same refl)
    | inr other ↦
        let (u, after, e) =
          bind-Runs (must h (copy_file cur install_bin)) (λ _. must h (set_mode install_bin)) log
            (must-Runs (copy_file cur install_bin) refl log)
            (λ _. must-Runs (set_mode install_bin) refl) in
        (u, after, ap (λ o. install_from h o log) known ∙ rw other e)
  ]

  add_user-Runs : (x : Answer) (log : Log) → Runs (add_user h x) log
  unfolding try_to
  add_user-Runs io_error log = (tt, log, refl)
  add_user-Runs (exited true) log = (tt, log, refl)
  add_user-Runs (exited false) log = (tt, _, refl)

  ensure_user-Runs : (log : Log) → Runs (ensure_user h) log
  unfolding ensure_user try_to
  ensure_user-Runs log = add_user-Runs (h.answer log find_user) (find_user ∷ log)

  install_agent-Runs : (home : Option Text) (log : Log) → Runs (install_agent h home) log
  unfolding install_agent try_to
  install_agent-Runs none log = (tt, log, refl)
  install_agent-Runs (some home) log = (tt, _, refl)

  -- Whatever a part that runs adds to the log, the rest ends as it does.
  skip :
      {A : Type 0} (m : Act A) (k : A → Act (Unit {0})) (log : Log)
      → Runs m log
      → ((a : A) (after : Log) → (before : Log) × (k a after ≡ (ok tt, finished before)))
      → (before : Log) × ((m >>= k) log ≡ (ok tt, finished before))
  skip m k log (a, after, e) q =
      let (before, f) = q a after in (before, ap (λ r. and_then r k) e ∙ f)

  started_service :
      (log : Log)
      → (run_systemctl h reload
            >> (run_systemctl h (of_service (codes "enable"))
                >> run_systemctl h (of_service (codes "restart"))))
          log
        ≡ (ok tt, finished log)
  started_service log =
      rw
        (
          must_succeed_lem (systemctl reload) refl log,
          must_succeed_lem (systemctl (of_service (codes "enable"))) refl _,
          must_succeed_lem (systemctl (of_service (codes "restart"))) refl _,
        )
        refl

  -- If the own path is known, and the copies, the setting of permissions, the writing of the
  -- service's unit and systemctl succeed, then the installation succeeds, whatever nft, id,
  -- useradd, chown and the user's directories answer, and its last three actions are the reload,
  -- the enabling and the restart, in this order.
  pub daemon_install-succeeds :
      (cur : Text) (subnets : List Text) (log : Log)
      → h.own_path ≡ some cur
      → (before : Log) × (daemon_install h subnets log ≡ (ok tt, finished before))
  unfolding daemon_install
  daemon_install-succeeds cur subnets log known =
      skip (install_self h) _ log (install_self-Runs cur known log) λ _ l1.
        skip (or_warn h (install_nft h subnets)) _ l1 (tt, _, refl)
          λ _ l2.
            skip (try_to h (create_dirs state_dir)) _ l2 (unfold try_to in (_, _, refl)) λ _ l3.
              skip (ensure_user h) _ l3 (ensure_user-Runs l3) λ _ l4.
                skip (try_to h chown_state) _ l4 (unfold try_to in (_, _, refl)) λ _ l5.
                  skip (must h (write_file unit_path h.service_unit)) _ l5 (must-Runs _ refl l5)
                    λ _ l6.
                      skip (install_agent h (sudo_user_home h)) _ l6 (install_agent-Runs _ l6)
                        λ _ l7. (l7, started_service l7)
