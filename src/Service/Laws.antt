-- ===== src/Service/Laws.antt =====
-- What a failed installation of the service in src/main.rs has done.
use netmeter.Prelude.{
  ◌≡◌, ◌≢◌, refl, ap, subst, true, false, List, ◌∷◌, Option, none, some, Text, codes, ◌==◌, text_eq,
  Bool-cases, inl, inr,
}
use netmeter.Service.{
  Action, copy_file, set_mode, create_dirs, write_file, Answer, io_error, exited, Failure,
  no_own_path, action_failed, Result, ok, err, Log, Act, and_then, ◌>>=◌, ◌>>◌, done, Host, try_to,
  must, must_succeed, require_io, require_success, run_systemctl, systemctl,
}
use netmeter.Service.Install.{
  install_bin, unit_path, state_dir, reload, of_service, install_self, install_nft, or_warn,
  add_user, ensure_user, sudo_user_home, install_agent, install_from, find_user, chown_state,
  daemon_install,
}

-- How a failed run ended: the own path is unknown, or the last action is the one that failed.
abbrev pub HasEnded : Host → Failure → Log → Type 0
HasEnded h no_own_path log = h.own_path ≡ none
HasEnded h (action_failed a) log =
    (before : Log) × (log ≡ a ∷ before) × (h.answer before a ≢ exited true)

err_injective : {A : Type 0} {x y : Failure} → Path (Result A) (err x) (err y) → x ≡ y
err_injective p = cc p

module _ (h : Host) where
  -- Nothing is done after a failure.
  abbrev StopsAtFailure {ℓ} : {A : Type ℓ} → Act A → Type ℓ
  StopsAtFailure {A = A} m = (log : Log) (e : Failure) → (m log).0 ≡ err e → HasEnded h e (m log).1

  bind-StopsAtFailure :
      {A B : Type 0} (m : Act A) (k : A → Act B)
      → StopsAtFailure m
      → ((a : A) → StopsAtFailure (k a))
      → StopsAtFailure (m >>= k)
  bind-StopsAtFailure {A} {B} m k p q log = by_result (m log) (p log)
    where
      by_result :
          (r : Result A × Log)
          → ((e : Failure) → r.0 ≡ err e → HasEnded h e r.1)
          → (e : Failure) → (and_then r k).0 ≡ err e
          → HasEnded h e (and_then r k).1
      by_result (ok a, log') p' e f = q a log' e f
      by_result (err x, log') p' e f = p' e (ap err (err_injective f))

  done-StopsAtFailure : StopsAtFailure done
  done-StopsAtFailure log e f = absurd cc

  or_warn-StopsAtFailure : (m : Act (Unit {0})) → StopsAtFailure (or_warn h m)
  or_warn-StopsAtFailure m log e f = absurd cc

  try_to-StopsAtFailure : (a : Action) → StopsAtFailure (try_to h a)
  unfolding try_to
  try_to-StopsAtFailure a log e f = absurd cc

  must-StopsAtFailure : (a : Action) → StopsAtFailure (must h a)
  unfolding must try_to
  must-StopsAtFailure a log e = by_answer (h.answer log a) refl
    where
      by_answer :
          (x : Answer)
          → h.answer log a ≡ x
          → (require_io h a x (a ∷ log)).0 ≡ err e
          → HasEnded h e (require_io h a x (a ∷ log)).1
      by_answer io_error p f =
          subst (λ y. HasEnded h y (a ∷ log)) (err_injective f) (log, refl, λ q. cc)
      by_answer (exited b) p f = absurd cc

  must_succeed-StopsAtFailure : (a : Action) → StopsAtFailure (must_succeed h a)
  unfolding must_succeed try_to
  must_succeed-StopsAtFailure a log e = by_answer (h.answer log a) refl
    where
      by_answer :
          (x : Answer)
          → h.answer log a ≡ x
          → (require_success h a x (a ∷ log)).0 ≡ err e
          → HasEnded h e (require_success h a x (a ∷ log)).1
      by_answer io_error p f =
          subst (λ y. HasEnded h y (a ∷ log)) (err_injective f) (log, refl, λ q. cc)
      by_answer (exited true) p f = absurd cc
      by_answer (exited false) p f =
          subst (λ y. HasEnded h y (a ∷ log)) (err_injective f) (log, refl, λ q. cc)

  install_self-StopsAtFailure : StopsAtFailure (install_self h)
  unfolding install_self
  install_self-StopsAtFailure log e = by_path h.own_path refl
    where
      by_path :
          (o : Option Text)
          → h.own_path ≡ o
          → (install_from h o log).0 ≡ err e
          → HasEnded h e (install_from h o log).1
      by_path none p f = subst (λ y. HasEnded h y log) (err_injective f) p
      by_path (some cur) p f = elim (Bool-cases (cur == install_bin)) [
        | inl same ↦ rw same (done-StopsAtFailure log e (rw same at f))
        | inr other ↦ rw other (
            bind-StopsAtFailure (must h (copy_file cur install_bin))
              (λ _. must h (set_mode install_bin)) (must-StopsAtFailure _)
              (λ _. must-StopsAtFailure _) log e (rw other at f))
      ]

  add_user-StopsAtFailure : (x : Answer) → StopsAtFailure (add_user h x)
  unfolding try_to
  add_user-StopsAtFailure io_error log e f = absurd cc
  add_user-StopsAtFailure (exited true) log e f = absurd cc
  add_user-StopsAtFailure (exited false) log e f = absurd cc

  ensure_user-StopsAtFailure : StopsAtFailure (ensure_user h)
  unfolding ensure_user
  ensure_user-StopsAtFailure =
      bind-StopsAtFailure (try_to h find_user) (add_user h) (try_to-StopsAtFailure _)
        add_user-StopsAtFailure

  install_agent-StopsAtFailure : (home : Option Text) → StopsAtFailure (install_agent h home)
  unfolding install_agent try_to
  install_agent-StopsAtFailure none log e f = absurd cc
  install_agent-StopsAtFailure (some home) log e f = absurd cc

  -- A part of the program that does so.
  abbrev Part : Type 0 → Type 0
  Part A = (m : Act A) × StopsAtFailure m

  abbrev part : {A : Type 0} (m : Act A) → StopsAtFailure m → Part A
  part m p = (m, p)

  infixr 4 ◌>>>◌
  abbrev ◌>>>◌ : {A B : Type 0} → Part A → Part B → Part B
  p >>> q = (p.0 >> q.0, bind-StopsAtFailure p.0 (λ _. q.0) p.1 (λ _. q.1))

  abbrev tried : Action → Part Answer
  tried a = (try_to h a, try_to-StopsAtFailure a)

  abbrev wanted : List Text → Part (Unit {0})
  wanted args = (run_systemctl h args, must_succeed-StopsAtFailure (systemctl args))

  -- Where the installation of the service ends with an error, either the program's own path is
  -- unknown or the error names the action that was done last, and that action did not succeed:
  -- nothing is done after a failure.
  pub daemon_install-failed :
      (subnets : List Text) (log : Log) (e : Failure)
      → (daemon_install h subnets log).0 ≡ err e
      → HasEnded h e (daemon_install h subnets log).1
  unfolding daemon_install
  daemon_install-failed subnets =
      (part (install_self h) install_self-StopsAtFailure
        >>> part (or_warn h (install_nft h subnets))
            (or_warn-StopsAtFailure (install_nft h subnets))
        >>> tried (create_dirs state_dir)
        >>> part (ensure_user h) ensure_user-StopsAtFailure
        >>> tried chown_state
        >>> part (must h (write_file unit_path h.service_unit)) (must-StopsAtFailure _)
        >>> part (install_agent h (sudo_user_home h)) (install_agent-StopsAtFailure _)
        >>> wanted reload
        >>> wanted (of_service (codes "enable"))
        >>> wanted (of_service (codes "restart"))).1
