-- ===== src/Cli.antt =====
-- `main` of src/main.rs around the commands: a pipe that the reader has closed is no error; and the
-- text of the manual page.
pub mod Command
pub mod Machine
use netmeter.Prelude.{
  ℕ, zero, suc, Bool, true, false, ◌||◌, List, [], ◌∷◌, ◌++◌, Option, none, some, Text, codes,
  length, nat_beq, ◌-◌,
}
use netmeter.Prelude.Strings.{starts_with}

-- The payload of a panic: the types that the program looks for. `system` is an I/O error with its
-- number, if it has one.
pub data Payload : Type 0 where
  static_text : Text → Payload
  owned_text : Text → Payload
  system : Option ℕ → Payload
  unknown : Payload

-- How the work ended: with a result, or in a panic.
pub data Ending {ℓ} (A : Type ℓ) : Type ℓ where
  returned : A → Ending A
  panicked : Payload → Ending A

-- `s.contains(p)`.
unfoldable pub contains : Text → Text → Bool
contains [] p = starts_with [] p
contains (c ∷ t) p = starts_with (c ∷ t) p || contains t p

-- `libc::EPIPE`.
abbrev pub epipe : ℕ
epipe = 32

abbrev pub is_broken_pipe_message : Text → Bool
is_broken_pipe_message message = contains message (codes "Broken pipe")

unfoldable pub is_broken_pipe_payload : Payload → Bool
is_broken_pipe_payload (static_text message) = is_broken_pipe_message message
is_broken_pipe_payload (owned_text message) = is_broken_pipe_message message
is_broken_pipe_payload (system none) = false
is_broken_pipe_payload (system (some n)) = nat_beq n epipe
is_broken_pipe_payload unknown = false

-- `main`, for what `run` came to and the result that stands for success.
unfoldable pub main {ℓ} : {A : Type ℓ} → A → Ending A → Ending A
main fine (returned result) = returned result
main fine (panicked payload) = elim (is_broken_pipe_payload payload) [
  | true ↦ returned fine
  | false ↦ panicked payload
]

-- The hook of `install_broken_pipe_handler`: whether the default hook reports the panic.
unfoldable pub is_reported : Payload → Bool
is_reported payload = elim (is_broken_pipe_payload payload) [ true ↦ false | false ↦ true ]

-- `s.replace(pat, new)` for a pattern that is not empty: matches from the left, without overlap.
-- The number counts the characters of the last match that are still to pass.
unfoldable pub replace_from : Text → Text → ℕ → Text → Text
replace_from pat new n [] = []
replace_from pat new (suc n) (c ∷ t) = replace_from pat new n t
replace_from pat new zero (c ∷ t) = elim (starts_with (c ∷ t) pat) [
  | true ↦ new ++ replace_from pat new (length pat - 1) t
  | false ↦ c ∷ replace_from pat new 0 t
]

abbrev pub replace : Text → Text → Text → Text
replace pat new t = replace_from pat new 0 t

-- `MAN_SUBCOMMANDS`.
abbrev pub man_subcommands : List Text
man_subcommands =
    codes "live"
    ∷ codes "show"
    ∷ codes "top"
    ∷ codes "status"
    ∷ codes "today"
    ∷ codes "config"
    ∷ codes "export"
    ∷ codes "import"
    ∷ codes "completions"
    ∷ codes "manpage"
    ∷ codes "daemon"
    ∷ codes "top-apps"
    ∷ codes "top-proc"
    ∷ codes "user-agent"
    ∷ []

-- A reference to a page of a subcommand, as clap_mangen writes it.
unfoldable pub man_reference : Text → Text
man_reference subcommand =
    codes "netmeter\\-" ++ replace (codes "-") (codes "\\-") subcommand ++ codes "(1)"

unfoldable pub normalize_with : List Text → Text → Text
normalize_with [] man = man
normalize_with (subcommand ∷ rest) man =
    normalize_with rest (replace (man_reference subcommand) (codes "netmeter " ++ subcommand) man)

-- `normalize_manpage`.
unfoldable pub normalize_manpage : Text → Text
normalize_manpage man = normalize_with man_subcommands man
