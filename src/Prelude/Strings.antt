-- ===== src/Prelude/Strings.antt =====
-- The functions of Rust's standard library on texts that the program calls, over code points.
pub mod Laws
pub mod Split
use netmeter.Prelude.{
  ℕ, ◌+◌, Bool, true, false, not, ◌&&◌, ◌||◌, get_or, List, [], ◌∷◌, ◌++◌, Option, none, some, ltb,
  leb, nat_beq, if◌then◌else◌, Text,
}

-- `s.starts_with(p)`.
unfoldable pub starts_with : Text → Text → Bool
starts_with s [] = true
starts_with [] (c ∷ p) = false
starts_with (d ∷ s) (c ∷ p) = nat_beq d c && starts_with s p

-- `s.strip_prefix(p)`.
unfoldable pub strip_prefix : Text → Text → Option Text
strip_prefix s [] = some s
strip_prefix [] (c ∷ p) = none
strip_prefix (d ∷ s) (c ∷ p) = if nat_beq d c then strip_prefix s p else none

abbrev pub prepend : ℕ → Option Text → Option Text
prepend c none = none
prepend c (some t) = some (c ∷ t)

-- `s.strip_suffix(c)` for one character.
unfoldable pub strip_suffix : Text → ℕ → Option Text
strip_suffix [] x = none
strip_suffix (c ∷ []) x = if nat_beq c x then some [] else none
strip_suffix (c ∷ d ∷ t) x = prepend c (strip_suffix (d ∷ t) x)

abbrev pub first_part : ℕ → Option (Text × Text) → Option (Text × Text)
first_part c none = none
first_part c (some (a, b)) = some (c ∷ a, b)

-- `s.split_once(c)`, and `s.find(c)` with the two slices around the place.
unfoldable pub split_once : Text → ℕ → Option (Text × Text)
split_once [] x = none
split_once (c ∷ t) x =
    let rest = split_once t x in if nat_beq c x then some ([], t) else first_part c rest

-- White space in ASCII: tab to carriage return, and the blank. Rust also takes the blanks of Unicode
-- beyond ASCII, which are not modelled.
abbrev pub is_space : ℕ → Bool
is_space c = nat_beq c 32 || (leb 9 c && leb c 13)

-- `s.split_whitespace()`: the runs without white space. The second argument is the run so far.
unfoldable pub words_from : Text → Text → List Text
words_from [] [] = []
words_from [] (w ∷ run) = (w ∷ run) ∷ []
words_from (c ∷ t) [] = words_from t (if is_space c then [] else c ∷ [])
words_from (c ∷ t) (w ∷ run) =
    let done = (w ∷ run) ∷ words_from t [] in
    let more = words_from t ((w ∷ run) ++ c ∷ []) in if is_space c then done else more

abbrev pub split_whitespace : Text → List Text
split_whitespace t = words_from t []

unfoldable pub trim_start : Text → Text
trim_start [] = []
trim_start (c ∷ t) = let rest = trim_start t in if is_space c then rest else c ∷ t

unfoldable pub is_blank : Text → Bool
is_blank [] = true
is_blank (c ∷ t) = is_space c && is_blank t

unfoldable pub trim_end : Text → Text
unfolding is_blank
trim_end [] = []
trim_end (c ∷ t) = let rest = trim_end t in if is_blank (c ∷ t) then [] else c ∷ rest

-- `s.trim()`.
abbrev pub trim : Text → Text
trim t = trim_end (trim_start t)

-- A carriage return before the line feed belongs to the line's end.
abbrev pub strip_cr : Text → Text
strip_cr run = get_or (strip_suffix run 13) run

-- `s.lines()`: the runs that a line feed ends; what follows the last one is a line if not empty.
unfoldable pub lines_from : Text → Text → List Text
lines_from [] [] = []
lines_from [] (w ∷ run) = (w ∷ run) ∷ []
lines_from (c ∷ t) run =
    let done = strip_cr run ∷ lines_from t [] in
    let more = lines_from t (run ++ c ∷ []) in if nat_beq c 10 then done else more

abbrev pub lines : Text → List Text
lines t = lines_from t []

-- `make_ascii_lowercase`.
unfoldable pub to_lower : ℕ → ℕ
to_lower c = if leb b'A' c && leb c b'Z' then c + 32 else c
