-- ===== src/ProcCap/Recorder.antt =====
-- The recorder of src/proc_cap.rs: the counters that the capture thread and the daemon share, and
-- the turns of the thread's loop. Clocks and threads are steps.
pub mod Laws
pub mod Names
pub mod Receivers
pub mod Launch
use netmeter.Prelude.{
  ℕ, zero, suc, ◌+◌, Bool, true, false, not, ◌||◌, ◌&&◌, List, [], ◌∷◌, ◌++◌, any, Option, none,
  some, Text, codes, length, if◌then◌else◌, Map, lookup, upsert, get_or, ◌==◌, nat_eq, text_eq, ltb,
  keep, map, Amount, add_at, ◌≡◌, refl, fold, arith, Eq,
}
use netmeter.Config.{glob_match}
use netmeter.ProcCap.Address.{IpAddr}
use netmeter.ProcCap.Owners.{Owners}
use netmeter.ProcCap.Account.{Cum, Pnet, Next, drain_one}

-- The shared counters: bytes received and sent of each program.
abbrev pub Shared : Type 0
Shared = Map Text (ℕ × ℕ)

abbrev pub add_pair : ℕ × ℕ → ℕ × ℕ → ℕ × ℕ
add_pair (a, b) (c, d) = (a + c, b + d)

-- The fold of the scratch counters into the shared ones, by name.
unfoldable pub fold_comms : Cum → Shared → Shared
fold_comms [] shared = shared
fold_comms ((pid, (comm, b)) ∷ cum) shared =
    fold_comms cum (upsert comm (add_pair (0, 0) b) (λ e. add_pair e b) shared)

-- The counters of the thread and of the daemon, and a receiver's state.
pub record Recorder (R : Type 0) : Type 0 where
  pub cum : Cum
  pub shared : Shared
  pub receivers : List (Text × (List IpAddr × R))

module _ {R : Type 0} where
  -- `flush`: `cum.drain()` leaves no scratch.
  unfoldable pub flush : Recorder R → Recorder R
  flush r = record r { cum = []; shared = fold_comms r.cum r.shared }

  -- `drain_deltas`: `mem::take`.
  unfoldable pub drain_deltas : Recorder R → Shared × Recorder R
  drain_deltas r = (r.shared, record r { shared = [] })

  abbrev pub locals : List (Text × (List IpAddr × R)) → List IpAddr
  locals [] = []
  locals ((name, (ips, rx)) ∷ rs) = ips ++ locals rs

  module _ (n : Pnet) (next : R → Next × R) (owners : Owners) where
    -- The loop over the receivers, which the first that fails ends.
    unfoldable pub drain_all :
        List IpAddr
        → List (Text × (List IpAddr × R))
        → Cum
        → Bool × (List (Text × (List IpAddr × R)) × Cum)
    drain_all local [] cum = (false, ([], cum))
    drain_all local ((name, (ips, rx)) ∷ rs) cum =
        let (dead, (rx', cum')) = drain_one n next owners local rx cum in
        let (dead', (rs', cum'')) = drain_all local rs cum' in
        if dead
        then (true, ((name, (ips, rx')) ∷ rs, cum'))
        else (dead', ((name, (ips, rx')) ∷ rs', cum''))

-- A network interface as pnet lists it.
pub record NetworkInterface : Type 0 where
  pub name : Text
  pub ips : List IpAddr
  pub up : Bool
  pub loopback : Bool

-- `candidates`.
unfoldable pub candidates : List Text → List NetworkInterface → List NetworkInterface
candidates exclude nis =
    keep (λ ni. not (any (λ p. glob_match p ni.name) exclude))
      (keep (λ ni. ni.up && not ni.loopback) nis)

-- `eligible`.
unfoldable pub eligible : List Text → List NetworkInterface → List (Text × List IpAddr)
eligible exclude nis = map (λ ni. (ni.name, ni.ips)) (candidates exclude nis)

-- The order of `String`, by its bytes.
abbrev pub text_leb : Text → Text → Bool
text_leb [] t = true
text_leb (c ∷ s) [] = false
text_leb (c ∷ s) (d ∷ t) = if ltb c d then true else if ltb d c then false else text_leb s t

unfoldable pub sort_in : Text → List Text → List Text
sort_in s [] = s ∷ []
sort_in s (t ∷ ts) = let rest = sort_in s ts in if text_leb s t then s ∷ t ∷ ts else t ∷ rest

-- `sort`.
unfoldable pub sort : List Text → List Text
sort [] = []
sort (s ∷ ts) = sort_in s (sort ts)

abbrev pub same_names : List Text → List Text → Bool
same_names [] [] = true
same_names [] (t ∷ ts) = false
same_names (s ∷ ss) [] = false
same_names (s ∷ ss) (t ∷ ts) = s == t && same_names ss ts

unfoldable pub set_changed : List Text → List Text → Bool
set_changed have want = not (same_names (sort have) (sort want))
