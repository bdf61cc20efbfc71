-- ===== src/ProcCap/Recorder/Receivers.antt =====
-- The receivers of the capture thread in `launch` of src/proc_cap.rs: opened anew when the
-- interfaces have changed, with fresh addresses otherwise.
pub mod Current
pub mod Reopened
use netmeter.Prelude.{
  ℕ, ◌≡◌, refl, sym, ◌∙◌, ap, subst, Bool, true, false, ◌||◌, List, [], ◌∷◌, none, some, Map,
  lookup, IsMap, Text, map, keep, any, ◌<◌, ltb, if◌then◌else◌, ◌==◌, text_eq, text_beq_iff,
  Bool-cases, inl, inr, arith,
}
use netmeter.ProcCap.Address.{IpAddr}
use netmeter.ProcCap.Recorder.{NetworkInterface, candidates, eligible, sort_in, sort, set_changed}
use netmeter.ProcCap.Recorder.Names.{same_names-eq}

-- What `datalink::channel` gives for an interface: a receiver of frames, or none that is of use.
pub data Channel (R : Type 0) : Type 0 where
  ethernet : R → Channel R
  other failed : Channel R

abbrev pub is_ethernet : {R : Type 0} → Channel R → Bool
is_ethernet (Channel.ethernet rx) = true
is_ethernet Channel.other = false
is_ethernet Channel.failed = false

-- The open receivers: the interface's name, its addresses and the receiver's state.
abbrev pub Receivers : Type 0 → Type 0
Receivers R = Map Text (List IpAddr × R)

module _ {R : Type 0} where
  -- One candidate: kept if its channel is one of Ethernet.
  abbrev pub open_one : NetworkInterface → Channel R → Receivers R → Receivers R
  open_one ni (Channel.ethernet rx) rs = (ni.name, (ni.ips, rx)) ∷ rs
  open_one ni Channel.other rs = rs
  open_one ni Channel.failed rs = rs

  unfoldable pub open_each : (Text → Channel R) → List NetworkInterface → Receivers R
  open_each channel [] = []
  open_each channel (ni ∷ nis) = open_one ni (channel ni.name) (open_each channel nis)

  -- `open_all`.
  unfoldable pub open_all : (Text → Channel R) → List Text → List NetworkInterface → Receivers R
  open_all channel exclude nis = open_each channel (candidates exclude nis)

  abbrev pub names_of : Receivers R → List Text
  names_of [] = []
  names_of ((name, _) ∷ rs) = name ∷ names_of rs

  -- `receivers.iter_mut().find(|(n, _, _)| n == name)`, then the new addresses.
  unfoldable pub set_ips : Text → List IpAddr → Receivers R → Receivers R
  set_ips name ips [] = []
  set_ips name ips ((n, (old, rx)) ∷ rs) =
      let rest = set_ips name ips rs in
      if n == name then (n, (ips, rx)) ∷ rs else (n, (old, rx)) ∷ rest

  -- The addresses of all wanted interfaces.
  unfoldable pub refresh_ips : Map Text (List IpAddr) → Receivers R → Receivers R
  refresh_ips [] rs = rs
  refresh_ips ((name, ips) ∷ want) rs = refresh_ips want (set_ips name ips rs)

  abbrev pub is_none_open : Receivers R → Bool
  is_none_open [] = true
  is_none_open (r ∷ rs) = false

-- 15 seconds in nanoseconds, the unit of a `Duration`.
abbrev pub look_every : ℕ
look_every = 15000000000

-- `want_names`.
abbrev pub names_of_wanted : Map Text (List IpAddr) → List Text
names_of_wanted want = map (λ r. r.0) want

module _ {R : Type 0} where
  -- Whether a turn looks at the interfaces, `elapsed` nanoseconds after the last look.
  abbrev pub is_look_due : ℕ → Receivers R → Bool
  is_look_due elapsed rs = is_none_open rs || ltb look_every elapsed

  -- What a look makes of the receivers.
  unfoldable pub look :
      (Text → Channel R) → List Text → List NetworkInterface → Receivers R → Receivers R
  look channel exclude nis rs =
      let want = eligible exclude nis in
      if set_changed (names_of rs) (names_of_wanted want)
      then open_all channel exclude nis
      else refresh_ips want rs

  -- The start of a turn.
  unfoldable pub resolve :
      (Text → Channel R) → List Text → List NetworkInterface → ℕ → Receivers R → Receivers R
  resolve channel exclude nis elapsed rs =
      if is_look_due elapsed rs then look channel exclude nis rs else rs

  -- The addresses of the open interfaces.
  abbrev pub ips_of : Receivers R → Map Text (List IpAddr)
  ips_of [] = []
  ips_of ((name, (ips, rx)) ∷ rs) = (name, ips) ∷ ips_of rs
