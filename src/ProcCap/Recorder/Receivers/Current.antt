-- ===== src/ProcCap/Recorder/Receivers/Current.antt =====
-- After a look of the capture thread of src/proc_cap.rs at the interfaces, the open receivers have
-- the current addresses.
use netmeter.Prelude.{
  ℕ, ◌≡◌, refl, sym, ◌∙◌, ap, subst, Bool, true, false, ◌||◌, List, [], ◌∷◌, none, some, Map,
  lookup, IsMap, Text, map, keep, any, ◌<◌, ltb, if◌then◌else◌, ◌==◌, text_eq, text_beq_iff,
  Bool-cases, inl, inr, arith,
}
use netmeter.ProcCap.Address.{IpAddr}
use netmeter.ProcCap.Recorder.{NetworkInterface, candidates, eligible, sort_in, sort, set_changed}
use netmeter.ProcCap.Recorder.Names.{same_names-eq}
use netmeter.ProcCap.Recorder.Receivers.{
  Channel, Receivers, is_ethernet, open_one, open_each, open_all, names_of, names_of_wanted,
  set_ips, refresh_ips, is_none_open, look_every, look, resolve, ips_of,
}

abbrev pub with_ips : NetworkInterface → Text × List IpAddr
with_ips ni = (ni.name, ni.ips)

-- Sorting keeps what is in a list.
any-sort_in :
    (p : Text → Bool) (s : Text) (xs : List Text) → any p (sort_in s xs) ≡ (p s || any p xs)
unfolding sort_in
any-sort_in p s [] = refl
any-sort_in p s (x ∷ xs) = ground (arith, any-sort_in p s xs)

any-sort : (p : Text → Bool) (xs : List Text) → any p (sort xs) ≡ any p xs
unfolding sort
any-sort p [] = refl
any-sort p (x ∷ xs) = any-sort_in p x (sort xs) ∙ ap (λ b. p x || b) (any-sort p xs)

unchanged_names : (have want : List Text) → set_changed have want ≡ false → sort have ≡ sort want
unfolding set_changed
unchanged_names have want h = same_names-eq (sort have) (sort want) (ground (arith, h))

lookup-any :
    (name : Text) (ips : List IpAddr) (want : Map Text (List IpAddr))
    → lookup name want ≡ some ips
    → any (λ n. n == name) (names_of_wanted want) ≡ true
unfolding lookup
lookup-any name ips [] h = absurd cc
lookup-any name ips ((m, old) ∷ want) h = elim (Bool-cases (m == name)) [
  | inl same ↦ rw same refl
  | inr differs ↦ rw differs (lookup-any name ips want (rw differs at h))
]

module _ {R : Type 0} where
  lookup-set_ips :
      (name n : Text) (ips : List IpAddr) (rs : Receivers R)
      → (n == name) ≡ false
      → lookup name (ips_of (set_ips n ips rs)) ≡ lookup name (ips_of rs)
  unfolding set_ips lookup
  lookup-set_ips name n ips [] h = refl
  lookup-set_ips name n ips ((m, (old, rx)) ∷ rs) h = elim (Bool-cases (m == n)) [
    | inl same ↦
        let apart : (m == name) ≡ false =
          subst (λ x. (x == name) ≡ false) (sym ((text_beq_iff m n).0 same)) h in
        rw (same, apart) refl
    | inr differs ↦ rw differs (elim (Bool-cases (m == name)) [
      | inl here ↦ rw here refl
      | inr later ↦ rw later (lookup-set_ips name n ips rs h)
    ])
  ]

  -- Whether an interface is open.
  abbrev IsOpen : Text → Receivers R → Type 0
  IsOpen name rs = (old : List IpAddr) × (lookup name (ips_of rs) ≡ some old)

  lookup-set_ips_self :
      (name : Text) (ips : List IpAddr) (rs : Receivers R)
      → IsOpen name rs
      → lookup name (ips_of (set_ips name ips rs)) ≡ some ips
  unfolding set_ips lookup
  lookup-set_ips_self name ips [] h = absurd cc
  lookup-set_ips_self name ips ((m, (old, rx)) ∷ rs) h = elim (Bool-cases (m == name)) [
    | inl same ↦ rw (same, same) refl
    | inr differs ↦ rw (differs, differs) (lookup-set_ips_self name ips rs (h.0, rw differs at h.1))
  ]

  refresh_ips-other :
      (name : Text) (want : Map Text (List IpAddr)) (rs : Receivers R)
      → lookup name want ≡ none
      → lookup name (ips_of (refresh_ips want rs)) ≡ lookup name (ips_of rs)
  unfolding refresh_ips lookup
  refresh_ips-other name [] rs h = refl
  refresh_ips-other name ((n, ips) ∷ want) rs h = elim (Bool-cases (n == name)) [
    | inl same ↦ absurd cc (rw same at h)
    | inr differs ↦
        refresh_ips-other name want (set_ips n ips rs) (rw differs at h)
        ∙ lookup-set_ips name n ips rs differs
  ]

  refresh_ips_lem :
      (name : Text) (ips : List IpAddr) (want : Map Text (List IpAddr)) (rs : Receivers R)
      → IsMap want
      → lookup name want ≡ some ips
      → IsOpen name rs
      → lookup name (ips_of (refresh_ips want rs)) ≡ some ips
  unfolding refresh_ips lookup
  refresh_ips_lem name ips [] rs m h o = absurd cc
  refresh_ips_lem name ips ((n, new) ∷ want) rs m h o = elim (Bool-cases (n == name)) [
    | inl same ↦
        let is_name : n ≡ name = (text_beq_iff n name).0 same in
        let is_ips : some new ≡ some ips = rw same at h in
        let none_later : lookup name want ≡ none = subst (λ x. lookup x want ≡ none) is_name m.0 in
        refresh_ips-other name want (set_ips n new rs) none_later
        ∙ ap (λ x. lookup name (ips_of (set_ips x new rs))) is_name
        ∙ lookup-set_ips_self name new rs o
        ∙ is_ips
    | inr differs ↦
        refresh_ips_lem name ips want (set_ips n new rs) m.1 (rw differs at h)
          (o.0, lookup-set_ips name n new rs differs ∙ o.1)
  ]

  any-IsOpen :
      (name : Text) (rs : Receivers R) → any (λ n. n == name) (names_of rs) ≡ true → IsOpen name rs
  unfolding lookup
  any-IsOpen name [] h = absurd cc
  any-IsOpen name ((m, (old, rx)) ∷ rs) h = elim (Bool-cases (m == name)) [
    | inl same ↦ (old, rw same refl)
    | inr differs ↦ let (ips, e) = any-IsOpen name rs (rw differs at h) in (ips, rw differs e)
  ]

  ips_of-open_one :
      (ni : NetworkInterface) (c : Channel R) (rs : Receivers R)
      → ips_of (open_one ni c rs) ≡ (if is_ethernet c then with_ips ni ∷ ips_of rs else ips_of rs)
  ips_of-open_one ni (Channel.ethernet rx) rs = refl
  ips_of-open_one ni Channel.other rs = refl
  ips_of-open_one ni Channel.failed rs = refl

  pub names_of-ips_of : (rs : Receivers R) → names_of rs ≡ map (λ r. r.0) (ips_of rs)
  names_of-ips_of [] = refl
  names_of-ips_of ((n, (ips, rx)) ∷ rs) = ap (λ ns. n ∷ ns) (names_of-ips_of rs)

  pub ips_of-open_each :
      (channel : Text → Channel R) (nis : List NetworkInterface)
      → ips_of (open_each channel nis)
        ≡ map with_ips (keep (λ ni. is_ethernet (channel ni.name)) nis)
  unfolding open_each
  ips_of-open_each channel [] = refl
  ips_of-open_each channel (ni ∷ nis) =
      ips_of-open_one ni (channel ni.name) (open_each channel nis)
      ∙ ap (λ rs. if is_ethernet (channel ni.name) then with_ips ni ∷ rs else rs)
          (ips_of-open_each channel nis)
      ∙ by_case (is_ethernet (channel ni.name))
    where
      by_case :
          (b : Bool)
          → (if b
              then with_ips ni ∷ map with_ips (keep (λ ni. is_ethernet (channel ni.name)) nis)
              else map with_ips (keep (λ ni. is_ethernet (channel ni.name)) nis))
            ≡ map with_ips (
                if b
                then ni ∷ keep (λ ni. is_ethernet (channel ni.name)) nis
                else keep (λ ni. is_ethernet (channel ni.name)) nis)
      by_case true = refl
      by_case false = refl

  opened-lookup :
      (channel : Text → Channel R) (name : Text) (nis : List NetworkInterface)
      → is_ethernet (channel name) ≡ true
      → lookup name (map with_ips (keep (λ ni. is_ethernet (channel ni.name)) nis))
        ≡ lookup name (map with_ips nis)
  unfolding lookup
  opened-lookup channel name [] h = refl
  opened-lookup channel name (ni ∷ nis) h = elim (Bool-cases (ni.name == name)) [
    | inl same ↦
        let opens : is_ethernet (channel ni.name) ≡ true =
          subst (λ n. is_ethernet (channel n) ≡ true) (sym ((text_beq_iff ni.name name).0 same))
            h in
        rw (opens, same) refl
    | inr differs ↦ elim (Bool-cases (is_ethernet (channel ni.name))) [
      | inl opens ↦ rw (opens, differs) (opened-lookup channel name nis h)
      | inr closed ↦ rw (closed, differs) (opened-lookup channel name nis h)
    ]
  ]

  -- More than 15 seconds after the last look at the interfaces, an eligible interface with an
  -- Ethernet channel is open with its current addresses, whether the receivers were opened anew or
  -- only refreshed, if no name stands twice among the eligible interfaces.
  pub resolve-current :
      (channel : Text → Channel R) (exclude : List Text) (nis : List NetworkInterface) (elapsed : ℕ)
      (rs : Receivers R) (name : Text) (ips : List IpAddr)
      → look_every < elapsed
      → IsMap (eligible exclude nis)
      → lookup name (eligible exclude nis) ≡ some ips
      → is_ethernet (channel name) ≡ true
      → lookup name (ips_of (resolve channel exclude nis elapsed rs)) ≡ some ips
  unfolding resolve look
  resolve-current channel exclude nis elapsed rs name ips late once wanted opens =
      let due : (is_none_open rs || ltb look_every elapsed) ≡ true = ground arith in
      rw due
        (elim (Bool-cases (set_changed (names_of rs) (names_of_wanted (eligible exclude nis)))) [
          | inl changed ↦ rw changed (
              unfold open_all eligible in
              ap (lookup name) (ips_of-open_each channel (candidates exclude nis))
              ∙ opened-lookup channel name (candidates exclude nis) opens
              ∙ wanted)
          | inr same ↦ rw same (
              refresh_ips_lem name ips (eligible exclude nis) rs once wanted (
                any-IsOpen name rs (
                  sym (any-sort (λ n. n == name) (names_of rs))
                  ∙ ap (any (λ n. n == name)) (unchanged_names _ _ same)
                  ∙ any-sort (λ n. n == name) (names_of_wanted (eligible exclude nis))
                  ∙ lookup-any name ips (eligible exclude nis) wanted)))
        ])
