-- ===== src/ProcCap/Recorder/Receivers/Reopened.antt =====
-- When the capture thread of src/proc_cap.rs opens all its receivers anew though the interfaces are
-- the same.
use netmeter.Prelude.{
  ℕ, suc, ◌≤◌, ◌<◌, ◌≡◌, refl, sym, ◌∙◌, ap, Bool, true, false, not, List, [], ◌∷◌, Text, map, keep,
  any, length, Bool-cases, inl, inr, arith,
}
use netmeter.ProcCap.Recorder.{
  NetworkInterface, candidates, eligible, sort_in, sort, same_names, set_changed,
}
use netmeter.ProcCap.Recorder.Names.{same_names_refl, same_names-eq}
use netmeter.ProcCap.Recorder.Receivers.{
  Channel, is_ethernet, open_each, open_all, names_of, names_of_wanted,
}
use netmeter.ProcCap.Recorder.Receivers.Current.{with_ips, names_of-ips_of, ips_of-open_each}

length-sort_in : (s : Text) (xs : List Text) → length (sort_in s xs) ≡ suc (length xs)
unfolding sort_in
length-sort_in s [] = refl
length-sort_in s (x ∷ xs) = ground (arith, length-sort_in s xs)

length-sort : (xs : List Text) → length (sort xs) ≡ length xs
unfolding sort
length-sort [] = refl
length-sort (x ∷ xs) = length-sort_in x (sort xs) ∙ ap suc (length-sort xs)

set_changed_longer :
    (have want : List Text) → length have < length want → set_changed have want ≡ true
unfolding set_changed
set_changed_longer have want h = elim (Bool-cases (same_names (sort have) (sort want))) [
  | inl same ↦
      let e : length (sort have) ≡ length (sort want) =
        ap (λ xs. length xs) (same_names-eq (sort have) (sort want) same) in
      absurd (omega (arith, length-sort have, length-sort want, e))
  | inr differs ↦ rw differs refl
]

set_changed_self : (xs : List Text) → set_changed xs xs ≡ false
unfolding set_changed
set_changed_self xs = rw (same_names_refl (sort xs)) refl

lt_suc : {m n : ℕ} → m < n → suc m < suc n
lt_suc h = omega arith

abbrev length_of : List NetworkInterface → ℕ
length_of nis = length (names_of_wanted (map with_ips nis))

module _ {R : Type 0} (channel : Text → Channel R) where
  abbrev pub opens : NetworkInterface → Bool
  opens ni = is_ethernet (channel ni.name)

  length-keep : (nis : List NetworkInterface) → length_of (keep opens nis) ≤ length_of nis
  length-keep [] = omega arith
  length-keep (ni ∷ nis) = elim (Bool-cases (opens ni)) [
    | inl h ↦ rw h (omega (arith, length-keep nis))
    | inr h ↦ rw h (omega (arith, length-keep nis))
  ]

  keep_shorter :
      (nis : List NetworkInterface)
      → any (λ ni. not (opens ni)) nis ≡ true
      → length_of (keep opens nis) < length_of nis
  keep_shorter [] h = absurd cc
  keep_shorter (ni ∷ nis) h = elim (Bool-cases (opens ni)) [
    | inl open_ni ↦ rw open_ni (lt_suc (keep_shorter nis (rw open_ni at h)))
    | inr closed ↦ rw closed (omega (arith, length-keep nis))
  ]

  keep_all :
      (nis : List NetworkInterface) → any (λ ni. not (opens ni)) nis ≡ false → keep opens nis ≡ nis
  keep_all [] h = refl
  keep_all (ni ∷ nis) h = elim (Bool-cases (opens ni)) [
    | inl open_ni ↦ rw open_ni (ap (λ xs. ni ∷ xs) (keep_all nis (rw open_ni at h)))
    | inr closed ↦ absurd cc (rw closed at h)
  ]

  -- Right after all receivers were opened, the interfaces count as changed exactly where the
  -- channel of a candidate is not one of Ethernet, though the interfaces are the same.
  pub set_changed-open_all :
      (exclude : List Text) (nis : List NetworkInterface)
      → set_changed
          (names_of (open_all channel exclude nis))
          (names_of_wanted (eligible exclude nis))
        ≡ any (λ ni. not (opens ni)) (candidates exclude nis)
  unfolding open_all eligible
  set_changed-open_all exclude nis =
      ap (λ ns. set_changed ns (names_of_wanted (map with_ips (candidates exclude nis))))
        (names_of-ips_of (open_each channel (candidates exclude nis))
          ∙ ap names_of_wanted (ips_of-open_each channel (candidates exclude nis)))
      ∙ elim (Bool-cases (any (λ ni. not (opens ni)) (candidates exclude nis))) [
        | inl some_closed ↦
            set_changed_longer _ _ (keep_shorter (candidates exclude nis) some_closed)
            ∙ sym some_closed
        | inr all_open ↦
            ap
              (λ cs.
                set_changed (names_of_wanted (map with_ips cs))
                  (names_of_wanted (map with_ips (candidates exclude nis))))
              (keep_all (candidates exclude nis) all_open)
            ∙ set_changed_self (names_of_wanted (map with_ips (candidates exclude nis)))
            ∙ sym all_open
      ]
