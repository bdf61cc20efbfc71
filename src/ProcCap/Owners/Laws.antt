-- ===== src/ProcCap/Owners/Laws.antt =====
-- The order in which `snapshot` of src/proc_cap.rs reads the socket tables decides who owns an
-- endpoint.
use netmeter.Prelude.{
  ℕ, ◌≡◌, refl, sym, ◌∙◌, Bool, List, [], ◌∷◌, ◌++◌, Option, none, some, Text, Map, lookup,
  lookup-upsert, or_else, fold, drop, if◌then◌else◌, ◌==◌, pair_eq, nat_eq, inl, inr, Bool-cases,
}
use netmeter.Prelude.Strings.{lines, strip_suffix}
use netmeter.ProcCap.Address.{IpAddr, ip_eq}
use netmeter.ProcCap.Owners.{
  Owners, no_owners, Process, Netns, own, note_socket, socket_of, scan_table, scan_text, snapshot,
  inode_to_pid, ends_in_6, own_tables, all_tables, foreign, tables_for,
}

-- A later claim takes precedence.
abbrev later : Option ℕ → Option ℕ → Option ℕ
later none old = old
later (some p) old = some p

later_assoc : (a b c : Option ℕ) → later a (later b c) ≡ later (later a b) c
later_assoc none b c = refl
later_assoc (some p) b c = refl

later-none : (a : Option ℕ) → later a none ≡ a
later-none none = refl
later-none (some p) = refl

module _ (ep : IpAddr × ℕ) where
  -- Who claims the endpoint on a line, in a table and in a list of tables.
  abbrev claim_own : IpAddr × ℕ → Option (ℕ × Text) → Option ℕ
  claim_own k none = none
  claim_own k (some (pid, name)) = if k == ep then some pid else none

  abbrev claim : Map ℕ (ℕ × Text) → Option ((IpAddr × ℕ) × ℕ) → Option ℕ
  claim inodes none = none
  claim inodes (some (k, ino)) = claim_own k (lookup ino inodes)

  abbrev claims : Map ℕ (ℕ × Text) → Bool → List Text → Option ℕ
  claims inodes v6 [] = none
  claims inodes v6 (l ∷ ls) = later (claims inodes v6 ls) (claim inodes (socket_of v6 l))

  abbrev claims_text : Map ℕ (ℕ × Text) → Bool → Option Text → Option ℕ
  claims_text inodes v6 none = none
  claims_text inodes v6 (some text) = claims inodes v6 (drop 1 (lines text))

  abbrev claims_all : Map ℕ (ℕ × Text) → (Text → Option Text) → List Text → Option ℕ
  claims_all inodes read [] = none
  claims_all inodes read (p ∷ ps) =
      later (claims_all inodes read ps)
        (claims_text inodes (ends_in_6 (strip_suffix p b'6')) (read p))

  lookup-own :
      (k : IpAddr × ℕ) (who : Option (ℕ × Text)) (o : Owners)
      → lookup ep (own k who o).by_ep ≡ later (claim_own k who) (lookup ep o.by_ep)
  lookup-own k none o = refl
  lookup-own k (some (pid, name)) o = elim (Bool-cases (k == ep)) [
    | inl same ↦ rw (lookup-upsert k ep pid (λ _. pid) o.by_ep, same) (constant (lookup k o.by_ep))
    | inr other ↦ rw (lookup-upsert k ep pid (λ _. pid) o.by_ep, other)
  ]
    where
      constant : (old : Option ℕ) → some (or_else pid (λ _. pid) old) ≡ some pid
      constant none = refl
      constant (some p) = refl

  lookup-note_socket :
      (inodes : Map ℕ (ℕ × Text)) (s : Option ((IpAddr × ℕ) × ℕ)) (o : Owners)
      → lookup ep (note_socket inodes s o).by_ep ≡ later (claim inodes s) (lookup ep o.by_ep)
  lookup-note_socket inodes none o = refl
  lookup-note_socket inodes (some (k, ino)) o = lookup-own k (lookup ino inodes) o

  lookup-scan_table :
      (inodes : Map ℕ (ℕ × Text)) (v6 : Bool) (rows : List Text) (o : Owners)
      → lookup ep (scan_table inodes v6 rows o).by_ep
        ≡ later (claims inodes v6 rows) (lookup ep o.by_ep)
  unfolding scan_table
  lookup-scan_table inodes v6 [] o = refl
  lookup-scan_table inodes v6 (l ∷ ls) o =
      lookup-scan_table inodes v6 ls (note_socket inodes (socket_of v6 l) o)
      ∙ rw (lookup-note_socket inodes (socket_of v6 l) o)
          (later_assoc (claims inodes v6 ls) (claim inodes (socket_of v6 l)) (lookup ep o.by_ep))

  lookup-scan_text :
      (inodes : Map ℕ (ℕ × Text)) (v6 : Bool) (text : Option Text) (o : Owners)
      → lookup ep (scan_text inodes v6 text o).by_ep
        ≡ later (claims_text inodes v6 text) (lookup ep o.by_ep)
  lookup-scan_text inodes v6 none o = refl
  lookup-scan_text inodes v6 (some text) o = lookup-scan_table inodes v6 (drop 1 (lines text)) o

  module _ (inodes : Map ℕ (ℕ × Text)) (read : Text → Option Text) where
    abbrev scan_path : Text → Owners → Owners
    scan_path p o = scan_text inodes (ends_in_6 (strip_suffix p b'6')) (read p) o

    lookup-scan_paths :
        (paths : List Text) (o : Owners)
        → lookup ep (fold scan_path paths o).by_ep
          ≡ later (claims_all inodes read paths) (lookup ep o.by_ep)
    lookup-scan_paths [] o = refl
    lookup-scan_paths (p ∷ ps) o =
        lookup-scan_paths ps (scan_path p o)
        ∙ rw (lookup-scan_text inodes (ends_in_6 (strip_suffix p b'6')) (read p) o)
            (later_assoc (claims_all inodes read ps) _ (lookup ep o.by_ep))

    claims_all-append :
        (xs ys : List Text)
        → claims_all inodes read (xs ++ ys)
          ≡ later (claims_all inodes read ys) (claims_all inodes read xs)
    claims_all-append [] ys = sym (later-none _)
    claims_all-append (p ∷ ps) ys =
        rw (claims_all-append ps ys)
          (sym (later_assoc (claims_all inodes read ys) (claims_all inodes read ps) _))

  lookup-snapshot :
      (procs : List Process) (read : Text → Option Text) (paths : List Text)
      → lookup ep (snapshot procs read paths).by_ep ≡ claims_all (inode_to_pid procs) read paths
  unfolding snapshot lookup
  lookup-snapshot procs read paths =
      lookup-scan_paths (inode_to_pid procs) read paths no_owners ∙ later-none _

  -- An endpoint that the socket tables of our own network namespace give to a process belongs to
  -- that process in the snapshot over the tables of all namespaces, whatever the others list.
  pub snapshot-tables_for :
      (procs : List Process) (read : Text → Option Text) (ours : Option Netns) (found : Map ℕ Netns)
      (pid : ℕ)
      → lookup ep (snapshot procs read own_tables).by_ep ≡ some pid
      → lookup ep (snapshot procs read (tables_for ours found)).by_ep ≡ some pid
  unfolding tables_for
  snapshot-tables_for procs read ours found pid h =
      lookup-snapshot procs read (all_tables (foreign ours [] found) ++ own_tables)
      ∙ claims_all-append (inode_to_pid procs) read (all_tables (foreign ours [] found)) own_tables
      ∙ rw (sym (lookup-snapshot procs read own_tables) ∙ h)
