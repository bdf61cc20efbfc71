-- ===== src/Show/Configure/Laws.antt =====
-- What `config set` and `config reset` of src/main.rs leave to `Config::load`.
use netmeter.Prelude.{
  ◌≡◌, refl, sym, ◌∙◌, ap, true, false, [], Option, none, some, Map, IsMap, lookup, insert, get_or,
  Text, text_eq, ◌==◌, lookup-insert_self, lookup-insert_ne, subst, Bool-cases, inl, inr,
  text_beq_iff, upsert-IsMap, if◌then◌else◌,
}
use netmeter.Config.{Config}
use netmeter.Config.Load.{System, Toml, system_path, over_file, parsed_file, merge_value}
use netmeter.Config.Laws.{insert_all-lookup, upper_layer}
use netmeter.Show.Status.{parse_setting}
use netmeter.Show.Configure.{
  Files, Edit, Editor, reading, edited_path, current, set_in, edit, write_table, config_set,
}

-- What `load` merges: the defaults, the system's file and the user's.
abbrev pub layers : {R V : Type 0} → System R V → Config R → Toml V
layers s defaults =
    over_file s (parsed_file s s.user_path)
      (over_file s (parsed_file s (some system_path)) (s.to_toml defaults))

-- The entry of a value, if it is a table.
abbrev pub entry : {V : Type 0} → Text → Toml V → Option V
entry key (Toml.table m) = lookup key m
entry key (Toml.other v) = none

abbrev rows_of : {V : Type 0} → Toml V → Map Text V
rows_of (Toml.table m) = m
rows_of (Toml.other v) = []

-- The user's file over a table: its rows first.
entry-over_file :
    {R V : Type 0} (s : System R V) (o : Option (Toml V)) (base cur : Map Text V) (key : Text)
    → get_or o (Toml.table []) ≡ Toml.table cur
    → IsMap cur
    → entry key (over_file s o (Toml.table base)) ≡ upper_layer (lookup key cur) (lookup key base)
unfolding merge_value lookup
entry-over_file s none base cur key h m =
    subst (λ c. lookup key base ≡ upper_layer (lookup key c) (lookup key base)) (ap rows_of h) refl
entry-over_file s (some (Toml.table t)) base cur key h m =
    rw (ap rows_of h) (insert_all-lookup cur base key m)
entry-over_file s (some (Toml.other v)) base cur key h m = absurd cc

module _ {R V : Type 0} (e : Editor R V) where
  current-parsed :
      (files : Files) (path : Text)
      → current e files path
        ≡ get_or (parsed_file (reading e.system files) (some path)) (Toml.table [])
  unfolding current
  current-parsed files path = by_file (lookup path files)
    where
      by_file :
          (o : Option Text)
          → elim o [
            | none ↦ Toml.table []
            | some t ↦ get_or (e.system.parse_toml t) (Toml.table [])
          ]
            ≡ get_or (elim o [ none ↦ none | some t ↦ e.system.parse_toml t ]) (Toml.table [])
      by_file none = refl
      by_file (some t) = refl

  -- What `load` merges where the user's file holds these rows.
  entry-layers :
      (defaults : Config R) (base cur : Map Text V) (u key : Text) (files : Files)
      → e.system.user_path ≡ some u
      → over_file e.system
          (parsed_file (reading e.system files) (some system_path))
          (e.system.to_toml defaults)
        ≡ Toml.table base
      → current e files u ≡ Toml.table cur
      → IsMap cur
      → entry key (layers (reading e.system files) defaults)
        ≡ upper_layer (lookup key cur) (lookup key base)
  entry-layers defaults base cur u key files user system now m =
      ap
        (λ p. entry key (
          over_file e.system (parsed_file (reading e.system files) p) (
            over_file e.system (parsed_file (reading e.system files) (some system_path))
              (e.system.to_toml defaults))))
        user
      ∙ ap (λ b. entry key (over_file e.system (parsed_file (reading e.system files) (some u)) b))
          system
      ∙ entry-over_file e.system (parsed_file (reading e.system files) (some u)) base cur key
          (sym (current-parsed files u) ∙ now) m

  current-insert :
      (files : Files) (u text : Text) (m : Map Text V)
      → e.system.parse_toml text ≡ some (Toml.table m)
      → current e (insert u text files) u ≡ Toml.table m
  unfolding current
  current-insert files u text m parsed = rw (lookup-insert_self u text files, current, parsed)

  -- A user's config set of a key in a table where no key stands twice, if toml reads back the table
  -- that it writes, the file may be written and is not the system's, writes the user's file, after
  -- which the layers that load merges hold the parsed value under the key and every other key as
  -- before.
  pub config_set-load :
      (defaults : Config R) (base cur : Map Text V) (u key value text : Text) (files : Files)
      → e.system.user_path ≡ some u
      → (u == system_path) ≡ false
      → over_file e.system
          (parsed_file (reading e.system files) (some system_path))
          (e.system.to_toml defaults)
        ≡ Toml.table base
      → current e files u ≡ Toml.table cur
      → IsMap cur
      → (let new : Map Text V =
            insert key (e.of_setting (parse_setting e.system.parse_f64 value)) cur in
          (e.to_text new ≡ some text) × (e.system.parse_toml text ≡ some (Toml.table new)))
      → e.may_write u ≡ true
      → (config_set e false key value files ≡ Edit.wrote u (insert u text files))
        × ((j : Text)
            → entry j (layers (reading e.system (insert u text files)) defaults) ≡ (
                if key == j
                then some (e.of_setting (parse_setting e.system.parse_f64 value))
                else entry j (layers (reading e.system files) defaults)))
  unfolding config_set edited_path
  config_set-load defaults base cur u key value text files user apart system now m toml writable =
      let v = e.of_setting (parse_setting e.system.parse_f64 value) in
      let system' =
        ap
          (λ o.
            over_file e.system (elim o [ none ↦ none | some t ↦ e.system.parse_toml t ])
              (e.system.to_toml defaults))
          (lookup-insert_ne u system_path text files apart)
        ∙ system in
      (
        ap (set_in e files key (parse_setting e.system.parse_f64 value)) user
            ∙ ap (edit e files u key (parse_setting e.system.parse_f64 value)) now
            ∙ ap (write_table e files u) toml.0
            ∙ rw writable refl,
        λ j.
            entry-layers defaults base (insert key v cur) u j (insert u text files) user system'
              (current-insert files u text (insert key v cur) toml.1)
              (upsert-IsMap key v (λ _. v) cur m)
            ∙ elim (Bool-cases (key == j)) [
              | inl same ↦
                  rw (same, sym ((text_beq_iff key j).0 same), lookup-insert_self key v cur)
              | inr other ↦
                  rw (other, lookup-insert_ne key j v cur other)
                    (sym (entry-layers defaults base cur u j files user system now m))
            ],
      )
