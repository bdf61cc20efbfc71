-- ===== src/Capture/Nft.antt =====
-- `parse_nft_counters` of src/capture.rs: the two named counters in the output of nft. The text's
-- JSON parser, serde_json, is a parameter.
use netmeter.Prelude.{
  ℕ, Bool, true, false, [], Option, none, some, get_or, if◌then◌else◌, Text, codes, ◌==◌, text_eq,
}

-- The JSON values that the program looks into; `negative n` is the number -(n + 1), and fractions,
-- which no accessor of the program takes, are not among them.
mutual
  pub data Json : Type 0 where
    null : Json
    boolean : Bool → Json
    number : ℕ → Json
    negative : ℕ → Json
    string : Text → Json
    array : Items → Json
    object : Fields → Json

  pub data Items : Type 0 where
    end : Items
    item : Json → Items → Items

  pub data Fields : Type 0 where
    stop : Fields
    field : Text → Json → Fields → Fields

-- `v.get(key)`.
unfoldable pub find_field : Text → Fields → Option Json
find_field key stop = none
find_field key (field k v rest) = if k == key then some v else find_field key rest

abbrev pub get : Text → Json → Option Json
get key (object fields) = find_field key fields
get key _ = none

abbrev pub as_str : Option Json → Option Text
as_str (some (string t)) = some t
as_str _ = none

abbrev pub as_u64 : Option Json → Option ℕ
as_u64 (some (number n)) = some n
as_u64 _ = none

-- The name and the bytes of an object that has a counter.
unfoldable pub counter_of : Option Json → Option (Text × ℕ)
counter_of none = none
counter_of (some c) =
    some (get_or (as_str (get (codes "name") c)) [], get_or (as_u64 (get (codes "bytes") c)) 0)

-- The match on the name, over (lan_rx, lan_tx).
unfoldable pub note_counter : Option (Text × ℕ) → Option ℕ × Option ℕ → Option ℕ × Option ℕ
note_counter none found = found
note_counter (some (name, bytes)) (rx, tx) =
    if name == codes "lan_rx_bytes"
    then (some bytes, tx)
    else if name == codes "lan_tx_bytes"
    then (rx, some bytes)
    else (rx, tx)

unfoldable pub scan : Items → Option ℕ × Option ℕ → Option ℕ × Option ℕ
scan end found = found
scan (item obj rest) found = scan rest (note_counter (counter_of (get (codes "counter") obj)) found)

abbrev pub items_of : Option Json → Items
items_of (some (array items)) = items
items_of _ = end

abbrev pub both : Option ℕ × Option ℕ → Option (ℕ × ℕ)
both (some r, some t) = some (r, t)
both (some r, none) = none
both (none, t) = none

-- `parse_nft_counters` on the parsed text; none where the text is no JSON.
unfoldable pub parse_nft_counters : Option Json → Option (ℕ × ℕ)
parse_nft_counters none = none
parse_nft_counters (some v) = both (scan (items_of (get (codes "nftables") v)) (none, none))

-- What a command ended with: its success and its output, or none where it could not start.
abbrev pub Output : Type 0
Output = Option (Bool × Text)

-- `read_nft`, for the output of the listing and the JSON parser.
unfoldable pub read_nft : (Text → Option Json) → Output → Option (ℕ × ℕ)
read_nft from_str none = none
read_nft from_str (some (false, text)) = none
read_nft from_str (some (true, text)) = parse_nft_counters (from_str text)

-- `nft_table_exists`.
unfoldable pub nft_table_exists : Output → Bool
nft_table_exists none = false
nft_table_exists (some (success, text)) = success
