-- ===== src/OpenFlow/Mac.antt =====
-- Go's `net.ParseMAC` and `HardwareAddr.String`, which openflow_protocol.go calls.
use ovnflow.Base.{ℕ, ◌+◌, ◌-◌, ◌*◌, ◌/◌, ◌%◌, ◌&&◌, ◌||◌, Option, none, some}
use ovnflow.Base.{List, [], ◌∷◌, length, ltb, leb, ◌==◌, if◌then◌else◌}
use ovnflow.Text.{Text}

abbrev hex_value : ℕ → Option ℕ
hex_value c =
    if leb b'0' c && leb c b'9'
    then some (c - b'0')
    else if leb b'a' c && leb c b'f'
    then some (c - b'a' + 10)
    else if leb b'A' c && leb c b'F'
    then some (c - b'A' + 10)
    else none

abbrev pair_value : Option ℕ → Option ℕ → Option ℕ
pair_value (some a) (some b) = some (a * 16 + b)
pair_value _ _ = none

abbrev cons_value : Option ℕ → Option (List ℕ) → Option (List ℕ)
cons_value (some a) (some r) = some (a ∷ r)
cons_value _ _ = none

-- Two hexadecimal digits a byte, with the separator between the bytes.
unfoldable pub mac_pairs : ℕ → Text → Option (List ℕ)
mac_pairs sep [] = none
mac_pairs sep (a ∷ []) = none
mac_pairs sep (a ∷ b ∷ []) = cons_value (pair_value (hex_value a) (hex_value b)) (some [])
mac_pairs sep (a ∷ b ∷ c ∷ r) =
    let rest = mac_pairs sep r in
    if c == sep then cons_value (pair_value (hex_value a) (hex_value b)) rest else none

-- Four digits, two bytes, between dots.
unfoldable pub mac_quads : Text → Option (List ℕ)
mac_quads (a ∷ b ∷ c ∷ d ∷ []) =
    cons_value (pair_value (hex_value a) (hex_value b))
      (cons_value (pair_value (hex_value c) (hex_value d)) (some []))
mac_quads (a ∷ b ∷ c ∷ d ∷ e ∷ r) =
    let rest = mac_quads r in
    if e == b'.'
    then cons_value (pair_value (hex_value a) (hex_value b))
        (cons_value (pair_value (hex_value c) (hex_value d)) rest)
    else none
mac_quads _ = none

-- MAC addresses have 6 bytes; EUI-64 and IP over InfiniBand addresses are accepted too.
abbrev sized : Option (List ℕ) → Option (List ℕ)
sized none = none
sized (some hw) = if length hw == 6 || length hw == 8 || length hw == 20 then some hw else none

unfoldable pub parse_mac : Text → Option (List ℕ)
unfolding mac_pairs mac_quads
parse_mac (a ∷ b ∷ c ∷ d ∷ e ∷ r) =
    let s : Text = a ∷ b ∷ c ∷ d ∷ e ∷ r in
    if ltb (length s) 14
    then none
    else if c == b':' || c == b'-'
    then sized (mac_pairs c s)
    else if e == b'.'
    then sized (mac_quads s)
    else none
parse_mac _ = none

abbrev hex_digit : ℕ → ℕ
hex_digit n = if ltb n 10 then b'0' + n else b'a' + (n - 10)

-- Lower-case pairs joined by colons.
unfoldable pub mac_string : List ℕ → Text
mac_string [] = []
mac_string (b ∷ []) = hex_digit (b / 16) ∷ hex_digit (b % 16) ∷ []
mac_string (b ∷ c ∷ r) = hex_digit (b / 16) ∷ hex_digit (b % 16) ∷ b':' ∷ mac_string (c ∷ r)
