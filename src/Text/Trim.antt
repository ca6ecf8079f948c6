-- ===== src/Text/Trim.antt =====
-- Go's `strings.TrimSpace` and `strings.ToLower`.
use ovnflow.Base.{◌+◌, ◌&&◌, [], ◌∷◌, leb, ◌==◌, if◌then◌else◌}
use ovnflow.Text.{Text, is_blank, is_ascii_space, is_space2, is_space3}

-- The text behind the white space that it begins with.
trim_left : Text → Text
trim_left [] = []
trim_left (a ∷ []) = if is_ascii_space a then [] else a ∷ []
trim_left (a ∷ b ∷ []) =
    let rest = trim_left (b ∷ []) in
    if is_ascii_space a then rest else if is_space2 a b then [] else a ∷ b ∷ []
trim_left (a ∷ b ∷ c ∷ r) =
    let one = trim_left (b ∷ c ∷ r) in
    let pair = trim_left (c ∷ r) in
    let wide = trim_left r in
    if is_ascii_space a
    then one
    else if is_space2 a b
    then pair
    else if is_space3 a b c
    then wide
    else a ∷ b ∷ c ∷ r

-- The text in front of the white space that it ends with.
trim_right : Text → Text
trim_right [] = []
trim_right (c ∷ r) = let rest = trim_right r in if is_blank (c ∷ r) then [] else c ∷ rest

unfoldable pub trim_space : Text → Text
unfolding trim_left trim_right is_ascii_space is_space2 is_space3 is_blank
trim_space s = trim_right (trim_left s)

-- Letters of ASCII, and the two other letters whose lower case is in ASCII: U+0130 and the Kelvin
-- sign U+212A. The lower case of other letters beyond ASCII is not modelled.
unfoldable pub to_lower : Text → Text
to_lower [] = []
to_lower (a ∷ []) = (if leb b'A' a && leb a b'Z' then a + 32 else a) ∷ []
to_lower (a ∷ b ∷ []) =
    let rest = to_lower (b ∷ []) in
    if leb b'A' a && leb a b'Z'
    then (a + 32) ∷ rest
    else if a == 0xc4 && b == 0xb0
    then b'i' ∷ []
    else a ∷ rest
to_lower (a ∷ b ∷ c ∷ r) =
    let one = to_lower (b ∷ c ∷ r) in
    let pair = to_lower (c ∷ r) in
    let wide = to_lower r in
    if leb b'A' a && leb a b'Z'
    then (a + 32) ∷ one
    else if a == 0xc4 && b == 0xb0
    then b'i' ∷ pair
    else if a == 0xe2 && b == 0x84 && c == 0xaa
    then b'k' ∷ wide
    else a ∷ one
