-- ===== src/Prelude/Words.antt =====
-- `strings.ToUpper` and `strings.EqualFold`, as far as ASCII can come of them: of the other letters,
-- U+0131 and U+017F have an ASCII letter as their upper case, and U+212A and U+017F fold to one.
use pebbis.Prelude.{ℕ, ◌-◌, Bool, ◌&&◌, [], ◌∷◌, leb, ◌==◌, if◌then◌else◌}
use pebbis.Prelude.Bytes.{Bytes, bytes_eq}

abbrev pub upper_byte : ℕ → ℕ
upper_byte b = if leb 97 b && leb b 122 then b - 32 else b

unfoldable pub to_upper : Bytes → Bytes
to_upper [] = []
to_upper (b ∷ []) = upper_byte b ∷ []
to_upper (b ∷ c ∷ s) =
    let one = to_upper (c ∷ s) in
    let two = to_upper s in
    if b == 0xc4 && c == 0xb1
    then 73 ∷ two
    else if b == 0xc5 && c == 0xbf
    then 83 ∷ two
    else upper_byte b ∷ one

unfoldable pub fold_case : Bytes → Bytes
fold_case [] = []
fold_case (b ∷ []) = upper_byte b ∷ []
fold_case (b ∷ c ∷ []) =
    if b == 0xc5 && c == 0xbf then 83 ∷ [] else upper_byte b ∷ upper_byte c ∷ []
fold_case (b ∷ c ∷ d ∷ s) =
    let one = fold_case (c ∷ d ∷ s) in
    let two = fold_case (d ∷ s) in
    let three = fold_case s in
    if b == 0xe2 && c == 0x84 && d == 0xaa
    then 75 ∷ three
    else if b == 0xc5 && c == 0xbf
    then 83 ∷ two
    else upper_byte b ∷ one

-- `strings.EqualFold(s, word)`, for a word of ASCII capitals.
unfoldable pub is_word : Bytes → Bytes → Bool
is_word word s = bytes_eq (fold_case s) word
