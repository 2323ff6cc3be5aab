-- ===== src/Glob/Tests.antt =====
-- Examples of glob/.
use pebbis.Prelude.{◌≤◌, ◌≡◌, ◌↔◌, true, [], ◌∷◌}
use pebbis.Prelude.Bytes.{Bytes}
use pebbis.Glob.{match, count_stars, max_star_count, split_pattern}
use pebbis.Glob.Spec.{Fits}
use pebbis.Glob.Match.{match_iff}

-- The pattern `a*?c`.
abbrev starred : Bytes
starred = 97 ∷ 42 ∷ 63 ∷ 99 ∷ []

abbrev text : Bytes
text = 97 ∷ 98 ∷ 98 ∷ 99 ∷ []

match_iff_example :
    (match starred text ≡ true)
    ↔ ((count_stars starred ≤ max_star_count) × Fits (split_pattern starred) text)
match_iff_example = match_iff starred text
