-- ===== src/Tests/Names.antt =====
-- The names of players.
use verda_sxtelo.Common.{◌≡◌, refl, arith, some, none, [], ◌∷◌}
use verda_sxtelo.Common.Chars.{codes}
use verda_sxtelo.NormalizeName.{normalize_name}
use verda_sxtelo.NormalizeName.Tidy.{spaced, ends_letter, IsTidy, normalize_name-tidy}
use verda_sxtelo.NormalizeName.Accepted.{normalize_name-twice}

spaced_out : normalize_name (codes "  Zamen  hof ") ≡ some (codes "Zamen hof")
unfolding normalize_name
spaced_out = refl

blank_refused : normalize_name (codes "   ") ≡ none
unfolding normalize_name
blank_refused = refl

-- DEL is a control character that is kept.
del_kept : normalize_name (65 ∷ 127 ∷ []) ≡ some (65 ∷ 127 ∷ [])
unfolding normalize_name
del_kept = refl

zamenhof-IsTidy : IsTidy (codes "Zamen hof")
unfolding spaced ends_letter
zamenhof-IsTidy = record { spaces = refl; ending = refl; fits = omega arith }

normalize_name-tidy_example : normalize_name (codes "Zamen hof") ≡ some (codes "Zamen hof")
normalize_name-tidy_example = normalize_name-tidy (codes "Zamen hof") zamenhof-IsTidy

normalize_name-twice_example :
    IsTidy (codes "Zamen hof") × (normalize_name (codes "Zamen hof") ≡ some (codes "Zamen hof"))
normalize_name-twice_example =
    normalize_name-twice (codes "  Zamen  hof ") (codes "Zamen hof") spaced_out
