-- ===== src/Util/Tests.antt =====
-- A symbol without a name, as sylar/util.cpp meets it, and an instance of the theorem about such symbols.
use prozac.Prelude.{ℕ, ◌≡◌, refl, none, some, List, codes}
use prozac.Util.{symbol_of, first_word, demangle}
use prozac.Util.Symbols.{IsText, Padded, named, demangle-Padded}

abbrev symbol : List ℕ
symbol = codes "a(+1) [2]"

symbol-IsText : IsText symbol
symbol-IsText = (refl, (refl, (refl, (refl, (refl, (refl, (refl, (refl, (refl, tt)))))))))

nameless : named some symbol ≡ none
unfolding symbol_of
nameless = refl

worded : first_word symbol ≡ some (codes "a(+1)")
unfolding first_word
worded = refl

demangle-Padded_example : Padded (codes "a(+1)") (demangle some symbol)
demangle-Padded_example = demangle-Padded some symbol (codes "a(+1)") symbol-IsText nameless worded
