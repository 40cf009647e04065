-- ===== src/Base/Text.antt =====
-- Texts as lists of code points, as `chars()` gives them, and their length in UTF-8.
use Prim.Native.Char.{code}
use Prim.Native.Nat.{ℕ, ◌+◌, ◌/◌, ◌%◌}
use Prim.Native.String.{String}
use mathlib.Core.Bool.{Bool, true, false, ◌&&◌}
use mathlib.Core.List.{List, [], ◌∷◌, ◌++◌}
use ephemera_social.Base.Tests.{ltb, leb, ◌==◌, if◌then◌else◌}

-- The code points of a literal.
abbrev pub codes : String → List ℕ
codes String.[] = []
codes (String.◌∷◌ c s) = code c ∷ codes s

-- The bytes of a character, and of a text, in UTF-8: what `len` counts.
abbrev pub len_utf8 : ℕ → ℕ
len_utf8 c = if ltb c 128 then 1 else if ltb c 2048 then 2 else if ltb c 65536 then 3 else 4

unfoldable pub text_len : List ℕ → ℕ
text_len [] = 0
text_len (c ∷ cs) = len_utf8 c + text_len cs

-- A character, and a text, in UTF-8: what `as_bytes` gives.
unfoldable pub utf8_char : ℕ → List ℕ
utf8_char c =
    if ltb c 128
    then c ∷ []
    else if ltb c 2048
    then (192 + c / 64) ∷ (128 + c % 64) ∷ []
    else if ltb c 65536
    then (224 + c / 4096) ∷ (128 + c / 64 % 64) ∷ (128 + c % 64) ∷ []
    else (240 + c / 262144) ∷ (128 + c / 4096 % 64) ∷ (128 + c / 64 % 64) ∷ (128 + c % 64) ∷ []

unfoldable pub utf8 : List ℕ → List ℕ
unfolding utf8_char
utf8 [] = []
utf8 (c ∷ cs) = utf8_char c ++ utf8 cs

abbrev pub is_ascii_lowercase : ℕ → Bool
is_ascii_lowercase c = leb 97 c && leb c 122

abbrev pub is_ascii_uppercase : ℕ → Bool
is_ascii_uppercase c = leb 65 c && leb c 90

abbrev pub is_ascii_digit : ℕ → Bool
is_ascii_digit c = leb 48 c && leb c 57

-- `to_ascii_lowercase` on a text.
unfoldable pub to_ascii_lowercase : List ℕ → List ℕ
to_ascii_lowercase [] = []
to_ascii_lowercase (c ∷ cs) = (if is_ascii_uppercase c then c + 32 else c) ∷ to_ascii_lowercase cs

-- `starts_with` and `contains` with a text as the pattern.
unfoldable pub starts_with : List ℕ → List ℕ → Bool
starts_with [] text = true
starts_with (p ∷ ps) [] = false
starts_with (p ∷ ps) (c ∷ cs) = if p == c then starts_with ps cs else false

unfoldable pub contains_text : List ℕ → List ℕ → Bool
unfolding starts_with
contains_text pattern [] = starts_with pattern []
contains_text pattern (c ∷ cs) =
    if starts_with pattern (c ∷ cs) then true else contains_text pattern cs

-- `ends_with` with a character as the pattern.
unfoldable pub ends_with : ℕ → List ℕ → Bool
ends_with p [] = false
ends_with p (c ∷ []) = c == p
ends_with p (c ∷ d ∷ cs) = ends_with p (d ∷ cs)
