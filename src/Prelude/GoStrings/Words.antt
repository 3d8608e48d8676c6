-- ===== src/Prelude/GoStrings/Words.antt =====
-- strings.Fields reads the words back that were joined by single blanks.
use Prim.Native.Char.{Char, code}
use Prim.Native.String.{String, ◌++◌}
use Prim.Native.String.append
use mathlib.Core.Path.{◌≡◌, refl, ap, ◌∙◌}
use mathlib.Core.Bool.{Bool, true, false, not, ◌&&◌}
use mathlib.Core.List.{List, [], ◌∷◌}
use native.Mathlib.Omega.{arith}
use faultlab.Prelude.Lists.{All}
use faultlab.Prelude.Text.{◌==◌}
use faultlab.Prelude.GoStrings.{is_space, push_word, split_space, nonempty, fields, join}

-- The text holds no blank.
unfoldable pub is_solid : String → Bool
unfolding is_space
is_solid String.[] = true
is_solid (String.◌∷◌ c s) = not (is_space (code c)) && is_solid s

split_space-solid : (s : String) → is_solid s ≡ true → split_space s ≡ s ∷ []
unfolding split_space push_word is_solid
split_space-solid String.[] h = refl
split_space-solid (String.◌∷◌ c s) h = ground (arith, split_space-solid s)

split_space-append :
    (s t : String) (c : Char)
    → is_solid s ≡ true
    → is_space (code c) ≡ true
    → split_space (s ++ String.◌∷◌ c t) ≡ s ∷ split_space t
unfolding split_space push_word is_solid
split_space-append String.[] t c h e = rw (append.nil (String.◌∷◌ c t)) (ground arith)
split_space-append (String.◌∷◌ d s) t c h e =
    rw (append.cons d s (String.◌∷◌ c t)) (ground (arith, split_space-append s t c))

blank : (s t : String) → s ++ (" " ++ t) ≡ s ++ String.◌∷◌ " " t
blank s t = ap (λ x. s ++ x) (append.cons _ _ t ∙ ap (λ x. String.◌∷◌ " " x) (append.nil t))

split_space-join :
    (w : String) (ws : List String)
    → All (λ s. is_solid s ≡ true) (w ∷ ws)
    → split_space (join " " (w ∷ ws)) ≡ w ∷ ws
unfolding join
split_space-join w [] (h, _) = split_space-solid w h
split_space-join w (v ∷ ws) (h, hs) =
    ap split_space (blank w (join " " (v ∷ ws)))
    ∙ (split_space-append w (join " " (v ∷ ws)) " " h (unfold is_space in refl)
        ∙ ap (λ l. w ∷ l) (split_space-join v ws hs))

-- The empty words are lost.
pub fields-join :
    (w : String) (ws : List String)
    → All (λ s. is_solid s ≡ true) (w ∷ ws)
    → fields (join " " (w ∷ ws)) ≡ nonempty (w ∷ ws)
unfolding fields
fields-join w ws h = ap nonempty (split_space-join w ws h)

-- The text is one word of a line.
abbrev pub IsWord : String → Type 0
IsWord s = (is_solid s ≡ true) × ((s == "") ≡ false)

nonempty-words : (ws : List String) → All IsWord ws → nonempty ws ≡ ws
unfolding nonempty
nonempty-words [] h = refl
nonempty-words (w ∷ ws) (h, hs) = rw h.1 (ap (λ l. w ∷ l) (nonempty-words ws hs))

solid-words : (ws : List String) → All IsWord ws → All (λ s. is_solid s ≡ true) ws
solid-words [] h = tt
solid-words (w ∷ ws) (h, hs) = (h.0, solid-words ws hs)

-- Words that are joined by single blanks are read back.
pub fields-join_words :
    (w : String) (ws : List String) → All IsWord (w ∷ ws) → fields (join " " (w ∷ ws)) ≡ w ∷ ws
fields-join_words w ws h = fields-join w ws (solid-words (w ∷ ws) h) ∙ nonempty-words (w ∷ ws) h

pub is_solid-append : (s t : String) → is_solid (s ++ t) ≡ (is_solid s && is_solid t)
unfolding is_solid
is_solid-append String.[] t = rw (append.nil t)
is_solid-append (String.◌∷◌ c s) t = rw (append.cons c s t) (ground (arith, is_solid-append s t))
