-- ===== src/Text/Laws.antt =====
-- How `strip`, `split`, `starts_with` and the lines of a file act on texts made of words.
use infinity_autopilot.Prelude.{
  ℕ, ◌≡◌, refl, sym, ap, ◌∙◌, Bool, true, false, ◌&&◌, List, [], ◌∷◌, ◌++◌, if◌then◌else◌, ◌==◌,
  inl, inr, Bool-cases, ==→≡, arith,
}
use mathlib.Core.Bool.{false≢true}
use infinity_autopilot.Text.{
  Text, same_text, is_space, rstrip, keep, strip, split, onto_first, starts_with_space, starts_with,
  universal_newlines, lines, file_lines, OneLine, NoSpace, IsWord, AllWords,
}

pub same_text→≡ : (s t : Text) → same_text s t ≡ true → s ≡ t
same_text→≡ [] [] h = refl
same_text→≡ [] (d ∷ t) h = cc h
same_text→≡ (c ∷ s) [] h = cc h
same_text→≡ (c ∷ s) (d ∷ t) h = ground (arith, same_text→≡ s t)

space_is_space : is_space 32 ≡ true
unfolding is_space
space_is_space = refl

newline_is_space : is_space 10 ≡ true
unfolding is_space
newline_is_space = refl

return_is_space : is_space 13 ≡ true
unfolding is_space
return_is_space = refl

-- `rstrip` keeps what stands before a kept character.
rstrip-append : (s t : Text) {c : ℕ} {u : Text} → rstrip t ≡ c ∷ u → rstrip (s ++ t) ≡ s ++ c ∷ u
rstrip-append [] t h = h
rstrip-append (d ∷ []) t h = ap (keep d) h
rstrip-append (d ∷ e ∷ s) t h = ap (keep d) (rstrip-append (e ∷ s) t h)

rstrip-word : (c : ℕ) (w : Text) → IsWord (c ∷ w) → rstrip ((c ∷ w) ++ 10 ∷ []) ≡ c ∷ w
rstrip-word c [] h = rw (newline_is_space, h.0) refl
rstrip-word c (d ∷ w) h = ap (keep c) (rstrip-word d w h.1)

-- A line of two words.
pub strip-two : (a b : Text) → IsWord a → IsWord b → strip (a ++ 32 ∷ (b ++ 10 ∷ [])) ≡ a ++ 32 ∷ b
strip-two [] b ha hb = absurd ha
strip-two (c ∷ a) [] ha hb = absurd hb
strip-two (c ∷ a) (d ∷ b) ha hb =
    rw ha.0 (rstrip-append (c ∷ a) (32 ∷ d ∷ (b ++ 10 ∷ [])) (ap (keep 32) (rstrip-word d b hb)))

split-onto_first :
    (c d : ℕ) (s : Text)
    → is_space c ≡ false
    → is_space d ≡ false
    → split (c ∷ d ∷ s) ≡ onto_first c (split (d ∷ s))
split-onto_first c d s hc hd = rw (hc, hd) refl

split-word : (w : Text) → IsWord w → split w ≡ w ∷ []
split-word [] h = absurd h
split-word (c ∷ []) h = rw h.0 refl
split-word (c ∷ d ∷ w) h =
    split-onto_first c d w h.0 h.1.0 ∙ ap (onto_first c) (split-word (d ∷ w) h.1)

split-word-space : (w s : Text) → IsWord w → split (w ++ 32 ∷ s) ≡ w ∷ split s
split-word-space [] s h = absurd h
split-word-space (c ∷ []) s h = rw (h.0, space_is_space) refl
split-word-space (c ∷ d ∷ w) s h =
    split-onto_first c d (w ++ 32 ∷ s) h.0 h.1.0
    ∙ ap (onto_first c) (split-word-space (d ∷ w) s h.1)

pub split-two : (a b : Text) → IsWord a → IsWord b → split (a ++ 32 ∷ b) ≡ a ∷ b ∷ []
split-two a b ha hb = split-word-space a b ha ∙ ap (λ ws. a ∷ ws) (split-word b hb)

differs : (c d : ℕ) → is_space c ≡ true → is_space d ≡ false → (c == d) ≡ false
differs c d hc hd = elim (Bool-cases (c == d)) [
  | inl e ↦ absurd (false≢true (sym hd ∙ ap is_space (sym (==→≡ c d e)) ∙ hc))
  | inr e ↦ e
]

==_sym : (c d : ℕ) → (c == d) ≡ (d == c)
==_sym c d = ground arith

-- A test for a prefix without spaces reads no further than the first word.
pub starts_with-space : (w s t : Text) → NoSpace t → starts_with (w ++ 32 ∷ s) t ≡ starts_with w t
starts_with-space w s [] h = refl
starts_with-space [] s (d ∷ t) h = rw (differs 32 d space_is_space h.0) refl
starts_with-space (c ∷ w) s (d ∷ t) h = ap (λ b. c == d && b) (starts_with-space w s t h.1)

-- The test of `OneLine`, for literals.
abbrev pub one_line : Text → Bool
one_line [] = true
one_line (c ∷ s) = if c == 10 then false else if c == 13 then false else one_line s

pub OneLine-of_one_line : (s : Text) → one_line s ≡ true → OneLine s
OneLine-of_one_line [] h = tt
OneLine-of_one_line (c ∷ s) h = (ground arith, ground arith, OneLine-of_one_line s (ground arith))

pub OneLine-++ : (s t : Text) → OneLine s → OneLine t → OneLine (s ++ t)
OneLine-++ [] t hs ht = ht
OneLine-++ (c ∷ s) t hs ht = (hs.0, hs.1, OneLine-++ s t hs.2 ht)

NoSpace-OneLine : (w : Text) → NoSpace w → OneLine w
NoSpace-OneLine [] h = tt
NoSpace-OneLine (c ∷ w) h = (
  ==_sym c 10 ∙ differs 10 c newline_is_space h.0,
  ==_sym c 13 ∙ differs 13 c return_is_space h.0,
  NoSpace-OneLine w h.1,
)

pub IsWord-OneLine : (w : Text) → IsWord w → OneLine w
IsWord-OneLine [] h = absurd h
IsWord-OneLine (c ∷ w) h = NoSpace-OneLine (c ∷ w) h

universal_newlines-line :
    (l s : Text) → OneLine l → universal_newlines (l ++ 10 ∷ s) ≡ l ++ 10 ∷ universal_newlines s
universal_newlines-line [] s h = refl
universal_newlines-line (c ∷ l) s h = rw h.1 (ap (λ r. c ∷ r) (universal_newlines-line l s h.2))

-- The lines of a text that begins with one.
pub lines-line : (l s : Text) → OneLine l → lines (l ++ 10 ∷ s) ≡ (l ++ 10 ∷ []) ∷ lines s
lines-line [] s h = refl
lines-line (c ∷ l) s h = rw h.0 (ap (onto_first c) (lines-line l s h.2))

-- A line stands first among the lines of a file that begins with it.
pub file_lines-line :
    (l s : Text) → OneLine l → file_lines (l ++ 10 ∷ s) ≡ (l ++ 10 ∷ []) ∷ file_lines s
file_lines-line l s h =
    ap lines (universal_newlines-line l s h) ∙ lines-line l (universal_newlines s) h

onto_first-AllWords :
    (c : ℕ) (ws : List Text) → is_space c ≡ false → AllWords ws → AllWords (onto_first c ws)
onto_first-AllWords c [] hc h = ((hc, tt), tt)
onto_first-AllWords c ([] ∷ ws) hc h = absurd h.0
onto_first-AllWords c ((d ∷ w) ∷ ws) hc h = ((hc, h.0), h.1)

split_cons-AllWords :
    (c : ℕ) (rest : List Text) (space first : Bool)
    → is_space c ≡ space
    → AllWords rest
    → AllWords (if space then rest else if first then (c ∷ []) ∷ rest else onto_first c rest)
split_cons-AllWords c rest true first e h = h
split_cons-AllWords c rest false true e h = ((e, tt), h)
split_cons-AllWords c rest false false e h = onto_first-AllWords c rest e h

-- `split` gives words.
pub split-AllWords : (s : Text) → AllWords (split s)
split-AllWords [] = tt
split-AllWords (c ∷ s) =
    split_cons-AllWords c (split s) (is_space c) (starts_with_space s) refl (split-AllWords s)
