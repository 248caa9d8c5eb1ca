-- ===== src/Text.antt =====
-- The operations of Python's `str` that the generators of scripts/ use. A text is the list of its
-- code points.
use Prim.Native.Char.{code}
use Prim.Native.String.{String}
use infinity_autopilot.Prelude.{
  ℕ, Bool, true, false, not, ◌&&◌, ◌||◌, List, [], ◌∷◌, ◌++◌, if◌then◌else◌, leb, ◌==◌, ◌≡◌, refl,
}
use mathlib.Core.Bool.{false≢true}
pub mod Laws
pub mod Decimal

abbrev pub Text : Type 0
Text = List ℕ

-- A literal's code points.
abbrev pub codes : String → Text
codes String.[] = []
codes (String.◌∷◌ c s) = code c ∷ codes s

abbrev pub null {ℓ} : {A : Type ℓ} → List A → Bool
null [] = true
null (_ ∷ _) = false

-- Equality of texts.
abbrev pub same_text : Text → Text → Bool
same_text [] [] = true
same_text [] (_ ∷ _) = false
same_text (_ ∷ _) [] = false
same_text (c ∷ s) (d ∷ t) = c == d && same_text s t

-- The white space of `strip` and `split`, which is that of `str.isspace`.
unfoldable pub is_space : ℕ → Bool
is_space c =
    (leb 9 c && leb c 13)
    || (leb 28 c && leb c 32)
    || c == 133
    || c == 160
    || c == 5760
    || (leb 8192 c && leb c 8202)
    || c == 8232
    || c == 8233
    || c == 8239
    || c == 8287
    || c == 12288

abbrev pub lstrip : Text → Text
lstrip [] = []
lstrip (c ∷ s) = if is_space c then lstrip s else c ∷ s

-- A character is kept before a kept one, or when it is no white space.
abbrev pub keep : ℕ → Text → Text
keep c [] = if is_space c then [] else c ∷ []
keep c (d ∷ s) = c ∷ d ∷ s

abbrev pub rstrip : Text → Text
rstrip [] = []
rstrip (c ∷ s) = keep c (rstrip s)

abbrev pub strip : Text → Text
strip s = rstrip (lstrip s)

abbrev pub starts_with_space : Text → Bool
starts_with_space [] = true
starts_with_space (c ∷ _) = is_space c

-- Put a character in front of the first word.
abbrev pub onto_first : ℕ → List Text → List Text
onto_first c [] = (c ∷ []) ∷ []
onto_first c (w ∷ ws) = (c ∷ w) ∷ ws

-- `split` with no separator: the words between runs of white space.
abbrev pub split : Text → List Text
split [] = []
split (c ∷ s) =
    let rest = split s in
    if is_space c then rest else if starts_with_space s then (c ∷ []) ∷ rest else onto_first c rest

-- `s.startswith(t)`.
abbrev pub starts_with : Text → Text → Bool
starts_with s [] = true
starts_with [] (_ ∷ _) = false
starts_with (c ∷ s) (d ∷ t) = c == d && starts_with s t

-- `s.endswith(t)`.
abbrev pub ends_with : Text → Text → Bool
ends_with [] t = same_text [] t
ends_with (c ∷ s) t = same_text (c ∷ s) t || ends_with s t

-- `os.path.join` on a relative second part.
abbrev pub path_join : Text → Text → Text
path_join [] b = b
path_join (c ∷ a) b =
    if ends_with (c ∷ a) (codes "/") then (c ∷ a) ++ b else (c ∷ a) ++ codes "/" ++ b

-- `sep.join(lines)`.
abbrev pub join : Text → List Text → Text
join sep [] = []
join sep (l ∷ []) = l
join sep (l ∷ m ∷ ls) = l ++ sep ++ join sep (m ∷ ls)

abbrev pub concat : List Text → Text
concat [] = []
concat (t ∷ ts) = t ++ concat ts

abbrev pub newline_before : Text → Text → Text
newline_before [] rest = 10 ∷ rest
newline_before (d ∷ _) rest = if d == 10 then rest else 10 ∷ rest

-- A file's text as `open` reads it: `\r\n` and `\r` are `\n`.
abbrev pub universal_newlines : Text → Text
universal_newlines [] = []
universal_newlines (c ∷ s) =
    let rest = universal_newlines s in if c == 13 then newline_before s rest else c ∷ rest

-- The lines that a loop over the file gets, each with its `\n`.
abbrev pub lines : Text → List Text
lines [] = []
lines (c ∷ s) = let rest = lines s in if c == 10 then (c ∷ []) ∷ rest else onto_first c rest

-- The lines of a file that is opened as text.
abbrev pub file_lines : Text → List Text
file_lines s = lines (universal_newlines s)

-- No line break.
abbrev pub OneLine : Text → Type 0
OneLine [] = Unit
OneLine (c ∷ s) = ((c == 10) ≡ false) × ((c == 13) ≡ false) × OneLine s

-- No white space.
abbrev pub NoSpace : Text → Type 0
NoSpace [] = Unit
NoSpace (c ∷ s) = (is_space c ≡ false) × NoSpace s

-- A word: not empty, and without white space.
abbrev pub IsWord : Text → Type 0
IsWord [] = ⊥
IsWord (c ∷ s) = NoSpace (c ∷ s)

abbrev pub AllWords : List Text → Type 0
AllWords [] = Unit
AllWords (w ∷ ws) = IsWord w × AllWords ws

abbrev all_visible : Text → Bool
all_visible [] = true
all_visible (c ∷ s) = not (is_space c) && all_visible s

abbrev pub is_word : Text → Bool
is_word w = not (null w) && all_visible w

not-and : (a b : Bool) → (not a && b) ≡ true → (a ≡ false) × (b ≡ true)
not-and true b h = absurd (false≢true h)
not-and false b h = (refl, h)

NoSpace-of_all_visible : (s : Text) → all_visible s ≡ true → NoSpace s
NoSpace-of_all_visible [] h = tt
NoSpace-of_all_visible (c ∷ s) h =
    let (e, hs) = not-and (is_space c) (all_visible s) h in (e, NoSpace-of_all_visible s hs)

pub IsWord-of_is_word : (w : Text) → is_word w ≡ true → IsWord w
IsWord-of_is_word [] h = absurd (false≢true h)
IsWord-of_is_word (c ∷ s) h = NoSpace-of_all_visible (c ∷ s) h
