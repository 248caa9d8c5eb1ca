-- ===== src/Ekf/Validation/IndexText.antt =====
-- The tangent index can be read back from the generated header.
use infinity_autopilot.Prelude.{
  ℕ, zero, suc, ◌==◌, ◌≡◌, refl, ap, ap₂, ◌∙◌, List, [], ◌∷◌, ◌++◌, append_assoc, append-nil, map,
  Bool, true, false, if◌then◌else◌, arith,
}
use infinity_autopilot.Text.{Text, codes, concat, lines, starts_with, OneLine}
use infinity_autopilot.Text.Laws.{OneLine-++, lines-line, OneLine-of_one_line}
use infinity_autopilot.Text.Decimal.{decimal, AllDigits, decimal-AllDigits, number, number-decimal}
use infinity_autopilot.Ekf.Layout.{IdxDof, total_tangent_dim}
use infinity_autopilot.Ekf.StateHeader.{Field, kind_of, index_line, build_tangent_state_struct}

-- What stands before the first brace, and behind it.
abbrev pub at_brace : Text → Text × Text
at_brace [] = ([], [])
at_brace (c ∷ s) = let rest = at_brace s in if c == b'{' then ([], s) else (c ∷ rest.0, rest.1)

abbrev pub drop : ℕ → Text → Text
drop zero s = s
drop (suc n) [] = []
drop (suc n) (c ∷ s) = drop n s

abbrev pub prefix : Text
prefix = codes "\tstatic constexpr IdxDof "

-- The two numbers of a line.
abbrev pub read_range : Text → IdxDof
read_range s =
    let first = number 0 s in record { idx = first.0; dof = (number 0 (drop 2 first.1)).0 }

abbrev pub read_entry : Text → Text × IdxDof
read_entry line = let (key, rest) = at_brace (drop 25 line) in (key, read_range rest)

-- The entries of the lines that begin as an entry does.
abbrev pub read_entries : List Text → List (Text × IdxDof)
read_entries [] = []
read_entries (l ∷ ls) =
    let rest = read_entries ls in if starts_with l prefix then read_entry l ∷ rest else rest

-- A key of the state stands on one line and holds no brace.
abbrev IsKey : Text → Type 0
IsKey [] = Unit
IsKey (c ∷ s) = ((c == 10) ≡ false) × ((c == 13) ≡ false) × ((c == b'{') ≡ false) × IsKey s

abbrev pub is_key : Text → Bool
is_key [] = true
is_key (c ∷ s) =
    if c == 10 then false else if c == 13 then false else if c == b'{' then false else is_key s

IsKey-of_is_key : (key : Text) → is_key key ≡ true → IsKey key
IsKey-of_is_key [] h = tt
IsKey-of_is_key (c ∷ s) h =
    (ground arith, ground arith, ground arith, IsKey-of_is_key s (ground arith))

abbrev pub AllKeys : List (Text × IdxDof) → Type 0
AllKeys [] = Unit
AllKeys (e ∷ es) = (is_key e.0 ≡ true) × AllKeys es

IsKey-OneLine : (key : Text) → IsKey key → OneLine key
IsKey-OneLine [] h = tt
IsKey-OneLine (c ∷ s) (a, b, d, h) = (a, b, IsKey-OneLine s h)

AllDigits-OneLine : (t : Text) → AllDigits t → OneLine t
AllDigits-OneLine [] h = tt
AllDigits-OneLine (c ∷ s) (a, h) = (ground arith, ground arith, AllDigits-OneLine s h)

decimal-OneLine : (n : ℕ) → OneLine (decimal n)
decimal-OneLine n = AllDigits-OneLine (decimal n) (decimal-AllDigits n)

at_brace-key : (key s : Text) → IsKey key → at_brace (key ++ b'{' ∷ s) ≡ (key, s)
at_brace-key [] s h = refl
at_brace-key (c ∷ key) s (a, b, d, h) = rw (d, at_brace-key key s h) refl

-- A line without its end.
abbrev entry_body : Text × IdxDof → Text
entry_body (key, range) =
    prefix ++ (key ++ b'{' ∷ (decimal range.idx ++ b',' ∷ 32 ∷ (decimal range.dof ++ codes "};")))

index_line-entry_body : (e : Text × IdxDof) → index_line e ≡ entry_body e ++ codes "\n"
index_line-entry_body (key, range) = simp append_assoc refl

entry_body-OneLine : (e : Text × IdxDof) → IsKey e.0 → OneLine (entry_body e)
entry_body-OneLine (key, range) h = OneLine-++ prefix _ (OneLine-of_one_line prefix refl) (
    OneLine-++ key _ (IsKey-OneLine key h) (
      refl,
      refl,
      OneLine-++ (decimal range.idx) _ (decimal-OneLine range.idx) (
        refl,
        refl,
        (
          refl,
          refl,
          OneLine-++ (decimal range.dof) (codes "};") (decimal-OneLine range.dof)
              (OneLine-of_one_line (codes "};") refl),
        ),
      ),
    ))

read_entry-text :
    (key : Text) (idx dof : ℕ) (s : Text)
    → IsKey key
    → read_entry (prefix ++ (key ++ b'{' ∷ (decimal idx ++ b',' ∷ 32 ∷ (decimal dof ++ b'}' ∷ s))))
      ≡ (key, record { idx = idx; dof = dof })
read_entry-text key idx dof s h =
    rw
      (
        at_brace-key key (decimal idx ++ b',' ∷ 32 ∷ (decimal dof ++ b'}' ∷ s)) h,
        number-decimal idx b',' (32 ∷ (decimal dof ++ b'}' ∷ s)) refl,
        number-decimal dof b'}' s refl,
      )
      refl

read_entry-entry_body :
    (e : Text × IdxDof) → IsKey e.0 → read_entry (entry_body e ++ codes "\n") ≡ e
read_entry-entry_body (key, range) h =
    ap read_entry assoc ∙ read_entry-text key range.idx range.dof (codes ";\n") h
  where
    assoc :
        entry_body (key, range) ++ codes "\n"
        ≡ prefix
          ++ (key ++ b'{' ∷ (decimal range.idx ++ b',' ∷ 32 ∷ (decimal range.dof ++ codes "};\n")))
    assoc = simp append_assoc refl

-- The entries stand first among the lines.
read_entries-index_line :
    (index : List (Text × IdxDof)) (s : Text)
    → AllKeys index
    → read_entries (lines (concat (map index_line index) ++ s)) ≡ index ++ read_entries (lines s)
read_entries-index_line [] s h = refl
read_entries-index_line (e ∷ es) s (k, hs) =
    let h = IsKey-of_is_key e.0 k in
    ap (λ t. read_entries (lines t)) assoc
    ∙ ap read_entries
        (lines-line (entry_body e) (concat (map index_line es) ++ s) (entry_body-OneLine e h))
    ∙ ap₂ (λ a b. a ∷ b) (read_entry-entry_body e h) (read_entries-index_line es s hs)
  where
    assoc :
        concat (map index_line (e ∷ es)) ++ s
        ≡ entry_body e ++ 10 ∷ (concat (map index_line es) ++ s)
    assoc =
        ap (λ l. l ++ concat (map index_line es) ++ s) (index_line-entry_body e)
        ∙ simp append_assoc refl

abbrev size_body : ℕ → Text
size_body n = codes "\tstatic constexpr uint8_t size{" ++ (decimal n ++ codes "};")

-- The line of the size and the last line are no entries.
read_entries-size : (n : ℕ) → read_entries (lines (size_body n ++ 10 ∷ codes "};\n")) ≡ []
read_entries-size n = ap read_entries (
    lines-line (size_body n) (codes "};\n") (
      OneLine-++ (codes "\tstatic constexpr uint8_t size{") _
        (OneLine-of_one_line (codes "\tstatic constexpr uint8_t size{") refl)
        (OneLine-++ (decimal n) (codes "};") (decimal-OneLine n)
          (OneLine-of_one_line (codes "};") refl))))

-- When each key stands on one line and holds no brace, the entries that the lines of the generated
-- namespace hold are the tangent index: its keys, each with its index and its dimension.
pub read_entries-build_tangent_state_struct :
    (state : List Field) (tangent_state_index : List (Text × IdxDof))
    → AllKeys tangent_state_index
    → read_entries (lines (build_tangent_state_struct state tangent_state_index))
      ≡ tangent_state_index
unfolding build_tangent_state_struct
read_entries-build_tangent_state_struct state index h =
    ap (λ t. read_entries (lines t)) assoc
    ∙ read_entries-index_line index (size_body size ++ 10 ∷ codes "};\n") h
    ∙ ap (λ es. index ++ es) (read_entries-size size)
    ∙ append-nil index
  where
    size : ℕ
    size = total_tangent_dim (map kind_of state)

    assoc :
        concat (map index_line index)
          ++ codes "\tstatic constexpr uint8_t size{"
          ++ decimal size
          ++ codes "};\n"
          ++ codes "};\n"
        ≡ concat (map index_line index) ++ (size_body size ++ 10 ∷ codes "};\n")
    assoc = simp append_assoc refl
