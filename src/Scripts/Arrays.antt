-- ===== src/Scripts/Arrays.antt =====
-- What PowerShell reads of the arrays that psStringArray writes, by the rules of its strings.
use mathlib.Core.List.{append_assoc, append-nil}
use open_v_center_agent_hype.Base.{
  ℕ, ◌≡◌, refl, Bool, true, not, ◌&&◌, ◌||◌, Option, none, some, List, [], ◌∷◌, ◌++◌, if◌then◌else◌,
  nat_eq, leb, Text, arith, ap, ◌∙◌, sym,
}
use open_v_center_agent_hype.Scripts.{
  escape_ps_single_quoted, ps_string_array, kept, quoted_all, joined,
}

-- The quotes that PowerShell takes for a single quote.
abbrev is_single_quote : ℕ → Bool
is_single_quote c = nat_eq c 39 || (leb 8216 c && leb c 8219)

-- Where the reader of an array stands: after its opening bracket, after a comma, in a string, or after a
-- quote in a string.
pub data Place : Type 0 where
  start comma inside at_quote : Place

-- The strings of the rest of the array, with a code point before the first.
abbrev prepend : ℕ → Option (List Text) → Option (List Text)
prepend c none = none
prepend c (some []) = none
prepend c (some (s ∷ ss)) = some ((c ∷ s) ∷ ss)

abbrev closed : Option (List Text) → Option (List Text)
closed none = none
closed (some ss) = some ([] ∷ ss)

abbrev at_end : Text → Option (List Text)
at_end [] = some []
at_end (c ∷ cs) = none

-- In a string, the first text is what is left of it.
unfoldable pub read_strings : Place → Text → Option (List Text)
read_strings _ [] = none
read_strings start (c ∷ cs) =
    let rest = read_strings inside cs in
    if nat_eq c 41 then at_end cs else if is_single_quote c then rest else none
read_strings comma (c ∷ cs) =
    let rest = read_strings inside cs in if is_single_quote c then rest else none
read_strings inside (c ∷ cs) =
    let close = read_strings at_quote cs in
    let next = read_strings inside cs in if is_single_quote c then close else prepend c next
read_strings at_quote (c ∷ cs) =
    let next = read_strings inside cs in
    let more = read_strings comma cs in
    if is_single_quote c
    then prepend c next
    else if nat_eq c 44
    then closed more
    else if nat_eq c 41
    then closed (at_end cs)
    else none

-- An array, with its "@(".
unfoldable pub read_array : Text → Option (List Text)
read_array [] = none
read_array (c ∷ []) = none
read_array (c ∷ d ∷ cs) = if nat_eq c 64 && nat_eq d 40 then read_strings start cs else none

-- No quote but the plain one.
abbrev pub is_plain : Text → Bool
is_plain [] = true
is_plain (c ∷ cs) = (nat_eq c 39 || not (is_single_quote c)) && is_plain cs

abbrev pub are_plain : List Text → Bool
are_plain [] = true
are_plain (t ∷ ts) = is_plain t && are_plain ts

-- A first text before the strings of the rest.
abbrev join_text : Text → Option (List Text) → Option (List Text)
join_text t none = none
join_text t (some []) = none
join_text t (some (s ∷ ss)) = some ((t ++ s) ∷ ss)

prepend-join_text :
    (c : ℕ) (t : Text) (o : Option (List Text)) → prepend c (join_text t o) ≡ join_text (c ∷ t) o
prepend-join_text c t none = refl
prepend-join_text c t (some []) = refl
prepend-join_text c t (some (s ∷ ss)) = refl

join_text-empty : (o : Option (List Text)) → join_text [] (closed o) ≡ closed o
join_text-empty none = refl
join_text-empty (some ss) = refl

-- A string that is written is read, up to the quote after it.
read_quoted :
    (t more : Text) (o : Option (List Text))
    → is_plain t ≡ true
    → read_strings at_quote more ≡ closed o
    → read_strings inside (escape_ps_single_quoted t ++ (39 ∷ more)) ≡ join_text t (closed o)
unfolding read_strings escape_ps_single_quoted
read_quoted [] more o h e = e ∙ sym (join_text-empty o)
read_quoted (c ∷ t) more o h e =
    let tail = read_quoted t more o (ground (arith, h)) e in
    rw (sym (prepend-join_text c t (closed o))) (ground (arith, h, tail))

-- The rest of an array, after the quote that closes a string.
abbrev after_string : List Text → Text
after_string [] = 41 ∷ []
after_string (t ∷ ts) = 44 ∷ 39 ∷ (escape_ps_single_quoted t ++ (39 ∷ after_string ts))

read_all :
    (t : Text) (ts : List Text)
    → is_plain t ≡ true
    → are_plain ts ≡ true
    → read_strings inside (escape_ps_single_quoted t ++ (39 ∷ after_string ts)) ≡ some (t ∷ ts)
unfolding read_strings
read_all t [] h hs =
    rw (read_quoted t (41 ∷ []) (some []) h refl) (ap (λ x. some (x ∷ [])) (append-nil t))
read_all t (u ∷ us) h hs =
    let tail = read_all u us (ground (arith, hs)) (ground (arith, hs)) in
    rw (read_quoted t (after_string (u ∷ us)) (some (u ∷ us)) h (ap closed tail))
      (ap (λ x. some (x ∷ u ∷ us)) (append-nil t))

written :
    (t : Text) (ts : List Text)
    → joined (quoted_all (t ∷ ts)) ++ (41 ∷ [])
      ≡ 39 ∷ (escape_ps_single_quoted t ++ (39 ∷ after_string ts))
written t [] = ap (λ x. 39 ∷ x) (append_assoc (escape_ps_single_quoted t) (39 ∷ []) (41 ∷ []))
written t (u ∷ us) =
    let e = escape_ps_single_quoted t in
    let rest = joined (quoted_all (u ∷ us)) in
    ap (λ x. 39 ∷ x)
      (append_assoc (e ++ (39 ∷ [])) (44 ∷ rest) (41 ∷ [])
        ∙ append_assoc e (39 ∷ []) (44 ∷ (rest ++ (41 ∷ [])))
        ∙ ap (λ x. e ++ (39 ∷ 44 ∷ x)) (written u us))

arrays :
    (ts : List Text)
    → are_plain ts ≡ true
    → read_strings start (joined (quoted_all ts) ++ (41 ∷ [])) ≡ some ts
unfolding read_strings
arrays [] h = refl
arrays (t ∷ ts) h = rw (written t ts) (read_all t ts (ground (arith, h)) (ground (arith, h)))

-- The array that is written of a list of paths is read back as the list of the paths that are not empty,
-- each trimmed, if none of these holds a typographic single quote.
pub read_array-ps_string_array :
    (paths : List Text)
    → are_plain (kept paths) ≡ true
    → read_array (ps_string_array paths) ≡ some (kept paths)
unfolding read_array ps_string_array
read_array-ps_string_array paths h = arrays (kept paths) h
