-- ===== src/Client/Parse/Print.antt =====
-- A frame that is written line by line is read back by `parse_frame` (src/client.rs).
use mathlib.Core.List.{append_assoc, append-nil}
use opencode_beacon.Prelude.{
  ℕ, true, false, Option, none, some, List, [], ◌∷◌, ◌++◌, map, eqb, any, ◌≡◌, refl, sym, ◌∙◌, ap,
  arith,
}
use opencode_beacon.Prelude.Chars.{Chars, is_empty, lines}
use opencode_beacon.Prelude.Chars.Parts.{lacks}
use opencode_beacon.Prelude.Chars.Lines.{lines_step, lines_last}
use opencode_beacon.Prelude.Order.{codes}
use opencode_beacon.Model.{WireEvent}
use opencode_beacon.Client.Parse.{
  cr, lf, Decoded, ok, err, json, Fields, is_utf8, replace_crlf, replace_cr, normalized, read_field,
  read_line, read_lines, join_lines, parse_fields, parse_frame, is_message, no_data,
}

-- The line endings that a server may write.
pub data LineEnd : Type 0 where
  lf_end cr_end crlf_end : LineEnd

abbrev pub end_bytes : LineEnd → Chars
end_bytes lf_end = lf ∷ []
end_bytes cr_end = cr ∷ []
end_bytes crlf_end = cr ∷ lf ∷ []

-- A line of data as a server writes it.
abbrev pub data_line : Chars → Chars
data_line text = codes "data: " ++ text

-- The frame with the given lines of data; the last line's end belongs to the delimiter.
unfoldable pub print_frame : Chars → List (LineEnd × Chars) → Chars
print_frame text [] = data_line text
print_frame text ((e, next) ∷ more) = data_line text ++ (end_bytes e ++ print_frame next more)

-- The same with line feeds only.
print_lines : Chars → List (LineEnd × Chars) → Chars
print_lines text [] = data_line text
print_lines text ((e, next) ∷ more) = data_line text ++ (lf ∷ print_lines next more)

-- A text without line endings.
abbrev pub IsLine : Chars → Type 0
IsLine text = (lacks lf text ≡ true) × (lacks cr text ≡ true)

abbrev pub AreLines : List (LineEnd × Chars) → Type 0
AreLines [] = Unit
AreLines ((e, text) ∷ more) = IsLine text × AreLines more

crlf_other : (c : ℕ) (r : Chars) → eqb c cr ≡ false → replace_crlf (c ∷ r) ≡ c ∷ replace_crlf r
unfolding replace_crlf
crlf_other c [] h = refl
crlf_other c (d ∷ r) h = rw (h, replace_crlf) refl

crlf_line : (l r : Chars) → lacks cr l ≡ true → replace_crlf (l ++ r) ≡ l ++ replace_crlf r
unfolding any
crlf_line [] r h = refl
crlf_line (c ∷ l) r h =
    crlf_other c (l ++ r) (ground (arith, h)) ∙ ap (λ s. c ∷ s) (crlf_line l r (ground (arith, h)))

cr_line : (l r : Chars) → lacks cr l ≡ true → replace_cr (l ++ r) ≡ l ++ replace_cr r
unfolding any replace_cr
cr_line [] r h = refl
cr_line (c ∷ l) r h =
    let other : eqb c cr ≡ false = ground (arith, h) in
    rw (other, replace_cr) (ap (λ s. c ∷ s) (cr_line l r (ground (arith, h))))

lacks-data_line :
    (sep : ℕ) (l : Chars)
    → lacks sep (codes "data: ") ≡ true
    → lacks sep l ≡ true
    → lacks sep (data_line l) ≡ true
unfolding any
lacks-data_line sep l a b = ground (arith, a, b)

data_lacks : (lacks cr (codes "data: ") ≡ true) × (lacks lf (codes "data: ") ≡ true)
unfolding any
data_lacks = (refl, refl)

normal_last : (l : Chars) → lacks cr l ≡ true → normalized l ≡ l
unfolding normalized replace_crlf replace_cr
normal_last l h =
    ap (λ s. replace_cr (replace_crlf s)) (sym (append-nil l))
    ∙ ap replace_cr (crlf_line l [] h)
    ∙ cr_line l [] h
    ∙ append-nil l

-- A line ending becomes a line feed, in front of a byte that is none.
normal_end :
    (e : LineEnd) (c : ℕ) (r : Chars)
    → eqb c lf ≡ false
    → normalized (end_bytes e ++ (c ∷ r)) ≡ lf ∷ normalized (c ∷ r)
unfolding normalized replace_crlf replace_cr
normal_end lf_end c r h = refl
normal_end cr_end c r h = rw (h, replace_crlf, replace_cr) refl
normal_end crlf_end c r h = refl

normal_line : (l r : Chars) → lacks cr l ≡ true → normalized (l ++ r) ≡ l ++ normalized r
unfolding normalized
normal_line l r h = ap replace_cr (crlf_line l r h) ∙ cr_line l (replace_crlf r) h

starts_d :
    (text : Chars) (more : List (LineEnd × Chars)) → (r : Chars) × (print_frame text more ≡ 100 ∷ r)
unfolding print_frame
starts_d text [] = (codes "ata: " ++ text, refl)
starts_d text ((e, next) ∷ more) =
    (codes "ata: " ++ text ++ (end_bytes e ++ print_frame next more), refl)

normal_print :
    (text : Chars) (more : List (LineEnd × Chars))
    → IsLine text
    → AreLines more
    → normalized (print_frame text more) ≡ print_lines text more
unfolding print_frame print_lines
normal_print text [] h a = normal_last (data_line text) (lacks-data_line cr text data_lacks.0 h.1)
normal_print text ((e, next) ∷ more) h a =
    let (r, starts) = starts_d next more in
    normal_line (data_line text) (end_bytes e ++ print_frame next more)
      (lacks-data_line cr text data_lacks.0 h.1)
    ∙ ap (λ s. data_line text ++ s)
        (ap (λ s. normalized (end_bytes e ++ s)) starts
          ∙ normal_end e 100 r refl
          ∙ ap (λ s. lf ∷ normalized s) (sym starts)
          ∙ ap (λ s. lf ∷ s) (normal_print next more a.0 a.1))

-- The texts of the lines.
abbrev pub texts : List (LineEnd × Chars) → List Chars
texts [] = []
texts ((e, text) ∷ more) = text ∷ texts more

lines_print :
    (text : Chars) (more : List (LineEnd × Chars))
    → IsLine text
    → AreLines more
    → lines (print_lines text more) ≡ map data_line (text ∷ texts more)
unfolding print_lines is_empty
lines_print text [] h a =
    lines_last (data_line text) (lacks-data_line lf text data_lacks.1 h.0) refl
lines_print text ((e, next) ∷ more) h a =
    lines_step (data_line text) (print_lines next more) (lacks-data_line lf text data_lacks.1 h.0)
      (lacks-data_line cr text data_lacks.0 h.1)
    ∙ ap (λ ls. data_line text ∷ ls) (lines_print next more a.0 a.1)

read_data_line :
    (text : Chars) (f : Fields)
    → read_line (data_line text) f ≡ record f { data_ = f.data_ ++ (text ∷ []) }
unfolding read_line read_field
read_data_line text f = refl

read_data_lines :
    (ls : List Chars) (f : Fields)
    → read_lines (map data_line ls) f ≡ record f { data_ = f.data_ ++ ls }
unfolding read_lines
read_data_lines [] f = ap (λ d. record f { data_ = d }) (sym (append-nil f.data_))
read_data_lines (l ∷ ls) f =
    ap (read_lines (map data_line ls)) (read_data_line l f)
    ∙ read_data_lines ls (record f { data_ = f.data_ ++ (l ∷ []) })
    ∙ ap (λ d. record f { data_ = d }) (append_assoc f.data_ (l ∷ []) ls)

module _ {V : Type 0} (from_str : Chars → Option (WireEvent V)) where
  -- The event of a text, or the error.
  abbrev pub decoded_text : Chars → Decoded (Option (WireEvent V))
  decoded_text text = elim (from_str text) [ none ↦ err json | some e ↦ ok (some e) ]

  parse_utf8 :
      (frame : Chars)
      → is_utf8 frame ≡ true
      → parse_frame from_str frame
        ≡ parse_fields from_str
            (read_lines (lines (normalized frame)) (record { wire_event = none; data_ = [] }))
  unfolding parse_frame
  parse_utf8 frame utf = rw (utf, parse_frame) refl

  parse_data :
      (text : Chars) (more : List Chars)
      → parse_fields from_str (record { wire_event = none; data_ = text ∷ more })
        ≡ decoded_text (join_lines (text ∷ more))
  unfolding parse_fields is_message no_data
  parse_data text more = refl

  -- A frame that is written as lines of data, with any mixture of line endings, is read back as the
  -- event in the text of those lines, joined by line feeds, or as the error of its JSON; the frame is
  -- UTF-8 and the lines have no line endings within.
  pub parse-print_frame :
      (text : Chars) (more : List (LineEnd × Chars))
      → IsLine text
      → AreLines more
      → is_utf8 (print_frame text more) ≡ true
      → parse_frame from_str (print_frame text more) ≡ decoded_text (join_lines (text ∷ texts more))
  parse-print_frame text more h a utf =
      let start : Fields = record { wire_event = none; data_ = [] } in
      parse_utf8 (print_frame text more) utf
      ∙ ap (λ s. parse_fields from_str (read_lines (lines s) start)) (normal_print text more h a)
      ∙ ap (λ ls. parse_fields from_str (read_lines ls start)) (lines_print text more h a)
      ∙ ap (parse_fields from_str) (read_data_lines (text ∷ texts more) start)
      ∙ parse_data text (texts more)
