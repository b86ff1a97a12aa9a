-- ===== src/Client/Parse.antt =====
-- `parse_frame` (src/client.rs): one frame of the event stream. A text is the list of its bytes in
-- UTF-8, which is how `str` stores it; the errors keep their kind and not their details.
pub mod Print
use opencode_beacon.Prelude.{
  ℕ, Bool, true, false, Option, none, some, List, [], ◌∷◌, ◌++◌, ◌&&◌, ◌||◌, not, eqb, leb,
  if◌then◌else◌, ◌≡◌, refl,
}
use opencode_beacon.Prelude.Chars.{Chars, chars_eq, is_empty, lines}
use opencode_beacon.Prelude.Order.{codes}
use opencode_beacon.Model.{WireEvent}

pub data ClientError : Type 0 where
  json utf8 sse_frame_too_large : ClientError

pub data Decoded (A : Type 0) : Type 0 where
  ok : A → Decoded A
  err : ClientError → Decoded A

abbrev pub cr : ℕ
cr = 13

abbrev pub lf : ℕ
lf = 10

-- The ranges of the bytes that follow a first byte, in well-formed UTF-8.
following : ℕ → Option (List (ℕ × ℕ))
following b =
    let tail : ℕ × ℕ = (0x80, 0xbf) in
    if leb b 0x7f
    then some []
    else if leb 0xc2 b && leb b 0xdf
    then some (tail ∷ [])
    else if eqb b 0xe0
    then some ((0xa0, 0xbf) ∷ tail ∷ [])
    else if leb 0xe1 b && leb b 0xec
    then some (tail ∷ tail ∷ [])
    else if eqb b 0xed
    then some ((0x80, 0x9f) ∷ tail ∷ [])
    else if leb 0xee b && leb b 0xef
    then some (tail ∷ tail ∷ [])
    else if eqb b 0xf0
    then some ((0x90, 0xbf) ∷ tail ∷ tail ∷ [])
    else if leb 0xf1 b && leb b 0xf3
    then some (tail ∷ tail ∷ tail ∷ [])
    else if eqb b 0xf4
    then some ((0x80, 0x8f) ∷ tail ∷ tail ∷ [])
    else none

utf8_from : List (ℕ × ℕ) → List ℕ → Bool
unfolding following
utf8_from [] [] = true
utf8_from (r ∷ rs) [] = false
utf8_from (r ∷ rs) (b ∷ bs) = leb r.0 b && leb b r.1 && utf8_from rs bs
utf8_from [] (b ∷ bs) = elim (following b) [ none ↦ false | some rs ↦ utf8_from rs bs ]

-- Whether `std::str::from_utf8` succeeds.
unfoldable pub is_utf8 : List ℕ → Bool
unfolding utf8_from
is_utf8 bytes = utf8_from [] bytes

-- `text.replace("\r\n", "\n").replace('\r', "\n")`
unfoldable pub replace_crlf : Chars → Chars
replace_crlf [] = []
replace_crlf (c ∷ []) = c ∷ []
replace_crlf (c ∷ d ∷ cs) = elim (eqb c cr && eqb d lf) [
  | true ↦ lf ∷ replace_crlf cs
  | false ↦ c ∷ replace_crlf (d ∷ cs)
]

unfoldable pub replace_cr : Chars → Chars
replace_cr [] = []
replace_cr (c ∷ cs) = (if eqb c cr then lf else c) ∷ replace_cr cs

unfoldable pub normalized : Chars → Chars
unfolding replace_crlf replace_cr
normalized text = replace_cr (replace_crlf text)

-- `str::split_once(char)`
unfoldable pub split_once : ℕ → Chars → Option (Chars × Chars)
split_once sep [] = none
split_once sep (c ∷ cs) =
    let rest = split_once sep cs in
    if eqb c sep then some ([], cs) else elim rest [ none ↦ none | some s ↦ some (c ∷ s.0, s.1) ]

abbrev pub colon : ℕ
colon = 58

-- `value.strip_prefix(' ').unwrap_or(value)`
abbrev pub strip_space : Chars → Chars
strip_space [] = []
strip_space (c ∷ cs) = if eqb c 32 then cs else c ∷ cs

abbrev pub starts_with : ℕ → Chars → Bool
starts_with c [] = false
starts_with c (d ∷ ds) = eqb c d

pub record Fields : Type 0 where
  pub wire_event : Option Chars
  pub data_ : List Chars

unfoldable pub read_field : Chars → Chars → Fields → Fields
unfolding chars_eq
read_field field value f =
    if chars_eq field (codes "event")
    then record f { wire_event = some value }
    else if chars_eq field (codes "data")
    then record f { data_ = f.data_ ++ (value ∷ []) }
    else f

unfoldable pub read_line : Chars → Fields → Fields
unfolding split_once read_field is_empty
read_line line f =
    if starts_with colon line || is_empty line then f else elim (split_once colon line) [
      | none ↦ read_field line [] f
      | some s ↦ read_field s.0 (strip_space s.1) f
    ]

unfoldable pub read_lines : List Chars → Fields → Fields
unfolding read_line
read_lines [] f = f
read_lines (line ∷ ls) f = read_lines ls (read_line line f)

-- `data.join("\n")`
unfoldable pub join_lines : List Chars → Chars
join_lines [] = []
join_lines (l ∷ []) = l
join_lines (l ∷ m ∷ ls) = l ++ (lf ∷ join_lines (m ∷ ls))

-- `matches!(wire_event, None | Some("message"))`
unfoldable pub is_message : Option Chars → Bool
unfolding chars_eq
is_message none = true
is_message (some name) = chars_eq name (codes "message")

unfoldable pub no_data : List Chars → Bool
no_data [] = true
no_data (l ∷ ls) = false

-- `serde_json::from_str` on an event is the parameter.
module _ {V : Type 0} (from_str : Chars → Option (WireEvent V)) where
  unfoldable pub parse_fields : Fields → Decoded (Option (WireEvent V))
  unfolding is_message no_data join_lines
  parse_fields f =
      if not (is_message f.wire_event) || no_data f.data_
      then ok none
      else elim (from_str (join_lines f.data_)) [ none ↦ err json | some e ↦ ok (some e) ]

  unfoldable pub parse_frame : List ℕ → Decoded (Option (WireEvent V))
  unfolding is_utf8 normalized lines read_lines parse_fields
  parse_frame frame =
      if is_utf8 frame
      then parse_fields
          (read_lines (lines (normalized frame)) (record { wire_event = none; data_ = [] }))
      else err utf8

-- What comes of a frame.
pub data ParseCase {A : Type 0} (d : Decoded (Option A)) : Type 0 where
  failed : (e : ClientError) → d ≡ err e → ParseCase d
  silent : d ≡ ok none → ParseCase d
  spoke : (a : A) → d ≡ ok (some a) → ParseCase d

pub parse_cases : {A : Type 0} (d : Decoded (Option A)) → ParseCase d
parse_cases (err e) = failed e refl
parse_cases (ok none) = silent refl
parse_cases (ok (some a)) = spoke a refl
