-- ===== src/Memory/Parse.antt =====
-- The parsers of src/memory.rs: `parse_start_time`, `parse_unified_cgroup`, `parse_memory_stat`.
pub mod Safe
use opencode_beacon.Prelude.{
  ℕ, zero, suc, Bool, true, false, Option, none, some, List, [], ◌∷◌, ◌++◌, map, filter, any, not,
  ◌&&◌, ◌||◌, eqb, ltb, if◌then◌else◌, length, is_some, ◌≡◌, refl, arith,
}
use opencode_beacon.Prelude.Chars.{
  Chars, chars_eq, chars_eq_iff, split, split_whitespace, lines, parse_number, u64_max, is_absolute,
  components,
}
use opencode_beacon.Prelude.Table.{Key, Table, lookup, insert}
use opencode_beacon.Prelude.Files.{
  ErrorKind, file_missing, invalid_data, IoResult, done, failed, and_then, or_invalid, FilePath,
  below,
}

-- `rfind`, and the text after the place that it finds
unfoldable pub after_last : ℕ → Chars → Option Chars
after_last sep [] = none
after_last sep (c ∷ cs) = elim (after_last sep cs) [
  | none ↦ if eqb c sep then some cs else none
  | some rest ↦ some rest
]

abbrev pub nth : List Chars → ℕ → Option Chars
nth [] n = none
nth (x ∷ xs) zero = some x
nth (x ∷ xs) (suc n) = nth xs n

abbrev pub parse_u64 : Chars → IoResult ℕ
parse_u64 s = or_invalid (parse_number u64_max s)

-- The twentieth field after the command of a `stat` file; ")" is 41.
unfoldable pub parse_start_time : Chars → IoResult ℕ
unfolding after_last split_whitespace parse_number
parse_start_time contents = and_then (or_invalid (after_last 41 contents)) (λ rest.
    let fields = split_whitespace rest in
    if ltb (length fields) 20
    then failed invalid_data
    else and_then (or_invalid (nth fields 19)) parse_u64)

-- `split_once`: the text before and after the first separator
unfoldable pub split_once : ℕ → Chars → Option (Chars × Chars)
split_once sep [] = none
split_once sep (c ∷ cs) =
    let rest = split_once sep cs in
    if eqb c sep then some ([], cs) else elim rest [ none ↦ none | some (a, b) ↦ some (c ∷ a, b) ]

-- `splitn(n, sep)`
unfoldable pub splitn : ℕ → ℕ → Chars → List Chars
unfolding split_once
splitn zero sep s = []
splitn (suc zero) sep s = s ∷ []
splitn (suc (suc n)) sep s = elim (split_once sep s) [
  | none ↦ s ∷ []
  | some (a, b) ↦ a ∷ splitn (suc n) sep b
]

abbrev is_text : Chars → Option Chars → Bool
is_text s none = false
is_text s (some t) = chars_eq t s

-- The line is the entry of the unified hierarchy: its first two fields are "0" and "".
unfoldable pub is_unified : Chars → Bool
unfolding splitn chars_eq
is_unified line =
    let fields = splitn 3 58 line in is_text (48 ∷ []) (nth fields 0) && is_text [] (nth fields 1)

-- The loop over the lines.
unfoldable pub unified_entry : Option Chars → List Chars → IoResult (Option Chars)
unfolding is_unified splitn
unified_entry unified [] = done unified
unified_entry unified (line ∷ ls) =
    let next = unified_entry (nth (splitn 3 58 line) 2) ls in
    let same = unified_entry unified ls in
    if is_unified line then if is_some unified then failed invalid_data else next else same

abbrev pub is_dots : Chars → Bool
is_dots s = chars_eq s (46 ∷ []) || chars_eq s (46 ∷ 46 ∷ [])

-- The loop over the components after the root: only normal ones are pushed.
unfoldable pub push_normal : List Chars → IoResult (List Chars)
unfolding chars_eq
push_normal [] = done []
push_normal (c ∷ cs) =
    let rest = push_normal cs in
    if chars_eq c (46 ∷ 46 ∷ [])
    then failed invalid_data
    else and_then rest (λ parts. done (c ∷ parts))

unfoldable pub relative_path : Chars → IoResult FilePath
unfolding any split chars_eq is_absolute components push_normal
relative_path path =
    if any is_dots (split 47 path)
    then failed invalid_data
    else if not (is_absolute path)
    then failed invalid_data
    else and_then (push_normal (components path)) (λ parts. done (below parts))

unfoldable pub parse_unified_cgroup : Chars → IoResult FilePath
unfolding lines unified_entry relative_path
parse_unified_cgroup contents =
    and_then (unified_entry none (lines contents))
      (λ unified. and_then (or_invalid unified) relative_path)

abbrev pub chars_key : Key Chars
chars_key = record { same = chars_eq; same_iff = chars_eq_iff }

-- "anon", "file" and "kernel"
abbrev pub anon_name : Chars
anon_name = 97 ∷ 110 ∷ 111 ∷ 110 ∷ []

abbrev pub file_name : Chars
file_name = 102 ∷ 105 ∷ 108 ∷ 101 ∷ []

abbrev pub kernel_name : Chars
kernel_name = 107 ∷ 101 ∷ 114 ∷ 110 ∷ 101 ∷ 108 ∷ []

unfoldable pub is_wanted : Chars → Bool
unfolding chars_eq
is_wanted name = chars_eq name anon_name || chars_eq name file_name || chars_eq name kernel_name

-- One line, by its fields: the table after it.
unfoldable pub stat_line : List Chars → Table Chars ℕ → IoResult (Table Chars ℕ)
unfolding is_wanted parse_number lookup insert
stat_line [] wanted = done wanted
stat_line (name ∷ fields) wanted =
    if not (is_wanted name)
    then done wanted
    else and_then (or_invalid (nth fields 0)) (λ text. and_then (parse_u64 text) (λ value.
      if is_some (nth fields 1) || is_some (lookup chars_key name wanted)
      then failed invalid_data
      else done (insert chars_key name value wanted)))

unfoldable pub stat_lines : List Chars → Table Chars ℕ → IoResult (Table Chars ℕ)
unfolding stat_line split_whitespace
stat_lines [] wanted = done wanted
stat_lines (line ∷ ls) wanted = and_then (stat_line (split_whitespace line) wanted) (stat_lines ls)

unfoldable pub parse_memory_stat : Chars → IoResult (ℕ × ℕ × ℕ)
unfolding stat_lines lines lookup
parse_memory_stat contents = and_then (stat_lines (lines contents) []) (λ wanted.
    and_then (or_invalid (lookup chars_key anon_name wanted)) (λ anon.
      and_then (or_invalid (lookup chars_key file_name wanted)) (λ file.
        and_then (or_invalid (lookup chars_key kernel_name wanted))
          (λ kernel. done (anon, file, kernel)))))
