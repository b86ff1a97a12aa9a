-- ===== src/Memory/Parse/Safe.antt =====
-- The path that `parse_unified_cgroup` returns stays below the directory that it is joined to
-- (src/memory.rs).
use opencode_beacon.Prelude.{
  Bool, true, false, none, List, [], ◌∷◌, any, not, ◌&&◌, if◌then◌else◌, ◌≡◌, refl, sym, ◌∙◌, ap,
  arith, Bool-cases, inl, inr,
}
use opencode_beacon.Prelude.Chars.{Chars, chars_eq, split, lines, is_absolute, components, is_empty}
use opencode_beacon.Prelude.Chars.Parts.{breaks, lacks, is_part, components-is_part}
use opencode_beacon.Prelude.Files.{
  done, failed, invalid_data, and_then, and_then-done, or_invalid, FilePath, below,
}
use opencode_beacon.Memory.Parse.{
  is_dots, push_normal, relative_path, unified_entry, parse_unified_cgroup,
}

-- A name of a file in a directory: not empty, not "." or "..", and without a slash.
abbrev pub is_plain : Chars → Bool
is_plain c = not (is_empty c) && not (is_dots c) && lacks 47 c

abbrev is_parent : Chars → Bool
is_parent c = chars_eq c (46 ∷ 46 ∷ [])

push_normal-cases :
    (c : Chars) (cs : List Chars)
    → push_normal (c ∷ cs) ≡ (
        if is_parent c
        then failed invalid_data
        else and_then (push_normal cs) (λ parts. done (c ∷ parts)))
unfolding push_normal
push_normal-cases c cs = refl

push_normal-nil : (ps : List Chars) → push_normal [] ≡ done ps → [] ≡ ps
unfolding push_normal
push_normal-nil ps h = ground (arith, h)

plain_cons :
    (c : Chars) (ps : List Chars)
    → is_parent c ≡ false
    → is_part c ≡ true
    → breaks is_plain ps ≡ false
    → breaks is_plain (c ∷ ps) ≡ false
unfolding any
plain_cons c ps a b h = ground (arith, a, b, h)

breaks-parts :
    (c : Chars) (cs : List Chars)
    → breaks is_part (c ∷ cs) ≡ false
    → (is_part c ≡ true) × (breaks is_part cs ≡ false)
unfolding any
breaks-parts c cs h = (ground (arith, h), ground (arith, h))

nothing_breaks : breaks is_plain [] ≡ false
unfolding any
nothing_breaks = refl

push_normal-plain :
    (cs ps : List Chars)
    → push_normal cs ≡ done ps
    → breaks is_part cs ≡ false
    → breaks is_plain ps ≡ false
push_normal-plain [] ps h b = sym (ap (breaks is_plain) (push_normal-nil ps h)) ∙ nothing_breaks
push_normal-plain (c ∷ cs) ps h b = elim (Bool-cases (is_parent c)) [
  | inl parent ↦ absurd (ground (arith, h, parent, push_normal-cases c cs))
  | inr other ↦
      let opened : and_then (push_normal cs) (λ parts. done (c ∷ parts)) ≡ done ps =
        ground (arith, h, other, push_normal-cases c cs) in
      let (parts, e, f) = and_then-done (push_normal cs) _ ps opened in
      let same : c ∷ parts ≡ ps = ground (arith, f) in
      let (part, rest) = breaks-parts c cs b in
      sym (ap (breaks is_plain) same)
      ∙ plain_cons c parts other part (push_normal-plain cs parts e rest)
]

relative_path-cases :
    (path : Chars)
    → relative_path path ≡ (
        if any is_dots (split 47 path)
        then failed invalid_data
        else if not (is_absolute path)
        then failed invalid_data
        else and_then (push_normal (components path)) (λ parts. done (below parts)))
unfolding relative_path
relative_path-cases path = refl

relative_path-plain :
    (path : Chars) (p : FilePath)
    → relative_path path ≡ done p
    → (p.rooted ≡ false) × (breaks is_plain p.parts ≡ false)
relative_path-plain path p h = elim (Bool-cases (any is_dots (split 47 path))) [
  | inl dots ↦ absurd (ground (arith, h, dots, relative_path-cases path))
  | inr clean ↦ elim (Bool-cases (is_absolute path)) [
    | inr relative ↦ absurd (ground (arith, h, clean, relative, relative_path-cases path))
    | inl absolute ↦
        let opened : and_then (push_normal (components path)) (λ parts. done (below parts))
            ≡ done p =
          ground (arith, h, clean, absolute, relative_path-cases path) in
        let (parts, e, f) = and_then-done (push_normal (components path)) _ p opened in
        let same : below parts ≡ p = ground (arith, f) in
        let plain =
          push_normal-plain (components path) parts e (components-is_part path absolute) in
        (sym (ap (λ x. x.rooted) same), sym (ap (λ x. breaks is_plain x.parts) same) ∙ plain)
  ]
]

parse_unified_cgroup-steps :
    (contents : Chars)
    → parse_unified_cgroup contents
      ≡ and_then
          (unified_entry none (lines contents))
          (λ unified. and_then (or_invalid unified) relative_path)
unfolding parse_unified_cgroup
parse_unified_cgroup-steps contents = refl

-- A control group path that is accepted is relative, and each of its components is the name of a
-- file in a directory: not empty, neither "." nor "..", and without a slash. So the path that is
-- joined to the root of the hierarchy cannot leave it.
pub parse_unified_cgroup_safe :
    (contents : Chars) (p : FilePath)
    → parse_unified_cgroup contents ≡ done p
    → (p.rooted ≡ false) × (breaks is_plain p.parts ≡ false)
parse_unified_cgroup_safe contents p h =
    let (unified, e, f) =
      and_then-done (unified_entry none (lines contents)) _ p
        (sym (parse_unified_cgroup-steps contents) ∙ h) in
    let (path, g, k) = and_then-done (or_invalid unified) relative_path p f in
    relative_path-plain path p k
