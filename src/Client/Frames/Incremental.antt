-- ===== src/Client/Frames/Incremental.antt =====
-- The search for the end of a frame resumes where it stopped (`search_from` in src/client.rs).
use mathlib.Core.List.{append_assoc}
use mathlib.Core.Logic.{◌≢◌}
use opencode_beacon.Prelude.{
  ℕ, zero, suc, ◌+◌, ◌-◌, ◌≤◌, Bool, true, false, Option, none, some, List, [], ◌∷◌, ◌++◌, eqb, leb,
  length, is_some, ◌≡◌, refl, sym, ◌∙◌, ap, arith, Bool-cases, Option-cases, inl, inr, ◌⊎◌,
}
use opencode_beacon.Client.Parse.{cr, lf}
use opencode_beacon.Client.Frames.{
  drop, take, Ending, other, waits, one, two, ending, scan, frame_end_from,
}

-- A byte that ends no line.
pub plain_ending :
    (c : ℕ) (n : Option ℕ) (b a : Bool)
    → eqb c cr ≡ false
    → eqb c lf ≡ false
    → ending c n b a ≡ other
unfolding ending
plain_ending c n b a x y = rw (x, y) refl

second_ending :
    (c : ℕ) (n : Option ℕ) (a : Bool)
    → (eqb c cr ≡ true) ⊎ (eqb c lf ≡ true)
    → ending c n true a ≡ one
unfolding ending
second_ending c n a (inl x) = rw x refl
second_ending c n a (inr x) = elim (Bool-cases (eqb c cr)) [
  | inl y ↦ rw y refl
  | inr y ↦ rw (x, y) refl
]

pub byte_cases :
    (c : ℕ) → (eqb c cr ≡ false × eqb c lf ≡ false) ⊎ ((eqb c cr ≡ true) ⊎ (eqb c lf ≡ true))
byte_cases c = elim (Bool-cases (eqb c cr)) [
  | inl x ↦ inr (inl x)
  | inr x ↦ elim (Bool-cases (eqb c lf)) [ inl y ↦ inr (inr y) | inr y ↦ inl (x, y) ]
]

-- A line ending right after another one is found.
pub finds :
    (c : ℕ) (xs : List ℕ) (position p : ℕ) (a : Bool)
    → (eqb c cr ≡ true) ⊎ (eqb c lf ≡ true)
    → scan (c ∷ xs) position (some p) a ≡ some (p, position + 1 - p)
unfolding scan
finds c [] position p a h = rw (second_ending c none a h, scan) refl
finds c (d ∷ xs) position p a h = rw (second_ending c (some d) a h, scan) refl

-- Any other byte makes the previous line ending irrelevant.
pub forgets_plain :
    (c : ℕ) (xs : List ℕ) (position p : ℕ) (a : Bool)
    → eqb c cr ≡ false
    → eqb c lf ≡ false
    → scan (c ∷ xs) position (some p) a ≡ scan (c ∷ xs) position none a
unfolding scan
forgets_plain c [] position p a x y =
    rw (plain_ending c none true a x y, plain_ending c none false a x y, scan) refl
forgets_plain c (d ∷ xs) position p a x y =
    rw (plain_ending c (some d) true a x y, plain_ending c (some d) false a x y, scan) refl

-- If the search went on past a byte, the line ending before it does not matter.
forgets :
    (c : ℕ) (xs ys : List ℕ) (position p q : ℕ) (a : Bool)
    → scan (c ∷ xs) position (some p) false ≡ none
    → scan (c ∷ ys) position (some q) a ≡ scan (c ∷ ys) position none a
forgets c xs ys position p q a h = elim (byte_cases c) [
  | inl (x, y) ↦ forgets_plain c ys position q a x y
  | inr ends ↦ absurd (let found = finds c xs position p false ends in ground (arith, h, found))
]

ending-allow : (c d : ℕ) (b a : Bool) → ending c (some d) b a ≡ ending c (some d) b false
unfolding ending
ending-allow c d b a = refl

pub data EndingCase (e : Ending) : Type 0 where
  is_other : e ≡ other → EndingCase e
  is_waiting : e ≡ waits → EndingCase e
  is_one : e ≡ one → EndingCase e
  is_two : e ≡ two → EndingCase e

pub ending_cases : (e : Ending) → EndingCase e
ending_cases other = is_other refl
ending_cases waits = is_waiting refl
ending_cases one = is_one refl
ending_cases two = is_two refl

last_allow :
    (c : ℕ) (position : ℕ) (previous : Option ℕ) (a : Bool)
    → scan (c ∷ []) position previous a ≡ scan (c ∷ []) position previous false
unfolding scan ending
last_allow c position none true = elim (byte_cases c) [
  | inl (x, y) ↦ rw (x, y, scan) refl
  | inr (inl x) ↦ rw (x, scan) refl
  | inr (inr x) ↦ elim (Bool-cases (eqb c cr)) [
    | inl y ↦ rw (y, scan) refl
    | inr y ↦ rw (y, x, scan) refl
  ]
]
last_allow c position (some p) true = refl
last_allow c position previous false = refl

-- The flag of a trailing carriage return never changes what the search finds.
pub scan-allow :
    (xs : List ℕ) (position : ℕ) (previous : Option ℕ) (a : Bool)
    → scan xs position previous a ≡ scan xs position previous false
unfolding scan
scan-allow [] position previous a = refl
scan-allow (c ∷ []) position previous a = last_allow c position previous a
scan-allow (c ∷ d ∷ xs) position previous a =
    let same = ending-allow c d (is_some previous) a in
    elim (ending_cases (ending c (some d) (is_some previous) false)) [
      | is_other e ↦ rw (same, e, scan) (scan-allow (d ∷ xs) (position + 1) none a)
      | is_waiting e ↦ rw (same, e, scan) refl
      | is_one e ↦ elim (Option-cases previous) [
        | inl f ↦ rw (same, e, f, scan) (scan-allow (d ∷ xs) (position + 1) (some position) a)
        | inr (p, f) ↦ rw (same, e, f, scan) refl
      ]
      | is_two e ↦ elim (Option-cases previous) [
        | inl f ↦ rw (same, e, f, scan) (scan-allow xs (position + 2) (some position) a)
        | inr (p, f) ↦ rw (same, e, f, scan) refl
      ]
    ]

-- What the search does with a byte that another one follows.
after_other :
    (c d : ℕ) (xs : List ℕ) (position : ℕ) (a : Bool)
    → ending c (some d) false false ≡ other
    → scan (c ∷ d ∷ xs) position none a ≡ scan (d ∷ xs) (position + 1) none a
unfolding scan
after_other c d xs position a e = rw (ending-allow c d false a, e, scan) refl

after_one :
    (c d : ℕ) (xs : List ℕ) (position : ℕ) (a : Bool)
    → ending c (some d) false false ≡ one
    → scan (c ∷ d ∷ xs) position none a ≡ scan (d ∷ xs) (position + 1) (some position) a
unfolding scan
after_one c d xs position a e = rw (ending-allow c d false a, e, scan) refl

after_two :
    (c d : ℕ) (xs : List ℕ) (position : ℕ) (a : Bool)
    → ending c (some d) false false ≡ two
    → scan (c ∷ d ∷ xs) position none a ≡ scan xs (position + 2) (some position) a
unfolding scan
after_two c d xs position a e = rw (ending-allow c d false a, e, scan) refl

never_waits : (c d : ℕ) (b a : Bool) → ending c (some d) b a ≢ waits
unfolding ending
never_waits c d b a = ground arith

two-lf : (c d : ℕ) → ending c (some d) false false ≡ two → eqb d lf ≡ true
unfolding ending
two-lf c d = ground arith

lf_one : (d e : ℕ) → eqb d lf ≡ true → ending d (some e) false false ≡ one
unfolding ending
lf_one d e = ground arith

-- A search that finds nothing can start over at the next byte, if two follow.
advances :
    (c d e : ℕ) (xs ys : List ℕ) (position : ℕ) (a : Bool)
    → scan (c ∷ d ∷ e ∷ xs) position none false ≡ none
    → (scan (d ∷ e ∷ xs) (position + 1) none false ≡ none)
      × (scan (c ∷ d ∷ e ∷ ys) position none a ≡ scan (d ∷ e ∷ ys) (position + 1) none a)
advances c d e xs ys position a h = elim (ending_cases (ending c (some d) false false)) [
  | is_other k ↦
      (sym (after_other c d (e ∷ xs) position false k) ∙ h, after_other c d (e ∷ ys) position a k)
  | is_waiting k ↦ absurd (never_waits c d false false k)
  | is_one k ↦
      let unfound = sym (after_one c d (e ∷ xs) position false k) ∙ h in
      (
        sym (forgets d (e ∷ xs) (e ∷ xs) (position + 1) position position false unfound) ∙ unfound,
        after_one c d (e ∷ ys) position a k
            ∙ forgets d (e ∷ xs) (e ∷ ys) (position + 1) position position a unfound,
      )
  | is_two k ↦
      let unfound : scan (e ∷ xs) (position + 2) (some position) false ≡ none =
        sym (after_two c d (e ∷ xs) position false k) ∙ h in
      let second = lf_one d e (two-lf c d k) in
      let to_next : (zs : List ℕ) (b : Bool)
          → scan (d ∷ e ∷ zs) (position + 1) none b ≡ scan (e ∷ zs) (position + 2) none b =
        λ zs b.
          after_one d e zs (position + 1) b second
          ∙ ap (λ n. scan (e ∷ zs) n (some (position + 1)) b) (omega arith)
          ∙ forgets e xs zs (position + 2) position (position + 1) b unfound in
      (
        to_next xs false
            ∙ sym (forgets e xs xs (position + 2) position position false unfound)
            ∙ unfound,
        after_two c d (e ∷ ys) position a k
            ∙ forgets e xs ys (position + 2) position position a unfound
            ∙ sym (to_next ys a),
      )
]

-- A search that finds nothing in a text, of which two bytes or more are left, can start over there.
resumes :
    (pre : List ℕ) (s t : ℕ) (xs ys : List ℕ) (position : ℕ) (a : Bool)
    → scan (pre ++ (s ∷ t ∷ xs)) position none false ≡ none
    → scan (pre ++ (s ∷ t ∷ ys)) position none a ≡ scan (s ∷ t ∷ ys) (position + length pre) none a
resumes [] s t xs ys position a h = ap (λ n. scan (s ∷ t ∷ ys) n none a) (omega arith)
resumes (c ∷ []) s t xs ys position a h = (advances c s t xs ys position a h).1
resumes (c ∷ d ∷ []) s t xs ys position a h =
    let (unfound, same) = advances c d s (t ∷ xs) (t ∷ ys) position a h in
    same
    ∙ (advances d s t xs ys (position + 1) a unfound).1
    ∙ ap (λ n. scan (s ∷ t ∷ ys) n none a) (omega arith)
resumes (c ∷ d ∷ e ∷ pre) s t xs ys position a h =
    let (unfound, same) = advances c d e (pre ++ (s ∷ t ∷ xs)) (pre ++ (s ∷ t ∷ ys)) position a h in
    same
    ∙ resumes (d ∷ e ∷ pre) s t xs ys (position + 1) a unfound
    ∙ ap (λ n. scan (s ∷ t ∷ ys) n none a) (omega arith)

drop_zero : {A : Type 0} (xs : List A) → drop 0 xs ≡ xs
unfolding drop
drop_zero [] = refl
drop_zero (x ∷ xs) = refl

take-drop : {A : Type 0} (n : ℕ) (xs : List A) → take n xs ++ drop n xs ≡ xs
unfolding take drop
take-drop n [] = refl
take-drop zero (x ∷ xs) = refl
take-drop (suc n) (x ∷ xs) = ap (λ ys. x ∷ ys) (take-drop n xs)

length-take : {A : Type 0} (n : ℕ) (xs : List A) → n ≤ length xs → length (take n xs) ≡ n
unfolding take
length-take n [] h = omega (arith, h)
length-take zero (x ∷ xs) h = refl
length-take (suc n) (x ∷ xs) h = omega (arith, length-take n xs (omega (arith, h)))

pub length-drop : {A : Type 0} (n : ℕ) (xs : List A) → length (drop n xs) ≡ length xs - n
unfolding drop
length-drop n [] = omega arith
length-drop zero (x ∷ xs) = omega arith
length-drop (suc n) (x ∷ xs) = omega (arith, length-drop n xs)

drop-append :
    {A : Type 0} (n : ℕ) (xs ys : List A) → n ≤ length xs → drop n (xs ++ ys) ≡ drop n xs ++ ys
unfolding drop
drop-append n [] ys h = let e : n ≡ 0 = omega (arith, h) in ap (λ k. drop k ys) e ∙ drop_zero ys
drop-append zero (x ∷ xs) ys h = refl
drop-append (suc n) (x ∷ xs) ys h = drop-append n xs ys (omega (arith, h))

-- The same where the text is cut in front of its last three bytes.
resumes_cut :
    (pre suf more : List ℕ) (a : Bool)
    → 2 ≤ length suf
    → scan (pre ++ suf) 0 none false ≡ none
    → scan (pre ++ (suf ++ more)) 0 none a ≡ scan (suf ++ more) (length pre) none a
resumes_cut pre [] more a long h = absurd (omega (arith, long))
resumes_cut pre (s ∷ []) more a long h = absurd (omega (arith, long))
resumes_cut pre (s ∷ t ∷ xs) more a long h =
    resumes pre s t xs (xs ++ more) 0 a h
    ∙ ap (λ n. scan (s ∷ t ∷ (xs ++ more)) n none a) (omega arith)

-- If there is no end of a frame in the bytes so far, then with more bytes the search from three
-- bytes before their end finds what the search from the start finds.
pub search_resumes :
    (prefix more : List ℕ) (a : Bool)
    → frame_end_from prefix 0 false ≡ none
    → frame_end_from (prefix ++ more) (length prefix - 3) a ≡ frame_end_from (prefix ++ more) 0 a
unfolding frame_end_from
search_resumes prefix more a h = elim (Bool-cases (leb 4 (length prefix))) [
  | inr short ↦
      let e : length prefix - 3 ≡ 0 = ground (arith, short) in
      ap (λ n. scan (drop n (prefix ++ more)) n none a) e
  | inl long ↦
      let n = length prefix - 3 in
      let pre = take n prefix in
      let suf = drop n prefix in
      let cut =
        resumes_cut pre suf more a (ground (arith, length-drop n prefix, long))
          (ap (λ xs. scan xs 0 none false) (take-drop n prefix ∙ sym (drop_zero prefix)) ∙ h) in
      ap (λ xs. scan xs n none a) (drop-append n prefix more (omega arith))
      ∙ ap (λ k. scan (suf ++ more) k none a) (sym (length-take n prefix (omega arith)))
      ∙ sym cut
      ∙ ap (λ xs. scan xs 0 none a)
          (sym (append_assoc pre suf more)
            ∙ ap (λ xs. xs ++ more) (take-drop n prefix)
            ∙ sym (drop_zero (prefix ++ more)))
]
