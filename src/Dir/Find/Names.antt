-- ===== src/Dir/Find/Names.antt =====
-- The names of a path in `lfs2_dir_find` of littlefs/lfs2.c, against the components of the path.
use mbed_littlefs.Base.{
  ℕ, zero, suc, ◌+◌, ◌-◌, ◌≤◌, ◌<◌, ◌≡◌, refl, sym, ap, ◌∙◌, arith, true, false, ◌==◌, Bool-cases,
  inl, inr, ◌⊎◌, List, [], ◌∷◌, ◌++◌, length, take, drop, length-drop, Option, none, some, Outcome,
  ok, err, abort, out_of_fuel,
}
use mathlib.Core.Path.{subst}
use mathlib.Core.List.{append_assoc, append-nil}
use mbed_littlefs.Dir.Find.Components.{
  flush, split, resolve, closed, HasNoDot, resolve-closed, resolve_plain, resolve_up,
  closed-HasNoDot,
}
use mbed_littlefs.Dir.Find.{
  slash, skip_slashes, name_length, is_dot, is_dotdot, match_suffix, match_next, next_name,
}

split_skip : (p : List ℕ) → split [] (skip_slashes p) ≡ split [] p
unfolding split skip_slashes
split_skip [] = refl
split_skip (b ∷ bs) = elim (Bool-cases (b == slash)) [
  | inl e ↦ rw e (split_skip bs)
  | inr e ↦ rw e (rw (e, split) refl)
]

split_name :
    (cur q : List ℕ)
    → split cur q ≡ flush (cur ++ take (name_length q) q) (split [] (drop (name_length q) q))
unfolding split name_length
split_name cur [] = ap (λ c. flush c []) (sym (append-nil cur))
split_name cur (b ∷ bs) = elim (Bool-cases (b == slash)) [
  | inl e ↦ rw e (rw (e, split) (ap (λ c. flush c (split [] bs)) (sym (append-nil cur))))
  | inr e ↦ rw e (
      split_name (cur ++ (b ∷ [])) bs
      ∙ ap (λ c. flush c (split [] (drop (name_length bs) bs)))
          (append_assoc cur (b ∷ []) (take (name_length bs) bs)))
]

length-skip_slashes : (p : List ℕ) → length (skip_slashes p) ≤ length p
unfolding skip_slashes
length-skip_slashes [] = omega arith
length-skip_slashes (b ∷ bs) = elim (Bool-cases (b == slash)) [
  | inl e ↦ rw e (omega (arith, length-skip_slashes bs))
  | inr e ↦ rw e (omega arith)
]

-- A path without slashes in front has a name, or is empty.
skipped_cases : (p : List ℕ) → (skip_slashes p ≡ []) ⊎ (0 < name_length (skip_slashes p))
unfolding skip_slashes name_length
skipped_cases [] = inl refl
skipped_cases (b ∷ bs) = elim (Bool-cases (b == slash)) [
  | inl e ↦ rw e (skipped_cases bs)
  | inr e ↦ rw e (inr (rw (e, name_length) (omega arith)))
]

flush-take :
    (n : ℕ) (q : List ℕ) (rest : List (List ℕ))
    → 0 < n
    → 0 < length q
    → flush (take n q) rest ≡ take n q ∷ rest
flush-take zero q rest h h' = absurd (omega arith)
flush-take (suc n) [] rest h h' = absurd (omega arith)
flush-take (suc n) (b ∷ bs) rest h h' = refl

pub name_length_bound : (q : List ℕ) → name_length q ≤ length q
unfolding name_length
name_length_bound [] = omega arith
name_length_bound (b ∷ bs) = elim (Bool-cases (b == slash)) [
  | inl e ↦ rw e (omega arith)
  | inr e ↦ rw e (omega (arith, name_length_bound bs))
]

-- The first name of such a path is the first component.
pub split_cons :
    (q : List ℕ)
    → 0 < name_length q
    → split [] q ≡ take (name_length q) q ∷ split [] (drop (name_length q) q)
split_cons q pos =
    split_name [] q
    ∙ flush-take (name_length q) q (split [] (drop (name_length q) q)) pos
        (omega (arith, pos, name_length_bound q))

-- What a search for the matching `..` finds, in the components.
abbrev pub Matches : ℕ → List (List ℕ) → ℕ → Outcome (Option (List ℕ)) → Type 0
Matches depth cs bound (ok none) = closed depth cs ≡ none
Matches depth cs bound (ok (some rest)) =
    (closed depth cs ≡ some (split [] rest)) × (length rest < bound)
Matches depth cs bound (err e) = ⊥
Matches depth cs bound abort = ⊥
Matches depth cs bound out_of_fuel = ⊥

Matches-step :
    (depth depth' bound bound' : ℕ) (cs cs' : List (List ℕ)) (r : Outcome (Option (List ℕ)))
    → closed depth cs ≡ closed depth' cs'
    → bound' ≤ bound
    → Matches depth' cs' bound' r
    → Matches depth cs bound r
Matches-step depth depth' bound bound' cs cs' (ok none) same le h = same ∙ h
Matches-step depth depth' bound bound' cs cs' (ok (some rest)) same le (h, less) =
    (same ∙ h, omega arith)
Matches-step depth depth' bound bound' cs cs' (err e) same le h = h
Matches-step depth depth' bound bound' cs cs' abort same le h = h
Matches-step depth depth' bound bound' cs cs' out_of_fuel same le h = h

-- The rest behind the first name is shorter.
rest_bound :
    (p : List ℕ)
    → 0 < name_length (skip_slashes p)
    → length (drop (name_length (skip_slashes p)) (skip_slashes p)) < length p
rest_bound p pos = omega (
  arith,
  length-drop (name_length (skip_slashes p)) (skip_slashes p),
  length-skip_slashes p,
  name_length_bound (skip_slashes p),
  pos,
)

-- The components of a path with a name.
components_cons :
    (p : List ℕ)
    → 0 < name_length (skip_slashes p)
    → split [] p
      ≡ take (name_length (skip_slashes p)) (skip_slashes p)
        ∷ split [] (drop (name_length (skip_slashes p)) (skip_slashes p))
components_cons p pos = sym (split_skip p) ∙ split_cons (skip_slashes p) pos

components_nil : (p : List ℕ) → skip_slashes p ≡ [] → split [] p ≡ []
unfolding split
components_nil p e = sym (split_skip p) ∙ ap (λ q. split [] q) e

match_suffix-Matches :
    (fuel depth : ℕ) (p : List ℕ)
    → length p < fuel
    → Matches depth (split [] p) (suc (length p)) (match_suffix fuel depth p)
unfolding match_suffix closed name_length
match_suffix-Matches zero depth p enough = absurd (omega arith)
match_suffix-Matches (suc fuel) depth p enough =
    let q = skip_slashes p in
    let n = name_length q in
    let rest = drop n q in
    elim (skipped_cases p) [
      | inl empty ↦
          let nothing : (n == 0) ≡ true = ap (λ q'. name_length q' == 0) empty in
          rw nothing (ap (closed depth) (components_nil p empty))
      | inr pos ↦
          let some_ : (n == 0) ≡ false = ground arith in
          let less = rest_bound p pos in
          let cs = components_cons p pos in
          elim (Bool-cases (is_dotdot (take n q))) [
            | inr plain ↦ rw some_ (
                rw plain (
                  Matches-step depth (depth + 1) (suc (length p)) (suc (length rest)) (split [] p)
                    (split [] rest) (match_suffix fuel (depth + 1) rest)
                    (ap (closed depth) cs ∙ rw (plain, closed) refl) (omega arith)
                    (match_suffix-Matches fuel (depth + 1) rest (omega arith))))
            | inl up ↦ elim (Bool-cases (depth - 1 == 0)) [
              | inl last ↦ rw some_ (
                  rw up
                    (rw last (ap (closed depth) cs ∙ rw (up, closed) (rw last refl), omega arith)))
              | inr more ↦ rw some_ (
                  rw up (
                    rw more (
                      Matches-step depth (depth - 1) (suc (length p)) (suc (length rest))
                        (split [] p) (split [] rest) (match_suffix fuel (depth - 1) rest)
                        (ap (closed depth) cs ∙ rw (up, closed) (rw more refl)) (omega arith)
                        (match_suffix-Matches fuel (depth - 1) rest (omega arith)))))
            ]
          ]
    ]

-- What a search for the next name gives: a path that leads to the same place, and that is empty or
-- begins with a name that no `..` matches.
abbrev pub Named : List ℕ → Outcome (List ℕ) → Type 0
Named p (ok q) =
    (resolve [] (split [] q) ≡ resolve [] (split [] p))
    × (length q ≤ length p)
    × HasNoDot (split [] q)
    × ((q ≡ [])
        ⊎ ((0 < name_length q)
            × (is_dotdot (take (name_length q) q) ≡ false)
            × (closed 1 (split [] (drop (name_length q) q)) ≡ none)))
Named p (err e) = ⊥
Named p abort = ⊥
Named p out_of_fuel = ⊥

Named-step :
    (p p' : List ℕ) (r : Outcome (List ℕ))
    → resolve [] (split [] p') ≡ resolve [] (split [] p)
    → length p' ≤ length p
    → Named p' r
    → Named p r
Named-step p p' (ok q) same le (h, less, fine, begins) = (h ∙ same, omega arith, fine, begins)
Named-step p p' (err e) same le h = h
Named-step p p' abort same le h = h
Named-step p p' out_of_fuel same le h = h

match_next-Named :
    (p : List ℕ) (again : List ℕ → Outcome (List ℕ)) (r : Outcome (Option (List ℕ)))
    → let q = skip_slashes p in
      let rest = drop (name_length q) q in
      HasNoDot (split [] p)
      → 0 < name_length q
      → is_dotdot (take (name_length q) q) ≡ false
      → ((p' : List ℕ) → length p' < length p → HasNoDot (split [] p') → Named p' (again p'))
      → Matches 1 (split [] rest) (suc (length rest)) r
      → Named p (match_next again q r)
unfolding match_next HasNoDot
match_next-Named p again (ok none) fine pos plain ih h = (
  ap (resolve []) (split_skip p),
  length-skip_slashes p,
  rw (split_skip p) fine,
  inr (pos, plain, h),
)
match_next-Named p again (ok (some rest)) fine pos plain ih (h, less) =
    let q = skip_slashes p in
    let n = name_length q in
    let cs = components_cons p pos in
    let tail_fine : HasNoDot (split [] (drop n q)) = (rw cs at fine).1 in
    let le : length rest < length p = omega (arith, rest_bound p pos) in
    Named-step p rest (again rest)
      (sym (
        ap (resolve []) cs
        ∙ resolve_plain [] (take n q) (split [] (drop n q)) plain
        ∙ resolve-closed (split [] (drop n q)) (take n q ∷ []) [] (split [] rest) 0 refl h))
      (omega arith)
      (ih rest le (closed-HasNoDot (split [] (drop n q)) (split [] rest) 1 tail_fine h))
match_next-Named p again (err e) fine pos plain ih h = h
match_next-Named p again abort fine pos plain ih h = h
match_next-Named p again out_of_fuel fine pos plain ih h = h

-- The search at the end of a path.
next_name_end : (fuel : ℕ) (p : List ℕ) → skip_slashes p ≡ [] → next_name (suc fuel) p ≡ ok []
unfolding next_name match_suffix match_next is_dot is_dotdot name_length skip_slashes
next_name_end fuel p empty = rw empty refl

pub next_name-Named :
    (fuel : ℕ) (p : List ℕ) → length p < fuel → HasNoDot (split [] p) → Named p (next_name fuel p)
unfolding next_name HasNoDot split
next_name-Named zero p enough fine = absurd (omega arith)
next_name-Named (suc fuel) p enough fine =
    let q = skip_slashes p in
    let n = name_length q in
    let rest = drop n q in
    elim (skipped_cases p) [
      | inl empty ↦
          subst (Named p) (sym (next_name_end fuel p empty))
            (sym (ap (resolve []) (components_nil p empty)), omega arith, tt, inl refl)
      | inr pos ↦
          let cs = components_cons p pos in
          let heads : HasNoDot (take n q ∷ split [] rest) = rw cs at fine in
          let less = rest_bound p pos in
          elim (Bool-cases (is_dotdot (take n q))) [
            | inl up ↦ rw heads.0 (
                rw up (
                  Named-step p rest (next_name fuel rest)
                    (sym (ap (resolve []) cs ∙ resolve_up [] (take n q) (split [] rest) up))
                    (omega arith) (next_name-Named fuel rest (omega arith) heads.1)))
            | inr plain ↦ rw heads.0 (
                rw plain (
                  match_next-Named p (next_name fuel) (match_suffix (suc fuel) 1 rest) fine pos
                    plain (λ p' shorter fine'. next_name-Named fuel p' (omega arith) fine')
                    (match_suffix-Matches (suc fuel) 1 rest (omega arith))))
          ]
    ]
