-- ===== src/Dir/Find/Components.antt =====
-- The components of a path and what they lead to, which `lfs2_dir_find` of littlefs/lfs2.c is compared
-- with.
use mathlib.Core.Path.{subst}
use mbed_littlefs.Base.{
  ℕ, zero, suc, ◌+◌, ◌-◌, ◌≡◌, refl, sym, ap, ◌∙◌, arith, true, false, ◌==◌, Bool-cases, inl, inr,
  if◌then◌else◌, List, [], ◌∷◌, ◌++◌, length, Option, none, some,
}
use mbed_littlefs.Dir.Find.{slash, is_dot, is_dotdot}

-- The components of a path, where `cur` is the beginning of one.
abbrev pub flush : List ℕ → List (List ℕ) → List (List ℕ)
flush [] rest = rest
flush (b ∷ bs) rest = (b ∷ bs) ∷ rest

unfoldable pub split : List ℕ → List ℕ → List (List ℕ)
split cur [] = flush cur []
split cur (b ∷ bs) = if b == slash then flush cur (split [] bs) else split (cur ++ (b ∷ [])) bs

-- The path that the components lead along: `..` takes back the component before it, if there is one.
-- `stack` has those so far, the last one first.
abbrev pub unwind : List (List ℕ) → List (List ℕ) → List (List ℕ)
unwind [] tail = tail
unwind (c ∷ cs) tail = unwind cs (c ∷ tail)

abbrev pub pop : List (List ℕ) → List (List ℕ)
pop [] = []
pop (c ∷ cs) = cs

unfoldable pub resolve : List (List ℕ) → List (List ℕ) → List (List ℕ)
resolve stack [] = unwind stack []
resolve stack (c ∷ cs) = if is_dotdot c then resolve (pop stack) cs else resolve (c ∷ stack) cs

-- The rest of the components behind the `..` that brings the depth to 0.
unfoldable pub closed : ℕ → List (List ℕ) → Option (List (List ℕ))
closed depth [] = none
closed depth (c ∷ cs) =
    if is_dotdot c
    then (if depth - 1 == 0 then some cs else closed (depth - 1) cs)
    else closed (depth + 1) cs

-- No component is `.`.
unfoldable pub HasNoDot : List (List ℕ) → Type 0
HasNoDot [] = Unit
HasNoDot (c ∷ cs) = (is_dot c ≡ false) × HasNoDot cs

closed_plain :
    (depth : ℕ) (c : List ℕ) (cs : List (List ℕ))
    → is_dotdot c ≡ false
    → closed depth (c ∷ cs) ≡ closed (suc depth) cs
unfolding closed
closed_plain depth c cs plain =
    let more : depth + 1 ≡ suc depth = omega arith in rw plain (rw more refl)

closed_last : (c : List ℕ) (cs : List (List ℕ)) → is_dotdot c ≡ true → closed 1 (c ∷ cs) ≡ some cs
unfolding closed
closed_last c cs up = rw up refl

closed_up :
    (depth : ℕ) (c : List ℕ) (cs : List (List ℕ))
    → is_dotdot c ≡ true
    → closed (suc (suc depth)) (c ∷ cs) ≡ closed (suc depth) cs
unfolding closed
closed_up depth c cs up =
    let less : suc (suc depth) - 1 ≡ suc depth = omega arith in
    let more : (suc depth == 0) ≡ false = ground arith in rw up (rw less (rw more refl))

pub resolve_up :
    (st : List (List ℕ)) (c : List ℕ) (cs : List (List ℕ))
    → is_dotdot c ≡ true
    → resolve st (c ∷ cs) ≡ resolve (pop st) cs
unfolding resolve
resolve_up st c cs up = rw up refl

pub resolve_plain :
    (st : List (List ℕ)) (c : List ℕ) (cs : List (List ℕ))
    → is_dotdot c ≡ false
    → resolve st (c ∷ cs) ≡ resolve (c ∷ st) cs
unfolding resolve
resolve_plain st c cs plain = rw plain refl

resolve_end : (st : List (List ℕ)) → resolve st [] ≡ unwind st []
unfolding resolve
resolve_end st = refl

some_injective : {A : Type 0} {a b : A} → some a ≡ some b → a ≡ b
some_injective e = cc

-- A matching `..` takes back what is on the stack.
pub resolve-closed :
    (cs ss st rest : List (List ℕ)) (depth : ℕ)
    → length ss ≡ suc depth
    → closed (suc depth) cs ≡ some rest
    → resolve (ss ++ st) cs ≡ resolve st rest
unfolding closed
resolve-closed [] ss st rest depth len found = cc
resolve-closed (c ∷ cs) [] st rest depth len found = absurd (omega arith)
resolve-closed (c ∷ cs) (x ∷ y ∷ ys) st rest zero len found = absurd (omega arith)
resolve-closed (c ∷ cs) (x ∷ []) st rest zero len found = elim (Bool-cases (is_dotdot c)) [
  | inr plain ↦
      resolve_plain (x ∷ st) c cs plain
      ∙ resolve-closed cs (c ∷ x ∷ []) st rest 1 refl (sym (closed_plain 1 c cs plain) ∙ found)
  | inl up ↦
      let same : some cs ≡ some rest = sym (closed_last c cs up) ∙ found in
      resolve_up (x ∷ st) c cs up ∙ cc
]
resolve-closed (c ∷ cs) (x ∷ ss) st rest (suc depth) len found = elim (Bool-cases (is_dotdot c)) [
  | inr plain ↦
      resolve_plain (x ∷ (ss ++ st)) c cs plain
      ∙ resolve-closed cs (c ∷ x ∷ ss) st rest (suc (suc depth)) (omega arith)
          (sym (closed_plain (suc (suc depth)) c cs plain) ∙ found)
  | inl up ↦
      resolve_up (x ∷ (ss ++ st)) c cs up
      ∙ resolve-closed cs ss st rest depth (omega arith) (sym (closed_up depth c cs up) ∙ found)
]

unwind_append : (ss st tail : List (List ℕ)) → unwind (ss ++ st) tail ≡ unwind st (unwind ss tail)
unwind_append [] st tail = refl
unwind_append (x ∷ ss) st tail = unwind_append ss st (x ∷ tail)

-- A component that no `..` matches is kept.
pub resolve_kept :
    (cs ss : List (List ℕ)) (c : List ℕ)
    → closed (suc (length ss)) cs ≡ none
    → resolve (ss ++ (c ∷ [])) cs ≡ c ∷ resolve ss cs
resolve_kept [] ss c open_ =
    resolve_end (ss ++ (c ∷ []))
    ∙ unwind_append ss (c ∷ []) []
    ∙ ap (λ r. c ∷ r) (sym (resolve_end ss))
resolve_kept (d ∷ ds) [] c open_ = elim (Bool-cases (is_dotdot d)) [
  | inr plain ↦
      resolve_plain (c ∷ []) d ds plain
      ∙ resolve_kept ds (d ∷ []) c (sym (closed_plain 1 d ds plain) ∙ open_)
      ∙ ap (λ r. c ∷ r) (sym (resolve_plain [] d ds plain))
  | inl up ↦ let same : some ds ≡ none = sym (closed_last d ds up) ∙ open_ in cc
]
resolve_kept (d ∷ ds) (x ∷ ss) c open_ = elim (Bool-cases (is_dotdot d)) [
  | inr plain ↦
      resolve_plain (x ∷ (ss ++ (c ∷ []))) d ds plain
      ∙ resolve_kept ds (d ∷ x ∷ ss) c
          (sym (closed_plain (suc (length (x ∷ ss))) d ds plain) ∙ open_)
      ∙ ap (λ r. c ∷ r) (sym (resolve_plain (x ∷ ss) d ds plain))
  | inl up ↦
      resolve_up (x ∷ (ss ++ (c ∷ []))) d ds up
      ∙ resolve_kept ds ss c (sym (closed_up (length ss) d ds up) ∙ open_)
      ∙ ap (λ r. c ∷ r) (sym (resolve_up (x ∷ ss) d ds up))
]

-- What lies behind a match has no `.` either.
pub closed-HasNoDot :
    (cs rest : List (List ℕ)) (depth : ℕ)
    → HasNoDot cs
    → closed depth cs ≡ some rest
    → HasNoDot rest
unfolding HasNoDot closed
closed-HasNoDot [] rest depth h found = cc
closed-HasNoDot (c ∷ cs) rest depth (h, hs) found = elim (Bool-cases (is_dotdot c)) [
  | inr plain ↦ closed-HasNoDot cs rest (depth + 1) hs (rw plain at found)
  | inl up ↦ elim (Bool-cases (depth - 1 == 0)) [
    | inl last ↦
        let same : some cs ≡ some rest = rw (up, last) at found in
        subst HasNoDot (some_injective same) hs
    | inr more ↦ closed-HasNoDot cs rest (depth - 1) hs (rw (up, more) at found)
  ]
]
