-- ===== src/Dir/Find/Lookups.antt =====
-- The lookups of `lfs2_dir_find` of littlefs/lfs2.c in the directories along a path.
use mbed_littlefs.Base.{
  ℕ, zero, suc, ◌+◌, ◌≡◌, refl, sym, ap, ◌∙◌, arith, List, [], ◌∷◌, ◌<◌, length, take, drop,
  length-drop, inl, inr, Outcome, ok, err, abort, out_of_fuel,
}
use mbed_littlefs.Util.{ByteOrder}
use mbed_littlefs.Tag.{Pair, mktag, type_dir}
use mbed_littlefs.Gstate.{Gstate}
use mbed_littlefs.Device.{Config, Driver, Cache}
use mbed_littlefs.Dir.Find.{
  Finding, name_length, next_name, find_name, find_next, find_loop, dir_find,
}
use mbed_littlefs.Dir.Find.Components.{HasNoDot, split, resolve, resolve_kept, resolve_plain}
use mbed_littlefs.Dir.Find.Names.{Named, next_name-Named, split_cons, name_length_bound}
use mathlib.Core.Path.{fun_ext}

-- The names at the start of paths.
abbrev pub first_names : List (List ℕ) → List (List ℕ)
first_names [] = []
first_names (p ∷ ps) = take (name_length p) p ∷ first_names ps

module _ (cfg : Config) (drv : Driver) (host : ByteOrder) (gstate : Gstate) (revs : ℕ × ℕ) where
  open drv use {Dev}

  -- The lookups of the names at the start of the paths, one in the directory that the one before has
  -- found.
  abbrev pub lookups :
      ℕ → List (List ℕ) → ℕ → Finding × (Dev × Cache) → Outcome ℕ × (Finding × (Dev × Cache))
  lookups pairs [] tag w = (ok tag, w)
  lookups pairs (p ∷ ps) tag w = find_name cfg drv host gstate revs (lookups pairs ps) pairs tag p w

  -- That paths stand for what a path leads to, and for the lookups of the loop `find`.
  IsLookups :
      (ℕ → ℕ → Finding × (Dev × Cache) → Outcome ℕ × (Finding × (Dev × Cache)))
      → List ℕ
      → List (List ℕ)
      → Type 0
  IsLookups find p ps =
      (first_names ps ≡ resolve [] (split [] p))
      × ((pairs tag : ℕ) (w : Finding × (Dev × Cache)) → find pairs tag w ≡ lookups pairs ps tag w)

  find_next-IsLookups :
      (fuel : ℕ) (p : List ℕ)
      → ((p' : List ℕ)
          → length p' < length p
          → HasNoDot (split [] p')
          → (ps : List (List ℕ)) × IsLookups
              (λ pairs tag. find_loop cfg drv host gstate revs fuel pairs tag p')
              p'
              ps)
      → (r : Outcome (List ℕ)) → Named p r
      → (ps : List (List ℕ)) × IsLookups
          (λ pairs tag.
            find_next cfg drv host gstate revs
              (find_loop cfg drv host gstate revs fuel pairs)
              pairs
              tag
              r)
          p
          ps
  unfolding HasNoDot split resolve IsLookups find_next
  find_next-IsLookups fuel p ih (ok []) (same, less, fine, begins) =
      ([], (same, λ pairs tag w. refl))
  find_next-IsLookups fuel p ih (ok (b ∷ bs)) (same, less, fine, inl empty) = cc
  find_next-IsLookups fuel p ih (ok (b ∷ bs)) (same, less, fine, inr (pos, plain, kept)) =
      let q = b ∷ bs in
      let n = name_length q in
      let rest = drop n q in
      let cs = split_cons q pos in
      let tail_fine : HasNoDot (split [] rest) = (rw cs at fine).1 in
      let shorter : length rest < length p =
        omega (arith, length-drop n q, pos, name_length_bound q) in
      let (ps, (found, steps)) = ih rest shorter tail_fine in
      (
        q ∷ ps,
        (
          rw found (
              sym (resolve_kept (split [] rest) [] (take n q) kept)
              ∙ sym (resolve_plain [] (take n q) (split [] rest) plain)
              ∙ sym (ap (resolve []) cs)
              ∙ same),
          λ pairs tag w.
              ap (λ k. find_name cfg drv host gstate revs k pairs tag q w)
                (fun_ext (λ tag'. fun_ext (λ w'. steps pairs tag' w'))),
        ),
      )
  find_next-IsLookups fuel p ih (err e) h = absurd h
  find_next-IsLookups fuel p ih abort h = absurd h
  find_next-IsLookups fuel p ih out_of_fuel h = absurd h

  find_loop-IsLookups :
      (fuel : ℕ) (p : List ℕ)
      → length p < fuel
      → HasNoDot (split [] p)
      → (ps : List (List ℕ)) × IsLookups
          (λ pairs tag. find_loop cfg drv host gstate revs fuel pairs tag p)
          p
          ps
  unfolding find_loop IsLookups
  find_loop-IsLookups zero p enough fine = absurd (omega arith)
  find_loop-IsLookups (suc fuel) p enough fine =
      find_next-IsLookups fuel p
        (λ p' shorter fine'. find_loop-IsLookups fuel p' (omega arith) fine')
        (next_name (suc (length p)) p) (next_name-Named (suc (length p)) p (omega arith) fine)

  -- For a path no component of which is `.`, `lfs2_dir_find` from the root does one lookup after the
  -- other, each in the directory that the one before has found, of the components of the path that are
  -- left when each `..` has taken back the component before it, if there is one, and of no other; the
  -- model's fuel for the names is enough.
  pub dir_find-resolve :
      (pairs : ℕ) (root : Pair) (f : Finding) (s : Dev × Cache)
      → HasNoDot (split [] f.path)
      → (ps : List (List ℕ)) × (first_names ps ≡ resolve [] (split [] f.path))
        × (dir_find cfg drv host gstate revs pairs root (f, s)
            ≡ lookups pairs ps
                (mktag type_dir 0x3ff 0)
                (record f { id = 0x3ff; dir = record (f.dir) { tail = root } }, s))
  unfolding dir_find IsLookups
  dir_find-resolve pairs root f s fine =
      let (ps, (found, steps)) =
        find_loop-IsLookups (length f.path + 1) f.path (omega arith) fine in
      (
        ps,
        found,
        steps pairs (mktag type_dir 0x3ff 0)
            (record f { id = 0x3ff; dir = record (f.dir) { tail = root } }, s),
      )
