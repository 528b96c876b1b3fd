-- ===== src/Dir/Find.antt =====
-- `lfs2_dir_find` of littlefs/lfs2.c: the names of a path, and the lookup of each. A path is the list
-- of its bytes before the 0.
pub mod Components
pub mod Names
pub mod Lookups
use mbed_littlefs.Base.{
  ℕ, zero, suc, ◌+◌, ◌-◌, ◌^◌, Bool, true, false, not, ◌&&◌, ◌||◌, ◌==◌, if◌then◌else◌, List, [],
  ◌∷◌, length, take, drop, Option, none, some, noent, notdir, Outcome, ok, err, abort, out_of_fuel,
}
use mbed_littlefs.Util.{ByteOrder}
use mbed_littlefs.Tag.{
  Pair, mktag, tag_id, tag_type3, type_dir, type_name, type_struct, pair_fromle32,
}
use mbed_littlefs.Gstate.{Gstate}
use mbed_littlefs.Device.{Config, Driver, Cache}
use mbed_littlefs.Store.{bind, word_at}
use mbed_littlefs.Dir.{Mdir, dir_get, dir_find_match}
use mbed_littlefs.Dir.Fetch.{Fetched, dir_fetchmatch}

abbrev pub slash : ℕ
slash = 0x2f

abbrev pub dot : ℕ
dot = 0x2e

-- `name + strspn(name, "/")`.
unfoldable pub skip_slashes : List ℕ → List ℕ
skip_slashes [] = []
skip_slashes (b ∷ bs) = if b == slash then skip_slashes bs else b ∷ bs

-- `strcspn(name, "/")`.
unfoldable pub name_length : List ℕ → ℕ
name_length [] = 0
name_length (b ∷ bs) = if b == slash then 0 else suc (name_length bs)

-- The name is `.`, and it is `..`.
unfoldable pub is_dot : List ℕ → Bool
is_dot (b ∷ []) = b == dot
is_dot _ = false

unfoldable pub is_dotdot : List ℕ → Bool
is_dotdot (b ∷ c ∷ []) = b == dot && c == dot
is_dotdot _ = false

-- The rest of the path behind the `..` that matches a name, at the depth, with fuel.
unfoldable pub match_suffix : ℕ → ℕ → List ℕ → Outcome (Option (List ℕ))
match_suffix zero depth suffix = out_of_fuel
match_suffix (suc fuel) depth suffix =
    let name = skip_slashes suffix in
    let n = name_length name in
    let rest = drop n name in
    let closer = match_suffix fuel (depth - 1) rest in
    let deeper = match_suffix fuel (depth + 1) rest in
    if n == 0
    then ok none
    else if is_dotdot (take n name)
    then (if depth - 1 == 0 then ok (some rest) else closer)
    else deeper

-- What follows the search for the matching `..`; `again` is `nextname`.
unfoldable pub match_next :
    (List ℕ → Outcome (List ℕ)) → List ℕ → Outcome (Option (List ℕ)) → Outcome (List ℕ)
match_next again name (ok none) = ok name
match_next again name (ok (some rest)) = again rest
match_next again name (err e) = err e
match_next again name abort = abort
match_next again name out_of_fuel = out_of_fuel

-- The path from the next name on that is to be looked up, with fuel.
unfoldable pub next_name : ℕ → List ℕ → Outcome (List ℕ)
next_name zero path = out_of_fuel
next_name (suc fuel) path =
    let name = skip_slashes path in
    let n = name_length name in
    let skipped = next_name fuel (drop n name) in
    if is_dot (take n name) || is_dotdot (take n name)
    then skipped
    else match_next (next_name fuel) name (match_suffix (suc fuel) 1 (drop n name))

-- What `lfs2_dir_find` changes of its caller and of `lfs2_t`: the metadata, the path, the id, the seed.
pub record Finding : Type 0 where
  pub dir : Mdir
  pub path : List ℕ
  pub id : ℕ
  pub seed : ℕ

-- There is no slash in the name: it is the last one.
unfoldable pub is_last : List ℕ → Bool
is_last name = name_length name == length name

module _ (cfg : Config) (drv : Driver) (host : ByteOrder) (gstate : Gstate) (revs : ℕ × ℕ) where
  open drv use {Dev}

  -- What follows the fetch of a pair; `again` is the loop over the pairs of a directory.
  unfoldable pub fetch_next :
      (Finding × (Dev × Cache) → Outcome ℕ × (Finding × (Dev × Cache)))
      → Bool
      → Finding
      → Outcome Fetched × (Unit {0} × (Dev × Cache))
      → Outcome ℕ × (Finding × (Dev × Cache))
  fetch_next again last f (ok r, (_, s)) =
      let f' = record f { dir = r.dir; seed = r.seed; id = if last then r.id else f.id } in
      elim r.found [
        | none ↦ (err noent, (f', s))
        | some tag ↦
            if not (tag == 0)
            then (ok tag, (f', s))
            else if r.dir.split
            then again (f', s)
            else (err noent, (f', s))
      ]
  fetch_next again last f (err e, (_, s)) = (err e, (f, s))
  fetch_next again last f (abort, (_, s)) = (abort, (f, s))
  fetch_next again last f (out_of_fuel, (_, s)) = (out_of_fuel, (f, s))

  -- The loop over the pairs of a directory for the name at the start of the path, with fuel.
  unfoldable pub find_pairs : ℕ → Finding × (Dev × Cache) → Outcome ℕ × (Finding × (Dev × Cache))
  find_pairs zero w = (out_of_fuel, w)
  find_pairs (suc fuel) (f, s) =
      let n = name_length f.path in
      fetch_next (find_pairs fuel) (is_last f.path) f (
        dir_fetchmatch cfg drv host (mktag 0x780 0 0) (mktag type_name 0 n)
          (λ tag disk w.
            let (out, s') = dir_find_match cfg drv host f.path n tag disk.0 disk.1 w.1 in
            (out, (w.0, s')))
          gstate revs f.seed f.dir f.dir.tail (tt, s))

  -- The pair of the directory with the tag goes to `dir->tail`, except for the root.
  unfoldable pub enter_dir :
      ℕ → Finding × (Dev × Cache) → Outcome (Unit {0}) × (Finding × (Dev × Cache))
  enter_dir tag (f, s) =
      if tag_id tag == 0x3ff
      then (ok tt, (f, s))
      else (let (out, s') =
            dir_get cfg drv host gstate f.dir (mktag 0x700 0x3ff 0)
              (mktag type_struct (tag_id tag) 8) s in
          bind (out, (f, s'))
            (λ res w.
              let tail = pair_fromle32 host (word_at host res.1 0, word_at host res.1 4) in
              (ok tt, (record (w.0) { dir = record (w.0.dir) { tail = tail } }, w.1))))

  -- The lookup of the name at the start of the path, in the directory with the tag; `again` is what
  -- follows.
  unfoldable pub find_name :
      (ℕ → Finding × (Dev × Cache) → Outcome ℕ × (Finding × (Dev × Cache)))
      → ℕ
      → ℕ
      → List ℕ
      → Finding × (Dev × Cache)
      → Outcome ℕ × (Finding × (Dev × Cache))
  find_name again pairs tag path (f, s) =
      let w : Finding × (Dev × Cache) = (record f { path = path }, s) in
      if not (tag_type3 tag == type_dir)
      then (err notdir, w)
      else bind (enter_dir tag w) (λ _ w1. bind (find_pairs pairs w1) again)

  -- What follows the search for the next name of the path; `again` is the loop over the names.
  unfoldable pub find_next :
      (ℕ → List ℕ → Finding × (Dev × Cache) → Outcome ℕ × (Finding × (Dev × Cache)))
      → ℕ
      → ℕ
      → Outcome (List ℕ)
      → Finding × (Dev × Cache)
      → Outcome ℕ × (Finding × (Dev × Cache))
  find_next again pairs tag (ok []) w = (ok tag, w)
  find_next again pairs tag (ok (b ∷ bs)) w =
      let path = b ∷ bs in
      find_name (λ found w'. again found (drop (name_length path) path) w') pairs tag path w
  find_next again pairs tag (err e) w = (err e, w)
  find_next again pairs tag abort w = (abort, w)
  find_next again pairs tag out_of_fuel w = (out_of_fuel, w)

  -- The loop over the names of a path, with fuel for it and for the pairs of each directory.
  unfoldable pub find_loop :
      ℕ → ℕ → ℕ → List ℕ → Finding × (Dev × Cache) → Outcome ℕ × (Finding × (Dev × Cache))
  find_loop zero pairs tag name w = (out_of_fuel, w)
  find_loop (suc fuel) pairs tag name w =
      find_next (find_loop fuel pairs) pairs tag (next_name (suc (length name)) name) w

  unfoldable pub dir_find :
      ℕ → Pair → Finding × (Dev × Cache) → Outcome ℕ × (Finding × (Dev × Cache))
  dir_find pairs root (f, s) =
      find_loop (length f.path + 1) pairs (mktag type_dir 0x3ff 0) f.path
        (record f { id = 0x3ff; dir = record (f.dir) { tail = root } }, s)
