-- ===== src/Tests/Commits.antt =====
-- Commits and paths of littlefs/lfs2.c at concrete values.
use mbed_littlefs.Base.{
  ℕ, ◌+◌, ◌≡◌, refl, arith, true, false, List, [], ◌∷◌, get_or, none, some, corrupt, ok,
  out_of_fuel, ◌⊎◌,
}
use mbed_littlefs.Util.{little_endian}
use mbed_littlefs.Tag.{
  mktag, tag_id, tag_size, tag_dsize, tag_isdelete, pair_cmp, type_create, type_delete, type_dir,
}
use mbed_littlefs.Gstate.{Globals, gstate_zero}
use mbed_littlefs.Device.{Driver}
use mbed_littlefs.Bd.Prog.{Flash}
use mbed_littlefs.Alloc.{Free}
use mbed_littlefs.Dir.{Mdir, slice_loop, dir_getslice, dir_get, dir_getgstate}
use mbed_littlefs.Dir.Handles.{Mattr, Listed, update_id}
use mbed_littlefs.Dir.Handles.Positions.{
  Edit, creation, edited, without, with_entry, delete_id, update_id-edited, update_id_both,
}
use mbed_littlefs.Dir.Find.{is_dot, is_dotdot, Finding, dir_find}
use mbed_littlefs.Dir.Find.Components.{HasNoDot, split, resolve}
use mbed_littlefs.Dir.Find.Lookups.{first_names, lookups, dir_find-resolve}
use mbed_littlefs.Dir.Log.{commit_getgstate, compact_loop, append_commit, compact_block}
use mbed_littlefs.Tag.{pair_swap}
use mbed_littlefs.Dir.Commit.{memory, null}
use mbed_littlefs.Dir.Log.Ends.{Logged, append_commit-Logged}
use mbed_littlefs.Dir.Log.Compaction.{compact_block-Logged}
use mbed_littlefs.Dir.Log.Stuck.{compact_loop-out_of_fuel}
use mbed_littlefs.Tests.Ram.{
  small_config, ram, small_config-IsConfig, ram-IsDevice, numbered, empty_cache, open_flash,
}
use mbed_littlefs.Tests.Metadata.{globals_example}

abbrev empty_dir : Mdir
empty_dir = record {
  pair = (2, 3);
  rev = 7;
  off = 0;
  etag = 0xffffffff;
  count = 0;
  erased = true;
  split = false;
  tail = (0xffffffff, 0xffffffff);
}

-- A device whose blocks are all worn out.
abbrev worn : Driver
worn = record ram { erase = λ d block. (some corrupt, d) }

worn-readable :
    (g : Globals) (s : Flash (ℕ → ℕ → ℕ))
    → (commit_getgstate small_config worn little_endian empty_dir (g, s)).0 ≡ ok tt
unfolding commit_getgstate dir_getgstate dir_get dir_getslice slice_loop tag_dsize tag_size
    tag_isdelete
worn-readable g s = refl

-- The allocator after it has looked at every block.
abbrev none_left : Free
none_left = record { off = 0; size = 4; i = 4; ack = 0; buffer = 15 ∷ [] }

compact_loop-out_of_fuel_example :
    (compact_loop small_config worn little_endian
      (record { traverse = λ s. (none, 0 ∷ 1 ∷ 2 ∷ 3 ∷ [], s) })
      100
      0
      (2, 3)
      false
      []
      empty_dir
      0
      0
      50
      false
      (record { dir = empty_dir; globals = globals_example }, (open_flash, none_left))).0
    ≡ out_of_fuel
unfolding pair_cmp
compact_loop-out_of_fuel_example =
    compact_loop-out_of_fuel small_config worn little_endian
      (record { traverse = λ s. (none, 0 ∷ 1 ∷ 2 ∷ 3 ∷ [], s) }) empty_dir worn-readable (λ d. refl)
      refl (2, 3) refl 100 0 [] empty_dir 0 0 50 false
      (record { dir = empty_dir; globals = globals_example }) open_flash none_left refl refl refl

-- A file that is open, the fourth entry of its directory.
abbrev fourth : Listed
fourth = record { id = 3; is_dir = false; m = empty_dir; pos = 0; own = false }

abbrev inserted : Edit ℕ
inserted = creation 2 14

abbrev entries : List ℕ
entries = 10 ∷ 11 ∷ 12 ∷ 13 ∷ []

delete_first : tag_id (mktag type_delete 0 0) ≡ 0
unfolding tag_id mktag
delete_first = refl

create_third : tag_id (mktag type_create 2 0) ≡ 2
unfolding tag_id mktag
create_third = refl

delete_none : tag_id 0xffffffff ≡ 0x3ff
unfolding tag_id
delete_none = refl

update_id-edited_example :
    let d' = update_id 0xffffffff (mktag type_create 2 0) fourth in
    ((fourth.id ≡ delete_id inserted) × (d'.m.pair ≡ (0xffffffff, 0xffffffff)))
    ⊎ (get_or (edited inserted entries) d'.id 0 ≡ get_or entries fourth.id 0)
update_id-edited_example =
    update_id-edited 0 inserted entries 0xffffffff (mktag type_create 2 0) fourth (omega arith)
      (omega arith) (omega arith) refl delete_none create_third

update_id_both_example :
    (get_or (without 0 (with_entry 2 14 entries)) fourth.id 0 ≡ get_or entries fourth.id 0)
    × ((update_id (mktag type_delete 0 0) (mktag type_create 2 0) fourth).id + 1 ≡ fourth.id)
update_id_both_example =
    update_id_both 0 14 entries 0 2 (mktag type_delete 0 0) (mktag type_create 2 0) fourth
      (omega arith) (omega arith) (omega arith) delete_first create_third

-- `a/b/../c`.
abbrev path : List ℕ
path = 97 ∷ 47 ∷ 98 ∷ 47 ∷ 46 ∷ 46 ∷ 47 ∷ 99 ∷ []

path-HasNoDot : HasNoDot (split [] path)
unfolding HasNoDot split is_dot
path-HasNoDot = (refl, (refl, (refl, (refl, tt))))

path_components : resolve [] (split [] path) ≡ (97 ∷ []) ∷ (99 ∷ []) ∷ []
unfolding resolve split is_dotdot
path_components = refl

abbrev from_root : Finding
from_root = record { dir = empty_dir; path = path; id = 0; seed = 0 }

dir_find-resolve_example :
    (ps : List (List ℕ)) × (first_names ps ≡ resolve [] (split [] path))
    × (dir_find small_config ram little_endian gstate_zero
          (0, 0)
          4
          (0, 1)
          (from_root, (numbered, empty_cache))
        ≡ lookups small_config ram little_endian gstate_zero
            (0, 0)
            4
            ps
            (mktag type_dir 0x3ff 0)
            (
              record from_root { id = 0x3ff; dir = record empty_dir { tail = (0, 1) } },
              (numbered, empty_cache),
            ))
dir_find-resolve_example =
    dir_find-resolve small_config ram little_endian gstate_zero (0, 0) 4 (0, 1) from_root
      (numbered, empty_cache) path-HasNoDot

-- A directory whose log has 20 bytes in block 2, and a commit of a file with the name `a`.
abbrev started : Mdir
started = record empty_dir { off = 20; etag = 0x5ff0100c }

abbrev new_file : List Mattr
new_file =
    record { tag = mktag type_create 0 0; buffer = null }
    ∷ record { tag = mktag 0x001 0 1; buffer = memory (97 ∷ []) }
    ∷ []

append_commit-Logged_example :
    Logged small_config ram small_config-IsConfig ram-IsDevice little_endian
      (omega arith)
      (2, 3)
      started
      (append_commit small_config ram little_endian 10 0 new_file (
        record { dir = started; globals = globals_example },
        record open_flash { pcache = empty_cache },
      ))
append_commit-Logged_example =
    append_commit-Logged small_config ram small_config-IsConfig ram-IsDevice little_endian
      (omega arith) 10 0 new_file (record { dir = started; globals = globals_example })
      (record open_flash { pcache = empty_cache }) (omega arith)

compact_block-Logged_example :
    Logged small_config ram small_config-IsConfig ram-IsDevice little_endian
      (omega arith)
      (3, 2)
      started
      (compact_block small_config ram little_endian 10 0 false new_file started 0 1 (
        record { dir = started; globals = globals_example },
        record open_flash { pcache = empty_cache },
      ))
unfolding pair_swap
compact_block-Logged_example =
    compact_block-Logged small_config ram small_config-IsConfig ram-IsDevice little_endian
      (omega arith) 10 0 false new_file started 0 1
      (record { dir = started; globals = globals_example })
      (record open_flash { pcache = empty_cache }) (omega arith)
