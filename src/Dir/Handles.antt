-- ===== src/Dir/Handles.antt =====
-- What `lfs2_dir_commit` of littlefs/lfs2.c does around the log: the changes of the directory that a
-- commit makes, and the update of the open files and directories after it.
pub mod Positions
use mbed_littlefs.Base.{
  ℕ, zero, suc, ◌+◌, ◌-◌, ◌^◌, Bool, true, false, not, ◌&&◌, ltb, leb, ◌==◌, if◌then◌else◌, List,
  [], ◌∷◌, Outcome, ok, err, abort, out_of_fuel, u16, u32, sub32, bit_and,
}
use mbed_littlefs.Util.{ByteOrder}
use mbed_littlefs.Tag.{
  Pair, mktag, tag_id, tag_type1, tag_type3, tag_chunk, type_create, type_delete, type_tail,
  pair_cmp, pair_fromle32,
}
use mbed_littlefs.Gstate.{Globals, gstate_hasmovehere, gstate_xormove}
use mbed_littlefs.Store.{bind, word_at}
use mbed_littlefs.Dir.{Mdir}
use mbed_littlefs.Dir.Commit.{Buffer, buffer_bytes}
use mbed_littlefs.Dir.Walk.{Fetch}

-- `struct lfs2_mattr`.
pub record Mattr : Type 0 where
  pub tag : ℕ
  pub buffer : Buffer

-- The directory, `deletetag` and `createtag` of a commit.
pub record Change : Type 0 where
  pub dir : Mdir
  pub deletetag : ℕ
  pub createtag : ℕ

-- One attribute of the commit.
unfoldable pub change_attr : ByteOrder → Mattr → Change → Outcome Change
change_attr host attr c =
    if tag_type3 attr.tag == type_create
    then ok
        (record c { createtag = attr.tag; dir = record (c.dir) { count = u16 (c.dir.count + 1) } })
    else if tag_type3 attr.tag == type_delete
    then (if c.dir.count == 0
        then abort
        else ok
            (record c { deletetag = attr.tag; dir = record (c.dir) { count = c.dir.count - 1 } }))
    else if tag_type1 attr.tag == type_tail
    then ok (record c {
      dir = record (c.dir) {
        tail = pair_fromle32 host (
          word_at host (buffer_bytes 8 attr.buffer) 0,
          word_at host (buffer_bytes 8 attr.buffer) 4,
        );
        split = not (bit_and (tag_chunk attr.tag) 1 == 0);
      };
    })
    else ok c

-- The loop over the attributes.
unfoldable pub change_attrs : ByteOrder → List Mattr → Change → Outcome Change
change_attrs host [] c = ok c
change_attrs host (attr ∷ attrs) c = elim (change_attr host attr c) [
  | ok c' ↦ change_attrs host attrs c'
  | err e ↦ err e
  | abort ↦ abort
  | out_of_fuel ↦ out_of_fuel
]

-- The entry that is being moved away is deleted, and the local delta of the global state says so.
unfoldable pub change_move : Globals → Change → Outcome (Change × Globals)
change_move g c =
    if gstate_hasmovehere g.gpending c.dir.pair
    then (if c.dir.count == 0
        then abort
        else ok (
          record c {
            deletetag = bit_and g.gpending.tag (mktag 0x7ff 0x3ff 0);
            dir = record (c.dir) { count = c.dir.count - 1 };
          },
          record g { gdelta = gstate_xormove g.gdelta g.gpending 0x3ff (0, 0) },
        ))
    else ok (c, g)

-- `struct lfs2_mlist`: an open file, or an open directory with its position. `own` tells that the
-- commit is to its own field `m`.
pub record Listed : Type 0 where
  pub id : ℕ
  pub is_dir : Bool
  pub m : Mdir
  pub pos : ℕ
  pub own : Bool

-- The id and the position after the deletion and the creation.
unfoldable pub update_id : ℕ → ℕ → Listed → Listed
update_id deletetag createtag d =
    if d.id == tag_id deletetag
    then record d { m = record (d.m) { pair = (0xffffffff, 0xffffffff) } }
    else if ltb (tag_id deletetag) d.id
    then record d { id = d.id - 1; pos = if d.is_dir then sub32 d.pos 1 else d.pos }
    else if not d.own && leb (tag_id createtag) d.id
    then record d { id = u16 (d.id + 1); pos = if d.is_dir then u32 (d.pos + 1) else d.pos }
    else d

module _ {S : Type 0} (dir_fetch : Fetch S) where
  -- The pairs that the directory has been split into, with fuel.
  unfoldable pub update_tail : ℕ → Listed × S → Outcome (Unit {0}) × (Listed × S)
  update_tail zero w = (out_of_fuel, w)
  update_tail (suc fuel) (d, s) =
      if leb d.m.count d.id && d.m.split
      then (let (out, w) = dir_fetch d.m.tail (d.m, s) in
          bind (out, (record d { id = d.id - d.m.count; m = w.0 }, w.1))
            (λ _ w'. update_tail fuel w'))
      else (ok tt, (d, s))

  -- One of the list, where `dir` is the directory after the commit.
  unfoldable pub update_one : ℕ → Change → Listed × S → Outcome (Unit {0}) × (Listed × S)
  update_one fuel c (d, s) =
      if not (pair_cmp d.m.pair c.dir.pair)
      then update_tail fuel (update_id c.deletetag c.createtag (record d { m = c.dir }), s)
      else (ok tt, (d, s))

  -- The loop over `lfs2->mlist`.
  unfoldable pub update_all : ℕ → Change → List Listed × S → Outcome (Unit {0}) × (List Listed × S)
  update_all fuel c ([], s) = (ok tt, ([], s))
  update_all fuel c (d ∷ ds, s) =
      let (out, w) = update_one fuel c (d, s) in
      let (rest, w') = update_all fuel c (ds, w.1) in
      elim out [
        | ok _ ↦ (rest, (w.0 ∷ w'.0, w'.1))
        | err e ↦ (err e, (w.0 ∷ ds, w.1))
        | abort ↦ (abort, (w.0 ∷ ds, w.1))
        | out_of_fuel ↦ (out_of_fuel, (w.0 ∷ ds, w.1))
      ]
