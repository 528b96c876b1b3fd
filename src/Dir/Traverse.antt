-- ===== src/Dir/Traverse.antt =====
-- `lfs2_dir_traverse` of littlefs/lfs2.c: the tags of a log, of the attributes of a commit and of a
-- pending move, without those that later ones make redundant.
pub mod Keeps
use mbed_littlefs.Base.{
  ℕ, zero, suc, ◌+◌, Bool, true, false, not, ◌&&◌, ltb, leb, ◌==◌, if◌then◌else◌, List, [], ◌∷◌,
  length, Option, none, some, Outcome, ok, err, abort, out_of_fuel, u32, sub32, bit_and, bit_or,
  bit_xor,
}
use mbed_littlefs.Util.{ByteOrder, frombe32}
use mbed_littlefs.Tag.{
  mktag, tag_id, tag_size, tag_type3, tag_dsize, from_noop, from_move, from_userattrs,
  type_userattr, type_struct,
}
use mbed_littlefs.Gstate.{Gstate, gstate_hasmovehere}
use mbed_littlefs.Device.{Config, Driver, Cache}
use mbed_littlefs.Store.{bind, word_at}
use mbed_littlefs.Dir.{Mdir, read_rcache, dir_traverse_filter}
use mbed_littlefs.Dir.Commit.{Buffer, memory, disk, moved, user, null, UserAttr}
use mbed_littlefs.Dir.Handles.{Mattr}

-- Where a traversal stands: `dir`, `off`, `ptag`, `attrs` and `hasseenmove`.
pub record Source : Type 0 where
  pub dir : Mdir
  pub off : ℕ
  pub ptag : ℕ
  pub attrs : List Mattr
  pub hasseenmove : Bool

-- Which tags it is for: `tmask`, `ttag`, `begin`, `end`, and `diff` as a word.
pub record Range : Type 0 where
  pub tmask : ℕ
  pub ttag : ℕ
  pub begin : ℕ
  pub end : ℕ
  pub diff : ℕ

-- All tags.
abbrev pub all_tags : Range
all_tags = record { tmask = 0; ttag = 0; begin = 0; end = 0; diff = 0 }

-- The metadata that a move is from.
unfoldable pub move_source : Buffer → Source → Source
move_source (moved dir) src = record {
  dir = dir;
  off = 0;
  ptag = 0xffffffff;
  attrs = [];
  hasseenmove = true;
}
move_source _ src = record src { attrs = [] }

unfoldable pub move_range : Range → ℕ → Range
move_range range tag =
    let fromid = tag_size tag in
    record {
      tmask = mktag 0x600 0x3ff 0;
      ttag = mktag type_struct 0 0;
      begin = fromid;
      end = fromid + 1;
      diff = u32 (sub32 (tag_id tag) fromid + range.diff);
    }

unfoldable pub user_attrs : Buffer → List UserAttr
user_attrs (user attrs) = attrs
user_attrs _ = []

module _ (cfg : Config) (drv : Driver) (host : ByteOrder) (gpending : Gstate) where
  open drv use {Dev}

  -- The callback: whether it stops the traversal, with a result that is not 0 and not negative.
  abbrev pub Callback : Type 0 → Type 0
  Callback D = ℕ → Buffer → D × (Dev × Cache) → Outcome Bool × (D × (Dev × Cache))

  -- The next tag, or none at the end.
  unfoldable pub next_tag :
      Source → Dev × Cache → Outcome (Option (ℕ × Buffer × Source)) × (Dev × Cache)
  next_tag src s =
      if ltb (u32 (src.off + tag_dsize src.ptag)) src.dir.off
      then (let off = u32 (src.off + tag_dsize src.ptag) in
          bind (read_rcache cfg drv host s 4 src.dir.pair.0 off 4) (λ bytes s'.
            let tag =
              bit_or (u32 (bit_xor (frombe32 host (word_at host bytes 0)) src.ptag)) 0x80000000 in
            (
              ok (
                  some (
                    tag,
                    disk src.dir.pair.0 (u32 (off + 4)),
                    record src { off = off; ptag = tag },
                  )),
              s',
            )))
      else elim src.attrs [
        | attr ∷ attrs ↦ (ok (some (attr.tag, attr.buffer, record src { attrs = attrs })), s)
        | [] ↦
            if not src.hasseenmove && gstate_hasmovehere gpending src.dir.pair
            then (
              ok (
                  some (
                    bit_and gpending.tag (mktag 0x7ff 0x3ff 0),
                    null,
                    record src { hasseenmove = true },
                  )),
              s,
            )
            else (ok none, s)
      ]

  -- Calls in a row: the rest follows a call that does not stop the traversal.
  unfoldable pub or_stop :
      {D : Type 0}
      → Outcome Bool × (D × (Dev × Cache))
      → (D × (Dev × Cache) → Outcome Bool × (D × (Dev × Cache)))
      → Outcome Bool × (D × (Dev × Cache))
  or_stop (ok true, w) next = (ok true, w)
  or_stop (ok false, w) next = next w
  or_stop (err e, w) next = (err e, w)
  or_stop (abort, w) next = (abort, w)
  or_stop (out_of_fuel, w) next = (out_of_fuel, w)

  -- The loop over the attributes of a user.
  unfoldable pub call_users :
      {D : Type 0}
      → Callback D
      → ℕ
      → List UserAttr
      → D × (Dev × Cache)
      → Outcome Bool × (D × (Dev × Cache))
  call_users cb id [] w = (ok false, w)
  call_users cb id (a ∷ rest) w =
      or_stop (cb (mktag (type_userattr + a.type) id (length a.buffer)) (memory a.buffer) w)
        (call_users cb id rest)

  -- `lfs2_dir_traverse_filter` as a callback, whose data is the tag.
  unfoldable pub filter_tag : Callback ℕ
  filter_tag tag buffer (filtertag, s) =
      let (redundant, kept) = dir_traverse_filter filtertag tag in (ok redundant, (kept, s))

  -- A tag that has passed the filter; `move` is the traversal of the source of a move.
  unfoldable pub call_tag :
      {D : Type 0}
      → (Source → Range → D × (Dev × Cache) → Outcome Bool × (D × (Dev × Cache)))
      → Callback D
      → Source
      → Range
      → ℕ
      → Buffer
      → D × (Dev × Cache)
      → Outcome Bool × (D × (Dev × Cache))
  call_tag move cb src range tag buffer w =
      if tag_type3 tag == from_noop
      then (ok false, w)
      else if tag_type3 tag == from_move
      then move (move_source buffer src) (move_range range tag) w
      else if tag_type3 tag == from_userattrs
      then call_users cb (u32 (tag_id tag + range.diff)) (user_attrs buffer) w
      else cb (u32 (tag + mktag 0 range.diff 0)) buffer w

  -- The tag after the search for duplicates; `next` is the rest of the loop and `call` what is done
  -- with the tag.
  unfoldable pub filtered :
      {D : Type 0}
      → (D × (Dev × Cache) → Outcome Bool × (D × (Dev × Cache)))
      → (ℕ → D × (Dev × Cache) → Outcome Bool × (D × (Dev × Cache)))
      → Range
      → D
      → Outcome Bool × (ℕ × (Dev × Cache))
      → Outcome Bool × (D × (Dev × Cache))
  filtered next call range d (ok true, (tag, s)) = next (d, s)
  filtered next call range d (ok false, (tag, s)) =
      if not (leb range.begin (tag_id tag) && ltb (tag_id tag) range.end)
      then next (d, s)
      else call tag (d, s)
  filtered next call range d (err e, (tag, s)) = (err e, (d, s))
  filtered next call range d (abort, (tag, s)) = (abort, (d, s))
  filtered next call range d (out_of_fuel, (tag, s)) = (out_of_fuel, (d, s))

  -- What follows the search for the next tag, where `next` is the rest of the loop, `call` what is done
  -- with a tag before it, and `filter` the search for duplicates.
  unfoldable pub traverse_next :
      {D : Type 0}
      → (Source → D × (Dev × Cache) → Outcome Bool × (D × (Dev × Cache)))
      → (Source → Buffer → ℕ → D × (Dev × Cache) → Outcome Bool × (D × (Dev × Cache)))
      → (Source → ℕ × (Dev × Cache) → Outcome Bool × (ℕ × (Dev × Cache)))
      → Range
      → Outcome (Option (ℕ × Buffer × Source))
      → D × (Dev × Cache)
      → Outcome Bool × (D × (Dev × Cache))
  traverse_next next call filter range (ok none) w = (ok false, w)
  traverse_next next call filter range (ok (some (tag, buffer, src))) (d, s) =
      let mask = bit_and (mktag 0x7ff 0 0) range.tmask in
      if not (bit_and mask tag == bit_and mask range.ttag)
      then next src (d, s)
      else if not (tag_id range.tmask == 0)
      then filtered (next src) (call src buffer) range d (filter src (tag, s))
      else call src buffer tag (d, s)
  traverse_next next call filter range (err e) w = (err e, w)
  traverse_next next call filter range abort w = (abort, w)
  traverse_next next call filter range out_of_fuel w = (out_of_fuel, w)

  -- The loop, with fuel for the rounds and for the traversals inside of it.
  unfoldable pub dir_traverse :
      (D : Type 0)
      → ℕ
      → Callback D
      → Source
      → Range
      → D × (Dev × Cache)
      → Outcome Bool × (D × (Dev × Cache))
  dir_traverse D zero cb src range w = (out_of_fuel, w)
  dir_traverse D (suc fuel) cb src range (d, s) =
      let (out, s') = next_tag src s in
      let next : Source → D × (Dev × Cache) → Outcome Bool × (D × (Dev × Cache)) =
        λ src' w. dir_traverse D fuel cb src' range w in
      traverse_next next
        (λ src' buffer tag w.
          or_stop (call_tag (dir_traverse D fuel cb) cb src' range tag buffer w) (next src'))
        (λ src' w. dir_traverse ℕ fuel filter_tag src' all_tags w) range out (d, s')
