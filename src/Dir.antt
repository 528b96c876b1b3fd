-- ===== src/Dir.antt =====
-- Reading the log of a metadata pair in littlefs/lfs2.c: `lfs2_mdir_t`, `lfs2_dir_getslice`,
-- `lfs2_dir_get`, `lfs2_dir_getread`, `lfs2_dir_traverse_filter`, `lfs2_dir_getgstate`,
-- `lfs2_dir_getinfo` and `lfs2_dir_find_match`.
pub mod Slice
pub mod Open
pub mod Commit
pub mod Fetch
pub mod Find
pub mod Handles
pub mod Traverse
pub mod Log
pub mod Walk
pub mod Seek
use mbed_littlefs.Base.{
  ℕ, zero, suc, ◌+◌, ◌-◌, ◌*◌, ◌/◌, ◌%◌, ◌^◌, min, Bool, true, false, not, ◌&&◌, ◌||◌, ltb, leb,
  ◌==◌, if◌then◌else◌, List, [], ◌∷◌, ◌++◌, Option, none, some, length, take, replicate, Error,
  noent, corrupt, Outcome, ok, err, abort, out_of_fuel, u32, sub32, bit_and, bit_or, bit_xor,
}
use mbed_littlefs.Util.{ByteOrder, frombe32, fromle32, aligndown, alignup}
use mbed_littlefs.Tag.{
  Pair, mktag, tag_id, tag_size, tag_type1, tag_type3, tag_dsize, tag_splice, tag_isdelete,
  type_splice, type_create, type_delete, type_name, type_struct, type_dir, type_movestate,
  type_ctzstruct, type_inlinestruct,
}
use mbed_littlefs.Gstate.{Gstate, gstate_hasmovehere, gstate_fromle32, gstate_xor}
use mbed_littlefs.Device.{Config, Driver, Cache}
use mbed_littlefs.Bd.{overwrite, touches, hit, bd_read}
use mbed_littlefs.Bd.Prog.{Cmp, cmp_eq, cmp_lt, cmp_gt, block_inline, bd_cmp}
use mbed_littlefs.Store.{bind, word_at}

-- `lfs2_mdir_t`.
pub record Mdir : Type 0 where
  pub pair : Pair
  pub rev : ℕ
  pub off : ℕ
  pub etag : ℕ
  pub count : ℕ
  pub erased : Bool
  pub split : Bool
  pub tail : Pair

-- The adjustment of ids at the start of `lfs2_dir_getslice`: an entry that is being moved away is
-- taken as deleted.
unfoldable pub slice_start : Gstate → Mdir → ℕ → ℕ
slice_start gstate dir gtag =
    if gstate_hasmovehere gstate dir.pair && leb (tag_id gtag) (tag_id gstate.tag)
    then sub32 0 (mktag 0 1 0)
    else 0

-- The entry of the log is a splice at or before the id that is looked for.
unfoldable pub splices : ℕ → ℕ → ℕ → ℕ → Bool
splices gmask gtag gdiff tag =
    not (tag_id gmask == 0)
    && (tag_type1 tag == type_splice && leb (tag_id tag) (tag_id (sub32 gtag gdiff)))

-- The entry of the log is the creation of the id that is looked for.
unfoldable pub creates : ℕ → ℕ → ℕ → Bool
creates gtag gdiff tag =
    tag == bit_or (mktag type_create 0 0) (bit_and (mktag 0 0x3ff 0) (sub32 gtag gdiff))

-- The inline data of the program cache, if there is one.
abbrev pub touches_some : Option Cache → ℕ → Bool
touches_some none off = false
touches_some (some pcache) off = touches pcache block_inline off

abbrev pub some_off : Option Cache → ℕ
some_off none = 0
some_off (some pcache) = pcache.off

abbrev pub some_size : Option Cache → ℕ
some_size none = 0
some_size (some pcache) = pcache.size

abbrev pub some_hit : Option Cache → ℕ → ℕ → List ℕ
some_hit none off n = []
some_hit (some pcache) off n = hit pcache off n

-- `struct lfs2_info`; a size that the code does not set is `none`.
pub record Info : Type 0 where
  pub type : ℕ
  pub size : Option ℕ
  pub name : List ℕ

module _ (cfg : Config) (drv : Driver) (host : ByteOrder) where
  open drv use {Dev}

  -- `lfs2_bd_read(lfs2, NULL, &lfs2->rcache, ...)`.
  abbrev pub read_rcache : Dev × Cache → ℕ → ℕ → ℕ → ℕ → Outcome (List ℕ) × (Dev × Cache)
  read_rcache (dev, rcache) hint block off size =
      let (out, dev', rcache') = bd_read cfg drv dev none rcache hint block off size in
      (out, (dev', rcache'))

  -- The entry of tag `tag` whose data begins at `off + 4`, if it is the one looked for; `again` is the
  -- rest of the loop.
  unfoldable pub slice_match :
      (ℕ → Dev × Cache → Outcome (ℕ × List ℕ) × (Dev × Cache))
      → Mdir
      → ℕ
      → ℕ
      → ℕ
      → ℕ
      → ℕ
      → ℕ
      → ℕ
      → Dev × Cache
      → Outcome (ℕ × List ℕ) × (Dev × Cache)
  slice_match again dir gmask gtag goff gsize off tag gdiff s =
      elim (bit_and gmask tag == bit_and gmask (sub32 gtag gdiff)) [
        | false ↦ again gdiff s
        | true ↦ elim (tag_isdelete tag) [
          | true ↦ (err noent, s)
          | false ↦
              let diff = min (tag_size tag) gsize in
              bind (read_rcache s diff dir.pair.0 (u32 (u32 (off + 4) + goff)) diff)
                (λ bytes s'. (ok (u32 (tag + gdiff), bytes ++ replicate (gsize - diff) 0), s'))
        ]
      ]

  -- One entry: the splices before the match.
  unfoldable pub slice_entry :
      (ℕ → Dev × Cache → Outcome (ℕ × List ℕ) × (Dev × Cache))
      → Mdir
      → ℕ
      → ℕ
      → ℕ
      → ℕ
      → ℕ
      → ℕ
      → ℕ
      → Dev × Cache
      → Outcome (ℕ × List ℕ) × (Dev × Cache)
  slice_entry again dir gmask gtag goff gsize off tag gdiff s =
      elim (splices gmask gtag gdiff tag) [
        | false ↦ slice_match again dir gmask gtag goff gsize off tag gdiff s
        | true ↦ elim (creates gtag gdiff tag) [
          | true ↦ (err noent, s)
          | false ↦
              slice_match again dir gmask gtag goff gsize off tag
                (u32 (gdiff + mktag 0 (tag_splice tag) 0)) s
        ]
      ]

  -- The loop of `lfs2_dir_getslice`, backwards over the log, with fuel.
  unfoldable pub slice_loop :
      Mdir → ℕ → ℕ → ℕ → ℕ → ℕ → ℕ → ℕ → ℕ → Dev × Cache → Outcome (ℕ × List ℕ) × (Dev × Cache)
  slice_loop dir gmask gtag goff gsize zero off ntag gdiff s = (out_of_fuel, s)
  slice_loop dir gmask gtag goff gsize (suc fuel) off ntag gdiff s =
      elim (leb (u32 (4 + tag_dsize ntag)) off) [
        | false ↦ (err noent, s)
        | true ↦
            let off' = off - tag_dsize ntag in
            bind (read_rcache s 4 dir.pair.0 off' 4) (λ bytes s'.
              let ntag' =
                bit_and (bit_xor (frombe32 host (word_at host bytes 0)) ntag) 0x7fffffff in
              slice_entry (slice_loop dir gmask gtag goff gsize fuel off' ntag') dir gmask gtag goff
                gsize off' ntag gdiff s')
      ]

  -- The tag that is found, with its id as of now, and `gsize` bytes. An entry takes four bytes.
  unfoldable pub dir_getslice :
      Gstate → Mdir → ℕ → ℕ → ℕ → ℕ → Dev × Cache → Outcome (ℕ × List ℕ) × (Dev × Cache)
  dir_getslice gstate dir gmask gtag goff gsize s =
      slice_loop dir gmask gtag goff gsize (dir.off + 1) dir.off dir.etag
        (slice_start gstate dir gtag) s

  unfoldable pub dir_get :
      Gstate → Mdir → ℕ → ℕ → Dev × Cache → Outcome (ℕ × List ℕ) × (Dev × Cache)
  dir_get gstate dir gmask gtag s = dir_getslice gstate dir gmask gtag 0 (tag_size gtag) s

  -- What follows a lookup of the global state.
  abbrev pub gstate_next :
      Gstate → Outcome (ℕ × List ℕ) × (Dev × Cache) → Outcome Gstate × (Dev × Cache)
  gstate_next gstate (ok (tag, bytes), s) =
      let temp : Gstate = record {
        tag = word_at host bytes 0;
        pair = (word_at host bytes 4, word_at host bytes 8);
      } in
      (ok (gstate_xor gstate (gstate_fromle32 host temp)), s)
  gstate_next gstate (err noent, s) = (ok gstate, s)
  gstate_next gstate (err e, s) = (err e, s)
  gstate_next gstate (abort, s) = (abort, s)
  gstate_next gstate (out_of_fuel, s) = (out_of_fuel, s)

  unfoldable pub dir_getgstate :
      Gstate → Mdir → Gstate → Dev × Cache → Outcome Gstate × (Dev × Cache)
  dir_getgstate own dir gstate s =
      gstate_next gstate (dir_get own dir (mktag 0x7ff 0 0) (mktag type_movestate 0 12) s)

  -- `lfs2_dir_getinfo`, with `name_max` as the mounted file system has it.
  unfoldable pub dir_getinfo : Gstate → ℕ → Mdir → ℕ → Dev × Cache → Outcome Info × (Dev × Cache)
  dir_getinfo gstate name_max dir id s =
      if id == 0x3ff
      then (ok (record { type = type_dir; size = none; name = 0x2f ∷ 0 ∷ [] }), s)
      else bind
          (dir_get gstate dir (mktag 0x780 0x3ff 0) (mktag type_name id (u32 (name_max + 1))) s)
          (λ named s1.
            bind (dir_get gstate dir (mktag 0x700 0x3ff 0) (mktag type_struct id 8) s1) (λ found s2.
              let size =
                if tag_type3 found.0 == type_ctzstruct
                then some (fromle32 host (word_at host found.1 4))
                else if tag_type3 found.0 == type_inlinestruct
                then some (tag_size found.0)
                else none in
              (ok (record { type = tag_type3 named.0; size = size; name = named.1 }), s2)))

  -- What follows the comparison of the common prefix, of `size` and of the name on disk.
  abbrev pub match_next : ℕ → ℕ → Outcome Cmp × (Dev × Cache) → Outcome Cmp × (Dev × Cache)
  match_next size tag (ok cmp_eq, s) =
      if size == tag_size tag
      then (ok cmp_eq, s)
      else (ok (if ltb size (tag_size tag) then cmp_lt else cmp_gt), s)
  match_next size tag (out, s) = (out, s)

  unfoldable pub dir_find_match : List ℕ → ℕ → ℕ → ℕ → ℕ → Dev × Cache → Outcome Cmp × (Dev × Cache)
  dir_find_match name size tag block off (dev, rcache) =
      let diff = min size (tag_size tag) in
      let (out, dev', rcache') = bd_cmp cfg drv dev none rcache diff block off (take diff name) in
      match_next size tag (out, (dev', rcache'))

  -- The loop of `lfs2_dir_getread`, with fuel, over the device, `lfs2->rcache` and `rcache`. The
  -- result is what the function returns and the bytes that it has filled in; it returns what
  -- `lfs2_dir_getslice` does if that is not 0.
  unfoldable pub getread_loop :
      Gstate
      → Mdir
      → Option Cache
      → ℕ
      → ℕ
      → ℕ
      → ℕ
      → (Dev × Cache) × Cache
      → ℕ
      → ℕ
      → Outcome (ℕ × List ℕ) × ((Dev × Cache) × Cache)
  getread_loop gstate dir pcache hint gmask gtag zero s off size = (out_of_fuel, s)
  getread_loop gstate dir pcache hint gmask gtag (suc fuel) (s, rcache) off size =
      elim (size == 0) [
        | true ↦ (ok (0, []), (s, rcache))
        | false ↦ elim (touches_some pcache off && leb (some_off pcache) off) [
          | true ↦
              let n = min size (some_size pcache - (off - some_off pcache)) in
              bind
                (getread_loop gstate dir pcache hint gmask gtag fuel (s, rcache) (off + n)
                  (size - n))
                (λ out s'. (ok (out.0, some_hit pcache off n ++ out.1), s'))
          | false ↦
              let diff =
                if touches_some pcache off then min size (some_off pcache - off) else size in
              elim (touches rcache block_inline off && leb rcache.off off) [
                | true ↦
                    let n = min diff (rcache.size - (off - rcache.off)) in
                    bind
                      (getread_loop gstate dir pcache hint gmask gtag fuel (s, rcache) (off + n)
                        (size - n))
                      (λ out s'. (ok (out.0, hit rcache off n ++ out.1), s'))
                | false ↦
                    let start = aligndown off cfg.read_size in
                    let span = min (alignup (u32 (off + hint)) cfg.read_size) cfg.cache_size in
                    let rc = record rcache { block = block_inline; off = start; size = span } in
                    let (out, s') = dir_getslice gstate dir gmask gtag start span s in
                    bind (out, (s', rc))
                      (λ found s2.
                        let rc' = record (s2.1) { buffer = overwrite s2.1.buffer 0 found.1 } in
                        elim (found.0 == 0) [
                          | true ↦
                              getread_loop gstate dir pcache hint gmask gtag fuel (s2.0, rc') off
                                size
                          | false ↦ (ok (found.0, []), (s2.0, rc'))
                        ])
              ]
        ]
      ]

  unfoldable pub dir_getread :
      Gstate
      → Mdir
      → Option Cache
      → ℕ
      → ℕ
      → ℕ
      → (Dev × Cache) × Cache
      → ℕ
      → ℕ
      → Outcome (ℕ × List ℕ) × ((Dev × Cache) × Cache)
  dir_getread gstate dir pcache hint gmask gtag s off size =
      if ltb cfg.block_size (u32 (off + size))
      then (err corrupt, s)
      else getread_loop gstate dir pcache hint gmask gtag (2 * size + 2) s off size

-- The tag that is kept (`*filtertag`), and whether `tag` makes it redundant.
unfoldable pub dir_traverse_filter : ℕ → ℕ → Bool × ℕ
dir_traverse_filter filtertag tag =
    let mask = mktag 0x7ff 0x3ff 0 in
    if bit_and mask tag == bit_and mask filtertag
      || bit_and mask tag == bit_or (mktag type_delete 0 0) (bit_and (mktag 0 0x3ff 0) filtertag)
    then (true, filtertag)
    else if tag_type1 tag == type_splice && leb (tag_id tag) (tag_id filtertag)
    then (false, u32 (filtertag + mktag 0 (tag_splice tag) 0))
    else (false, filtertag)
