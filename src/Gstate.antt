-- ===== src/Gstate.antt =====
-- The global state of littlefs/lfs2.c: `struct lfs2_gstate`, its operations, and the functions
-- that announce a move or a change of the number of orphans.
pub mod Move
pub mod Orphans
use mbed_littlefs.Base.{
  ℕ, ◌+◌, ◌*◌, ◌%◌, ◌^◌, bit_and, bit_xor, Bool, true, false, not, ◌&&◌, ◌==◌, if◌then◌else◌, u8,
  u32,
}
use mbed_littlefs.Util.{ByteOrder, fromle32, tole32}
use mbed_littlefs.Tag.{Pair, pair_cmp, mktag, type_delete, tag_size, tag_type1}

-- `struct lfs2_gstate`.
pub record Gstate : Type 0 where
  pub tag : ℕ
  pub pair : Pair

abbrev pub gstate_zero : Gstate
gstate_zero = record { tag = 0; pair = (0, 0) }

unfoldable pub gstate_xor : Gstate → Gstate → Gstate
gstate_xor a b = record {
  tag = bit_xor a.tag b.tag;
  pair = (bit_xor a.pair.0 b.pair.0, bit_xor a.pair.1 b.pair.1);
}

unfoldable pub gstate_iszero : Gstate → Bool
gstate_iszero a = a.tag == 0 && (a.pair.0 == 0 && a.pair.1 == 0)

unfoldable pub gstate_hasorphans : Gstate → Bool
gstate_hasorphans a = not (tag_size a.tag == 0)

unfoldable pub gstate_getorphans : Gstate → ℕ
gstate_getorphans a = u8 (tag_size a.tag)

unfoldable pub gstate_hasmove : Gstate → Bool
gstate_hasmove a = not (tag_type1 a.tag == 0)

unfoldable pub gstate_hasmovehere : Gstate → Pair → Bool
gstate_hasmovehere a pair = not (tag_type1 a.tag == 0) && not (pair_cmp a.pair pair)

unfoldable pub gstate_xororphans : Gstate → Gstate → Bool → Gstate
gstate_xororphans a b orphans = record a {
  tag =
      bit_xor a.tag (bit_and (mktag 0x800 0 0) (bit_xor b.tag (if orphans then 0x80000000 else 0)));
}

unfoldable pub gstate_xormove : Gstate → Gstate → ℕ → Pair → Gstate
gstate_xormove a b id pair =
    let moved = not (id == 0x3ff) in
    record a {
      tag = bit_xor a.tag (
          bit_and (mktag 0x7ff 0x3ff 0)
            (bit_xor b.tag (if moved then mktag type_delete id 0 else 0)));
      pair = (
        bit_xor a.pair.0 (bit_xor b.pair.0 (if moved then pair.0 else 0)),
        bit_xor a.pair.1 (bit_xor b.pair.1 (if moved then pair.1 else 0)),
      );
    }

unfoldable pub gstate_fromle32 : ByteOrder → Gstate → Gstate
gstate_fromle32 host a = record {
  tag = fromle32 host a.tag;
  pair = (fromle32 host a.pair.0, fromle32 host a.pair.1);
}

unfoldable pub gstate_tole32 : ByteOrder → Gstate → Gstate
gstate_tole32 host a = record {
  tag = tole32 host a.tag;
  pair = (tole32 host a.pair.0, tole32 host a.pair.1);
}

-- The three global states of `lfs2_t`: committed, pending, and what the next commits have to add.
pub record Globals : Type 0 where
  pub gstate : Gstate
  pub gpending : Gstate
  pub gdelta : Gstate

-- `orphans` is the uint32_t of the int8_t argument.
unfoldable pub fs_preporphans : Globals → ℕ → Globals
fs_preporphans g orphans =
    let pending = record (g.gpending) { tag = u32 (g.gpending.tag + orphans) } in
    let has = gstate_hasorphans pending in
    record g {
      gdelta = gstate_xororphans g.gdelta pending has;
      gpending = gstate_xororphans pending pending has;
    }

unfoldable pub fs_prepmove : Globals → ℕ → Pair → Globals
fs_prepmove g id pair = record g {
  gdelta = gstate_xormove g.gdelta g.gpending id pair;
  gpending = gstate_xormove g.gpending g.gpending id pair;
}
