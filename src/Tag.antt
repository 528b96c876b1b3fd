-- ===== src/Tag.antt =====
-- The 32-bit tags of metadata entries and the pairs of blocks, of littlefs/lfs2.c, with the entry
-- types of littlefs/lfs2.h.
pub mod Layout
pub mod BlockPair
use mbed_littlefs.Base.{
  ℕ, ◌+◌, ◌-◌, ◌*◌, ◌/◌, ◌%◌, ◌^◌, bit_and, bit_or, Bool, true, false, not, ◌&&◌, ◌||◌, ltb, ◌==◌,
  if◌then◌else◌, u8, u16, u32, ◌<<<◌, ◌>>>◌, ℤ, pos, negsuc, signed32,
}
use mbed_littlefs.Util.{ByteOrder, fromle32, tole32}

-- `lfs2_block_t pair[2]`.
abbrev pub Pair : Type 0
Pair = ℕ × ℕ

unfoldable pub pair_swap : Pair → Pair
pair_swap (a, b) = (b, a)

unfoldable pub pair_isnull : Pair → Bool
pair_isnull pair = pair.0 == 0xffffffff || pair.1 == 0xffffffff

-- Not 0, that is true, if the pairs have no block in common at the compared places.
unfoldable pub pair_cmp : Pair → Pair → Bool
pair_cmp paira pairb =
    not (paira.0 == pairb.0 || (paira.1 == pairb.1 || (paira.0 == pairb.1 || paira.1 == pairb.0)))

unfoldable pub pair_sync : Pair → Pair → Bool
pair_sync paira pairb =
    (paira.0 == pairb.0 && paira.1 == pairb.1) || (paira.0 == pairb.1 && paira.1 == pairb.0)

pub pair_fromle32 : ByteOrder → Pair → Pair
pair_fromle32 host pair = (fromle32 host pair.0, fromle32 host pair.1)

pub pair_tole32 : ByteOrder → Pair → Pair
pair_tole32 host pair = (tole32 host pair.0, tole32 host pair.1)

-- `enum lfs2_type`.
abbrev pub type_reg : ℕ
type_reg = 0x001

abbrev pub type_dir : ℕ
type_dir = 0x002

abbrev pub type_splice : ℕ
type_splice = 0x400

abbrev pub type_superblock : ℕ
type_superblock = 0x0ff

abbrev pub type_name : ℕ
type_name = 0x000

abbrev pub type_struct : ℕ
type_struct = 0x200

abbrev pub type_userattr : ℕ
type_userattr = 0x300

abbrev pub type_tail : ℕ
type_tail = 0x600

abbrev pub type_crc : ℕ
type_crc = 0x500

abbrev pub type_create : ℕ
type_create = 0x401

abbrev pub type_delete : ℕ
type_delete = 0x4ff

abbrev pub type_dirstruct : ℕ
type_dirstruct = 0x200

abbrev pub type_ctzstruct : ℕ
type_ctzstruct = 0x202

abbrev pub type_inlinestruct : ℕ
type_inlinestruct = 0x201

abbrev pub type_movestate : ℕ
type_movestate = 0x7ff

abbrev pub from_noop : ℕ
from_noop = 0x000

abbrev pub from_move : ℕ
from_move = 0x101

abbrev pub from_userattrs : ℕ
from_userattrs = 0x102

-- `LFS2_MKTAG(type, id, size)`; a negative argument is given by its uint32_t.
unfoldable pub mktag : ℕ → ℕ → ℕ → ℕ
mktag type id size = bit_or (bit_or (u32 (type <<< 20)) (u32 (id <<< 10))) size

unfoldable pub tag_isvalid : ℕ → Bool
tag_isvalid tag = bit_and tag 0x80000000 == 0

-- `n >> k` of a signed number rounds down.
abbrev shift_signed : ℤ → ℕ → ℤ
shift_signed (pos n) k = pos (n >>> k)
shift_signed (negsuc n) k = negsuc (n >>> k)

abbrev is_minus_one : ℤ → Bool
is_minus_one (pos n) = false
is_minus_one (negsuc n) = n == 0

unfoldable pub tag_isdelete : ℕ → Bool
tag_isdelete tag = is_minus_one (shift_signed (signed32 (u32 (tag <<< 22))) 22)

unfoldable pub tag_type1 : ℕ → ℕ
tag_type1 tag = u16 (bit_and tag 0x70000000 >>> 20)

unfoldable pub tag_type3 : ℕ → ℕ
tag_type3 tag = u16 (bit_and tag 0x7ff00000 >>> 20)

unfoldable pub tag_chunk : ℕ → ℕ
tag_chunk tag = u8 (bit_and tag 0x0ff00000 >>> 20)

-- `(int8_t)lfs2_tag_chunk(tag)`, as the uint32_t that the code adds it as.
unfoldable pub tag_splice : ℕ → ℕ
tag_splice tag = let chunk = tag_chunk tag in if ltb chunk 0x80 then chunk else chunk + 0xffffff00

unfoldable pub tag_id : ℕ → ℕ
tag_id tag = u16 (bit_and tag 0x000ffc00 >>> 10)

unfoldable pub tag_size : ℕ → ℕ
tag_size tag = bit_and tag 0x000003ff

unfoldable pub tag_dsize : ℕ → ℕ
tag_dsize tag = u32 (4 + tag_size (u32 (tag + (if tag_isdelete tag then 1 else 0))))
