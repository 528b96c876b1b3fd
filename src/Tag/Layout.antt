-- ===== src/Tag/Layout.antt =====
-- The fields of a tag: what `LFS2_MKTAG` packs, the accessors give back.
use mbed_littlefs.Base.{
  ℕ, ◌+◌, ◌-◌, ◌*◌, ◌/◌, ◌%◌, ◌^◌, ◌≤◌, ◌<◌, ◌≡◌, arith, true, u32, ◌↔◌, ltb, if◌then◌else◌, inl,
  inr, Bool-cases, ◌∙◌,
}
use mbed_littlefs.Bits.Field.{or_sum, and_low, and_field}
use mbed_littlefs.Tag.{
  mktag, tag_isvalid, tag_isdelete, tag_type1, tag_type3, tag_chunk, tag_id, tag_size, tag_dsize,
}

pub mktag_sum :
    (type id size : ℕ)
    → type < 2 ^ 12
    → id < 2 ^ 10
    → size < 2 ^ 10
    → mktag type id size ≡ type * 2 ^ 20 + id * 2 ^ 10 + size
unfolding mktag
mktag_sum type id size ht hi hs =
    ground (arith, or_sum 20 type (id * 2 ^ 10), or_sum 10 (type * 2 ^ 10 + id) size)

pub tag_type3_lem : (tag : ℕ) → tag_type3 tag ≡ tag / 2 ^ 20 % 2 ^ 11
unfolding tag_type3
tag_type3_lem tag = omega (arith, and_field 20 11 tag)

pub tag_type1_lem : (tag : ℕ) → tag_type1 tag ≡ tag / 2 ^ 28 % 2 ^ 3 * 2 ^ 8
unfolding tag_type1
tag_type1_lem tag = omega (arith, and_field 28 3 tag)

pub tag_chunk_lem : (tag : ℕ) → tag_chunk tag ≡ tag / 2 ^ 20 % 2 ^ 8
unfolding tag_chunk
tag_chunk_lem tag = omega (arith, and_field 20 8 tag)

pub tag_id_lem : (tag : ℕ) → tag_id tag ≡ tag / 2 ^ 10 % 2 ^ 10
unfolding tag_id
tag_id_lem tag = omega (arith, and_field 10 10 tag)

pub tag_size_lem : (tag : ℕ) → tag_size tag ≡ tag % 2 ^ 10
unfolding tag_size
tag_size_lem tag = omega (arith, and_low 10 tag)

pub tag_isvalid_iff : (tag : ℕ) → tag < 2 ^ 32 → (tag_isvalid tag ≡ true) ↔ (tag < 2 ^ 31)
unfolding tag_isvalid
tag_isvalid_iff tag h = ground (arith, and_field 31 1 tag)

pub tag_isdelete_iff : (tag : ℕ) → (tag_isdelete tag ≡ true) ↔ (tag % 2 ^ 10 ≡ 0x3ff)
unfolding tag_isdelete
tag_isdelete_iff tag = ground arith

-- `LFS2_MKTAG` and the accessors are inverse: a type of 11 bits, an id and a size of 10 bits come
-- back from a valid tag.
pub mktag_fields :
    (type id size : ℕ)
    → type < 2 ^ 11
    → id < 2 ^ 10
    → size < 2 ^ 10
    → let tag = mktag type id size in
      (tag_type3 tag ≡ type) × (tag_id tag ≡ id) × (tag_size tag ≡ size) × (tag_isvalid tag ≡ true)
mktag_fields type id size ht hi hs =
    let tag = mktag type id size in
    let sum = mktag_sum type id size (omega arith) hi hs in
    (
      omega (arith, sum, tag_type3_lem tag),
      omega (arith, sum, tag_id_lem tag),
      omega (arith, sum, tag_size_lem tag),
      (tag_isvalid_iff tag (omega (arith, sum))).1 (omega (arith, sum)),
    )

-- Every valid tag is made of its fields.
pub mktag_of_fields :
    (tag : ℕ)
    → tag < 2 ^ 32
    → tag_isvalid tag ≡ true
    → mktag (tag_type3 tag) (tag_id tag) (tag_size tag) ≡ tag
mktag_of_fields tag h v =
    let below = (tag_isvalid_iff tag h).0 v in
    rw (tag_type3_lem tag, tag_id_lem tag, tag_size_lem tag)
      (mktag_sum (tag / 2 ^ 20 % 2 ^ 11) (tag / 2 ^ 10 % 2 ^ 10) (tag % 2 ^ 10) (omega arith)
          (omega arith) (omega arith)
        ∙ omega arith)

-- On disk an entry takes its four bytes of tag and `size` bytes of data, but a size of 0x3ff marks
-- a deleted entry with no data.
tag_dsize_lem :
    (tag : ℕ)
    → tag < 2 ^ 32
    → tag_dsize tag ≡ (if ltb (tag % 2 ^ 10) 0x3ff then 4 + tag % 2 ^ 10 else 4)
unfolding tag_dsize
tag_dsize_lem tag h = elim (Bool-cases (tag_isdelete tag)) [
  | inl e ↦ ground (arith, e, (tag_isdelete_iff tag).0 e, tag_size_lem (u32 (tag + 1)))
  | inr e ↦ ground (arith, e, tag_isdelete_iff tag, tag_size_lem (u32 (tag + 0)))
]

pub tag_dsize_bounds : (tag : ℕ) → tag < 2 ^ 32 → (4 ≤ tag_dsize tag) × (tag_dsize tag ≤ 4 + 0x3fe)
tag_dsize_bounds tag h = ground (arith, tag_dsize_lem tag h)

mktag_id : (id : ℕ) → mktag 0 id 0 ≡ u32 (id * 2 ^ 10)
unfolding mktag
mktag_id id = ground (arith, or_sum 32 0 (u32 (id * 2 ^ 10)), or_sum 10 (id % 2 ^ 22) 0)

tag_isvalid_lem : (tag : ℕ) → tag < 2 ^ 32 → tag_isvalid tag ≡ ltb tag (2 ^ 31)
unfolding tag_isvalid
tag_isvalid_lem tag h = ground (arith, and_field 31 1 tag)

-- `other` has the type, the size and the validity of `tag`.
abbrev pub SameButId : ℕ → ℕ → Type 0
SameButId other tag =
    (tag_type3 other ≡ tag_type3 tag)
    × (tag_size other ≡ tag_size tag)
    × (tag_isvalid other ≡ tag_isvalid tag)

same_but_id :
    (other tag : ℕ)
    → other < 2 ^ 32
    → tag < 2 ^ 32
    → other / 2 ^ 20 ≡ tag / 2 ^ 20
    → other % 2 ^ 10 ≡ tag % 2 ^ 10
    → SameButId other tag
same_but_id other tag ho ht high low = (
  omega (arith, tag_type3_lem other, tag_type3_lem tag),
  omega (arith, tag_size_lem other, tag_size_lem tag),
  ground (arith, tag_isvalid_lem other ho, tag_isvalid_lem tag ht),
)

-- Adding `LFS2_MKTAG(0, d, 0)` moves the id of a tag up by `d` where that fits its ten bits, and
-- leaves the type, the size and the validity.
pub tag_id-add :
    (tag d : ℕ)
    → tag < 2 ^ 32
    → tag_id tag + d < 2 ^ 10
    → let up = u32 (tag + mktag 0 d 0) in (tag_id up ≡ tag_id tag + d) × SameButId up tag
tag_id-add tag d h fits =
    let up = u32 (tag + mktag 0 d 0) in
    let id = tag_id_lem tag in
    let sum : up ≡ tag + d * 2 ^ 10 = omega (arith, mktag_id d, id) in
    (
      omega (arith, sum, id, tag_id_lem up),
      same_but_id up tag (omega arith) h (omega (arith, id)) (omega (arith, id)),
    )

-- Adding `LFS2_MKTAG(0, -d, 0)` moves the id of a tag down by `d` where the id is at least `d`,
-- and leaves the type, the size and the validity.
pub tag_id-sub :
    (tag d : ℕ)
    → tag < 2 ^ 32
    → d ≤ tag_id tag
    → let down = u32 (tag + mktag 0 (2 ^ 32 - d) 0) in
      (tag_id down + d ≡ tag_id tag) × SameButId down tag
tag_id-sub tag d h fits =
    let down = u32 (tag + mktag 0 (2 ^ 32 - d) 0) in
    let id = tag_id_lem tag in
    let sum : down + d * 2 ^ 10 ≡ tag = omega (arith, mktag_id (2 ^ 32 - d), id) in
    (
      omega (arith, sum, id, tag_id_lem down),
      same_but_id down tag (omega arith) h (omega (arith, id)) (omega (arith, id)),
    )
