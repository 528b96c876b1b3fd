-- ===== src/Gstate/Orphans.antt =====
-- `lfs2_fs_preporphans`: the number of orphans and its flag.
use mbed_littlefs.Base.{
  ℕ, ◌+◌, ◌*◌, ◌/◌, ◌%◌, ◌^◌, ◌<◌, ◌≡◌, arith, bit_xor, bit_and, ◌∙◌, ap, if◌then◌else◌, ◌==◌, Bool,
  u32, refl, sym,
}
use mbed_littlefs.Bits.Digit.{xor_zero, and_comm, xor-xor_left, xor_both}
use mbed_littlefs.Bits.Field.{and_field, xor-div, xor-mod, xor-lt}
use mbed_littlefs.Tag.{mktag, tag_size, tag_id, tag_type3}
use mbed_littlefs.Tag.Layout.{tag_size_lem, tag_id_lem, tag_type3_lem}
use mbed_littlefs.Gstate.{Globals, gstate_hasorphans, gstate_xororphans, fs_preporphans}

-- The top digit of a word becomes the flag, the other digits stay.
set_flag :
    (a : ℕ) (has : Bool)
    → a < 2 ^ 32
    → let m = bit_xor a (bit_and (mktag 0x800 0 0) (bit_xor a (if has then 0x80000000 else 0))) in
      (m % 2 ^ 31 ≡ a % 2 ^ 31) × (m / 2 ^ 31 ≡ (if has then 1 else 0))
unfolding mktag
set_flag a has h =
    let n : ℕ = if has then 0x80000000 else 0 in
    let y = bit_xor a n / 2 ^ 31 % 2 * 2 ^ 31 in
    let masked : bit_and 0x80000000 (bit_xor a n) ≡ y =
      and_comm 0x80000000 (bit_xor a n) ∙ and_field 31 1 (bit_xor a n) in
    let flag : n / 2 ^ 31 ≡ (if has then 1 else 0) = ground arith in
    let small : n / 2 ^ 31 < 2 = ground arith in
    let top : y / 2 ^ 31 ≡ bit_xor (a / 2 ^ 31) (n / 2 ^ 31) =
      ground (arith, xor-div 31 a n, xor-lt 1 (a / 2 ^ 31) (n / 2 ^ 31)) in
    rw masked (
      ground (arith, xor-mod 31 a y, xor_zero (a % 2 ^ 31)),
      ground (arith, xor-div 31 a y, top, flag, xor-xor_left (a / 2 ^ 31) (n / 2 ^ 31)),
    )

-- Adding `d` to the number of orphans, or taking `d` away (`2 ^ 32 - d` is added), where the number
-- stays in its ten bits: the pending number of orphans is the new one, its flag is set exactly when
-- that is not 0, and the pending move is as it was.
fs_preporphans_sets :
    (g : Globals) (orphans n : ℕ)
    → g.gpending.tag < 2 ^ 32
    → n < 2 ^ 10
    → u32 (tag_size g.gpending.tag + orphans) ≡ n
    → let pending = (fs_preporphans g orphans).gpending in
      (tag_size pending.tag ≡ n)
      × (pending.tag / 2 ^ 31 ≡ (if n == 0 then 0 else 1))
      × (tag_type3 pending.tag ≡ tag_type3 g.gpending.tag)
      × (tag_id pending.tag ≡ tag_id g.gpending.tag)
      × (pending.pair ≡ g.gpending.pair)
unfolding fs_preporphans gstate_xororphans gstate_hasorphans
fs_preporphans_sets g orphans n h fits e =
    let a = g.gpending.tag in
    let p = u32 (a + orphans) in
    let size = tag_size_lem a in
    let same : p / 2 ^ 10 ≡ a / 2 ^ 10 = omega (arith, size) in
    let count : p % 2 ^ 10 ≡ n = omega (arith, size) in
    let has = gstate_hasorphans (record (g.gpending) { tag = p }) in
    let m = bit_xor p (bit_and (mktag 0x800 0 0) (bit_xor p (if has then 0x80000000 else 0))) in
    let (low, top) = set_flag p has (omega arith) in
    (
      omega (arith, low, count, tag_size_lem m),
      top ∙ ground (arith, count, tag_size_lem p),
      omega (arith, low, same, tag_type3_lem m, tag_type3_lem a),
      omega (arith, low, same, tag_id_lem m, tag_id_lem a),
      refl,
    )

-- Where the new number of orphans fits ten bits, the sum of what is pending and what is to be added
-- stays, but for the number of orphans, which is kept in memory alone.
fs_preporphans_sum :
    (g : Globals) (orphans n : ℕ)
    → g.gpending.tag < 2 ^ 32
    → n < 2 ^ 10
    → u32 (tag_size g.gpending.tag + orphans) ≡ n
    → let g' = fs_preporphans g orphans in
      (bit_xor g'.gdelta.tag g'.gpending.tag / 2 ^ 10
        ≡ bit_xor g.gdelta.tag g.gpending.tag / 2 ^ 10)
      × (g'.gdelta.pair ≡ g.gdelta.pair)
      × (g'.gpending.pair ≡ g.gpending.pair)
unfolding fs_preporphans gstate_xororphans
fs_preporphans_sum g orphans n h fits e =
    let a = g.gpending.tag in
    let d = g.gdelta.tag in
    let p = u32 (a + orphans) in
    let same : p / 2 ^ 10 ≡ a / 2 ^ 10 = omega (arith, tag_size_lem a) in
    (
      rw xor_both (xor-div 10 d p ∙ ap (bit_xor (d / 2 ^ 10)) same ∙ sym (xor-div 10 d a)),
      refl,
      refl,
    )

-- Where the pending tag is a word and the new number of orphans fits ten bits: the pending number of
-- orphans is the new one, its flag is set exactly when that is not 0, the pending move is as it was,
-- and the sum of what is pending and what is to be added differs from before at most in the number
-- of orphans.
pub fs_preporphans_lem :
    (g : Globals) (orphans n : ℕ)
    → g.gpending.tag < 2 ^ 32
    → n < 2 ^ 10
    → u32 (tag_size g.gpending.tag + orphans) ≡ n
    → let g' = fs_preporphans g orphans in
      (tag_size g'.gpending.tag ≡ n)
      × (g'.gpending.tag / 2 ^ 31 ≡ (if n == 0 then 0 else 1))
      × (tag_type3 g'.gpending.tag ≡ tag_type3 g.gpending.tag)
      × (tag_id g'.gpending.tag ≡ tag_id g.gpending.tag)
      × (g'.gpending.pair ≡ g.gpending.pair)
      × (bit_xor g'.gdelta.tag g'.gpending.tag / 2 ^ 10
          ≡ bit_xor g.gdelta.tag g.gpending.tag / 2 ^ 10)
      × (g'.gdelta.pair ≡ g.gdelta.pair)
fs_preporphans_lem g orphans n h fits e =
    let (count, flag, type_kept, id_kept, pair_kept) = fs_preporphans_sets g orphans n h fits e in
    let (sum, delta_kept, pending_kept) = fs_preporphans_sum g orphans n h fits e in
    (count, flag, type_kept, id_kept, pair_kept, sum, delta_kept)
