-- ===== src/Gstate/Move.antt =====
-- `lfs2_fs_prepmove`: what is announced, and that nothing else changes.
use mbed_littlefs.Base.{
  ℕ, ◌*◌, ◌/◌, ◌%◌, ◌^◌, ◌<◌, ◌≡◌, arith, false, bit_xor, bit_and, ◌∙◌, ap, not, ◌==◌,
}
use mbed_littlefs.Bits.Digit.{xor_zero, and_comm, xor_both, xor-xor_left, xor-xor_cancel}
use mbed_littlefs.Bits.Field.{and_field, xor-div, xor-mod}
use mbed_littlefs.Tag.{Pair, mktag, type_delete, tag_type1, tag_type3, tag_id, tag_size}
use mbed_littlefs.Tag.Layout.{mktag_fields, tag_type1_lem, tag_type3_lem, tag_id_lem, tag_size_lem}
use mbed_littlefs.Gstate.{Gstate, Globals, gstate_xor, gstate_xormove, fs_prepmove, gstate_hasmove}

gstate_ext : (a b : Gstate) → a.tag ≡ b.tag → a.pair.0 ≡ b.pair.0 → a.pair.1 ≡ b.pair.1 → a ≡ b
gstate_ext a b p q r = λ i. record { tag = p i; pair = (q i, r i) }

-- Adding a state twice changes nothing: a delta may be taken back.
pub gstate_xor_cancel : (a b : Gstate) → gstate_xor (gstate_xor a b) b ≡ a
unfolding gstate_xor
gstate_xor_cancel a b =
    gstate_ext _ _ (xor-xor_cancel a.tag b.tag) (xor-xor_cancel a.pair.0 b.pair.0)
      (xor-xor_cancel a.pair.1 b.pair.1)

-- `a ^ (mask & (a ^ n))`: the masked digits become those of `n`, the others stay.
merge : ℕ → ℕ → ℕ → ℕ
merge mask a n = bit_xor a (bit_and mask (bit_xor a n))

-- The type and the id of a tag are merged.
merge_move :
    (a n : ℕ)
    → let m = merge (mktag 0x7ff 0x3ff 0) a n in
      (m % 2 ^ 10 ≡ a % 2 ^ 10)
      × (m / 2 ^ 10 % 2 ^ 21 ≡ n / 2 ^ 10 % 2 ^ 21)
      × (m / 2 ^ 31 ≡ a / 2 ^ 31)
unfolding merge mktag
merge_move a n =
    let y = bit_xor a n / 2 ^ 10 % 2 ^ 21 * 2 ^ 10 in
    let masked : bit_and 2147482624 (bit_xor a n) ≡ y =
      and_comm 2147482624 (bit_xor a n) ∙ and_field 10 21 (bit_xor a n) in
    let middle : y / 2 ^ 10 % 2 ^ 21 ≡ bit_xor (a / 2 ^ 10 % 2 ^ 21) (n / 2 ^ 10 % 2 ^ 21) =
      ground (arith, xor-div 10 a n, xor-mod 21 (a / 2 ^ 10) (n / 2 ^ 10)) in
    rw masked (
      ground (arith, xor-mod 10 a y, xor_zero (a % 2 ^ 10)),
      ground (
        arith,
        xor-div 10 a y,
        xor-mod 21 (a / 2 ^ 10) (y / 2 ^ 10),
        middle,
        xor-xor_left (a / 2 ^ 10 % 2 ^ 21) (n / 2 ^ 10 % 2 ^ 21),
      ),
      ground (arith, xor-div 31 a y, xor_zero (a / 2 ^ 31)),
    )

-- The sum of what is pending and what is to be added does not change by an announcement.
fs_prepmove_sum :
    (g : Globals) (id : ℕ) (pair : Pair)
    → let g' = fs_prepmove g id pair in
      gstate_xor g'.gdelta g'.gpending ≡ gstate_xor g.gdelta g.gpending
unfolding fs_prepmove gstate_xor gstate_xormove
fs_prepmove_sum g id pair = gstate_ext _ _ (xor_both _ _ _) (xor_both _ _ _) (xor_both _ _ _)

merge_fields :
    (a n : ℕ)
    → let m = merge (mktag 0x7ff 0x3ff 0) a n in
      (tag_type3 m ≡ tag_type3 n) × (tag_id m ≡ tag_id n) × (tag_size m ≡ tag_size a)
merge_fields a n =
    let m = merge (mktag 0x7ff 0x3ff 0) a n in
    let (low, middle, high) = merge_move a n in
    (
      omega (arith, middle, tag_type3_lem m, tag_type3_lem n),
      omega (arith, middle, tag_id_lem m, tag_id_lem n),
      omega (arith, low, tag_size_lem m, tag_size_lem a),
    )

move_announced : (id : ℕ) → id < 0x3ff → (id == 0x3ff) ≡ false
move_announced id h = ground arith

-- A move of the entry `id` out of `pair` is pending after it has been announced, with the number
-- of orphans as it was.
fs_prepmove_sets :
    (g : Globals) (id : ℕ) (pair : Pair)
    → id < 0x3ff
    → let pending = (fs_prepmove g id pair).gpending in
      (tag_type3 pending.tag ≡ type_delete)
      × (tag_id pending.tag ≡ id)
      × (tag_size pending.tag ≡ tag_size g.gpending.tag)
      × (pending.pair ≡ pair)
unfolding fs_prepmove gstate_xormove merge
fs_prepmove_sets g id pair h =
    let n = mktag type_delete id 0 in
    let (type_kept, id_kept, size_kept) = merge_fields g.gpending.tag n in
    let (n_type, n_id, n_size, n_valid) =
      mktag_fields type_delete id 0 (omega arith) (omega arith) (omega arith) in
    rw (move_announced id h) (
      type_kept ∙ n_type,
      id_kept ∙ n_id,
      size_kept,
      λ i. (xor-xor_left g.gpending.pair.0 pair.0 i, xor-xor_left g.gpending.pair.1 pair.1 i),
    )

-- The announcement of a move of the entry `id`, below 0x3ff, out of `pair`: afterwards exactly that
-- move is pending, with the number of orphans as it was, and the sum of what is pending and what is
-- to be added is as before.
pub fs_prepmove_lem :
    (g : Globals) (id : ℕ) (pair : Pair)
    → id < 0x3ff
    → let g' = fs_prepmove g id pair in
      (tag_type3 g'.gpending.tag ≡ type_delete)
      × (tag_id g'.gpending.tag ≡ id)
      × (tag_size g'.gpending.tag ≡ tag_size g.gpending.tag)
      × (g'.gpending.pair ≡ pair)
      × (gstate_xor g'.gdelta g'.gpending ≡ gstate_xor g.gdelta g.gpending)
fs_prepmove_lem g id pair h =
    let (type_set, id_set, size_kept, pair_set) = fs_prepmove_sets g id pair h in
    (type_set, id_set, size_kept, pair_set, fs_prepmove_sum g id pair)

-- With the id 0x3ff no move is pending afterwards, and the number of orphans is as it was.
pub fs_prepmove_clears :
    (g : Globals) (pair : Pair)
    → let pending = (fs_prepmove g 0x3ff pair).gpending in
      (gstate_hasmove pending ≡ false)
      × (tag_size pending.tag ≡ tag_size g.gpending.tag)
      × (pending.pair ≡ (0, 0))
unfolding fs_prepmove gstate_xormove gstate_hasmove merge
fs_prepmove_clears g pair =
    let (low, middle, high) = merge_move g.gpending.tag 0 in
    let m = merge (mktag 0x7ff 0x3ff 0) g.gpending.tag 0 in
    let type1 : tag_type1 m ≡ 0 = omega (arith, tag_type1_lem m, middle) in
    (
      ap (λ t. not (t == 0)) type1,
      omega (arith, low, tag_size_lem m, tag_size_lem g.gpending.tag),
      λ i. (xor-xor_left g.gpending.pair.0 0 i, xor-xor_left g.gpending.pair.1 0 i),
    )
