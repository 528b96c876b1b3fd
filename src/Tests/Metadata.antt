-- ===== src/Tests/Metadata.antt =====
-- Tags, pairs and the global state of littlefs/lfs2.c at concrete values.
use mbed_littlefs.Base.{ℕ, ◌+◌, ◌-◌, ◌/◌, ◌^◌, ◌≡◌, refl, arith, true, u32, bit_xor}
use mbed_littlefs.Tag.{mktag, tag_type3, tag_id, tag_size, tag_isvalid, type_delete}
use mbed_littlefs.Tag.Layout.{mktag_of_fields}
use mbed_littlefs.Gstate.{gstate_zero, Globals, gstate_xor, fs_prepmove, fs_preporphans}
use mbed_littlefs.Gstate.Move.{fs_prepmove_lem}
use mbed_littlefs.Gstate.Orphans.{fs_preporphans_lem}

abbrev tag_example : ℕ
tag_example = 0x20101c0c

tag_example-isvalid : tag_isvalid tag_example ≡ true
unfolding tag_isvalid
tag_example-isvalid = refl

tag_example-id : tag_id tag_example ≡ 7
unfolding tag_id
tag_example-id = refl

mktag_of_fields_example :
    mktag (tag_type3 tag_example) (tag_id tag_example) (tag_size tag_example) ≡ tag_example
mktag_of_fields_example = mktag_of_fields tag_example (omega arith) tag_example-isvalid

abbrev pub globals_example : Globals
globals_example = record {
  gstate = gstate_zero;
  gpending = record { tag = 2 ^ 31 + 2; pair = (0, 0) };
  gdelta = gstate_zero;
}

fs_prepmove_lem_example :
    let g' = fs_prepmove globals_example 6 (10, 11) in
    (tag_type3 g'.gpending.tag ≡ type_delete)
    × (tag_id g'.gpending.tag ≡ 6)
    × (tag_size g'.gpending.tag ≡ tag_size globals_example.gpending.tag)
    × (g'.gpending.pair ≡ (10, 11))
    × (gstate_xor g'.gdelta g'.gpending
        ≡ gstate_xor globals_example.gdelta globals_example.gpending)
fs_prepmove_lem_example = fs_prepmove_lem globals_example 6 (10, 11) (omega arith)

one_less : u32 (tag_size globals_example.gpending.tag + (2 ^ 32 - 1)) ≡ 1
unfolding tag_size
one_less = refl

fs_preporphans_lem_example :
    let g' = fs_preporphans globals_example (2 ^ 32 - 1) in
    (tag_size g'.gpending.tag ≡ 1)
    × (g'.gpending.tag / 2 ^ 31 ≡ 1)
    × (tag_type3 g'.gpending.tag ≡ tag_type3 globals_example.gpending.tag)
    × (tag_id g'.gpending.tag ≡ tag_id globals_example.gpending.tag)
    × (g'.gpending.pair ≡ (0, 0))
    × (bit_xor g'.gdelta.tag g'.gpending.tag / 2 ^ 10
        ≡ bit_xor globals_example.gdelta.tag globals_example.gpending.tag / 2 ^ 10)
    × (g'.gdelta.pair ≡ (0, 0))
fs_preporphans_lem_example =
    fs_preporphans_lem globals_example (2 ^ 32 - 1) 1 (omega arith) (omega arith) one_less
