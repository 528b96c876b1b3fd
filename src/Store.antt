-- ===== src/Store.antt =====
-- What the parts of littlefs/lfs2.c above the block device share: sequences of calls that may fail,
-- and words in memory.
use mbed_littlefs.Base.{
  ℕ, ◌≡◌, refl, ◌+◌, ◌*◌, ◌^◌, List, get_or, Outcome, ok, err, abort, out_of_fuel,
}
use mbed_littlefs.Util.{ByteOrder, little_endian, big_endian}

-- `err = ...; if (err) return err;` before the rest, over the state `S`.
abbrev pub bind : {S A B : Type 0} → Outcome A × S → (A → S → Outcome B × S) → Outcome B × S
bind (ok a, s) next = next a s
bind (err e, s) next = (err e, s)
bind (abort, s) next = (abort, s)
bind (out_of_fuel, s) next = (out_of_fuel, s)

-- A sequence of two calls keeps what each of them keeps.
pub bind-keeps :
    {S A B : Type 0} (P : S → Type 0) (r : Outcome A × S) (next : A → S → Outcome B × S)
    → P r.1
    → ((a : A) → r.0 ≡ ok a → P (next a r.1).1)
    → P (bind r next).1
bind-keeps P (ok a, s) next here there = there a refl
bind-keeps P (err e, s) next here there = here
bind-keeps P (abort, s) next here there = here
bind-keeps P (out_of_fuel, s) next here there = here

-- The word whose bytes in memory are the four of the list from `i` on.
abbrev pub word_at : ByteOrder → List ℕ → ℕ → ℕ
word_at little_endian bytes i =
    get_or bytes i 0
    + get_or bytes (i + 1) 0 * 2 ^ 8
    + get_or bytes (i + 2) 0 * 2 ^ 16
    + get_or bytes (i + 3) 0 * 2 ^ 24
word_at big_endian bytes i =
    get_or bytes i 0 * 2 ^ 24
    + get_or bytes (i + 1) 0 * 2 ^ 16
    + get_or bytes (i + 2) 0 * 2 ^ 8
    + get_or bytes (i + 3) 0
