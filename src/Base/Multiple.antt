-- ===== src/Base/Multiple.antt =====
-- Multiples of a number, by `%`.
use Prim.Native.Nat.{ℕ, ◌+◌, ◌-◌, ◌*◌, ◌/◌, ◌%◌, ◌≤◌, ◌<◌, min}
use mathlib.Core.Path.{◌≡◌, ◌∙◌, ap}
use native.Mathlib.Nat.{
  mod-eq_of_lt, div-add-mod', dvd_of_mod-eq-zero, mod-mod_of_dvd, add-mul-mod_self_right,
  min-eq_left, min-eq_right, zero-mod,
}
use native.Mathlib.Decide.{dec_le}
use native.Mathlib.Omega.{arith}

pub le_of_multiple : (x r : ℕ) → x % r ≡ 0 → 0 < x → r ≤ x
le_of_multiple x r h p = ground (arith, mod-eq_of_lt {n = x} {m = r})

pub add_multiple : (x y r : ℕ) → y % r ≡ 0 → (x + y) % r ≡ x % r
add_multiple x y r h = ap (λ k. (x + k) % r) exact ∙ add-mul-mod_self_right x (y / r) r
  where
    exact : y ≡ y / r * r
    exact = omega (arith, div-add-mod' y r)

pub sub_multiple : (x y r : ℕ) → x % r ≡ 0 → y % r ≡ 0 → y ≤ x → (x - y) % r ≡ 0
sub_multiple x y r hx hy le = omega (arith, add_multiple (x - y) y r hy, ap (λ k. k % r) restored)
  where
    restored : x - y + y ≡ x
    restored = omega arith

pub multiple_trans : (x y r : ℕ) → x % y ≡ 0 → y % r ≡ 0 → x % r ≡ 0
multiple_trans x y r hx hy =
    omega (arith, mod-mod_of_dvd r x (dvd_of_mod-eq-zero r hy), ap (λ k. k % r) hx, zero_multiple)
  where
    zero_multiple : 0 % r ≡ 0
    zero_multiple = zero-mod r

pub min_multiple : (x y r : ℕ) → x % r ≡ 0 → y % r ≡ 0 → min x y % r ≡ 0
min_multiple x y r hx hy = elim (dec_le x y) [
  | yes p ↦ rw (min-eq_left p) hx
  | no p ↦ rw (min-eq_right {n = y} {m = x} (omega arith)) hy
]
