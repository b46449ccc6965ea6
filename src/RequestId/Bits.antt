-- ===== src/RequestId/Bits.antt =====
-- requestid/requestid.go: the operations on bits, and properties of bytes that are tests of each.
use Prim.Native.Nat.{bit_and, bit_or}
use go_library.Prelude.{
  ℕ, zero, suc, ◌/◌, ◌%◌, ◌<◌, ◌≡◌, refl, Bool, true, ◌&&◌, arith, ltb, ◌==◌, nat_eq,
}

-- A test of every number below a bound.
unfoldable pub passes_until : (ℕ → Bool) → ℕ → Bool
passes_until test zero = true
passes_until test (suc top) = passes_until test top && test top

pub passes-passes_until :
    (test : ℕ → Bool) (top i : ℕ) → i < top → passes_until test top ≡ true → test i ≡ true
unfolding passes_until
passes-passes_until test zero i lt h = absurd (omega arith)
passes-passes_until test (suc top) i lt h = ground (arith, passes-passes_until test top i)

low_table : passes_until (λ v. bit_and v 0x0f == v % 16) 256 ≡ true
unfolding passes_until
low_table = refl

pub bit_and-low : (v : ℕ) → v < 256 → bit_and v 0x0f ≡ v % 16
bit_and-low v h =
    (nat_eq.agree_iff _ _).0 (passes-passes_until (λ v. bit_and v 0x0f == v % 16) 256 v h low_table)

stamp_table :
    passes_until
      (λ v. let w = bit_or (bit_and v 0x0f) 0x40 in w / 16 == 4 && w % 16 == v % 16 && ltb w 256)
      256
    ≡ true
unfolding passes_until
stamp_table = refl

variant_table :
    passes_until
      (λ v. let w = bit_or (bit_and v 0x3f) 0x80 in w / 64 == 2 && w % 64 == v % 64 && ltb w 256)
      256
    ≡ true
unfolding passes_until
variant_table = refl

pub version_bits :
    (v : ℕ)
    → v < 256
    → let w = bit_or (bit_and v 0x0f) 0x40 in (w / 16 ≡ 4) × (w % 16 ≡ v % 16) × (w < 256)
version_bits v h = ground (
  arith,
  passes-passes_until
      (λ v. let w = bit_or (bit_and v 0x0f) 0x40 in w / 16 == 4 && w % 16 == v % 16 && ltb w 256)
      256 v h stamp_table,
)

pub variant_bits :
    (v : ℕ)
    → v < 256
    → let w = bit_or (bit_and v 0x3f) 0x80 in (w / 64 ≡ 2) × (w % 64 ≡ v % 64) × (w < 256)
variant_bits v h = ground (
  arith,
  passes-passes_until
      (λ v. let w = bit_or (bit_and v 0x3f) 0x80 in w / 64 == 2 && w % 64 == v % 64 && ltb w 256)
      256 v h variant_table,
)
