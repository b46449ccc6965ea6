-- ===== src/Etl/Counting.antt =====
-- etl/job.go: the counters of a job.
use go_library.Prelude.{
  ℤ, pos, ◌≡◌, refl, ◌∙◌, List, [], ◌∷◌, All, ◌⊎◌, ap, ◌+ℤ◌, +ℤ_parts, -ℤ_parts, eq_of_parts,
  pos_part, neg_part, ◌+◌, ◌^◌, arith,
}
use mathlib.Core.Path.{subst}
use mathlib.Core.List.{Permᴰ}
use go_library.Oauth.Codec.{IsInt64}
use go_library.Etl.{Job, add_int64, add_processed, add_failed}

add_int64-IsInt64 : (a b : ℤ) → IsInt64 a → IsInt64 b → IsInt64 (add_int64 a b)
unfolding add_int64
add_int64-IsInt64 a b (la, ha) (lb, hb) = (
  ground (arith, +ℤ_parts a b, +ℤ_parts (a +ℤ b) (pos (2 ^ 64)), -ℤ_parts (a +ℤ b) (pos (2 ^ 64))),
  ground (arith, +ℤ_parts a b, +ℤ_parts (a +ℤ b) (pos (2 ^ 64)), -ℤ_parts (a +ℤ b) (pos (2 ^ 64))),
)

pub add_int64_exact : (a b : ℤ) → IsInt64 (a +ℤ b) → add_int64 a b ≡ a +ℤ b
unfolding add_int64
add_int64_exact a b (l, h) = ground arith

-- A sum that wraps around is off by 2 ^ 64 at most once.
pub add_int64_cases :
    (a b : ℤ)
    → IsInt64 a
    → IsInt64 b
    → let r = add_int64 a b in
      let here = pos_part r + neg_part a + neg_part b in
      let there = neg_part r + pos_part a + pos_part b in
      (here ≡ there) ⊎ (here + 2 ^ 64 ≡ there) ⊎ (here ≡ there + 2 ^ 64)
unfolding add_int64
add_int64_cases a b (la, ha) (lb, hb) =
    ground (arith, +ℤ_parts a b, +ℤ_parts (a +ℤ b) (pos (2 ^ 64)), -ℤ_parts (a +ℤ b) (pos (2 ^ 64)))

add_int64_swap :
    (a b c : ℤ)
    → IsInt64 a
    → IsInt64 b
    → IsInt64 c
    → add_int64 (add_int64 a b) c ≡ add_int64 (add_int64 a c) b
add_int64_swap a b c ha hb hc =
    let hab = add_int64-IsInt64 a b ha hb in
    let hac = add_int64-IsInt64 a c ha hc in
    let (l, h) = add_int64-IsInt64 (add_int64 a b) c hab hc in
    let (l', h') = add_int64-IsInt64 (add_int64 a c) b hac hb in
    ground (
      arith,
      eq_of_parts (add_int64 (add_int64 a b) c) (add_int64 (add_int64 a c) b),
      add_int64_cases a b ha hb,
      add_int64_cases a c ha hc,
      add_int64_cases (add_int64 a b) c hab hc,
      add_int64_cases (add_int64 a c) b hac hb,
    )

-- What is counted: records that were processed, or that failed.
pub data Count : Type 0 where
  done lost : ℤ → Count

abbrev pub IsCounted : Count → Type 0
IsCounted (done n) = IsInt64 n
IsCounted (lost n) = IsInt64 n

unfoldable pub count : Job → Count → Job
count j (done n) = add_processed j n
count j (lost n) = add_failed j n

unfoldable pub count_all : Job → List Count → Job
count_all j [] = j
count_all j (c ∷ cs) = count_all (count j c) cs

pub record IsJob (j : Job) : Type 0 where
  pub processed : IsInt64 j.processed
  pub failed : IsInt64 j.failed

pub count-IsJob : (j : Job) (c : Count) → IsJob j → IsCounted c → IsJob (count j c)
unfolding count add_processed add_failed
count-IsJob j (done n) i h = record {
  processed = add_int64-IsInt64 j.processed n i.processed h;
  failed = i.failed;
}
count-IsJob j (lost n) i h = record {
  processed = i.processed;
  failed = add_int64-IsInt64 j.failed n i.failed h;
}

count_swap :
    (j : Job) (c d : Count)
    → IsJob j
    → IsCounted c
    → IsCounted d
    → count (count j c) d ≡ count (count j d) c
unfolding count add_processed add_failed
count_swap j (done n) (done m) i h k =
    ap (λ x. record j { processed = x }) (add_int64_swap j.processed n m i.processed h k)
count_swap j (done n) (lost m) i h k = refl
count_swap j (lost n) (done m) i h k = refl
count_swap j (lost n) (lost m) i h k =
    ap (λ x. record j { failed = x }) (add_int64_swap j.failed n m i.failed h k)

All-Perm : {xs ys : List Count} → Permᴰ xs ys → All IsCounted xs → All IsCounted ys
All-Perm Permᴰ.nil h = h
All-Perm (Permᴰ.cons e p) h = let (x, hs) = h in (subst IsCounted e x, All-Perm p hs)
All-Perm (Permᴰ.swap e f) h =
    let (x, (y, hs)) = h in (subst IsCounted f y, (subst IsCounted e x, hs))
All-Perm (Permᴰ.trans p q) h = All-Perm q (All-Perm p h)

-- The counters of a job do not depend on the order in which the counts come, which is that of the
-- goroutines that call `Processed` and `Failed`, for counts and counters that are int64.
pub count_all-Perm :
    (j : Job) {xs ys : List Count}
    → Permᴰ xs ys
    → IsJob j
    → All IsCounted xs
    → count_all j xs ≡ count_all j ys
unfolding count_all
count_all-Perm j Permᴰ.nil i h = refl
count_all-Perm j (Permᴰ.cons {a} {l₂ = m} e p) i h =
    let (x, hs) = h in
    count_all-Perm (count j a) p (count-IsJob j a i x) hs ∙ ap (λ c. count_all (count j c) m) e
count_all-Perm j (Permᴰ.swap {a} {b} {l = l} e f) i h =
    let (x, (y, hs)) = h in ap (λ k. count_all k l) (count_swap j a b i x y) ∙ rw (e, f) refl
count_all-Perm j (Permᴰ.trans p q) i h =
    count_all-Perm j p i h ∙ count_all-Perm j q i (All-Perm p h)
