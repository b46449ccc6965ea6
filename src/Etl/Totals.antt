-- ===== src/Etl/Totals.antt =====
-- etl/job.go: the counters of a job have the sums of its counts.
use mathlib.Core.Path.{ap₂}
use go_library.Prelude.{
  ℕ, ℤ, ◌≡◌, refl, ◌∙◌, List, [], ◌∷◌, All, inl, inr, ◌+ℤ◌, +ℤ_parts, eq_of_parts, pos_part,
  neg_part, ◌+◌, ◌*◌, ◌^◌, arith,
}
use go_library.GoTime.{IsInt64}
use go_library.Etl.{Job, add_int64, add_processed, add_failed}
use go_library.Etl.Counting.{
  Count, done, lost, IsCounted, count, count_all, IsJob, count-IsJob, add_int64_cases,
}

-- The sums of the counts, which do not wrap around.
abbrev pub sum_done : ℤ → List Count → ℤ
sum_done t [] = t
sum_done t (done n ∷ cs) = sum_done (t +ℤ n) cs
sum_done t (lost n ∷ cs) = sum_done t cs

abbrev pub sum_lost : ℤ → List Count → ℤ
sum_lost t [] = t
sum_lost t (done n ∷ cs) = sum_lost t cs
sum_lost t (lost n ∷ cs) = sum_lost (t +ℤ n) cs

-- Two integers that differ by a multiple of 2 ^ 64.
record IsOff (p t : ℤ) : Type 0 where
  a : ℕ
  b : ℕ
  parts : pos_part p + neg_part t + a * 2 ^ 64 ≡ neg_part p + pos_part t + b * 2 ^ 64

IsOff-refl : (p : ℤ) → IsOff p p
IsOff-refl p = record { a = 0; b = 0; parts = omega arith }

IsOff-add : (p t n : ℤ) → IsInt64 p → IsInt64 n → IsOff p t → IsOff (add_int64 p n) (t +ℤ n)
IsOff-add p t n hp hn o =
    let e = o.parts in
    elim (add_int64_cases p n hp hn) [
      | inl same ↦ record { a = o.a; b = o.b; parts = omega (arith, e, same, +ℤ_parts t n) }
      | inr (inl less) ↦ record {
        a = o.a + 1;
        b = o.b;
        parts = omega (arith, e, less, +ℤ_parts t n);
      }
      | inr (inr more) ↦ record {
        a = o.a;
        b = o.b + 1;
        parts = omega (arith, e, more, +ℤ_parts t n);
      }
    ]

-- In the range of int64 they are the same.
IsOff-eq : (p t : ℤ) → IsInt64 p → IsInt64 t → IsOff p t → p ≡ t
IsOff-eq p t (lp, hp) (lt, ht) o = let e = o.parts in eq_of_parts p t (omega arith)

count_all-IsJob : (j : Job) (cs : List Count) → IsJob j → All IsCounted cs → IsJob (count_all j cs)
unfolding count_all
count_all-IsJob j [] i h = i
count_all-IsJob j (c ∷ cs) i (x, hs) = count_all-IsJob (count j c) cs (count-IsJob j c i x) hs

count_all-IsOff :
    (j : Job) (s t : ℤ) (cs : List Count)
    → IsJob j
    → All IsCounted cs
    → IsOff j.processed s
    → IsOff j.failed t
    → IsOff (count_all j cs).processed (sum_done s cs)
      × IsOff (count_all j cs).failed (sum_lost t cs)
unfolding count_all count add_processed add_failed
count_all-IsOff j s t [] i h p q = (p, q)
count_all-IsOff j s t (done n ∷ cs) i (x, hs) p q =
    count_all-IsOff (add_processed j n) (s +ℤ n) t cs (count-IsJob j (done n) i x) hs
      (IsOff-add j.processed s n i.processed x p) q
count_all-IsOff j s t (lost n ∷ cs) i (x, hs) p q =
    count_all-IsOff (add_failed j n) s (t +ℤ n) cs (count-IsJob j (lost n) i x) hs p
      (IsOff-add j.failed t n i.failed x q)

-- The counts change nothing else of a job.
count_all-frame :
    (j : Job) (cs : List Count)
    → count_all j cs
      ≡ record j { processed = (count_all j cs).processed; failed = (count_all j cs).failed }
unfolding count_all count add_processed add_failed
count_all-frame j [] = refl
count_all-frame j (done n ∷ cs) = count_all-frame (add_processed j n) cs
count_all-frame j (lost n ∷ cs) = count_all-frame (add_failed j n) cs

-- With sums in the range of int64 the counters have these sums, whatever wrapped around in between.
pub count_all_exact :
    (j : Job) (cs : List Count)
    → IsJob j
    → All IsCounted cs
    → IsInt64 (sum_done j.processed cs)
    → IsInt64 (sum_lost j.failed cs)
    → count_all j cs
      ≡ record j { processed = sum_done j.processed cs; failed = sum_lost j.failed cs }
count_all_exact j cs i h x y =
    let k = count_all-IsJob j cs i h in
    let (p, q) =
      count_all-IsOff j j.processed j.failed cs i h (IsOff-refl j.processed)
        (IsOff-refl j.failed) in
    let a = IsOff-eq _ _ k.processed x p in
    let b = IsOff-eq _ _ k.failed y q in
    count_all-frame j cs ∙ ap₂ (λ m n. record j { processed = m; failed = n }) a b
