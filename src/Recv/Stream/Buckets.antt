-- ===== src/Recv/Stream/Buckets.antt =====
-- The size of the hash table, and that every heap ID has a bucket in it.
use native.Mathlib.Nat.{pow-suc, pow-le-pow_right, mod-lt, div-lt_iff_lt-mul}
use spead.Prelude.{
  ℕ, zero, suc, ◌+◌, ◌-◌, ◌*◌, ◌/◌, ◌%◌, ◌^◌, ◌≤◌, ◌<◌, ◌≡◌, refl, sym, subst, ap, ◌∙◌, some, ltb,
  arith, Bool-cases, inl, inr, ltb→lt, ltb→le, true, false, pow-add, two_pow_pos,
}
use spead.Recv.Stream.{
  double_until, compute_bucket_count, halve_until, compute_bucket_shift, get_bucket, magic_factor,
}

-- Doubling a power of two until it is large enough; it is less than double what is asked for.
double_until_lem :
    (fuel k max_heaps : ℕ)
    → max_heaps ≤ fuel + 2 ^ k
    → (2 ^ k < 2 * max_heaps + 8)
    → (j : ℕ) × (double_until fuel (2 ^ k) max_heaps ≡ some (2 ^ j))
      × (max_heaps ≤ 2 ^ j)
      × (2 ^ j < 2 * max_heaps + 8)
unfolding double_until
double_until_lem zero k max_heaps enough small =
    let reached : ltb (2 ^ k) max_heaps ≡ false = ground arith in
    (k, rw reached refl, omega arith, small)
double_until_lem (suc fuel) k max_heaps enough small = elim (Bool-cases (ltb (2 ^ k) max_heaps)) [
  | inl more ↦
      let short = ltb→lt (2 ^ k) max_heaps more in
      let double : 2 ^ suc k ≡ 2 ^ k * 2 = pow-suc 2 k in
      let (j, e, large, bound) =
        double_until_lem fuel (suc k) max_heaps (omega (arith, double, two_pow_pos k))
          (omega (arith, double)) in
      (j, rw more (ap (λ b. double_until fuel b max_heaps) (sym double) ∙ e), large, bound)
  | inr done ↦ (k, rw done refl, ltb→le (2 ^ k) max_heaps done, small)
]

halve_until_lem : (fuel k shift : ℕ) → k ≤ fuel → halve_until fuel shift (2 ^ k) ≡ shift - k
unfolding halve_until
halve_until_lem zero zero shift h = omega arith
halve_until_lem zero (suc k) shift h = absurd (omega arith)
halve_until_lem (suc fuel) zero shift h = omega arith
halve_until_lem (suc fuel) (suc k) shift h =
    let more : ltb 1 (2 ^ suc k) ≡ true = ground (arith, pow-suc 2 k, two_pow_pos k) in
    let half : 2 ^ suc k / 2 ≡ 2 ^ k = omega (arith, pow-suc 2 k) in
    rw (more, half) (halve_until_lem fuel k (shift - 1) (omega arith) ∙ omega arith)

get_bucket-lt : (j heap_cnt : ℕ) → j ≤ 64 → get_bucket (64 - j) heap_cnt < 2 ^ j
unfolding get_bucket
get_bucket-lt j heap_cnt h =
    let hash = heap_cnt * magic_factor % 2 ^ 64 in
    let sum : 64 ≡ j + (64 - j) = omega arith in
    let split : 2 ^ 64 ≡ 2 ^ j * 2 ^ (64 - j) = ap (λ e. 2 ^ e) (sum) ∙ pow-add j (64 - j) in
    let below : hash < 2 ^ 64 = mod-lt (heap_cnt * magic_factor) (omega arith) in
    (div-lt_iff_lt-mul (two_pow_pos (64 - j))).1 (subst (λ n. hash < n) split below)

compute_bucket_shift_lem : (j : ℕ) → j ≤ 64 → compute_bucket_shift (2 ^ j) ≡ 64 - j
unfolding compute_bucket_shift
compute_bucket_shift_lem j h = halve_until_lem 64 j 64 h

compute_bucket_count_lem :
    (max_heaps buckets : ℕ)
    → double_until max_heaps 4 max_heaps ≡ some buckets
    → compute_bucket_count max_heaps ≡ some (buckets * 4)
unfolding compute_bucket_count
compute_bucket_count_lem max_heaps buckets e = rw (e, compute_bucket_count) refl

small_exponent : (j : ℕ) → 2 ^ j < 2 ^ 62 → j < 62
small_exponent j h = elim (Bool-cases (ltb j 62)) [
  | inl small ↦ ltb→lt j 62 small
  | inr large ↦
      let least : 2 ^ 62 ≤ 2 ^ j =
        pow-le-pow_right {n = 2} (omega arith) {i = 62} {j = j} (ltb→le j 62 large) in
      absurd (omega arith)
]

-- With at most 2 ^ 60 heaps: the loop of compute_bucket_count ends, with a power of two that is four
-- times as large as max_heaps at least and fits 64 bits; compute_bucket_shift finds its exponent; and
-- get_bucket then gives every heap ID a bucket below bucket_count, as the assert in add_packet wants.
pub bucket_in_range :
    (max_heaps : ℕ)
    → max_heaps ≤ 2 ^ 60
    → (bucket_count : ℕ) × (compute_bucket_count max_heaps ≡ some bucket_count)
      × (max_heaps * 4 ≤ bucket_count)
      × (bucket_count < 2 ^ 64)
      × ((heap_cnt : ℕ) → get_bucket (compute_bucket_shift bucket_count) heap_cnt < bucket_count)
bucket_in_range max_heaps few =
    let (j, e, large, bound) = double_until_lem max_heaps 2 max_heaps (omega arith) (omega arith) in
    let exponent = small_exponent j (omega arith) in
    let quadruple : 2 ^ j * 4 ≡ 2 ^ (j + 2) = sym (pow-add j 2) in
    let shift = compute_bucket_shift_lem (j + 2) (omega arith) in
    (
      2 ^ j * 4,
      compute_bucket_count_lem max_heaps (2 ^ j) e,
      omega arith,
      omega arith,
      λ heap_cnt. rw (quadruple, shift) (get_bucket-lt (j + 2) heap_cnt (omega arith)),
    )
