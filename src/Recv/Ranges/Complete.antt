-- ===== src/Recv/Ranges/Complete.antt =====
-- Ranges whose lengths add up to the whole cover every byte of it.
use spead.Prelude.{ℕ, ◌+◌, ◌≤◌, ◌<◌, ◌≡◌, true, [], ◌∷◌, arith}
use spead.Recv.Ranges.{Ranges}
use spead.Recv.Ranges.Coverage.{Apart, IsSeparated, covers, total}
use spead.Recv.Ranges.Shape.{EndsBy}

-- Ranges after `lo` and up to `n` leave out at least the gap after `lo`.
total-Apart : (lo n : ℕ) (m : Ranges) → lo ≤ n → Apart lo m → EndsBy n m → total m + lo ≤ n
total-Apart lo n [] h p e = omega arith
total-Apart lo n ((a, b) ∷ rest) h p e = omega (arith, total-Apart b n rest e.0 p.2 e.1)

-- With a range after `lo`, the gap costs a byte.
total-Apart_cons :
    (lo n a b : ℕ) (m : Ranges)
    → Apart lo ((a, b) ∷ m)
    → EndsBy n ((a, b) ∷ m)
    → total ((a, b) ∷ m) + lo < n
total-Apart_cons lo n a b m p e = omega (arith, total-Apart b n m e.0 p.2 e.1)

pub total-le : (n : ℕ) (m : Ranges) → IsSeparated m → EndsBy n m → total m ≤ n
total-le n [] s e = omega arith
total-le n ((a, b) ∷ rest) s e = omega (arith, total-Apart b n rest e.0 s.1 e.1)

-- Separated ranges within [0, n) of total length n cover each byte below n.
pub total-covers :
    (n : ℕ) (m : Ranges)
    → IsSeparated m
    → EndsBy n m
    → total m ≡ n
    → (x : ℕ) → x < n
    → covers x m ≡ true
total-covers n [] s e t x h = absurd (omega arith)
total-covers n ((a, b) ∷ []) s e t x h = ground arith
total-covers n ((a, b) ∷ (c, d) ∷ rest) s e t x h =
    absurd (omega (arith, total-Apart_cons b n c d rest s.1 e.1))
