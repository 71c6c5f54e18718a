-- ===== src/Kx/Hybrid/Split.antt =====
-- macula-pqc-kx/src/lib.rs: splitting a share undoes concatenating.
use macula_pq.Common.{
  ℕ, ◌+◌, ◌==◌, leb, ◌≡◌, refl, arith, Bool, true, false, some, List, ◌++◌, length, length-append,
  take-append, drop-append,
}
use macula_pq.Common.Outcome.{ok}
use macula_pq.Kx.Hybrid.{concat, split, split_at, ordered_parts}

pub length-concat :
    (first : Bool) (pq cl : List ℕ) → length (concat first pq cl) ≡ length cl + length pq
unfolding concat
length-concat true pq cl = omega (arith, length-append pq cl)
length-concat false pq cl = omega (arith, length-append cl pq)

split_at-append : (xs ys : List ℕ) → split_at (xs ++ ys) (length xs) ≡ ok (xs, ys)
unfolding split_at
split_at-append xs ys =
    let fits : leb (length xs) (length (xs ++ ys)) ≡ true =
      rw (length-append xs ys) (ground arith) in
    rw (fits, take-append xs ys, drop-append xs ys) refl

parts-concat :
    (first : Bool) (pq cl : List ℕ)
    → ordered_parts first (concat first pq cl) (length cl) (length pq) ≡ ok (pq, cl)
unfolding ordered_parts concat
parts-concat true pq cl = split_at-append pq cl
parts-concat false pq cl = rw (split_at-append cl pq) refl

-- Splitting the concatenation of a post-quantum and a classical share, by their lengths and in
-- the same order, returns the two shares.
pub split-concat :
    (first : Bool) (post_quantum classical : List ℕ)
    → split first (concat first post_quantum classical) (length classical) (length post_quantum)
      ≡ ok (some (post_quantum, classical))
unfolding split
split-concat first pq cl =
    let right : (length (concat first pq cl) == length cl + length pq) ≡ true =
      rw (length-concat first pq cl) (ground arith) in
    rw (right, split, parts-concat first pq cl) refl
