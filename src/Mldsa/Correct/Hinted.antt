-- ===== src/Mldsa/Correct/Hinted.antt =====
-- macula-mldsa/src/internal.rs: the high bits of a row that a signature's hint recovers.
use macula_pq.Common.{
  ℕ, ◌+◌, ◌-◌, ◌%◌, ◌≤◌, ◌<◌, ◌≡◌, ◌∙◌, refl, ap, ap₂, arith, List, [], ◌∷◌, map, length, zip_with,
  All,
}
use macula_pq.Mldsa.Field.{q, add, sub, from_signed, centered_abs}
use macula_pq.Mldsa.Field.Laws.{add-mod, sub-mod, centered_abs-min}
use macula_pq.Mldsa.Rounding.{high_bits, low_bits, make_hint, use_hint}
use macula_pq.Mldsa.Rounding.Decompose.{IsGamma2}
use macula_pq.Mldsa.Rounding.Hints.{use_hint-make_hint}
use macula_pq.Mldsa.Rounding.Stable.{high_bits-sub}
use macula_pq.Mldsa.Ntt.Range.{IsReduced}
use macula_pq.Mldsa.Ntt.Bounded.{IsNear}
use macula_pq.Mldsa.Sign.{hint_row}
use macula_pq.Mldsa.Sign.Norm.{IsBelow}

one_hint :
    (w e t b gamma2 : ℕ)
    → w < q
    → IsNear b e
    → t < q
    → IsGamma2 gamma2
    → centered_abs t < gamma2
    → centered_abs (from_signed (low_bits (sub w e) gamma2)) < gamma2 - b
    → use_hint (make_hint (sub 0 t) (add (sub w e) t) gamma2) (add (sub w e) t) gamma2
      ≡ high_bits w gamma2
one_hint w e t b gamma2 hw near ht g small room =
    let u = sub w e in
    let eu : u ≡ (w + q - e) % q = sub-mod w e hw near.0 in
    let hu : u < q = omega (arith, eu) in
    let r = add u t in
    let er : r ≡ (u + t) % q = add-mod u t hu ht in
    let m = sub 0 t in
    let em : m ≡ (0 + q - t) % q = sub-mod 0 t (omega arith) ht in
    let hm : m < q = omega (arith, em) in
    let hr : r < q = omega (arith, er) in
    let back : add r m ≡ u = omega (arith, add-mod r m hr hm, er, em, hu, ht) in
    let close : centered_abs m ≤ gamma2 =
      omega (arith, centered_abs-min m hm, centered_abs-min t ht, em, small, ht) in
    use_hint-make_hint m r gamma2 hm hr g close
    ∙ ap (λ x. high_bits x gamma2) back
    ∙ high_bits-sub w e b gamma2 hw near g room

pub hints_recover :
    (w cs2 ct0 : List ℕ) (b gamma2 : ℕ)
    → length cs2 ≡ length w
    → length ct0 ≡ length w
    → All IsReduced w
    → All (IsNear b) cs2
    → All IsReduced ct0
    → IsGamma2 gamma2
    → IsBelow gamma2 ct0
    → IsBelow (gamma2 - b) (zip_with (λ a e. from_signed (low_bits (sub a e) gamma2)) w cs2)
    → zip_with
        (λ bit c. use_hint bit c gamma2)
        (hint_row gamma2 w cs2 ct0)
        (zip_with add (zip_with sub w cs2) ct0)
      ≡ map (λ c. high_bits c gamma2) w
unfolding hint_row
hints_recover [] cs2 ct0 b gamma2 l l' hw near ht g small room = refl
hints_recover (a ∷ w) [] ct0 b gamma2 l l' hw near ht g small room = absurd (omega (arith, l))
hints_recover (a ∷ w) (e ∷ cs2) [] b gamma2 l l' hw near ht g small room =
    absurd (omega (arith, l'))
hints_recover (a ∷ w) (e ∷ cs2) (t ∷ ct0) b gamma2 l l' (ha, hw) (he, near) (hc, ht) g (s, small)
      (m, room) =
    ap₂ ◌∷◌ (one_hint a e t b gamma2 ha he hc g s m) (
      hints_recover w cs2 ct0 b gamma2 (omega (arith, l)) (omega (arith, l')) hw near ht g small
        room)
