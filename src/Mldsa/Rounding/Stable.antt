-- ===== src/Mldsa/Rounding/Stable.antt =====
-- A step that the low part leaves room for does not move the high bits.
use macula_pq.Common.{ℕ, ◌+◌, ◌-◌, ◌%◌, ◌^◌, ◌<◌, ◌≡◌, ◌⊎◌, ◌∙◌, inl, inr, sym, subst, arith, ap}
use macula_pq.Mldsa.Field.{q, sub, from_signed, centered_abs}
use macula_pq.Mldsa.Field.Laws.{sub-mod, from_signed-mod, centered_abs-min}
use macula_pq.Mldsa.Rounding.{decompose, high_bits, low_bits}
use macula_pq.Mldsa.Rounding.Decompose.{IsGamma2, decompose-plain, decompose_plain}
use macula_pq.Mldsa.Rounding.Hints.{high_bits-plain}
use macula_pq.Mldsa.Ntt.Bounded.{IsNear}

-- A word that is closer to 0 than `room`, as a signed one.
abbrev HasRoom : ℕ → ℕ → Type 0
HasRoom room low = (low < room) ⊎ ((2 ^ 32 < low + room) × (low < 2 ^ 32))

module _ (u e b : ℕ) (hu : u < q) (near : IsNear b e) where
  stable_44 :
      HasRoom (95232 - b) (decompose_plain u 95232).1
      → (decompose_plain u 95232).0 ≡ (decompose_plain ((u + e) % q) 95232).0
  unfolding decompose_plain
  stable_44 room = ground arith

  stable_32 :
      HasRoom (261888 - b) (decompose_plain u 261888).1
      → (decompose_plain u 261888).0 ≡ (decompose_plain ((u + e) % q) 261888).0
  unfolding decompose_plain
  stable_32 room = ground arith

low_room :
    (low room : ℕ)
    → room < 2 ^ 20
    → (low < 2 ^ 20) ⊎ ((2 ^ 32 - 2 ^ 20 < low) × (low < 2 ^ 32))
    → centered_abs (from_signed low) < room
    → (low < room) ⊎ ((2 ^ 32 < low + room) × (low < 2 ^ 32))
low_room low room hr h small =
    let (plain, wrapped) = from_signed-mod low in
    ground (arith, plain, wrapped, centered_abs-min (from_signed low))

plain_low :
    (u gamma2 : ℕ)
    → u < q
    → IsGamma2 gamma2
    → ((decompose_plain u gamma2).1 < 2 ^ 20)
      ⊎ ((2 ^ 32 - 2 ^ 20 < (decompose_plain u gamma2).1) × ((decompose_plain u gamma2).1 < 2 ^ 32))
unfolding decompose_plain
plain_low u gamma2 hu (inl e) = rw e (ground arith)
plain_low u gamma2 hu (inr e) = rw e (ground arith)

stable_at :
    (u e b gamma2 : ℕ)
    → u < q
    → IsNear b e
    → IsGamma2 gamma2
    → HasRoom (gamma2 - b) (decompose_plain u gamma2).1
    → (decompose_plain u gamma2).0 ≡ (decompose_plain ((u + e) % q) gamma2).0
stable_at u e b gamma2 hu near (inl t) room =
    rw t (stable_44 u e b hu near (subst (λ g. HasRoom (g - b) (decompose_plain u g).1) t room))
stable_at u e b gamma2 hu near (inr t) room =
    rw t (stable_32 u e b hu near (subst (λ g. HasRoom (g - b) (decompose_plain u g).1) t room))

-- A step of at most `b`, where the low part after it is closer to 0 than gamma2 - b.
pub high_bits-sub :
    (x e b gamma2 : ℕ)
    → x < q
    → IsNear b e
    → IsGamma2 gamma2
    → centered_abs (from_signed (low_bits (sub x e) gamma2)) < gamma2 - b
    → high_bits (sub x e) gamma2 ≡ high_bits x gamma2
unfolding low_bits
high_bits-sub x e b gamma2 hx near g small =
    let u = sub x e in
    let eu : u ≡ (x + q - e) % q = sub-mod x e hx near.0 in
    let hu : u < q = omega (arith, eu) in
    let back : (u + e) % q ≡ x = omega (arith, eu, hx, near.0) in
    let parts = decompose-plain u gamma2 hu g in
    let low : (decompose u gamma2).1 ≡ (decompose_plain u gamma2).1 =
      ap (λ (p : ℕ × ℕ). p.1) parts in
    let bound : gamma2 - b < 2 ^ 20 = elim g [
      | inl t ↦ omega (arith, t)
      | inr t ↦ omega (arith, t)
    ] in
    let room =
      low_room (decompose_plain u gamma2).1 (gamma2 - b) bound (plain_low u gamma2 hu g)
        (subst (λ l. centered_abs (from_signed l) < gamma2 - b) low small) in
    high_bits-plain u gamma2 hu g
    ∙ stable_at u e b gamma2 hu near g room
    ∙ ap (λ r. (decompose_plain r gamma2).0) back
    ∙ sym (high_bits-plain x gamma2 hx g)

pub low_bits-lt : (u gamma2 : ℕ) → u < q → IsGamma2 gamma2 → from_signed (low_bits u gamma2) < q
unfolding low_bits
low_bits-lt u gamma2 hu g =
    let low : (decompose u gamma2).1 ≡ (decompose_plain u gamma2).1 =
      ap (λ (p : ℕ × ℕ). p.1) (decompose-plain u gamma2 hu g) in
    let (plain, wrapped) = from_signed-mod (decompose u gamma2).1 in
    elim (plain_low u gamma2 hu g) [
      | inl l ↦ omega (arith, low, l, plain (omega (arith, low, l)))
      | inr (l, l') ↦
          omega (arith, low, l, l', wrapped (omega (arith, low, l)) (omega (arith, low, l')))
    ]
