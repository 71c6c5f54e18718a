-- ===== src/Mlkem/Kem/Constant.antt =====
-- The branch-free comparison and selection of `decaps`.
use macula_pq.Common.{
  ℕ, ◌+◌, ◌-◌, ◌/◌, ◌%◌, ◌^◌, ◌<◌, ◌≡◌, ◌⊎◌, refl, sym, ap, ap₂, ◌∙◌, arith, bit_and, bit_or,
  bit_xor, ◌==◌, if◌then◌else◌, true, false, Bool-cases, inl, inr, List, [], ◌∷◌, foldl, length,
  zip_with, list_eq, list_eq_sound, list_eq_refl,
}
use macula_pq.Common.Bits.{
  bit_or-eq-zero, bit_xor-eq-zero, bit_xor_self, bit_xor-lt, bit_or-lt, bit_or-zero, bit_and_mask,
  bit_and-zero, zero-bit_or,
}
use macula_pq.Common.Word.{IsBytes}
use macula_pq.Mlkem.Kem.{ct_eq, ct_select}

abbrev differences : ℕ → List ℕ → List ℕ → ℕ
differences acc a b = foldl bit_or acc (zip_with bit_xor a b)

differences-lt :
    (acc : ℕ) (a b : List ℕ) → acc < 256 → IsBytes a → IsBytes b → differences acc a b < 256
differences-lt acc [] b h pa pb = h
differences-lt acc (x ∷ a) [] h pa pb = h
differences-lt acc (x ∷ a) (y ∷ b) h (px, pa) (py, pb) =
    differences-lt (bit_or acc (bit_xor x y)) a b
      (bit_or-lt 8 acc (bit_xor x y) h (bit_xor-lt 8 x y px py)) pa pb

-- The accumulated difference is 0 only if every byte agrees.
differences-zero :
    (acc : ℕ) (a b : List ℕ)
    → length a ≡ length b
    → IsBytes a
    → IsBytes b
    → differences acc a b ≡ 0
    → (acc ≡ 0) × (a ≡ b)
differences-zero acc [] [] e pa pb h = (h, refl)
differences-zero acc [] (y ∷ b) e pa pb h = absurd (omega arith)
differences-zero acc (x ∷ a) [] e pa pb h = absurd (omega arith)
differences-zero acc (x ∷ a) (y ∷ b) e (px, pa) (py, pb) h =
    let (z, same) = differences-zero (bit_or acc (bit_xor x y)) a b (omega arith) pa pb h in
    let (acc0, xor0) = bit_or-eq-zero acc (bit_xor x y) z in
    (acc0, ap₂ ◌∷◌ (bit_xor-eq-zero 8 x y px py xor0) same)

differences_same : (a : List ℕ) → differences 0 a a ≡ 0
differences_same [] = refl
differences_same (x ∷ a) = rw (bit_xor_self x) (differences_same a)

mask_of :
    (diff : ℕ)
    → diff < 256
    → (diff + 2 ^ 16 - 1) % 2 ^ 16 / 2 ^ 8 % 2 ^ 8 ≡ (if diff == 0 then 255 else 0)
mask_of diff h = ground arith

-- On byte strings of one length, the constant-time comparison is 0xff when the strings are equal
-- and 0 when they differ anywhere.
pub ct_eq-list_eq :
    (a b : List ℕ)
    → length a ≡ length b
    → IsBytes a
    → IsBytes b
    → ct_eq a b ≡ (if list_eq a b then 255 else 0)
unfolding ct_eq
ct_eq-list_eq a b e pa pb =
    mask_of _ (differences-lt 0 a b (omega arith) pa pb) ∙ decide (Bool-cases (list_eq a b))
  where
    decide :
        (list_eq a b ≡ true) ⊎ (list_eq a b ≡ false)
        → (let all : ℕ = 255 in
            ◌≡◌ {A = ℕ}
              (if differences 0 a b == 0 then all else 0)
              (if list_eq a b then all else 0))
    decide (inl s) =
        let none_differ : differences 0 a b ≡ 0 =
          ap (differences 0 a) (sym (list_eq_sound a b s)) ∙ differences_same a in
        rw (s, none_differ)
    decide (inr d) = elim (Bool-cases (differences 0 a b == 0)) [
      | inl z ↦
          let same : a ≡ b = (differences-zero 0 a b e pa pb (ground arith)).1 in
          let again : list_eq a b ≡ true = ap (list_eq a) (sym same) ∙ list_eq_refl a in cc again
      | inr nz ↦ rw (d, nz)
    ]

byte_mask : (x : ℕ) → x < 256 → bit_and x 255 ≡ x
byte_mask x h = bit_and_mask 8 x ∙ omega arith

-- The mask 0xff selects the first string and 0 the second.
pub ct_select-ones : (a b : List ℕ) → length a ≡ length b → IsBytes a → ct_select 255 a b ≡ a
unfolding ct_select
ct_select-ones [] b e pa = refl
ct_select-ones (x ∷ a) [] e pa = absurd (omega arith)
ct_select-ones (x ∷ a) (y ∷ b) e (px, pa) =
    ap₂ ◌∷◌ (rw (byte_mask x px, bit_and-zero y, bit_or-zero x))
      (ct_select-ones a b (omega arith) pa)

pub ct_select-zero : (a b : List ℕ) → length a ≡ length b → IsBytes b → ct_select 0 a b ≡ b
unfolding ct_select
ct_select-zero [] [] e pb = refl
ct_select-zero [] (y ∷ b) e pb = absurd (omega arith)
ct_select-zero (x ∷ a) [] e pb = absurd (omega arith)
ct_select-zero (x ∷ a) (y ∷ b) e (py, pb) =
    ap₂ ◌∷◌ (rw (byte_mask y py, bit_and-zero x, zero-bit_or y))
      (ct_select-zero a b (omega arith) pb)
