-- ===== src/Mldsa/Encode/HintMasked.antt =====
-- The mask by which `hint_bit_pack` keeps the slots in use, without a branch on how many they are.
use macula_pq.Common.{
  ℕ, zero, suc, ◌+◌, ◌-◌, ◌≤◌, ◌<◌, ◌≡◌, refl, ap₂, ◌∙◌, arith, bit_and, ltb, if◌then◌else◌,
  Bool-cases, inl, inr, List, [], ◌∷◌, ◌++◌, length, take, replicate, zip_with, count_from,
}
use macula_pq.Common.Bits.{bit_and_mask, bit_and-zero}
use macula_pq.Common.Word.{IsBytes, u8, asr64, sub64}

-- A slot below `index` is kept, and one from it on is zeroed.
abbrev pub masked : ℕ → ℕ → ℕ → ℕ
masked index s slot = bit_and slot (u8 (asr64 (sub64 s index) 63))

masked_lem :
    (index s slot : ℕ)
    → index ≤ 256
    → s < 256
    → slot < 256
    → masked index s slot ≡ (if ltb s index then slot else 0)
masked_lem index s slot hi hs h =
    ground (arith, bit_and-zero slot, bit_and_mask 8 slot, above, below)
  where
    above : index ≤ s → u8 (asr64 (sub64 s index) 63) ≡ 0
    above p = ground arith

    below : s < index → u8 (asr64 (sub64 s index) 63) ≡ 255
    below p = ground arith

take-suc_sub :
    (s index : ℕ) (slot : ℕ) (slots : List ℕ)
    → s < index
    → take (index - s) (slot ∷ slots) ≡ slot ∷ take (index - (s + 1)) slots
take-suc_sub s index slot slots h =
    let e : index - s ≡ suc (index - (s + 1)) = omega arith in rw e refl

abbrev pub kept_slots : ℕ → ℕ → List ℕ → List ℕ
kept_slots kept left slots = take kept slots ++ replicate (left - kept) 0

pub masked_slots :
    (left s index : ℕ) (slots : List ℕ)
    → index ≤ s + left
    → index ≤ 256
    → left ≤ length slots
    → s + left ≤ 256
    → IsBytes slots
    → zip_with (masked index) (count_from s left) (take left slots)
      ≡ kept_slots (index - s) left slots
masked_slots zero s index slots hi h6 hl hs fit = let e : index - s ≡ 0 = omega arith in rw e refl
masked_slots (suc left) s index [] hi h6 hl hs fit = absurd (omega arith)
masked_slots (suc left) s index (slot ∷ slots) hi h6 hl hs (h, fit) =
    let head = masked_lem index s slot h6 (omega arith) h in
    let ih = masked_slots left (s + 1) index slots in
    elim (Bool-cases (ltb s index)) [
      | inl t ↦
          let lt : s < index = ground arith in
          let kept : masked index s slot ≡ slot = head ∙ rw t refl in
          let fewer : suc left - (index - s) ≡ left - (index - (s + 1)) = omega arith in
          ap₂ ◌∷◌ kept (ih (omega arith) h6 (omega arith) (omega arith) fit)
          ∙ rw (take-suc_sub s index slot slots lt, fewer) refl
      | inr t ↦
          let ge : index ≤ s = ground arith in
          let gone : masked index s slot ≡ 0 = head ∙ rw t refl in
          let none_left : index - s ≡ 0 = omega arith in
          let none_next : index - (s + 1) ≡ 0 = omega arith in
          let same : left - 0 ≡ left = omega arith in
          let next : suc left - 0 ≡ suc left = omega arith in
          ap₂ ◌∷◌ gone (ih (omega arith) h6 (omega arith) (omega arith) fit)
          ∙ rw (none_left, none_next, same, next) refl
    ]
