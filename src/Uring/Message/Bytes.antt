-- ===== src/Uring/Message/Bytes.antt =====
-- Numbers in memory, lowest byte first, and a write into a buffer.
use conrt.Base.{
  ℕ, zero, suc, ◌+◌, ◌-◌, ◌*◌, ◌/◌, ◌%◌, ◌^◌, ◌≤◌, ◌<◌, List, [], ◌∷◌, ◌++◌, ◌≡◌, refl, ap, ◌∙◌,
  arith, length, take, drop, length-append, length-take, length-drop, append_assoc,
}

unfoldable pub le_bytes : (width value : ℕ) → List ℕ
le_bytes zero value = []
le_bytes (suc width) value = value % 256 ∷ le_bytes width (value / 256)

unfoldable pub from_le : List ℕ → ℕ
from_le [] = 0
from_le (b ∷ bs) = b + 256 * from_le bs

unfoldable pub write_at : ℕ → List ℕ → List ℕ → List ℕ
write_at offset bytes memory = take offset memory ++ bytes ++ drop (offset + length bytes) memory

pub length-le_bytes : (width value : ℕ) → length (le_bytes width value) ≡ width
unfolding le_bytes
length-le_bytes zero value = refl
length-le_bytes (suc width) value = ap suc (length-le_bytes width (value / 256))

pub from_le-le_bytes_four : (value : ℕ) → value < 2 ^ 32 → from_le (le_bytes 4 value) ≡ value
unfolding from_le le_bytes
from_le-le_bytes_four value h = omega arith

pub from_le-le_bytes_eight : (value : ℕ) → value < 2 ^ 64 → from_le (le_bytes 8 value) ≡ value
unfolding from_le le_bytes
from_le-le_bytes_eight value h = omega arith

pub take-append_length :
    {A : Type 0} (n : ℕ) (xs ys : List A) → length xs ≡ n → take n (xs ++ ys) ≡ xs
take-append_length zero [] ys h = refl
take-append_length zero (x ∷ xs) ys h = absurd (omega arith)
take-append_length (suc n) [] ys h = absurd (omega arith)
take-append_length (suc n) (x ∷ xs) ys h = ap (◌∷◌ x) (take-append_length n xs ys (omega arith))

pub drop-append_length :
    {A : Type 0} (n : ℕ) (xs ys : List A) → length xs ≡ n → drop n (xs ++ ys) ≡ ys
drop-append_length zero [] ys h = refl
drop-append_length zero (x ∷ xs) ys h = absurd (omega arith)
drop-append_length (suc n) [] ys h = absurd (omega arith)
drop-append_length (suc n) (x ∷ xs) ys h = drop-append_length n xs ys (omega arith)

-- The part of a longer prefix that lies after a shorter one.
pub take-append_more :
    {A : Type 0} (n : ℕ) (xs ys : List A) → take (length xs + n) (xs ++ ys) ≡ xs ++ take n ys
take-append_more n [] ys = ap (λ k. take k ys) {x = 0 + n} {y = n} (omega arith)
take-append_more n (x ∷ xs) ys =
    ap (λ k. take k (x ∷ xs ++ ys)) {x = suc (length xs) + n} {y = suc (length xs + n)}
      (omega arith)
    ∙ ap (◌∷◌ x) (take-append_more n xs ys)

pub length-write_at :
    (n : ℕ) (bytes memory : List ℕ)
    → n + length bytes ≤ length memory
    → length (write_at n bytes memory) ≡ length memory
unfolding write_at
length-write_at n bytes memory h = grind (
  arith,
  length-append (take n memory ++ bytes) (drop (n + length bytes) memory),
  length-append (take n memory) bytes,
  length-take n memory,
  length-drop (n + length bytes) memory,
)

pub take-write_at :
    (n space : ℕ) (bytes memory : List ℕ)
    → n ≤ length memory
    → length bytes ≤ space
    → take (n + space) (write_at n bytes memory)
      ≡ take n memory ++ (bytes ++ take (space - length bytes) (drop (n + length bytes) memory))
unfolding write_at
take-write_at n space bytes memory h g =
    let before = take n memory ++ bytes in
    let after = drop (n + length bytes) memory in
    let size : n + space ≡ length before + (space - length bytes) =
      grind (arith, length-append (take n memory) bytes, length-take n memory) in
    ap (λ k. take k (before ++ after)) size
    ∙ take-append_more (space - length bytes) before after
    ∙ append_assoc (take n memory) bytes (take (space - length bytes) after)
