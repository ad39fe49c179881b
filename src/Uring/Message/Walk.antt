-- ===== src/Uring/Message/Walk.antt =====
-- What a kernel finds in the control bytes of a message, walking them by CMSG_FIRSTHDR and CMSG_NXTHDR.
use conrt.Base.{
  ℕ, zero, suc, ◌+◌, ◌-◌, ◌%◌, ◌^◌, ◌≤◌, ◌<◌, List, [], ◌∷◌, ◌++◌, append_assoc, ◌≡◌, ap, subst,
  ◌∙◌, arith, length, length-append, take, drop, ltb, if◌then◌else◌,
}
use conrt.Uring.Message.{cmsg_header, cmsg_align, cmsg_space, cmsg_bytes}
use conrt.Uring.Message.Bytes.{
  le_bytes, from_le, length-le_bytes, from_le-le_bytes_four, from_le-le_bytes_eight,
  take-append_length, drop-append_length,
}

pub record Cmsg : Type 0 where
  pub level : ℕ
  pub kind : ℕ
  pub payload : List ℕ

-- The message at the start of the bytes, `len` bytes long with its header.
abbrev first_cmsg : ℕ → List ℕ → Cmsg
first_cmsg len bytes = record {
  level = from_le (take 4 (drop 8 bytes));
  kind = from_le (take 4 (drop 4 (drop 8 bytes)));
  payload = take (len - cmsg_header) (drop 4 (drop 4 (drop 8 bytes)));
}

-- CMSG_ALIGN
abbrev aligned : ℕ → ℕ
aligned len = (len + cmsg_align - 1) - (len + cmsg_align - 1) % cmsg_align

-- The messages in the bytes, `fuel` at most. The walk ends where no header is left, or where a length
-- is shorter than a header or longer than what is left.
unfoldable pub walk : (fuel : ℕ) → List ℕ → List Cmsg
walk zero bytes = []
walk (suc fuel) bytes =
    let len = from_le (take 8 bytes) in
    let found = first_cmsg len bytes ∷ walk fuel (drop (aligned len) bytes) in
    if ltb (length bytes) cmsg_header
    then []
    else if ltb len cmsg_header
    then []
    else if ltb (length bytes) len
    then []
    else found

-- The fields are those of a `cmsghdr`.
pub record Fits (c : Cmsg) : Type 0 where
  pub level : c.level < 2 ^ 32
  pub kind : c.kind < 2 ^ 32
  pub payload : length c.payload < 2 ^ 32

abbrev pub encoded : Cmsg → List ℕ
encoded c = cmsg_bytes c.level c.kind c.payload

pub length-encoded : (c : Cmsg) → length (encoded c) ≡ cmsg_header + length c.payload
unfolding le_bytes
length-encoded c = omega (
  arith,
  length-append (le_bytes 8 (cmsg_header + length c.payload))
      (le_bytes 4 c.level ++ le_bytes 4 c.kind ++ c.payload),
  length-append (le_bytes 4 c.level) (le_bytes 4 c.kind ++ c.payload),
  length-append (le_bytes 4 c.kind) c.payload,
  length-le_bytes 8 (cmsg_header + length c.payload),
  length-le_bytes 4 c.level,
  length-le_bytes 4 c.kind,
)

module _ (c : Cmsg) (padding rest : List ℕ) where
  after_length : List ℕ
  after_length = le_bytes 4 c.level ++ (le_bytes 4 c.kind ++ (c.payload ++ (padding ++ rest)))

  spread :
      (encoded c ++ padding) ++ rest ≡ le_bytes 8 (cmsg_header + length c.payload) ++ after_length
  unfolding after_length
  spread = simp (append_assoc)

  drop-length : drop 8 ((encoded c ++ padding) ++ rest) ≡ after_length
  drop-length =
      ap (drop 8) spread
      ∙ drop-append_length 8 (le_bytes 8 (cmsg_header + length c.payload)) after_length
          (length-le_bytes 8 (cmsg_header + length c.payload))

  read-length :
      Fits c → from_le (take 8 ((encoded c ++ padding) ++ rest)) ≡ cmsg_header + length c.payload
  read-length f =
      ap (λ bs. from_le (take 8 bs)) spread
      ∙ ap from_le (
          take-append_length 8 (le_bytes 8 (cmsg_header + length c.payload)) after_length
            (length-le_bytes 8 (cmsg_header + length c.payload)))
      ∙ from_le-le_bytes_eight (cmsg_header + length c.payload) (omega (arith, f.payload))

  read-level : Fits c → from_le (take 4 after_length) ≡ c.level
  unfolding after_length le_bytes
  read-level f =
      ap from_le (
        take-append_length 4 (le_bytes 4 c.level)
          (le_bytes 4 c.kind ++ (c.payload ++ (padding ++ rest))) (length-le_bytes 4 c.level))
      ∙ from_le-le_bytes_four c.level f.level

  drop-level : drop 4 after_length ≡ le_bytes 4 c.kind ++ (c.payload ++ (padding ++ rest))
  unfolding after_length le_bytes
  drop-level =
      drop-append_length 4 (le_bytes 4 c.level)
        (le_bytes 4 c.kind ++ (c.payload ++ (padding ++ rest))) (length-le_bytes 4 c.level)

  read-kind : Fits c → from_le (take 4 (drop 4 after_length)) ≡ c.kind
  unfolding le_bytes
  read-kind f =
      ap (λ bs. from_le (take 4 bs)) drop-level
      ∙ ap from_le (
          take-append_length 4 (le_bytes 4 c.kind) (c.payload ++ (padding ++ rest))
            (length-le_bytes 4 c.kind))
      ∙ from_le-le_bytes_four c.kind f.kind

  drop-kind : drop 4 (drop 4 after_length) ≡ c.payload ++ (padding ++ rest)
  unfolding le_bytes
  drop-kind =
      ap (drop 4) drop-level
      ∙ drop-append_length 4 (le_bytes 4 c.kind) (c.payload ++ (padding ++ rest))
          (length-le_bytes 4 c.kind)

  read-payload :
      take (cmsg_header + length c.payload - cmsg_header) (drop 4 (drop 4 after_length)) ≡ c.payload
  read-payload =
      ap (take (cmsg_header + length c.payload - cmsg_header)) drop-kind
      ∙ take-append_length (cmsg_header + length c.payload - cmsg_header) c.payload
          (padding ++ rest) (omega arith)

  read-first :
      Fits c → first_cmsg (cmsg_header + length c.payload) ((encoded c ++ padding) ++ rest) ≡ c
  read-first f = simp (drop-length, read-level f, read-kind f, read-payload)

walk-found :
    (fuel : ℕ) (bytes : List ℕ)
    → cmsg_header ≤ from_le (take 8 bytes)
    → from_le (take 8 bytes) ≤ length bytes
    → walk (suc fuel) bytes
      ≡ first_cmsg (from_le (take 8 bytes)) bytes
        ∷ walk fuel (drop (aligned (from_le (take 8 bytes))) bytes)
unfolding walk
walk-found fuel bytes h g = ground arith

walk-step :
    (fuel len : ℕ) (bytes : List ℕ)
    → from_le (take 8 bytes) ≡ len
    → cmsg_header ≤ len
    → len ≤ length bytes
    → walk (suc fuel) bytes ≡ first_cmsg len bytes ∷ walk fuel (drop (aligned len) bytes)
walk-step fuel len bytes e =
    subst
      (λ n.
        cmsg_header ≤ n
        → n ≤ length bytes
        → walk (suc fuel) bytes ≡ first_cmsg n bytes ∷ walk fuel (drop (aligned n) bytes))
      e (walk-found fuel bytes)

module _ (c : Cmsg) (padding rest : List ℕ) where
  drop-first :
      length (encoded c ++ padding) ≡ cmsg_space (length c.payload)
      → drop (aligned (cmsg_header + length c.payload)) ((encoded c ++ padding) ++ rest) ≡ rest
  unfolding cmsg_space
  drop-first h =
      drop-append_length (aligned (cmsg_header + length c.payload)) (encoded c ++ padding) rest h

  length-first : cmsg_header + length c.payload ≤ length ((encoded c ++ padding) ++ rest)
  unfolding le_bytes
  length-first = omega (
    arith,
    length-append (encoded c ++ padding) rest,
    length-append (encoded c) padding,
    length-encoded c,
  )

  pub walk-cons :
      (fuel : ℕ)
      → Fits c
      → length (encoded c ++ padding) ≡ cmsg_space (length c.payload)
      → walk (suc fuel) ((encoded c ++ padding) ++ rest) ≡ c ∷ walk fuel rest
  walk-cons fuel f h =
      walk-step fuel (cmsg_header + length c.payload) ((encoded c ++ padding) ++ rest)
        (read-length c padding rest f) (omega arith) length-first
      ∙ simp (read-first c padding rest f, drop-first h)
