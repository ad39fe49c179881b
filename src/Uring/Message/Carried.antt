-- ===== src/Uring/Message/Carried.antt =====
-- Control bytes that are messages one after the other, and a push that adds one.
use conrt.Base.{
  ℕ, zero, suc, ◌+◌, ◌-◌, ◌*◌, ◌/◌, ◌<◌, ◌%◌, ◌≤◌, Bool, true, false, List, [], ◌∷◌, ◌++◌,
  append_assoc, append-nil, ◌≡◌, refl, sym, ap, subst, ◌∙◌, inl, inr, arith, length, length-append,
  length-take, length-drop, take, drop, ltb, ◌==◌, if◌then◌else◌, done, ◌>>◌, assert, assert-done,
  Bool-cases,
}
use conrt.Uring.Message.{Msg, cmsg_align, cmsg_space, push_cmsg, append_cmsg, ctrl_capacity}
use conrt.Uring.Message.Bytes.{write_at, length-write_at, take-write_at}
use conrt.Uring.Message.Walk.{Cmsg, walk, Fits, encoded, length-encoded, walk-cons}

-- The bytes are the messages, each followed by what fills it up to the next boundary.
abbrev pub Holds : List ℕ → List Cmsg → Type 0
Holds bytes [] = bytes ≡ []
Holds bytes (c ∷ cs) =
    (padding : List ℕ) × (rest : List ℕ) × Fits c
    × (length (encoded c ++ padding) ≡ cmsg_space (length c.payload))
    × (bytes ≡ (encoded c ++ padding) ++ rest)
    × Holds rest cs

pub walk-Holds :
    (cs : List Cmsg) (fuel : ℕ) (bytes : List ℕ)
    → length cs ≤ fuel
    → Holds bytes cs
    → walk fuel bytes ≡ cs
unfolding walk
walk-Holds [] zero bytes h e = refl
walk-Holds [] (suc fuel) bytes h e = ap (walk (suc fuel)) e
walk-Holds (c ∷ cs) zero bytes h held = absurd (omega arith)
walk-Holds (c ∷ cs) (suc fuel) bytes h (padding, rest, f, sized, e, held) =
    ap (walk (suc fuel)) e
    ∙ walk-cons c padding rest fuel f sized
    ∙ ap (◌∷◌ c) (walk-Holds cs fuel rest (omega arith) held)

Holds-snoc :
    (cs : List Cmsg) (bytes : List ℕ) (c : Cmsg) (padding : List ℕ)
    → Fits c
    → length (encoded c ++ padding) ≡ cmsg_space (length c.payload)
    → Holds bytes cs
    → Holds (bytes ++ (encoded c ++ padding)) (cs ++ c ∷ [])
Holds-snoc [] bytes c padding f sized e = (
  padding,
  [],
  f,
  sized,
  ap (λ bs. bs ++ (encoded c ++ padding)) e ∙ sym (append-nil (encoded c ++ padding)),
  refl,
)
Holds-snoc (d ∷ cs) bytes c padding f sized (padding₁, rest, f₁, sized₁, e, held) = (
  padding₁,
  rest ++ (encoded c ++ padding),
  f₁,
  sized₁,
  ap (λ bs. bs ++ (encoded c ++ padding)) e
      ∙ append_assoc (encoded d ++ padding₁) rest (encoded c ++ padding),
  Holds-snoc cs rest c padding f sized held,
)

-- The write of a message leaves what lies before it, and fills up to the next boundary with what was
-- there.
module _ (c : Cmsg) (used : ℕ) (ctrl : List ℕ)
    (room : used + cmsg_space (length c.payload) ≤ length ctrl) where
  abbrev filling : List ℕ
  filling =
      take (cmsg_space (length c.payload) - length (encoded c))
        (drop (used + length (encoded c)) ctrl)

  space-≥ : length (encoded c) ≤ cmsg_space (length c.payload)
  unfolding cmsg_space
  space-≥ = omega (arith, length-encoded c)

  length-filling : length (encoded c ++ filling) ≡ cmsg_space (length c.payload)
  length-filling = omega (
    arith,
    room,
    space-≥,
    length-append (encoded c) filling,
    length-take (cmsg_space (length c.payload) - length (encoded c))
        (drop (used + length (encoded c)) ctrl),
    length-drop (used + length (encoded c)) ctrl,
  )

-- The bytes that a control message takes: its header, and its payload up to a multiple of 8.
abbrev pub room : ℕ → ℕ
room payload = 16 + (payload + 7) / 8 * 8

abbrev pub rooms : List Cmsg → ℕ
rooms [] = 0
rooms (c ∷ cs) = room (length c.payload) + rooms cs

rooms-append :
    (cs : List Cmsg) (c : Cmsg) → rooms (cs ++ c ∷ []) ≡ rooms cs + room (length c.payload)
rooms-append [] c = omega arith
rooms-append (d ∷ cs) c = omega (arith, rooms-append cs c)

cmsg_space_lem : (n : ℕ) → cmsg_space n ≡ room n
unfolding cmsg_space
cmsg_space_lem n = omega arith

-- What the messages say, and where the next one goes.
pub record Carries (m : Msg) (cs : List Cmsg) : Type 0 where
  pub based : m.ctrl_base % cmsg_align ≡ 0
  pub within : m.msg_controllen ≤ ctrl_capacity m
  pub aligned : m.msg_controllen % cmsg_align ≡ 0
  pub sized : m.msg_controllen ≡ rooms cs
  pub held : Holds (take m.msg_controllen m.ctrl) cs

pub walk-Carries :
    (m : Msg) (cs : List Cmsg) (fuel : ℕ)
    → Carries m cs
    → length cs ≤ fuel
    → walk fuel (take m.msg_controllen m.ctrl) ≡ cs
walk-Carries m cs fuel w h = walk-Holds cs fuel (take m.msg_controllen m.ctrl) h w.held

-- What is told of a push: it was taken where there was room, and what the message holds then.
abbrev pub Pushed : Msg → List Cmsg → Cmsg → Bool × Msg → Type 0
Pushed m cs c (true, m₁) =
    (rooms cs + room (length c.payload) ≤ ctrl_capacity m)
    × Carries m₁ (cs ++ c ∷ [])
    × (m₁.iovs ≡ m.iovs)
    × (m₁.msg_iovlen ≡ m.msg_iovlen)
    × (ctrl_capacity m₁ ≡ ctrl_capacity m)
Pushed m cs c (false, m₁) = (ctrl_capacity m < rooms cs + room (length c.payload)) × (m₁ ≡ m)

abbrev written : Msg → Cmsg → Msg
written m c = record m {
  ctrl = write_at m.msg_controllen (encoded c) m.ctrl;
  msg_controllen = m.msg_controllen + cmsg_space (length c.payload);
}

append_cmsg-done :
    (m : Msg) (cs : List Cmsg) (c : Cmsg)
    → Carries m cs
    → append_cmsg c.level c.kind c.payload m ≡ done (true, written m c)
unfolding append_cmsg
append_cmsg-done m cs c w =
    assert-done (m.ctrl_base % cmsg_align == 0)
      (assert (m.msg_controllen % cmsg_align == 0) >> done (true, written m c))
      (ap (λ n. n == 0) w.based)
      (assert-done (m.msg_controllen % cmsg_align == 0) (done (true, written m c))
        (ap (λ n. n == 0) w.aligned) refl)

written-inside :
    (m : Msg) (c : Cmsg)
    → m.msg_controllen + cmsg_space (length c.payload) ≤ ctrl_capacity m
    → m.msg_controllen + length (encoded c) ≤ length m.ctrl
written-inside m c fits = omega (arith, fits, space-≥ c m.msg_controllen m.ctrl fits)

space-aligned : (n : ℕ) → cmsg_space n % cmsg_align ≡ 0
unfolding cmsg_space
space-aligned n = omega arith

written-Carries :
    (m : Msg) (cs : List Cmsg) (c : Cmsg)
    → Carries m cs
    → Fits c
    → m.msg_controllen + cmsg_space (length c.payload) ≤ ctrl_capacity m
    → Carries (written m c) (cs ++ c ∷ [])
written-Carries m cs c w f fits = record {
  based = w.based;
  within =
      omega (
        arith,
        fits,
        length-write_at m.msg_controllen (encoded c) m.ctrl (written-inside m c fits),
      );
  aligned = omega (arith, w.aligned, space-aligned (length c.payload));
  sized = omega (arith, w.sized, rooms-append cs c, cmsg_space_lem (length c.payload));
  held =
      subst (λ bytes. Holds bytes (cs ++ c ∷ []))
        (sym (
          take-write_at m.msg_controllen (cmsg_space (length c.payload)) (encoded c) m.ctrl w.within
            (space-≥ c m.msg_controllen m.ctrl fits)))
        (Holds-snoc cs (take m.msg_controllen m.ctrl) c (filling c m.msg_controllen m.ctrl fits) f
          (length-filling c m.msg_controllen m.ctrl fits) w.held);
}

pub push_cmsg-Carries :
    (m : Msg) (cs : List Cmsg) (c : Cmsg)
    → Carries m cs
    → Fits c
    → (r : Bool × Msg) × (push_cmsg c.level c.kind c.payload m ≡ done r) × Pushed m cs c r
unfolding push_cmsg
push_cmsg-Carries m cs c w f =
    elim (Bool-cases (ltb (ctrl_capacity m) (m.msg_controllen + cmsg_space (length c.payload)))) [
      | inl full ↦ (
        (false, m),
        ap (λ t. if t then done (false, m) else append_cmsg c.level c.kind c.payload m) full,
        (ground (arith, full, w.sized, cmsg_space_lem (length c.payload)), refl),
      )
      | inr fits ↦ (
        (true, written m c),
        ap (λ t. if t then done (false, m) else append_cmsg c.level c.kind c.payload m) fits
            ∙ append_cmsg-done m cs c w,
        (
          ground (arith, fits, w.sized, cmsg_space_lem (length c.payload)),
          written-Carries m cs c w f (ground (arith, fits)),
          refl,
          refl,
          length-write_at m.msg_controllen (encoded c) m.ctrl
              (written-inside m c (ground (arith, fits))),
        ),
      )
    ]
