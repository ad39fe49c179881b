-- ===== src/Uring/Message/Edits/Agree.antt =====
-- That a message holds what its edits tell.
use conrt.Base.{
  ℕ, zero, suc, ◌+◌, ◌*◌, ◌^◌, ◌≤◌, ◌<◌, Bool, true, false, List, [], ◌∷◌, ◌++◌, some, ◌≡◌, refl,
  sym, ap, subst, ◌∙◌, inl, inr, arith, length, length-append, length-set, take, set, map, ltb, leb,
  done, ◌>>=◌, >>=-done, Bool-cases, ◌==◌,
}
use conrt.Uring.Message.{
  Msg, IoVec, push_cmsg, push_iov, push_scm_rights, fd_bytes, ctrl_capacity, iov_capacity, clear,
  take_iov,
}
use conrt.Uring.Message.Bytes.{le_bytes, length-le_bytes}
use conrt.Uring.Message.Walk.{Cmsg, Fits}
use conrt.Uring.Message.Carried.{Carries, Pushed, push_cmsg-Carries, room, rooms}
use conrt.Uring.Message.Edits.{
  Edit, entry, message, rights, cleared, taken, Sent, scm_rights, edit, tell, tell_message, Ranged,
}

length-fd_bytes : (fds : List ℕ) → length (fd_bytes fds) ≡ 4 * length fds
unfolding fd_bytes
length-fd_bytes [] = refl
length-fd_bytes (fd ∷ fds) =
    omega (
      arith,
      length-append (le_bytes 4 fd) (fd_bytes fds),
      length-le_bytes 4 fd,
      length-fd_bytes fds,
    )

scm_rights-Fits : (fds : List ℕ) → 4 * length fds < 2 ^ 32 → Fits (scm_rights fds)
unfolding scm_rights
scm_rights-Fits fds h = record {
  level = omega arith;
  kind = omega arith;
  payload = omega (arith, h, length-fd_bytes fds);
}

take-set {ℓ} :
    {A : Type ℓ} (n : ℕ) (xs : List A) (v : A)
    → n < length xs
    → take (suc n) (set xs n v) ≡ take n xs ++ v ∷ []
take-set zero [] v h = absurd (omega arith)
take-set zero (x ∷ xs) v h = refl
take-set (suc n) [] v h = absurd (omega arith)
take-set (suc n) (x ∷ xs) v h = ap (◌∷◌ x) (take-set n xs v (omega arith))

map-append {ℓ κ} :
    {A : Type ℓ} {B : Type κ} (f : A → B) (xs ys : List A) → map f (xs ++ ys) ≡ map f xs ++ map f ys
map-append f [] ys = refl
map-append f (x ∷ xs) ys = ap (◌∷◌ (f x)) (map-append f xs ys)

take-none : {A : Type 0} (n : ℕ) (xs : List A) → (length xs == 0) ≡ true → take n xs ≡ []
take-none zero xs h = refl
take-none (suc n) [] h = refl
take-none (suc n) (x ∷ xs) h = absurd (ground (arith, h))

module _ (iovs ctrl : ℕ) where
  pub record Agrees (m : Msg) (s : Sent) : Type 0 where
    pub carried : Carries m s.messages
    pub listed : take m.msg_iovlen m.iovs ≡ map some s.entries
    pub counted : m.msg_iovlen ≡ length s.entries
    pub within : m.msg_iovlen ≤ iovs
    pub iov_cap : iov_capacity m ≡ iovs
    pub ctrl_cap : ctrl_capacity m ≡ ctrl

  entered-Agrees :
      (v : IoVec) (m : Msg) (s : Sent)
      → Agrees m s
      → m.msg_iovlen < iov_capacity m
      → Agrees
          (record m { iovs = set m.iovs m.msg_iovlen (some v); msg_iovlen = m.msg_iovlen + 1 })
          (record s { entries = s.entries ++ v ∷ [] })
  entered-Agrees v m s a free = record {
    carried = record {
      based = a.carried.based;
      within = a.carried.within;
      aligned = a.carried.aligned;
      sized = a.carried.sized;
      held = a.carried.held;
    };
    listed =
        ap (λ k. take k (set m.iovs m.msg_iovlen (some v))) {x = m.msg_iovlen + 1}
          {y = suc m.msg_iovlen} (omega arith)
        ∙ take-set m.msg_iovlen m.iovs (some v) free
        ∙ ap (λ vs. vs ++ some v ∷ []) a.listed
        ∙ sym (map-append some s.entries (v ∷ []));
    counted = omega (arith, a.counted, length-append s.entries (v ∷ []));
    within = omega (arith, free, a.iov_cap);
    iov_cap = length-set m.iovs m.msg_iovlen (some v) ∙ a.iov_cap;
    ctrl_cap = a.ctrl_cap;
  }

  entry-Agrees :
      (v : IoVec) (m : Msg) (s : Sent)
      → Agrees m s
      → Agrees (push_iov v m).1 (tell iovs ctrl (entry v) s)
  unfolding push_iov tell
  entry-Agrees v m s a = elim (Bool-cases (leb (iov_capacity m) m.msg_iovlen)) [
    | inl full ↦
        let told : ltb (length s.entries) iovs ≡ false =
          ground (arith, full, a.counted, a.iov_cap) in
        rw full (rw told a)
    | inr fits ↦
        let told : ltb (length s.entries) iovs ≡ true =
          ground (arith, fits, a.counted, a.iov_cap) in
        rw fits (rw told (entered-Agrees v m s a (ground (arith, fits))))
  ]

  message-Agrees :
      (c : Cmsg) (m : Msg) (s : Sent) (r : Bool × Msg)
      → Agrees m s
      → Pushed m s.messages c r
      → Agrees r.1 (tell_message iovs ctrl c s)
  message-Agrees c m s (true, m₁) a (space, w, same, count, cap) =
      let told : leb (rooms s.messages + room (length c.payload)) ctrl ≡ true =
        ground (arith, space, a.ctrl_cap) in
      rw told (record {
        carried = w;
        listed = rw (same, count) a.listed;
        counted = count ∙ a.counted;
        within = omega (arith, count, a.within);
        iov_cap = ap length same ∙ a.iov_cap;
        ctrl_cap = cap ∙ a.ctrl_cap;
      })
  message-Agrees c m s (false, m₁) a (full, e) =
      let told : leb (rooms s.messages + room (length c.payload)) ctrl ≡ false =
        ground (arith, full, a.ctrl_cap) in
      rw told (subst (λ q. Agrees q s) (sym e) a)

  push-Agrees :
      (c : Cmsg) (m : Msg) (s : Sent)
      → Agrees m s
      → Fits c
      → (q : Msg) × ((push_cmsg c.level c.kind c.payload m >>= λ r. done r.1) ≡ done q)
        × Agrees q (tell_message iovs ctrl c s)
  push-Agrees c m s a f =
      let (r, e, p) = push_cmsg-Carries m s.messages c a.carried f in
      (
        r.1,
        >>=-done (push_cmsg c.level c.kind c.payload m) (λ q. done q.1) e refl,
        message-Agrees c m s r a p,
      )

  pub take_iov-told : (m : Msg) (s : Sent) → Agrees m s → (take_iov m).0 ≡ map some s.entries
  unfolding take_iov
  take_iov-told m s a = elim (Bool-cases (iov_capacity m == 0)) [
    | inl none_held ↦ rw none_held (sym (take-none m.msg_iovlen m.iovs none_held) ∙ a.listed)
    | inr held ↦ rw held a.listed
  ]

  take_iov-Agrees :
      (m : Msg) (s : Sent) → Agrees m s → Agrees (take_iov m).1 (record s { entries = [] })
  unfolding take_iov
  take_iov-Agrees m s a = elim (Bool-cases (iov_capacity m == 0)) [
    | inl none_held ↦ rw none_held (record {
      carried = a.carried;
      listed = take-none m.msg_iovlen m.iovs none_held;
      counted = ground (arith, none_held, a.within, a.iov_cap);
      within = a.within;
      iov_cap = a.iov_cap;
      ctrl_cap = a.ctrl_cap;
    })
    | inr held ↦ rw held (record {
      carried = record {
        based = a.carried.based;
        within = a.carried.within;
        aligned = a.carried.aligned;
        sized = a.carried.sized;
        held = a.carried.held;
      };
      listed = refl;
      counted = refl;
      within = omega arith;
      iov_cap = a.iov_cap;
      ctrl_cap = a.ctrl_cap;
    })
  ]

  pub edit-Agrees :
      (e : Edit) (m : Msg) (s : Sent)
      → Agrees m s
      → Ranged e
      → (q : Msg) × (edit e m ≡ done q) × Agrees q (tell iovs ctrl e s)
  unfolding edit tell push_iov push_cmsg push_scm_rights take_iov scm_rights fd_bytes
  edit-Agrees (entry v) m s a h = ((push_iov v m).1, refl, entry-Agrees v m s a)
  edit-Agrees (message c) m s a f = push-Agrees c m s a f
  edit-Agrees (rights fds) m s a h = push-Agrees (scm_rights fds) m s a (scm_rights-Fits fds h)
  edit-Agrees cleared m s a h = (
    clear m,
    refl,
    record {
      carried = record {
        based = a.carried.based;
        within = omega arith;
        aligned = refl;
        sized = refl;
        held = refl;
      };
      listed = refl;
      counted = refl;
      within = omega arith;
      iov_cap = a.iov_cap;
      ctrl_cap = a.ctrl_cap;
    },
  )
  edit-Agrees taken m s a h = ((take_iov m).1, refl, take_iov-Agrees m s a)
