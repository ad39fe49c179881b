-- ===== src/Buffers/Classes/Counts.antt =====
-- How many classes and slots `layout_classes` of classes.rs lets through.
use conrt.Base.{
  ℕ, suc, ◌-◌, ◌^◌, ◌≤◌, ◌<◌, Bool, not, List, [], ◌∷◌, ◌≡◌, refl, ap, subst, ◌∙◌, arith, length,
  All, ltb, leb, leb→le, done, assert-elim, >>=-elim, done-injective,
}
use conrt.Buffers.Classes.{
  SizeClass, SizeClassLayout, layout_at, check_class, layout_from, layout_classes, sort_by_size,
  insert_by_size, strictly_increasing, is_power_of_two, is_empty, bid_local_mask,
}

-- Few enough classes, of few enough slots, for the fields of a `bid`.
abbrev pub Counted : List SizeClassLayout → Type 0
Counted = All (λ l. l.count < 2 ^ 24)

length-insert_by_size :
    (c : SizeClass) (cs : List SizeClass) → length (insert_by_size c cs) ≡ suc (length cs)
unfolding insert_by_size
length-insert_by_size c [] = refl
length-insert_by_size c (d ∷ ds) = ground (arith, length-insert_by_size c ds)

length-sort_by_size : (cs : List SizeClass) → length (sort_by_size cs) ≡ length cs
unfolding sort_by_size
length-sort_by_size [] = refl
length-sort_by_size (c ∷ cs) =
    length-insert_by_size c (sort_by_size cs) ∙ ap suc (length-sort_by_size cs)

check_class-count : (p : Bool) (c : SizeClass) → check_class p c ≡ done tt → c.count < 2 ^ 24
unfolding check_class
check_class-count p c h = assert-elim (ltb 0 c.size) _ h λ _ h1.
    assert-elim (is_power_of_two c.size) _ h1 λ _ h2. assert-elim (ltb 0 c.count) _ h2 λ _ h3.
      assert-elim (leb c.count bid_local_mask) _ h3
        λ few _. omega (arith, leb→le c.count bid_local_mask few)

layout_from-Counted :
    (p : Bool) (base : ℕ) (cs : List SizeClass) (ls : List SizeClassLayout)
    → layout_from p base cs ≡ done ls
    → (length ls ≡ length cs) × Counted ls
unfolding layout_from layout_at
layout_from-Counted p base [] ls h =
    subst (λ x. (length x ≡ 0) × Counted x) (done-injective h) (refl, tt)
layout_from-Counted p base (c ∷ cs) ls h = >>=-elim (check_class p c) _ h λ u checked h1.
    assert-elim (leb (layout_at base c).total (2 ^ 32 - 1)) _ h1 λ _ h2.
      >>=-elim (layout_from p (layout_at base c).total cs) _ h2 λ rest e h3.
        let (same, few) = layout_from-Counted p (layout_at base c).total cs rest e in
        subst (λ x. (length x ≡ suc (length cs)) × Counted x) (done-injective h3)
          (ap suc same, (check_class-count p c checked, few))

pub layout_classes-Counted :
    (cs : List SizeClass) (p : Bool) (ls : List SizeClassLayout)
    → layout_classes cs p ≡ done ls
    → (length ls ≤ 128) × Counted ls
unfolding layout_classes
layout_classes-Counted cs p ls h = assert-elim (not (is_empty cs)) _ h λ _ h1.
    assert-elim (leb (length cs) 128) _ h1 λ few h2.
      assert-elim (strictly_increasing (sort_by_size cs)) _ h2 λ _ h3.
        let (same, counted) = layout_from-Counted p 0 (sort_by_size cs) ls h3 in
        (omega (arith, same, length-sort_by_size cs, leb→le (length cs) 128 few), counted)
