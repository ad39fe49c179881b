-- ===== src/Buffers/Pools/Build/Inside.antt =====
-- The parts of a `build_pools` that returns, and that its slabs follow one another.
use conrt.Base.{
  length, ℕ, zero, suc, false, ◌+◌, ◌-◌, ◌*◌, ◌^◌, ◌≤◌, ◌<◌, Bool, true, List, ◌++◌, map, Option,
  some, ◌≡◌, refl, sym, ap, subst, ◌∙◌, arith, leb, leb→le, done, expect, assert-elim, >>=-elim,
  expect-eq-done, done-injective,
}
use conrt.Buffers.Classes.{
  SizeClass, SizeClassLayout, div_ceil, layout_classes, is_power_of_two, is_power_of,
}
use conrt.Buffers.Classes.Layout.{Chain, layout_classes-Chain, div_ceil-bounds}
use conrt.Buffers.Provided.{ProvidedSlab}
use conrt.Buffers.Classes.Counts.{Counted, layout_classes-Counted}
use conrt.Buffers.Pools
use conrt.Buffers.Pools.{Pools, Pool, fixed_slab, provided_slab}
use conrt.Buffers.Pools.Build.{
  last_total, widest, class_of, provided_slabs, fixed_slabs, register_all, build_pools,
}
use conrt.Buffers.Pools.Build.Regions.{
  region, regions, Laid, Laid-append, Laid-weaken, Placed-Laid, provided_slabs-Placed,
  fixed_slabs-Placed, new-slabs,
}

-- What the pools are made from.
pub record Parts (p : Pools) : Type 0 where
  pub provided_layout : List SizeClassLayout
  pub fixed_layout : List SizeClassLayout
  pub provided_total : ℕ
  pub fixed_total : ℕ
  pub fixed_start : ℕ
  pub provided_chain : Chain 0 provided_layout
  pub fixed_chain : Chain 0 fixed_layout
  pub provided_end : last_total provided_layout ≡ some provided_total
  pub fixed_end : last_total fixed_layout ≡ some fixed_total
  pub after : provided_total ≤ fixed_start
  pub extent : p.slab_layout ≡ fixed_start + fixed_total
  pub limit : p.slab_layout < 2 ^ 32
  pub fixed_few : length fixed_layout ≤ 128
  pub fixed_counts : Counted fixed_layout
  pub fixed_classes : p.fixed_pool.classes ≡ map class_of fixed_layout
  pub provided_made : provided_slabs p.slab 0 provided_layout ≡ done p.provided_pool.slabs
  pub fixed_made : fixed_slabs (p.slab + fixed_start) 0 fixed_layout ≡ done p.fixed_pool.slabs

power_positive : (n : ℕ) → is_power_of_two n ≡ true → 0 < n
unfolding is_power_of_two is_power_of
power_positive zero h = absurd (ground arith)
power_positive (suc n) h = omega arith

module _ (accepts : ProvidedSlab → Bool) (slab : Option ℕ) (registered : Bool)
    (provided_spec fixed_spec : List SizeClass) where
  pub build_pools-Parts :
      (p : Pools) → build_pools accepts slab registered provided_spec fixed_spec ≡ done p → Parts p
  unfolding build_pools
  build_pools-Parts p h = >>=-elim (layout_classes provided_spec true) _ h λ pl laid h1.
      >>=-elim (layout_classes fixed_spec false) _ h1 λ fl laid' h2.
        >>=-elim (expect (last_total pl)) _ h2 λ pt ended h3.
          >>=-elim (expect (widest (provided_spec ++ fixed_spec))) _ h3 λ align wide h4.
            assert-elim (is_power_of_two align) _ h4 λ power h5.
              >>=-elim (expect (last_total fl)) _ h5 λ ft ended' h6.
                assert-elim (leb (div_ceil pt align * align + ft) (2 ^ 32 - 1)) _ h6 λ small h7.
                  >>=-elim (expect slab) _ h7 λ base at h8.
                    >>=-elim (provided_slabs base 0 pl) _ h8 λ ps made h9.
                      >>=-elim (Pools.new (map class_of pl) ps) _ h9 λ pp pooled h10.
                        assert-elim (register_all accepts ps) _ h10 λ taken h11.
                          >>=-elim (fixed_slabs (base + div_ceil pt align * align) 0 fl) _ h11
                            λ fs made' h12.
                              >>=-elim (Pools.new (map class_of fl) fs) _ h12 λ fp pooled' h13.
                                assert-elim registered _ h13 λ _ h14.
                                  subst Parts (done-injective h14) (record {
                                    provided_layout = pl;
                                    fixed_layout = fl;
                                    provided_total = pt;
                                    fixed_total = ft;
                                    fixed_start = div_ceil pt align * align;
                                    provided_chain =
                                        layout_classes-Chain provided_spec true pl laid;
                                    fixed_chain = layout_classes-Chain fixed_spec false fl laid';
                                    provided_end = expect-eq-done (last_total pl) ended;
                                    fixed_end = expect-eq-done (last_total fl) ended';
                                    after =
                                        (div_ceil-bounds pt align (power_positive align power)).0;
                                    extent = refl;
                                    limit = omega (arith, leb→le _ _ small);
                                    fixed_few =
                                        (layout_classes-Counted fixed_spec false fl laid').0;
                                    fixed_counts =
                                        (layout_classes-Counted fixed_spec false fl laid').1;
                                    fixed_classes = (new-slabs (map class_of fl) fs fp pooled').0;
                                    provided_made =
                                        made
                                        ∙ ap done
                                            (sym (new-slabs (map class_of pl) ps pp pooled).1);
                                    fixed_made =
                                        made'
                                        ∙ ap done
                                            (sym (new-slabs (map class_of fl) fs fp pooled').1);
                                  })

-- The slabs of built pools follow one another inside the allocation, the provided ones first.
pub Parts-Laid : (p : Pools) → Parts p → Laid p.slab (p.slab + p.slab_layout) (regions p)
Parts-Laid p b =
    let provided =
      Placed-Laid b.provided_layout _ p.slab 0 b.provided_total b.provided_chain b.provided_end
        (provided_slabs-Placed p.slab 0 b.provided_layout _ b.provided_made) in
    let fixed =
      Placed-Laid b.fixed_layout _ (p.slab + b.fixed_start) 0 b.fixed_total b.fixed_chain
        b.fixed_end (fixed_slabs-Placed (p.slab + b.fixed_start) 0 b.fixed_layout _ b.fixed_made) in
    let provided_regions = map (region provided_slab) p.provided_pool.slabs in
    let fixed_regions = map (region fixed_slab) p.fixed_pool.slabs in
    let start = p.slab + b.fixed_start in
    Laid-append provided_regions fixed_regions p.slab (p.slab + b.provided_total) start
      (p.slab + p.slab_layout)
      (Laid-weaken provided_regions p.slab (p.slab + 0) (p.slab + b.provided_total) (omega arith)
        provided)
      (omega (arith, b.after))
      (subst (λ high. Laid start high fixed_regions) {x = start + b.fixed_total}
        {y = p.slab + p.slab_layout} (omega (arith, b.extent))
        (Laid-weaken fixed_regions start (start + 0) (start + b.fixed_total) (omega arith) fixed))
