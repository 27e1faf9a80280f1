-- ===== src/Float/Laws.antt =====
-- The comparison of floats, not-a-number included.
use swarm_kill_chain_medium.Prelude.{◌≡◌, refl, true, false, arith}
use swarm_kill_chain_medium.Prelude.Int.{ℤ, ltb_ℤ}
use swarm_kill_chain_medium.Float.{Float, finite, inf, minus_inf, nan, flt}

pub flt_asym : (v w : Float) → flt v w ≡ true → flt w v ≡ false
unfolding flt
flt_asym (finite a) (finite b) h = ground (arith, h)
flt_asym (finite a) inf h = refl
flt_asym (finite a) minus_inf h = absurd (cc)
flt_asym (finite a) nan h = refl
flt_asym minus_inf (finite b) h = refl
flt_asym minus_inf inf h = refl
flt_asym minus_inf minus_inf h = refl
flt_asym minus_inf nan h = refl
flt_asym inf w h = absurd (cc)
flt_asym nan w h = absurd (cc)

ltb_chain : (a b c : ℤ) → ltb_ℤ a b ≡ true → ltb_ℤ c b ≡ false → ltb_ℤ c a ≡ false
ltb_chain a b c h k = ground (arith, h, k)

pub flt_chain : (v w x : Float) → flt v w ≡ true → flt x w ≡ false → flt x v ≡ false
unfolding flt
flt_chain (finite a) (finite b) (finite c) h k = ltb_chain a b c h k
flt_chain (finite a) (finite b) inf h k = refl
flt_chain (finite a) (finite b) minus_inf h k = absurd (cc)
flt_chain (finite a) (finite b) nan h k = refl
flt_chain (finite a) inf (finite c) h k = absurd (cc)
flt_chain (finite a) inf inf h k = refl
flt_chain (finite a) inf minus_inf h k = absurd (cc)
flt_chain (finite a) inf nan h k = refl
flt_chain minus_inf (finite b) (finite c) h k = refl
flt_chain minus_inf (finite b) inf h k = refl
flt_chain minus_inf (finite b) minus_inf h k = refl
flt_chain minus_inf (finite b) nan h k = refl
flt_chain minus_inf inf (finite c) h k = refl
flt_chain minus_inf inf inf h k = refl
flt_chain minus_inf inf minus_inf h k = refl
flt_chain minus_inf inf nan h k = refl
flt_chain (finite a) minus_inf x h k = absurd (cc)
flt_chain (finite a) nan x h k = absurd (cc)
flt_chain inf w x h k = absurd (cc)
flt_chain nan w x h k = absurd (cc)
flt_chain minus_inf minus_inf x h k = absurd (cc)
flt_chain minus_inf nan x h k = absurd (cc)
