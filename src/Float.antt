-- ===== src/Float.antt =====
-- Python's floats as the clocks and the back-off arithmetic use them: finite values are whole
-- milliseconds, beside the infinities and not-a-number, which `float(header)` and `json.loads` both
-- accept. Comparisons with not-a-number are false, and `max` and `min` keep their first argument
-- unless the second is strictly beyond it.
pub mod Laws
use swarm_kill_chain_medium.Prelude.{ℕ, Bool, true, false, if◌then◌else◌}
use swarm_kill_chain_medium.Prelude.Int.{ℤ, pos, pos_part, neg_part, sub_ℕ, ◌+ℤ◌, ltb_ℤ, leb_ℤ}

pub data Float : Type 0 where
  finite : ℤ → Float
  inf : Float
  minus_inf : Float
  nan : Float

-- A clock reading or a configured duration, in milliseconds.
abbrev pub ticks : ℕ → Float
ticks n = finite (pos n)

-- One second.
abbrev pub second : ℕ
second = 1000

unfoldable pub flt : Float → Float → Bool
flt (finite a) (finite b) = ltb_ℤ a b
flt (finite a) inf = true
flt minus_inf (finite b) = true
flt minus_inf inf = true
flt a b = false

unfoldable pub fle : Float → Float → Bool
fle (finite a) (finite b) = leb_ℤ a b
fle (finite a) inf = true
fle inf inf = true
fle minus_inf (finite b) = true
fle minus_inf inf = true
fle minus_inf minus_inf = true
fle a b = false

unfoldable pub fmax : Float → Float → Float
unfolding flt
fmax a b = if flt a b then b else a

unfoldable pub fmin : Float → Float → Float
unfolding flt
fmin a b = if flt b a then b else a

unfoldable pub fadd : Float → Float → Float
unfolding ◌+ℤ◌
fadd (finite a) (finite b) = finite (a +ℤ b)
fadd (finite a) inf = inf
fadd (finite a) minus_inf = minus_inf
fadd inf (finite b) = inf
fadd inf inf = inf
fadd minus_inf (finite b) = minus_inf
fadd minus_inf minus_inf = minus_inf
fadd a b = nan

unfoldable pub fneg : Float → Float
fneg (finite a) = finite (sub_ℕ (neg_part a) (pos_part a))
fneg inf = minus_inf
fneg minus_inf = inf
fneg nan = nan

unfoldable pub fsub : Float → Float → Float
unfolding fadd fneg
fsub a b = fadd a (fneg b)
