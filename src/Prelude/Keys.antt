-- ===== src/Prelude/Keys.antt =====
-- Equality tests as an interface, and its instances for the two kinds of text.
use Prim.Native.String.{String}
use mathlib.Core.Path.{◌≡◌, subst}
use mathlib.Core.Logic.{◌↔◌}
use mathlib.Core.Bool.{Bool, true}
use text.Mathlib.Text.{◌==◌ as str_eq}
use text.Mathlib.TextEquality.{eq_iff}
use swarm_kill_chain_medium.Prelude.Text.{Text, same, same_refl, same→eq}

pub record Equality {ℓ} (A : Type ℓ) : Type ℓ where
  pub equal : A → A → Bool
  pub equal_iff : (a b : A) → (equal a b ≡ true) ↔ (a ≡ b)

pub same_iff : (s t : Text) → (same s t ≡ true) ↔ (s ≡ t)
same_iff s t = (same→eq s t, λ e. subst (λ u. same s u ≡ true) e (same_refl s))

instance abbrev pub string_equality : Equality String
string_equality = record { equal = str_eq; equal_iff = eq_iff }

instance abbrev pub text_equality : Equality Text
text_equality = record { equal = same; equal_iff = same_iff }
