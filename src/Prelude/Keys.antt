-- ===== src/Prelude/Keys.antt =====
-- Decidable equality of texts.
use Prim.Native.String.{String}
use mathlib.Core.Path.{◌≡◌, refl}
use mathlib.Core.Logic.{◌≢◌}
use mathlib.Core.Bool.{Bool, true, false}
use text.Mathlib.Text.{◌==◌}
use text.Mathlib.TextEquality.{eq_iff}
use native.Mathlib.Omega.{arith}

String_decide : (s t : String) (b : Bool) → (s == t) ≡ b → Dec (s ≡ t)
String_decide s t true e = yes ((eq_iff s t).0 e)
String_decide s t false e = no (λ p. ground (arith, eq_iff s t))

unfoldable pub String_discrete : Discrete String
unfolding String_decide
String_discrete s t = String_decide s t (s == t) refl

pub text_ne : (s t : String) → (s == t) ≡ false → s ≢ t
text_ne s t e p = ground (arith, eq_iff s t)
