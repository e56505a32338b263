-- ===== src/Prelude/Texts.antt =====
-- Texts as lists of character codes, and `===` on them.
use Prim.Native.Nat.{ℕ}
use mathlib.Core.Path.{◌≡◌, refl, ap}
use mathlib.Core.Logic.{◌≢◌}
use mathlib.Core.Bool.{Bool, true, false, ◌&&◌}
use mathlib.Core.List.{List, [], ◌∷◌}
use native.Mathlib.Omega.{arith}
use ocean_chat_private.Prelude.Tests.{◌==◌}

unfoldable pub same_text : List ℕ → List ℕ → Bool
same_text [] [] = true
same_text [] (d ∷ ds) = false
same_text (c ∷ cs) [] = false
same_text (c ∷ cs) (d ∷ ds) = let rest = same_text cs ds in (c == d) && rest

pub same_text_refl : (t : List ℕ) → same_text t t ≡ true
unfolding same_text
same_text_refl [] = refl
same_text_refl (c ∷ cs) = ground (arith, same_text_refl cs)

pub same_text_sound : (s t : List ℕ) → same_text s t ≡ true → s ≡ t
unfolding same_text
same_text_sound [] [] h = refl
same_text_sound [] (d ∷ ds) h = cc
same_text_sound (c ∷ cs) [] h = cc
same_text_sound (c ∷ cs) (d ∷ ds) h = ground (arith, same_text_sound cs ds)

pub same_text_complete : (s t : List ℕ) → same_text s t ≡ false → s ≢ t
same_text_complete s t h e = ground (arith, same_text_refl t, ap (λ x. same_text x t) e)
