-- ===== src/Base/Leaves.antt =====
-- Calls that leave a part of the state as it is, however they end.
use mathlib.Core.Path.{◌≡◌, refl, ◌∙◌}
use mathlib.Core.Bool.{Bool, true, false}
use umbral_os.Base.Tests.{if◌then◌else◌}
use umbral_os.Base.Action.{Action, Outcome, ok, panicked, faulted, bind_outcome, ◌>>=◌, ◌>>◌}

-- The state at the end.
abbrev pub final : {S A : Type 0} → Outcome S A → S
final (ok a s) = s
final (panicked p s) = s
final (faulted e s) = s

abbrev pub Leaves : {S V A : Type 0} → (S → V) → Action S A → Type 0
Leaves view m = (s : _) → view (final (m s)) ≡ view s

module _ {S V A B : Type 0} (view : S → V) where
  bind_final :
      (r : Outcome S A) (f : A → Action S B)
      → ((a : A) → Leaves view (f a))
      → view (final (bind_outcome r f)) ≡ view (final r)
  bind_final (ok a s) f h = h a s
  bind_final (panicked p s) f h = refl
  bind_final (faulted e s) f h = refl

  pub Leaves-bind :
      (m : Action S A) (f : A → Action S B)
      → Leaves view m
      → ((a : A) → Leaves view (f a))
      → Leaves view (m >>= f)
  Leaves-bind m f h k s = bind_final (m s) f k ∙ h s

module _ {S V : Type 0} (view : S → V) where
  pub Leaves-then :
      {B : Type 0} (m : Action S (Unit {0})) (k : Action S B)
      → Leaves view m
      → Leaves view k
      → Leaves view (m >> k)
  Leaves-then m k h h' = Leaves-bind view m (λ _. k) h (λ _. h')

  pub Leaves-if :
      {A : Type 0} (b : Bool) (m k : Action S A)
      → Leaves view m
      → Leaves view k
      → Leaves view (if b then m else k)
  Leaves-if true m k h h' = h
  Leaves-if false m k h h' = h'
