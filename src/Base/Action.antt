-- ===== src/Base/Action.antt =====
-- A call that reads and writes a state and may not return.
use mathlib.Core.Path.{◌≡◌, refl}
use mathlib.Core.Bool.{Bool, true, false}
use mathlib.Core.Option.{Option, none, some}
use umbral_os.Base.Panics.{Panic}

-- What stops a run without a panic: an access outside an object and a variadic argument of another
-- type (undefined in C), a device that gives no further answer while the code polls it, a loop
-- whose index no longer moves, and the loop of `halt`, which the processor never leaves.
pub data Fault : Type 0 where
  out_of_bounds bad_argument no_reply no_end halted : Fault

pub data Outcome (S A : Type 0) : Type 0 where
  ok : A → S → Outcome S A
  panicked : Panic → S → Outcome S A
  faulted : Fault → S → Outcome S A

abbrev pub Action : Type 0 → Type 0 → Type 0
Action S A = S → Outcome S A

module _ {S A : Type 0} where
  abbrev pub pure : A → Action S A
  pure a s = ok a s

  abbrev pub panic : Panic → Action S A
  panic p s = panicked p s

  abbrev pub fault : Fault → Action S A
  fault f s = faulted f s

  abbrev pub gets : (S → A) → Action S A
  gets f s = ok (f s) s

  -- A read of an object that may lie outside.
  abbrev pub or_fault : Option A → Action S A
  or_fault none = fault out_of_bounds
  or_fault (some a) = pure a

abbrev pub modify : {S : Type 0} → (S → S) → Action S (Unit {0})
modify f s = ok tt (f s)

-- `if (test) panic(...);`
abbrev pub panic_if : {S : Type 0} → Bool → Panic → Action S (Unit {0})
panic_if true p s = panicked p s
panic_if false p s = ok tt s

abbrev pub bind_outcome : {S A B : Type 0} → Outcome S A → (A → Action S B) → Outcome S B
bind_outcome (ok a s) f = f a s
bind_outcome (panicked p s) f = panicked p s
bind_outcome (faulted e s) f = faulted e s

infixl 5 ◌>>=◌ ◌>>◌
abbrev pub ◌>>=◌ : {S A B : Type 0} → Action S A → (A → Action S B) → Action S B
◌>>=◌ m f s = bind_outcome (m s) f

abbrev pub ◌>>◌ : {S B : Type 0} → Action S (Unit {0}) → Action S B → Action S B
m >> k = m >>= λ _. k

-- A call by a component that holds the callee's state as a part of its own.
abbrev pub within_outcome : {S T A : Type 0} → (S → T) → Outcome S A → Outcome T A
within_outcome put (ok a s) = ok a (put s)
within_outcome put (panicked p s) = panicked p (put s)
within_outcome put (faulted e s) = faulted e (put s)

abbrev pub within : {S T A : Type 0} → (T → S) → (S → T → T) → Action S A → Action T A
within get put m t = within_outcome (λ s. put s t) (m (get t))

-- Inversion of a call that returned, for proofs where the parts stay shut.
pub bind-ok :
    {S A B : Type 0} (r : Outcome S A) (f : A → Action S B) {b : B} {s : S}
    → bind_outcome r f ≡ ok b s
    → (a : A) × (t : S) × (r ≡ ok a t) × (f a t ≡ ok b s)
bind-ok (ok a t) f h = (a, t, refl, h)
bind-ok (panicked p t) f h = cc
bind-ok (faulted e t) f h = cc
