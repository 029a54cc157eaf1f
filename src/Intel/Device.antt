-- ===== src/Intel/Device.antt =====
-- A device as the accesses that it is given change it.
use umbral_os.Base.{◌≡◌, refl, List, [], ◌∷◌, ◌++◌}
use umbral_os.Intel.{Event}

module _ {D : Type 0} (step : Event → D → D) where
  abbrev pub after_trace : List Event → D → D
  after_trace [] d = d
  after_trace (e ∷ es) d = after_trace es (step e d)

  pub after_trace-snoc :
      (es : List Event) (e : Event) (d : D)
      → after_trace (es ++ (e ∷ [])) d ≡ step e (after_trace es d)
  after_trace-snoc [] e d = refl
  after_trace-snoc (f ∷ es) e d = after_trace-snoc es e (step f d)
