-- ===== src/Intel/Unseen.antt =====
-- A device that is not behind a port sees nothing of what goes on at the ports.
use umbral_os.Base.{ℕ, ◌≡◌, refl, ◌∙◌, List, List-cases, inl, inr}
use umbral_os.Base.Word.{u8}
use umbral_os.Base.Leaves.{Leaves, Leaves-bind, Leaves-then}
use umbral_os.Base.Action.{Action, pure, ◌>>◌}
use umbral_os.Intel.{Cpu, Event, record_event, reply, inb, outb}
use umbral_os.Intel.Device.{after_trace, after_trace-snoc}

pub record IgnoresPorts {D : Type 0} (step : Event → D → D) : Type 0 where
  pub ignores_in : (port v : ℕ) (d : D) → step (Event.in_port port v) d ≡ d
  pub ignores_out : (port v : ℕ) (d : D) → step (Event.out_port port v) d ≡ d
  pub ignores_terminal : (bytes : List ℕ) (d : D) → step (Event.terminal bytes) d ≡ d

-- The device after what the kernel did so far.
abbrev pub seen : {D : Type 0} → (Event → D → D) → D → Cpu → D
seen step d c = after_trace step c.trace d

module _ {D : Type 0} (step : Event → D → D) (d : D) where
  abbrev pub Unseen : {A : Type 0} → Action Cpu A → Type 0
  Unseen m = Leaves (seen step d) m

  pub event-Unseen : (e : Event) → ((d : D) → step e d ≡ d) → Unseen (record_event e)
  event-Unseen e h s = after_trace-snoc step s.trace e d ∙ h (after_trace step s.trace d)

  pub reply-Unseen : Unseen reply
  reply-Unseen s = elim (List-cases s.replies) [
    | inl none_left ↦ rw none_left refl
    | inr (v, vs, next) ↦ rw next refl
  ]

  pub inb-Unseen : IgnoresPorts step → (port : ℕ) → Unseen (inb port)
  unfolding inb
  inb-Unseen ignores port =
      Leaves-bind (seen step d) reply (λ v. record_event (Event.in_port port (u8 v)) >> pure (u8 v))
        reply-Unseen
        (λ v.
          Leaves-then (seen step d) (record_event (Event.in_port port (u8 v))) (pure (u8 v))
            (event-Unseen (Event.in_port port (u8 v)) (ignores.ignores_in port (u8 v))) (λ s. refl))

  pub outb-Unseen : IgnoresPorts step → (port v : ℕ) → Unseen (outb port v)
  unfolding outb
  outb-Unseen ignores port v =
      event-Unseen (Event.out_port port (u8 v)) (ignores.ignores_out port (u8 v))
