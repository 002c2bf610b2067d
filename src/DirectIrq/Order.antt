-- ===== src/DirectIrq/Order.antt =====
-- The order of the set-up and the interrupts of app/demos/direct_irq/src/ezh_app.c.
use zephyr_start.Base.{
  Bool, List, [], ap, arith, false, inl, inr, not, refl, sym, true, ◌&&◌, ◌||◌, ◌∙◌, ◌∷◌, ◌≡◌, ◌≢◌,
  ◌⊎◌,
}
use zephyr_start.DirectIrq.Defs.{
  App, Chip, IsChip, Seen, SetupCall, after_connected, after_enabled, after_flag, after_running,
  begins, clear_external_flag, ezh_start_app, irq_enable, smartdma_irq_handler, call, interrupt,
  work, goes_on, Step, Reach,
}

-- Whether the calls that are left keep the interrupt away until the end, by what is seen of the chip.
abbrev orderly : List SetupCall → Bool → Bool → Bool → Bool
orderly [] e h b = not e || (h && b)
orderly (x ∷ xs) e h b =
    not e && orderly xs (after_enabled x e) (after_connected x h) (after_running x b)

start_orderly : (h b : Bool) → orderly ezh_start_app false h b ≡ true
start_orderly h b = refl

irq_enable≢clear : irq_enable ≢ clear_external_flag
irq_enable≢clear e = cc

enabled_last :
    (xs : List SetupCall) {e h b : Bool}
    → orderly xs e h b ≡ true
    → e ≡ true
    → (xs ≡ []) × (h ≡ true) × (b ≡ true)
enabled_last [] o on = (refl, ground arith, ground arith)
enabled_last (x ∷ xs) o on = absurd (ground arith)

after_flag-zero : (x : SetupCall) → after_flag x 0 ≡ 0
after_flag-zero x = ground arith

abbrev first_of : List SetupCall → SetupCall
first_of [] = irq_enable
first_of (x ∷ xs) = x

module _ {ℓ} {W : Type ℓ} (c : Chip W) (s : Seen W) (k : IsChip c s) where
  record IsOrderly (xs : List SetupCall) (a : App W) : Type 0 where
    calls : orderly xs (s.enabled a.chip) (s.connected a.chip) (s.running a.chip) ≡ true
    lowered : (xs ≡ ezh_start_app) ⊎ (s.flag a.chip ≡ 0)

  Step-IsOrderly :
      {xs ys : List SetupCall} {a b : App W} → Step c s xs a ys b → IsOrderly xs a → IsOrderly ys b
  unfolding smartdma_irq_handler
  Step-IsOrderly (call {x} {xs} {a}) o = record {
    calls =
        rw (k.call_enabled x a.chip, k.call_connected x a.chip, k.call_running x a.chip)
          (ground (arith, o.calls));
    lowered = inr (elim o.lowered [
      | inl whole ↦
          let first : x ≡ clear_external_flag = ap first_of whole in
          rw (k.call_flag x a.chip, first) refl
      | inr down ↦ rw (k.call_flag x a.chip, down) (after_flag-zero x)
    ]);
  }
  Step-IsOrderly (interrupt {xs} {a} e) o =
      let raised = c.set_external_flag 1 a.chip in
      record {
        calls =
            rw (k.set_enabled, k.set_connected, k.set_running)
              (rw (k.set_enabled, k.set_connected, k.set_running) o.calls);
        lowered = inr (k.set_flag 0 raised);
      }
  Step-IsOrderly (work {xs} {a} w keeps) o = record {
    calls = rw (keeps.keeps_enabled, keeps.keeps_connected, keeps.keeps_running) o.calls;
    lowered = rw (keeps.keeps_flag) o.lowered;
  }

  Reach-IsOrderly :
      {first a : App W} {xs : List SetupCall}
      → s.enabled first.chip ≡ false
      → Reach c s first xs a
      → IsOrderly xs a
  Reach-IsOrderly {first} off begins = record {
    calls = rw off (start_orderly (s.connected first.chip) (s.running first.chip));
    lowered = inl refl;
  }
  Reach-IsOrderly off (goes_on steps step) = Step-IsOrderly step (Reach-IsOrderly off steps)

  -- Where the interrupt is disabled at the start, it can come only after the whole set-up, with its
  -- handler connected, the coprocessor running the program, and the flag for the coprocessor down.
  pub Reach-Order :
      {first a : App W} {xs : List SetupCall}
      → s.enabled first.chip ≡ false
      → Reach c s first xs a
      → s.enabled a.chip ≡ true
      → (xs ≡ []) × (s.connected a.chip ≡ true) × (s.running a.chip ≡ true) × (s.flag a.chip ≡ 0)
  Reach-Order {xs = xs} off steps on =
      let o = Reach-IsOrderly off steps in
      let (ended, connected, running) = enabled_last xs o.calls on in
      (
        ended,
        connected,
        running,
        elim o.lowered [
          | inl whole ↦ absurd (irq_enable≢clear (ap first_of (sym ended ∙ whole)))
          | inr down ↦ down
        ],
      )
