-- ===== src/DirectIrq/Defs.antt =====
-- ezh__start_app and smartdma_irq_handler of app/demos/direct_irq/src/ezh_app.c, and what runs beside
-- them.
use zephyr_start.Base.{Bool, List, [], false, true, ℕ, ◌∷◌, ◌≡◌}

-- The calls of ezh__start_app.
pub data SetupCall : Type 0 where
  clear_external_flag : SetupCall
  irq_disable : SetupCall
  irq_direct_connect : SetupCall
  enable_clock_port2 : SetupCall
  set_pin_mux : SetupCall
  reset_smart_dma : SetupCall
  enable_clock_smartdma : SetupCall
  bunny_build : SetupCall
  ezh_init : SetupCall
  ezh_boot : SetupCall
  irq_enable : SetupCall

-- ezh__start_app. Its two assignments give ezh_init its parameters.
abbrev pub ezh_start_app : List SetupCall
ezh_start_app =
    clear_external_flag ∷ irq_disable ∷ irq_direct_connect ∷ enable_clock_port2 ∷ set_pin_mux
    ∷ reset_smart_dma ∷ enable_clock_smartdma ∷ bunny_build ∷ ezh_init ∷ ezh_boot ∷ irq_enable ∷ []

-- The chip: what a call does to it, the flag for the coprocessor, and the register that the
-- coprocessor writes.
pub record Chip {ℓ} (W : Type ℓ) : Type ℓ where
  pub call_chip : SetupCall → W → W
  pub set_external_flag : ℕ → W → W
  pub ezh2arm : W → ℕ

-- The chip, and the variable of the file.
pub record App {ℓ} (W : Type ℓ) : Type ℓ where
  pub chip : W
  pub test_val : ℕ

module _ {ℓ} {W : Type ℓ} (c : Chip W) where
  unfoldable pub smartdma_irq_handler : App W → App W
  smartdma_irq_handler a =
      let raised = c.set_external_flag 1 a.chip in
      record { chip = c.set_external_flag 0 raised; test_val = c.ezh2arm raised }

-- What can be seen of the chip: whether the interrupt is enabled, which handler it would run, whether
-- the coprocessor runs the program, and its flag.
pub record Seen {ℓ} (W : Type ℓ) : Type ℓ where
  pub enabled : W → Bool
  pub connected : W → Bool
  pub running : W → Bool
  pub flag : W → ℕ

abbrev pub after_enabled : SetupCall → Bool → Bool
after_enabled irq_disable e = false
after_enabled irq_enable e = true
after_enabled _ e = e

abbrev pub after_connected : SetupCall → Bool → Bool
after_connected irq_direct_connect h = true
after_connected _ h = h

abbrev pub after_running : SetupCall → Bool → Bool
after_running reset_smart_dma b = false
after_running ezh_boot b = true
after_running _ b = b

abbrev pub after_flag : SetupCall → ℕ → ℕ
after_flag clear_external_flag n = 0
after_flag _ n = n

-- As the kernel and the vendor's library document their calls.
pub record IsChip {ℓ} {W : Type ℓ} (c : Chip W) (s : Seen W) : Type ℓ where
  pub call_enabled :
      (x : SetupCall) (w : W) → s.enabled (c.call_chip x w) ≡ after_enabled x (s.enabled w)
  pub call_connected :
      (x : SetupCall) (w : W) → s.connected (c.call_chip x w) ≡ after_connected x (s.connected w)
  pub call_running :
      (x : SetupCall) (w : W) → s.running (c.call_chip x w) ≡ after_running x (s.running w)
  pub call_flag : (x : SetupCall) (w : W) → s.flag (c.call_chip x w) ≡ after_flag x (s.flag w)
  pub set_enabled : (n : ℕ) (w : W) → s.enabled (c.set_external_flag n w) ≡ s.enabled w
  pub set_connected : (n : ℕ) (w : W) → s.connected (c.set_external_flag n w) ≡ s.connected w
  pub set_running : (n : ℕ) (w : W) → s.running (c.set_external_flag n w) ≡ s.running w
  pub set_flag : (n : ℕ) (w : W) → s.flag (c.set_external_flag n w) ≡ n

-- The coprocessor at work: it changes nothing of what is seen here.
pub record Works {ℓ} {W : Type ℓ} (s : Seen W) (before after : W) : Type ℓ where
  pub keeps_enabled : s.enabled after ≡ s.enabled before
  pub keeps_connected : s.connected after ≡ s.connected before
  pub keeps_running : s.running after ≡ s.running before
  pub keeps_flag : s.flag after ≡ s.flag before

module _ {ℓ} {W : Type ℓ} (c : Chip W) (s : Seen W) where
  -- The thread makes its next call, the interrupt comes between two of them, where it is enabled, or
  -- the coprocessor works. The list holds the calls that are left.
  pub data Step : List SetupCall → App W → List SetupCall → App W → Type ℓ where
    call :
        {x : SetupCall} {xs : List SetupCall} {a : App W}
        → Step (x ∷ xs) a xs (record a { chip = c.call_chip x a.chip })
    interrupt :
        {xs : List SetupCall} {a : App W}
        → s.enabled a.chip ≡ true
        → Step xs a xs (smartdma_irq_handler c a)
    work :
        {xs : List SetupCall} {a : App W} (w : W)
        → Works s a.chip w
        → Step xs a xs (record a { chip = w })

  pub data Reach (first : App W) : List SetupCall → App W → Type ℓ where
    begins : Reach first ezh_start_app first
    goes_on :
        {xs ys : List SetupCall} {a b : App W}
        → Reach first xs a
        → Step xs a ys b
        → Reach first ys b
