-- ===== src/Counter/Led.antt =====
-- What `change_led_work_handler` of app/demos/can_counter/src/main.c leaves.
use zephyr_start.Base.{
  Bool, List, [], ap, arith, false, if◌then◌else◌, is_zero, last_or, length, refl, some, suc, true,
  zero, ℕ, ◌&&◌, ◌<◌, ◌∙◌, ◌∷◌, ◌≡◌,
}
use zephyr_start.Counter.Defs.{
  change_led, change_led_loop, change_led_work_handler, is_set, Board, Frame,
}

-- Zephyr's documented message queue, which holds the frames `pending`, and the level of the pin; no
-- frame comes in meanwhile.
pub record IsQueue {W : Type 0} (b : Board W) (pending : W → List Frame) (pin : W → Bool)
    : Type 0 where
  pub get_ret :
      (w : W) (f : Frame) (fs : List Frame) → pending w ≡ f ∷ fs → is_zero (b.k_msgq_get w).0 ≡ true
  pub get_frame :
      (w : W) (f : Frame) (fs : List Frame) → pending w ≡ f ∷ fs → (b.k_msgq_get w).1 ≡ f
  pub get_rest :
      (w : W) (f : Frame) (fs : List Frame) → pending w ≡ f ∷ fs → pending (b.k_msgq_get w).2 ≡ fs
  pub get_none : (w : W) → pending w ≡ [] → is_zero (b.k_msgq_get w).0 ≡ false
  pub get_none_pending : (w : W) → pending w ≡ [] → pending (b.k_msgq_get w).2 ≡ []
  pub get_pin : (w : W) → pin (b.k_msgq_get w).2 ≡ pin w
  pub set_pin : (v : Bool) (w : W) → pin (b.gpio_pin_set v w) ≡ v
  pub set_pending : (v : Bool) (w : W) → pending (b.gpio_pin_set v w) ≡ pending w
  pub submit_pin : (w : W) → pin (b.k_work_poll_submit w).1 ≡ pin w
  pub submit_pending : (w : W) → pending (b.k_work_poll_submit w).1 ≡ pending w

module _ {W : Type 0} (b : Board W) (accept_rtr : Bool) where
  -- The levels that the frames ask for, in order; a remote frame asks for none.
  abbrev pub commands : List Frame → List Bool
  commands [] = []
  commands (f ∷ fs) =
      if accept_rtr && f.rtr then commands fs else is_set b accept_rtr f ∷ commands fs

module _ {W : Type 0} (b : Board W) (accept_rtr : Bool) (pending : W → List Frame) (pin : W → Bool)
    (q : IsQueue b pending pin) where
  change_led-pending : (f : Frame) (w : W) → pending (change_led b accept_rtr true f w) ≡ pending w
  unfolding change_led
  change_led-pending f w = ground (arith, q.set_pending (is_set b accept_rtr f) w)

  change_led-pin :
      (f : Frame) (fs : List Frame) (w : W)
      → last_or (pin (change_led b accept_rtr true f w)) (commands b accept_rtr fs)
        ≡ last_or (pin w) (commands b accept_rtr (f ∷ fs))
  unfolding change_led
  change_led-pin f fs w = ground (arith, q.set_pin (is_set b accept_rtr f) w)

  change_led_loop_lem :
      (fuel : ℕ) (fs : List Frame) (w : W)
      → pending w ≡ fs
      → length fs < fuel
      → (w' : W) × (change_led_loop b accept_rtr fuel true w ≡ some w')
        × (pending w' ≡ [])
        × (pin w' ≡ last_or (pin w) (commands b accept_rtr fs))
  unfolding change_led_loop
  change_led_loop_lem zero fs w e h = absurd (omega arith)
  change_led_loop_lem (suc fuel) [] w e h =
      ((b.k_msgq_get w).2, ground (arith, q.get_none w e), q.get_none_pending w e, q.get_pin w)
  change_led_loop_lem (suc fuel) (f ∷ fs) w e h =
      let next : W = change_led b accept_rtr true (b.k_msgq_get w).1 (b.k_msgq_get w).2 in
      let left : pending next ≡ fs =
        change_led-pending (b.k_msgq_get w).1 (b.k_msgq_get w).2 ∙ q.get_rest w f fs e in
      let (w', e', empty, level) = change_led_loop_lem fuel fs next left (omega arith) in
      let asked : pin w' ≡ last_or (pin w) (commands b accept_rtr (f ∷ fs)) =
        level
        ∙ (change_led-pin (b.k_msgq_get w).1 fs (b.k_msgq_get w).2
            ∙ (ap (λ v. last_or v (commands b accept_rtr ((b.k_msgq_get w).1 ∷ fs))) (q.get_pin w)
                ∙ ap (λ g. last_or (pin w) (commands b accept_rtr (g ∷ fs)))
                    (q.get_frame w f fs e))) in
      (w', ground (arith, q.get_ret w f fs e), empty, asked)

  -- With room for its rounds, one more than frames are pending, the handler ends and submits its
  -- work again; the queue is then empty, and the pin has the level that the last frame asked for,
  -- or its old one if none did.
  pub change_led_work_handler_lem :
      (fuel : ℕ) (w : W)
      → length (pending w) < fuel
      → (w' : W) × (change_led_work_handler b accept_rtr fuel true w ≡ some w')
        × (pending w' ≡ [])
        × (pin w' ≡ last_or (pin w) (commands b accept_rtr (pending w)))
  unfolding change_led_work_handler
  change_led_work_handler_lem fuel w h =
      let (w', e, empty, level) = change_led_loop_lem fuel (pending w) w refl h in
      (
        (b.k_work_poll_submit w').1,
        ground arith,
        q.submit_pending w' ∙ empty,
        q.submit_pin w' ∙ level,
      )
