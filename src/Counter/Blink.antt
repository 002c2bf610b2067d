-- ===== src/Counter/Blink.antt =====
-- The way of the LED's frames through app/demos/can_counter/src/main.c, from `main` in loop-back by the queue to
-- the LED.
use zephyr_start.Base.{
  Bool, Every, List, Option, [], ap, arith, if◌then◌else◌, last_or, length, none, not, refl, some,
  suc, true, zero, ℕ, ◌%◌, ◌&&◌, ◌++◌, ◌+◌, ◌<◌, ◌==◌, ◌^◌, ◌∙◌, ◌∷◌, ◌≡◌, ◌≤◌,
}
use zephyr_start.Counter.Led.{IsQueue, change_led_work_handler_lem, commands}
use zephyr_start.Counter.Defs.{
  Sender, change_led_frame, change_led_work_handler, is_set, Board, Frame, main_round,
}

-- `change_led_filter`: the standard identifier of the LED's message, all bits compared.
abbrev pub change_led_filter : Frame → Bool
change_led_filter f = not f.ide && (f.id == 0x10)

-- The driver in loop-back: a frame that passes the filter is put into the queue.
pub record IsLoopback {W : Type 0} (deliver : Frame → W → W) (pending : W → List Frame)
    (pin : W → Bool) : Type 0 where
  pub put_pending :
      (f : Frame) (w : W) → length (pending w) < 2 → pending (deliver f w) ≡ pending w ++ (f ∷ [])
  pub put_pin : (f : Frame) (w : W) → pin (deliver f w) ≡ pin w

-- The variables of `main`, and the world with the queue and the LED.
pub record Blinking (W : Type 0) : Type 0 where
  pub sender : Sender
  pub desk : W

module _ {W : Type 0} (b : Board W) (deliver : Frame → W → W) where
  abbrev pub passed : Frame → W → W
  passed f w = if change_led_filter f then deliver f w else w

  -- A round of `main`, whose two frames come back.
  unfoldable pub round_trip : Blinking W → Blinking W
  unfolding main_round
  round_trip s =
      let ((led_frame, counted), sender') = main_round b s.sender in
      record { sender = sender'; desk = passed counted (passed led_frame s.desk) }

  unfoldable pub round_trips : ℕ → Blinking W → Blinking W
  unfolding round_trip
  round_trips zero s = s
  round_trips (suc n) s = round_trips n (round_trip s)

  -- Some rounds, and then the work handler; the loop of the handler ends after the two frames of a full
  -- queue.
  unfoldable pub blinks : Bool → List ℕ → Blinking W → Option (Blinking W)
  unfolding round_trips change_led_work_handler
  blinks accept_rtr [] s = some s
  blinks accept_rtr (n ∷ ns) s =
      let sent = round_trips n s in
      elim (change_led_work_handler b accept_rtr 3 true sent.desk) [
        | none ↦ none
        | some w ↦ blinks accept_rtr ns (record { sender = sent.sender; desk = w })
      ]

abbrev pub sum : List ℕ → ℕ
sum [] = 0
sum (n ∷ ns) = n + sum ns

module _ {W : Type 0} (b : Board W) (accept_rtr : Bool) (deliver : Frame → W → W)
    (pending : W → List Frame) (pin : W → Bool) (q : IsQueue b pending pin)
    (k : IsLoopback deliver pending pin) where
  -- One frame more in the queue, that of `toggle`.
  round_trip-pending :
      (s : Blinking W)
      → length (pending s.desk) < 2
      → pending (round_trip b deliver s).desk
        ≡ pending s.desk ++ (change_led_frame b s.sender.toggle ∷ [])
  unfolding round_trip main_round
  round_trip-pending s room = k.put_pending (change_led_frame b s.sender.toggle) s.desk room

  round_trip-toggle :
      (s : Blinking W) → (round_trip b deliver s).sender.toggle ≡ (s.sender.toggle + 1) % 2 ^ 8
  unfolding round_trip main_round
  round_trip-toggle s = refl

  -- The level that a list of frames ends with, whose last is that of a toggle.
  last_level :
      (toggle : ℕ) (v : Bool) (before : List Frame)
      → last_or v (commands b accept_rtr (before ++ (change_led_frame b toggle ∷ [])))
        ≡ ((toggle + 1) % 2 ^ 8 % 2 == 0)
  last_level toggle v [] = ground arith
  last_level toggle v (f ∷ before) =
      ground (arith, last_level toggle v before, last_level toggle (is_set b accept_rtr f) before)

  -- After one or two rounds on an empty queue, the last frame is that of the toggle before.
  rounds_lem :
      (n : ℕ) (s : Blinking W)
      → pending s.desk ≡ []
      → 1 ≤ n
      → n ≤ 2
      → let sent = round_trips b deliver n s in
        (sent.sender.toggle ≡ (s.sender.toggle + n) % 2 ^ 8)
        × (length (pending sent.desk) ≤ 2)
        × ((v : Bool)
            → last_or v (commands b accept_rtr (pending sent.desk)) ≡ (sent.sender.toggle % 2 == 0))
  unfolding round_trips
  rounds_lem zero s empty least most = absurd (omega arith)
  rounds_lem (suc zero) s empty least most =
      let first = change_led_frame b s.sender.toggle in
      let one : pending (round_trip b deliver s).desk ≡ first ∷ [] =
        round_trip-pending s (rw empty (omega arith)) ∙ ap (λ fs. fs ++ (first ∷ [])) empty in
      let turned = round_trip-toggle s in
      (turned, rw one (omega arith), (λ v. rw (one, turned) (last_level (s.sender.toggle) v [])))
  rounds_lem (suc (suc zero)) s empty least most =
      let first = change_led_frame b s.sender.toggle in
      let next = round_trip b deliver s in
      let second = change_led_frame b next.sender.toggle in
      let one : pending next.desk ≡ first ∷ [] =
        round_trip-pending s (rw empty (omega arith)) ∙ ap (λ fs. fs ++ (first ∷ [])) empty in
      let two : pending (round_trip b deliver next).desk ≡ first ∷ second ∷ [] =
        round_trip-pending next (rw one (omega arith)) ∙ ap (λ fs. fs ++ (second ∷ [])) one in
      let turned = round_trip-toggle s in
      let turned_again = round_trip-toggle next in
      (
        omega (arith, turned, turned_again),
        rw two (omega arith),
        (λ v. rw (two, turned_again) (last_level (next.sender.toggle) v (first ∷ []))),
      )
  rounds_lem (suc (suc (suc n))) s empty least most = absurd (omega arith)

  -- What holds after the handler has run: the queue is empty, and the LED is on if the next frame is to
  -- switch it off.
  pub record IsShown (s : Blinking W) : Type 0 where
    pub drained : pending s.desk ≡ []
    pub follows : pin s.desk ≡ (s.sender.toggle % 2 == 0)
    pub byte : s.sender.toggle < 2 ^ 8

  abbrev OneOrTwo : ℕ → Type 0
  OneOrTwo n = (1 ≤ n) × (n ≤ 2)

  handled :
      (n : ℕ) (s : Blinking W)
      → pending s.desk ≡ []
      → OneOrTwo n
      → let sent = round_trips b deliver n s in
        (w : W) × (change_led_work_handler b accept_rtr 3 true sent.desk ≡ some w)
        × IsShown (record { sender = sent.sender; desk = w })
        × (sent.sender.toggle ≡ (s.sender.toggle + n) % 2 ^ 8)
  handled n s empty (least, most) =
      let sent = round_trips b deliver n s in
      let (turned, few, level) = rounds_lem n s empty least most in
      let (w, ran, drained, shown) =
        change_led_work_handler_lem b accept_rtr pending pin q 3 sent.desk (omega (arith, few)) in
      (
        w,
        ran,
        record {
          drained = drained;
          follows = shown ∙ level (pin sent.desk);
          byte = omega (arith, turned);
        },
        turned,
      )

  blinks_from :
      (ns : List ℕ) (s : Blinking W)
      → Every ns OneOrTwo
      → IsShown s
      → (s' : Blinking W) × (blinks b deliver accept_rtr ns s ≡ some s')
        × IsShown s'
        × (s'.sender.toggle ≡ (s.sender.toggle + sum ns) % 2 ^ 8)
  unfolding blinks
  blinks_from [] s _ shown = (s, refl, shown, omega (arith, shown.byte))
  blinks_from (n ∷ ns) s (this, rest) shown =
      let sent = round_trips b deliver n s in
      let (w, ran, shown', turned) = handled n s shown.drained this in
      let (s', e, last, total) =
        blinks_from ns (record { sender = sent.sender; desk = w }) rest shown' in
      (s', rw (blinks, ran) e, last, omega (arith, turned, total))

  -- In loop-back, from an empty queue, with one or two rounds of `main` before each run of the work
  -- handler: every run ends and leaves the queue empty, `toggle` has counted the rounds modulo 256, and
  -- the LED has the level of the last of them.
  pub blinks_lem :
      (n : ℕ) (ns : List ℕ) (s : Blinking W)
      → pending s.desk ≡ []
      → Every (n ∷ ns) OneOrTwo
      → (s' : Blinking W) × (blinks b deliver accept_rtr (n ∷ ns) s ≡ some s')
        × (pending s'.desk ≡ [])
        × (s'.sender.toggle ≡ (s.sender.toggle + sum (n ∷ ns)) % 2 ^ 8)
        × (pin s'.desk ≡ (s'.sender.toggle % 2 == 0))
  unfolding blinks
  blinks_lem n ns s empty (this, rest) =
      let sent = round_trips b deliver n s in
      let (w, ran, shown, turned) = handled n s empty this in
      let (s', e, last, total) =
        blinks_from ns (record { sender = sent.sender; desk = w }) rest shown in
      (s', rw (blinks, ran) e, last.drained, omega (arith, turned, total), last.follows)
