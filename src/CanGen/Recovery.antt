-- ===== src/CanGen/Recovery.antt =====
-- Automatic recovery, `maybe_auto_recover` of app/demos/frdm_can_traffic_generator/src/main.c.
use zephyr_start.Base.{
  Bool-cases, List, [], ap, append-nil, append_assoc, arith, false, inl, inr, is_zero, ltb, refl,
  suc, sym, true, zero, ℕ, ℤ, ◌++◌, ◌+◌, ◌||◌, ◌∙◌, ◌∷◌, ◌≡◌, ◌≤◌,
}
use zephyr_start.CanGen.Settings.{k_sleep-Kept, send_demo_frames-Kept}
use zephyr_start.CanGen.Defs.{
  Gen, callbacks, demo_frames, inc32, loop_rounds, maybe_auto_recover, restart_can_controller,
  send_demo_frames, send_frame, send_frames, tx_callback, main_round, k_sleep,
}
use zephyr_start.CanGen.Board.{IsClock, Board, Frame}

-- Times in order, the first not before `lo` and each 5000 ms or more after the one before it.
abbrev pub SpacedFrom : ℕ → List ℕ → Type 0
SpacedFrom lo [] = Unit {0}
SpacedFrom lo (t ∷ ts) = (lo ≤ t) × SpacedFrom (t + 5000) ts

-- The same, with the end of the last wait no later than `hi`.
abbrev Spaced : ℕ → List ℕ → ℕ → Type 0
Spaced lo [] hi = lo ≤ hi
Spaced lo (t ∷ ts) hi = (lo ≤ t) × Spaced (t + 5000) ts hi

SpacedFrom-mono : {lo mid : ℕ} (us : List ℕ) → lo ≤ mid → SpacedFrom mid us → SpacedFrom lo us
SpacedFrom-mono [] h s = tt
SpacedFrom-mono (u ∷ us) h s = (omega arith, s.1)

Spaced-append :
    (lo mid : ℕ) (ts us : List ℕ) → Spaced lo ts mid → SpacedFrom mid us → SpacedFrom lo (ts ++ us)
Spaced-append lo mid [] us h s = SpacedFrom-mono us h s
Spaced-append lo mid (t ∷ ts) us h s = (h.0, Spaced-append (t + 5000) mid ts us h.1 s)

-- The times of the calls of `can_stop` so far, which no other call changes; the generator calls it in
-- `restart_can_controller` only.
pub record LogsStops {W : Type 0} (b : Board W) (clock : W → ℕ) (stops : W → List ℕ) : Type 0 where
  pub stop_lem : (w : W) → stops (b.can_stop w).2 ≡ stops w ++ (clock w ∷ [])
  pub start_lem : (w : W) → stops (b.can_start w).1 ≡ stops w
  pub send_lem : (f : Frame) (w : W) → stops (b.can_send f w).1 ≡ stops w
  pub uptime_lem : (w : W) → stops (b.k_uptime_get w).1 ≡ stops w
  pub uptime_32_lem : (w : W) → stops (b.k_uptime_get_32 w).1 ≡ stops w
  pub sleep_lem : (ms : ℕ) (w : W) → stops (b.k_sleep ms w).1 ≡ stops w
  pub toggle_lem : (w : W) → stops (b.gpio_pin_toggle w) ≡ stops w

module _ {W : Type 0} (b : Board W) (clock : W → ℕ) (c : IsClock b clock) where
  callbacks_past : (es : List ℤ) (g : Gen W) → clock g.world ≤ clock (callbacks b es g).world
  unfolding callbacks tx_callback
  callbacks_past [] g = omega arith
  callbacks_past (e ∷ es) g =
      ground (arith, callbacks_past es (tx_callback b e g), c.toggle_past g.world)

  restart_past : (g : Gen W) → clock g.world ≤ clock (restart_can_controller b g).1.world
  unfolding restart_can_controller
  restart_past g =
      let (ret, errors, w) = b.can_stop g.world in
      let stopped : Gen W = callbacks b errors (record g { world = w }) in
      ground (
        arith,
        c.stop_past g.world,
        callbacks_past errors (record g { world = w }),
        c.start_past stopped.world,
      )

module _ {W : Type 0} (b : Board W) (clock : W → ℕ) (stops : W → List ℕ)
    (l : LogsStops b clock stops) where
  callbacks-stops : (es : List ℤ) (g : Gen W) → stops (callbacks b es g).world ≡ stops g.world
  unfolding callbacks tx_callback
  callbacks-stops [] g = refl
  callbacks-stops (e ∷ es) g =
      ground (arith, callbacks-stops es (tx_callback b e g), l.toggle_lem g.world)

  send_frames-stops :
      (fs : List Frame) (g : Gen W) → stops (send_frames b fs g).1.world ≡ stops g.world
  unfolding send_frames send_frame
  send_frames-stops [] g = refl
  send_frames-stops (f ∷ fs) g =
      ground (arith, l.send_lem f g.world, send_frames-stops fs (send_frame b f g).1)

  send_demo_frames-stops : (g : Gen W) → stops (send_demo_frames b g).1.world ≡ stops g.world
  unfolding send_demo_frames
  send_demo_frames-stops g =
      let (uptime_ms, w) = b.k_uptime_get_32 g.world in
      let ticked : Gen W = record g { tx_sequence = inc32 g.tx_sequence; world = w } in
      send_frames-stops (demo_frames b g.tx_sequence uptime_ms) ticked ∙ l.uptime_32_lem g.world

  k_sleep-stops : (ms : ℕ) (g : Gen W) → stops (k_sleep b ms g).world ≡ stops g.world
  unfolding k_sleep
  k_sleep-stops ms g =
      let (errors, w) = b.k_sleep ms g.world in
      callbacks-stops errors (record g { world = w }) ∙ l.sleep_lem ms g.world

  restart-stops :
      (g : Gen W)
      → stops (restart_can_controller b g).1.world ≡ stops g.world ++ (clock g.world ∷ [])
  unfolding restart_can_controller
  restart-stops g =
      let (ret, errors, w) = b.can_stop g.world in
      let stopped : Gen W = callbacks b errors (record g { world = w }) in
      ground (
        arith,
        l.stop_lem g.world,
        callbacks-stops errors (record g { world = w }),
        l.start_lem stopped.world,
      )

module _ {W : Type 0} (b : Board W) (clock : W → ℕ) (c : IsClock b clock) (stops : W → List ℕ)
    (l : LogsStops b clock stops) where
  -- From `g` to `g'` the controller was stopped at the times `ts`.
  record Restarted (g g' : Gen W) : Type 0 where
    ts : List ℕ
    logged : stops g'.world ≡ stops g.world ++ ts
    spaced : Spaced g.next_auto_recovery_ms ts g'.next_auto_recovery_ms

  -- What neither stops the controller nor moves the deadline.
  quiet :
      (g g' : Gen W)
      → stops g'.world ≡ stops g.world
      → g'.next_auto_recovery_ms ≡ g.next_auto_recovery_ms
      → Restarted g g'
  quiet g g' same due = record {
    ts = [];
    logged = same ∙ sym (append-nil (stops g.world));
    spaced = omega (arith, due);
  }

  -- Before and after it.
  around :
      (u g h v : Gen W)
      → stops g.world ≡ stops u.world
      → g.next_auto_recovery_ms ≡ u.next_auto_recovery_ms
      → stops v.world ≡ stops h.world
      → v.next_auto_recovery_ms ≡ h.next_auto_recovery_ms
      → Restarted g h
      → Restarted u v
  around u g h v same due same' due' r = record {
    ts = r.ts;
    logged = same' ∙ (r.logged ∙ ap (λ x. x ++ r.ts) same);
    spaced = rw (← due, due') r.spaced;
  }

  maybe_auto_recover-Restarted : (g : Gen W) → Restarted g (maybe_auto_recover b g)
  unfolding maybe_auto_recover
  maybe_auto_recover-Restarted g =
      let (now, w) = b.k_uptime_get g.world in
      let seen : Gen W = record g { world = w } in
      let restarted : Gen W = (restart_can_controller b seen).1 in
      elim (Bool-cases (ltb g.tx_fail_streak 4 || ltb now g.next_auto_recovery_ms)) [
        | inl skipped ↦ rw skipped (quiet g seen (l.uptime_lem g.world) refl)
        | inr due ↦ rw due (record {
          ts = clock w ∷ [];
          logged =
              l.uptime_lem restarted.world
              ∙ (restart-stops b clock stops l seen
                  ∙ ap (λ x. x ++ (clock w ∷ [])) (l.uptime_lem g.world));
          spaced =
              ground
                (arith, c.read_past g.world, restart_past b clock c seen, c.reads restarted.world);
        })
      ]

  along : (g v h : Gen W) → v ≡ h → Restarted g h → Restarted g v
  along g v h e r = rw e r

  -- The three ways of a round.
  round_off : (g : Gen W) → g.generator_enabled ≡ false → main_round b g ≡ k_sleep b 100 g
  unfolding main_round
  round_off g off = ground arith

  round_fine :
      (g : Gen W)
      → g.generator_enabled ≡ true
      → let (ret, sent) = send_demo_frames b g in
        is_zero ret ≡ true → main_round b g ≡ k_sleep b sent.period_ms sent
  unfolding main_round
  round_fine g on fine = ground arith

  round_failed :
      (g : Gen W)
      → g.generator_enabled ≡ true
      → let (ret, sent) = send_demo_frames b g in
        let recovered = maybe_auto_recover b sent in
        is_zero ret ≡ false → main_round b g ≡ k_sleep b recovered.period_ms recovered
  unfolding main_round
  round_failed g on failed = ground arith

  main_round-Restarted : (g : Gen W) → Restarted g (main_round b g)
  main_round-Restarted g =
      let (ret, sent) = send_demo_frames b g in
      let recovered : Gen W = maybe_auto_recover b sent in
      let same_stops = send_demo_frames-stops b clock stops l g in
      let same_due = (send_demo_frames-Kept b g).due in
      let v = main_round b g in
      elim (Bool-cases g.generator_enabled) [
        | inr off ↦ along g v (k_sleep b 100 g) (round_off g off) (
            quiet g (k_sleep b 100 g) (k_sleep-stops b clock stops l 100 g)
              (k_sleep-Kept b 100 g).due)
        | inl on ↦ elim (Bool-cases (is_zero ret)) [
          | inl fine ↦
              let slept : Gen W = k_sleep b sent.period_ms sent in
              along g v slept (round_fine g on fine) (
                quiet g slept (k_sleep-stops b clock stops l sent.period_ms sent ∙ same_stops)
                  ((k_sleep-Kept b sent.period_ms sent).due ∙ same_due))
          | inr failed ↦
              let slept : Gen W = k_sleep b recovered.period_ms recovered in
              along g v slept (round_failed g on failed) (
                around g sent recovered slept same_stops same_due
                  (k_sleep-stops b clock stops l recovered.period_ms recovered)
                  (k_sleep-Kept b recovered.period_ms recovered).due
                  (maybe_auto_recover-Restarted sent))
        ]
      ]

  -- Over any number of rounds of the main loop, each stop of the controller, with which an automatic
  -- restart begins, comes 5000 ms or more after the one before it, and none before the deadline of the
  -- first state.
  pub loop_rounds-SpacedFrom :
      (n : ℕ) (g : Gen W)
      → (ts : List ℕ) × (stops (loop_rounds b n g).world ≡ stops g.world ++ ts)
        × SpacedFrom g.next_auto_recovery_ms ts
  unfolding loop_rounds
  loop_rounds-SpacedFrom zero g = ([], sym (append-nil (stops g.world)), tt)
  loop_rounds-SpacedFrom (suc n) g =
      let first = main_round-Restarted g in
      let (us, logged, spaced) = loop_rounds-SpacedFrom n (main_round b g) in
      (
        first.ts ++ us,
        logged ∙ (ap (λ x. x ++ us) first.logged ∙ append_assoc (stops g.world) first.ts us),
        Spaced-append g.next_auto_recovery_ms (main_round b g).next_auto_recovery_ms first.ts us
            first.spaced spaced,
      )
