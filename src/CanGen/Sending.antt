-- ===== src/CanGen/Sending.antt =====
-- What one frame, one set of frames and one burst do to the counters of
-- app/demos/frdm_can_traffic_generator/src/main.c.
use zephyr_start.Base.{
  List, Option, [], arith, false, if◌then◌else◌, is_zero→eq, length, ltb, none, pos, refl, some,
  suc, zero, ℕ, ℤ, ◌%◌, ◌*◌, ◌+◌, ◌-◌, ◌<◌, ◌==◌, ◌^◌, ◌∙◌, ◌∷◌, ◌≡◌, ◌≢◌, ◌≤◌, ◌⊎◌,
}
use zephyr_start.Kernel.{IsSemaphore}
use zephyr_start.CanGen.Shell.{Argv, burst_loop, burst_of, cmd_can_gen_burst, shell_sleep, argv1}
use zephyr_start.CanGen.Settings.{k_sleep-Kept, main_round-SameSettings, send_demo_frames-Kept}
use zephyr_start.CanGen.Parse.{parse_count}
use zephyr_start.CanGen.Defs.{
  Gen, callbacks, demo_frames, inc32, loop_rounds, send_demo_frames, send_frame, send_frames,
  tx_callback, k_sleep, main_round,
}
use zephyr_start.CanGen.Board.{Board, Frame}

module _ {W : Type 0} (b : Board W)
    (s : IsSemaphore 3 b.k_sem_take b.k_sem_give b.k_sem_reset) where
  -- A call of `send_frame` either reports 0, takes one slot and counts one frame as enqueued; or
  -- reports an error, leaves the semaphore as it was, lengthens the failure streak, and counts one
  -- frame as busy, if there was no slot, or as an error, if there was one.
  pub send_frame_lem :
      (f : Frame) (g : Gen W)
      → g.tx_queue_sem ≤ 3
      → let (ret, g') = send_frame b f g in
        ((ret ≡ pos 0)
          × (g'.tx_queue_sem + 1 ≡ g.tx_queue_sem)
          × (g'.tx_enqueued ≡ inc32 g.tx_enqueued)
          × (g'.tx_err ≡ g.tx_err)
          × (g'.tx_busy ≡ g.tx_busy)
          × (g'.tx_fail_streak ≡ g.tx_fail_streak))
        ⊎ ((ret ≢ pos 0)
            × (g'.tx_queue_sem ≡ g.tx_queue_sem)
            × (g'.tx_enqueued ≡ g.tx_enqueued)
            × (g'.tx_err ≡ (if g.tx_queue_sem == 0 then g.tx_err else inc32 g.tx_err))
            × (g'.tx_busy ≡ (if g.tx_queue_sem == 0 then inc32 g.tx_busy else g.tx_busy))
            × (g'.tx_fail_streak ≡ inc32 g.tx_fail_streak))
  unfolding send_frame
  send_frame_lem f g h = ground (
    arith,
    s.take_some g.tx_queue_sem,
    s.take_none_err,
    s.take_none_count,
    s.give_lem (g.tx_queue_sem - 1),
  )

module _ {W : Type 0} (b : Board W) where
  -- The counters that callbacks leave alone.
  record Counts (g g' : Gen W) (frames sets : ℕ) : Type 0 where
    enqueued : g'.tx_enqueued ≡ (g.tx_enqueued + frames) % 2 ^ 32
    sequence : g'.tx_sequence ≡ (g.tx_sequence + sets) % 2 ^ 32
    busy : g'.tx_busy ≡ g.tx_busy

  abbrev pub InRange : Gen W → Type 0
  InRange g = (g.tx_enqueued < 2 ^ 32) × (g.tx_sequence < 2 ^ 32)

  send_frame-Counts :
      (f : Frame) (g : Gen W)
      → InRange g
      → (send_frame b f g).0 ≡ pos 0
      → Counts g (send_frame b f g).1 1 0
  unfolding send_frame
  send_frame-Counts f g r h = ground arith

  send_frames-Counts :
      (fs : List Frame) (g : Gen W)
      → InRange g
      → (send_frames b fs g).0 ≡ pos 0
      → Counts g (send_frames b fs g).1 (length fs) 0
  unfolding send_frames
  send_frames-Counts [] g r h = omega arith
  send_frames-Counts (f ∷ fs) g r h = ground (
    arith,
    is_zero→eq (send_frame b f g).0,
    send_frame-Counts f g r,
    send_frames-Counts fs (send_frame b f g).1,
  )

  send_demo_frames-Counts :
      (g : Gen W)
      → InRange g
      → (send_demo_frames b g).0 ≡ pos 0
      → Counts g (send_demo_frames b g).1 3 1
  unfolding send_demo_frames
  send_demo_frames-Counts g r h =
      let (uptime_ms, w) = b.k_uptime_get_32 g.world in
      let ticked : Gen W = record g { tx_sequence = inc32 g.tx_sequence; world = w } in
      ground (arith, send_frames-Counts (demo_frames b g.tx_sequence uptime_ms) ticked)

  callbacks-Counts : (es : List ℤ) (g : Gen W) → InRange g → Counts g (callbacks b es g) 0 0
  unfolding callbacks tx_callback
  callbacks-Counts [] g r = omega arith
  callbacks-Counts (e ∷ es) g r = ground (arith, callbacks-Counts es (tx_callback b e g))

  k_sleep-Counts : (ms : ℕ) (g : Gen W) → InRange g → Counts g (k_sleep b ms g) 0 0
  unfolding k_sleep
  k_sleep-Counts ms g r =
      let (errors, w) = b.k_sleep ms g.world in
      ground (arith, callbacks-Counts errors (record g { world = w }))

  -- While the generator is stopped, the loop of `main` only sleeps.
  loop_rounds-Counts :
      (n : ℕ) (g : Gen W)
      → InRange g
      → g.generator_enabled ≡ false
      → Counts g (loop_rounds b n g) 0 0
  unfolding loop_rounds main_round
  loop_rounds-Counts zero g r off = omega arith
  loop_rounds-Counts (suc n) g r off =
      let slept : Gen W = k_sleep b 100 g in
      ground (arith, k_sleep-Counts 100 g r, k_sleep-Kept b 100 g, loop_rounds-Counts n slept)

  loop_rounds-off :
      (n : ℕ) (g : Gen W)
      → g.generator_enabled ≡ false
      → (loop_rounds b n g).generator_enabled ≡ false
  unfolding loop_rounds
  loop_rounds-off zero g off = off
  loop_rounds-off (suc n) g off =
      loop_rounds-off n (main_round b g) ((main_round-SameSettings b g).enabled ∙ off)

  shell_sleep-Counts :
      (ms : ℕ) (g : Gen W)
      → InRange g
      → g.generator_enabled ≡ false
      → Counts g (shell_sleep b ms g) 0 0 × ((shell_sleep b ms g).generator_enabled ≡ false)
  unfolding shell_sleep
  shell_sleep-Counts ms g r off =
      let slept : Gen W = k_sleep b ms g in
      let n : ℕ = b.rounds_meanwhile slept.world in
      let still : slept.generator_enabled ≡ false = (k_sleep-Kept b ms g).enabled ∙ off in
      (
        ground (arith, k_sleep-Counts ms g r, loop_rounds-Counts n slept, still),
        loop_rounds-off n slept still,
      )

  burst_loop-Counts :
      (n : ℕ) (g : Gen W)
      → InRange g
      → g.generator_enabled ≡ false
      → (burst_loop b n g).0 ≡ pos 0
      → Counts g (burst_loop b n g).1 (3 * n) n
  unfolding burst_loop
  burst_loop-Counts zero g r off h = omega arith
  burst_loop-Counts (suc n) g r off h =
      let sent : Gen W = (send_demo_frames b g).1 in
      ground (
        arith,
        is_zero→eq (send_demo_frames b g).0,
        send_demo_frames-Counts g r,
        send_demo_frames-Kept b g,
        shell_sleep-Counts 10 sent,
        burst_loop-Counts n (shell_sleep b 10 sent),
      )

  count_cases :
      (text : List ℕ)
      → (parse_count text ≡ none) ⊎ ((n : ℕ) × (parse_count text ≡ some n) × (1 ≤ n) × (n ≤ 1000))
  unfolding parse_count
  count_cases text = ground arith

  burst_of_lem :
      (count : Option ℕ) (g : Gen W)
      → InRange g
      → g.generator_enabled ≡ false
      → (burst_of b count g).0 ≡ pos 0
      → (n : ℕ) × (count ≡ some n) × Counts g (burst_of b count g).1 (3 * n) n
  unfolding burst_of
  burst_of_lem none g r off h = absurd (cc)
  burst_of_lem (some n) g r off h = (n, refl, burst_loop-Counts n g r off h)

  -- While the generator is stopped, so that the loop of `main` sends nothing of its own: the number of
  -- sets that a burst command asks for, ten with no argument, is from 1 to 1000 if the command reports
  -- 0; then exactly three frames for each set were enqueued, each set had a
  -- sequence number of its own, and no frame found the queue full.
  pub cmd_can_gen_burst_lem :
      (argv : Argv) (g : Gen W)
      → InRange g
      → g.generator_enabled ≡ false
      → (cmd_can_gen_burst b argv g).0 ≡ pos 0
      → let g' = (cmd_can_gen_burst b argv g).1 in
        (n : ℕ) × ((if ltb 1 (length argv) then parse_count (argv1 argv) else some 10) ≡ some n)
        × (1 ≤ n)
        × (n ≤ 1000)
        × (g'.tx_enqueued ≡ (g.tx_enqueued + 3 * n) % 2 ^ 32)
        × (g'.tx_sequence ≡ (g.tx_sequence + n) % 2 ^ 32)
        × (g'.tx_busy ≡ g.tx_busy)
  unfolding cmd_can_gen_burst
  cmd_can_gen_burst_lem argv g r off h =
      let (n, e, k) =
        burst_of_lem (if ltb 1 (length argv) then parse_count (argv1 argv) else some 10) g r off
          h in
      (
        n,
        e,
        ground (arith, count_cases (argv1 argv)),
        ground (arith, count_cases (argv1 argv)),
        k.enqueued,
        k.sequence,
        k.busy,
      )
