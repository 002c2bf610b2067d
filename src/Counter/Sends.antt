-- ===== src/Counter/Sends.antt =====
-- What the threads of app/demos/can_counter/src/main.c make of the frames that `main` sends.
use zephyr_start.Base.{
  Bool, List, [], ap, arith, false, get_or, length, map, refl, suc, zero, ℕ, ◌%◌, ◌*◌, ◌+◌, ◌/◌,
  ◌<◌, ◌==◌, ◌^◌, ◌∙◌, ◌∷◌, ◌≡◌,
}
use zephyr_start.Counter.Defs.{
  RxLog, Sender, counter_frame, counter_received, is_set, main_rounds, rx_round, rx_thread, Board,
  main_round,
}

-- `sys_cpu_to_be16` and `sys_be16_to_cpu` as documented: the high byte first.
pub record IsBigEndian {W : Type 0} (b : Board W) : Type 0 where
  pub put : (x : ℕ) → b.put_be16 x ≡ x / 256 % 256 ∷ x % 256 ∷ []
  pub get : (hi lo : ℕ) (rest : List ℕ) → b.get_be16 (hi ∷ lo ∷ rest) ≡ hi * 256 + lo

module _ {W : Type 0} (b : Board W) (accept_rtr : Bool) (order : IsBigEndian b) where
  rx_round-counter_frame :
      (x : ℕ) → x < 2 ^ 16 → rx_round b accept_rtr (counter_frame b x) ≡ counter_received x ∷ []
  unfolding rx_round
  rx_round-counter_frame x h =
      let value : b.get_be16 (b.put_be16 x) ≡ x =
        ap b.get_be16 (order.put x) ∙ (order.get (x / 256 % 256) (x % 256) [] ∙ (omega arith)) in
      ground (arith, value)

  rx_thread-length :
      (n : ℕ) (s : Sender)
      → s.counter < 2 ^ 16
      → length (rx_thread b accept_rtr (map (λ p. p.1) (main_rounds b n s))) ≡ n
  unfolding rx_thread main_rounds main_round
  rx_thread-length zero s h = refl
  rx_thread-length (suc n) s h = ground (
    arith,
    rx_round-counter_frame s.counter h,
    rx_thread-length n (main_round b s).1 (omega arith),
  )

  -- On the counter frames of `n` rounds of `main`, `rx_thread` logs `n` counters, which count up from
  -- the one that `main` started with and wrap at 2 ^ 16.
  pub rx_thread-main_rounds :
      (n j : ℕ) (s : Sender) (d : RxLog)
      → s.counter < 2 ^ 16
      → j < n
      → let logs = rx_thread b accept_rtr (map (λ p. p.1) (main_rounds b n s)) in
        (length logs ≡ n) × (get_or logs j d ≡ counter_received ((s.counter + j) % 2 ^ 16))
  unfolding rx_thread main_rounds main_round
  rx_thread-main_rounds zero j s d hs h = absurd (omega arith)
  rx_thread-main_rounds (suc n) zero s d hs h = ground (
    arith,
    rx_round-counter_frame s.counter hs,
    rx_thread-length n (main_round b s).1 (omega arith),
  )
  rx_thread-main_rounds (suc n) (suc j) s d hs h =
      let next : Sender = (main_round b s).1 in
      let (len, logged) = rx_thread-main_rounds n j next d (omega arith) (omega arith) in
      let index : ((s.counter + 1) % 2 ^ 16 + j) % 2 ^ 16 ≡ (s.counter + suc j) % 2 ^ 16 =
        omega arith in
      ground (arith, rx_round-counter_frame s.counter hs)

module _ {W : Type 0} (b : Board W) (accept_rtr : Bool) where
  -- The levels that the LED frames of `n` rounds ask for alternate, and start with the parity of
  -- `toggle`, also where that wraps.
  pub is_set-main_rounds :
      (n j : ℕ) (s : Sender)
      → j < n
      → get_or (map (λ p. is_set b accept_rtr p.0) (main_rounds b n s)) j false
        ≡ ((s.toggle + j) % 2 == 1)
  unfolding main_rounds main_round
  is_set-main_rounds zero j s h = absurd (omega arith)
  is_set-main_rounds (suc n) zero s h = ground arith
  is_set-main_rounds (suc n) (suc j) s h =
      let next : Sender = (main_round b s).1 in
      let later = is_set-main_rounds n j next (omega arith) in
      let parity : ((s.toggle + 1) % 2 ^ 8 + j) % 2 ≡ (s.toggle + suc j) % 2 = omega arith in
      later ∙ ap (λ x. x == 1) parity
