-- ===== src/T1s/Told.antt =====
-- What the other clients of app/demos/ethernet_bridge/t1s_device/src/main.c are told.
use zephyr_start.Base.{
  ==ℤ-eq, List, [], arith, false, if◌then◌else◌, is_neg, length, refl, take, ℕ, ℤ, ◌++◌, ◌==ℤ◌, ◌∷◌,
  ◌≡◌, ◌≢◌,
}
use zephyr_start.T1s.Rounds.{client_round-IsRound}
use zephyr_start.T1s.Defs.{
  Config, Device, Effect, Input, RgbCmd, broadcast_to, client_loop, client_round, create_thread,
  hung_up, poll_failed, rgb_apply, send_close, send_pong, send_text, set_pulse, set_rgb, state_json,
  unregister, ws_broadcast_state, ws_send_state, received,
}
use zephyr_start.T1s.Clients.{slots_of}

-- The text that was sent to a socket last, with its length, or `before` where none was.
unfoldable pub told : ℤ → List Effect → List ℕ × ℕ → List ℕ × ℕ
told sock [] before = before
told sock (send_text s buf len ∷ out) before =
    told sock out (if s ==ℤ sock then (buf, len) else before)
told sock (set_pulse channel pulse ∷ out) before = told sock out before
told sock (send_close s buf ∷ out) before = told sock out before
told sock (send_pong s buf ∷ out) before = told sock out before
told sock (create_thread slot ∷ out) before = told sock out before
told sock (unregister s ∷ out) before = told sock out before

pub told-append :
    (sock : ℤ) (xs ys : List Effect) (before : List ℕ × ℕ)
    → told sock (xs ++ ys) before ≡ told sock ys (told sock xs before)
unfolding told
told-append sock [] ys before = refl
told-append sock (send_text s buf len ∷ xs) ys before =
    told-append sock xs ys (if s ==ℤ sock then (buf, len) else before)
told-append sock (set_pulse channel pulse ∷ xs) ys before = told-append sock xs ys before
told-append sock (send_close s buf ∷ xs) ys before = told-append sock xs ys before
told-append sock (send_pong s buf ∷ xs) ys before = told-append sock xs ys before
told-append sock (create_thread slot ∷ xs) ys before = told-append sock xs ys before
told-append sock (unregister s ∷ xs) ys before = told-append sock xs ys before

module _ (c : Config) where
  -- The message that gives the state.
  abbrev pub message_of : Device → List ℕ × ℕ
  message_of d = (take 127 (state_json c d) ++ (0 ∷ []), length (state_json c d))

  -- Once told the state, a socket stays so in a broadcast of it.
  broadcast_to-stays :
      (sock except : ℤ) (d : Device) (socks : List ℤ)
      → told sock (broadcast_to c except d socks) (message_of d) ≡ message_of d
  unfolding broadcast_to ws_send_state told
  broadcast_to-stays sock except d [] = refl
  broadcast_to-stays sock except d (s ∷ socks) =
      ground (arith, broadcast_to-stays sock except d socks)

  broadcast_to-told :
      (sock except : ℤ) (d : Device) (socks : List ℤ) (before : List ℕ × ℕ)
      → is_neg sock ≡ false
      → (sock ==ℤ except) ≡ false
      → slots_of sock socks ≢ 0
      → told sock (broadcast_to c except d socks) before ≡ message_of d
  unfolding broadcast_to ws_send_state told slots_of
  broadcast_to-told sock except d [] before real other held = absurd (held refl)
  broadcast_to-told sock except d (s ∷ socks) before real other held = ground (
    arith,
    ==ℤ-eq s sock,
    broadcast_to-stays sock except d socks,
    broadcast_to-told sock except d socks before,
  )

module _ (c : Config) (json_obj_parse : List ℕ → ℤ × RgbCmd) (other : ℤ) where
  client_round-told :
      (sock : ℤ) (i : Input) (d : Device)
      → is_neg other ≡ false
      → (other ==ℤ sock) ≡ false
      → slots_of other d.ws_clients ≢ 0
      → told other (client_round c json_obj_parse sock i d).1 (message_of c d)
        ≡ message_of c (client_round c json_obj_parse sock i d).2
  unfolding client_round told rgb_apply ws_broadcast_state
  client_round-told sock poll_failed d real apart held = refl
  client_round-told sock hung_up d real apart held = refl
  client_round-told sock (received len buf is_close is_ping is_data) d real apart held =
      let d' : Device = set_rgb c json_obj_parse (json_obj_parse buf).1 d in
      ground
        (arith, broadcast_to-told c other sock d' d.ws_clients (message_of c d) real apart held)

  -- Whatever a client sends, any other client that was last told the state
  -- before is last told the state after: no change of the colour goes by it.
  pub client_loop-told :
      (sock : ℤ) (is : List Input) (d : Device)
      → is_neg other ≡ false
      → (other ==ℤ sock) ≡ false
      → slots_of other d.ws_clients ≢ 0
      → let (n, out, d') = client_loop c json_obj_parse sock is d in
        told other out (message_of c d) ≡ message_of c d'
  unfolding client_loop told state_json
  client_loop-told sock [] d real apart held = refl
  client_loop-told sock (i ∷ is) d real apart held =
      let round = client_round c json_obj_parse sock i d in
      let after = client_loop c json_obj_parse sock is round.2 in
      let still : slots_of other round.2.ws_clients ≢ 0 =
        rw (client_round-IsRound c json_obj_parse sock i d).clients held in
      ground (
        arith,
        client_round-told sock i d real apart held,
        client_loop-told sock is round.2 real apart still,
        told-append other round.1 after.1 (message_of c d),
      )
