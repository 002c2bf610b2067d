-- ===== src/Lan/Datagrams.antt =====
-- The datagrams that app/demos/ethernet_bridge/lan8651_t1s_demo/src/main.c receives and sends.
use zephyr_start.Base.{List, [], false, is_neg, true, ℕ, ℤ, ◌++◌, ◌∷◌, ◌≡◌}
use zephyr_start.Lan.Net.{Datagram, Net}

-- The datagrams received and sent so far, as the calls are documented: a call that does not fail adds
-- its datagram, and no other call of the server or the transmitter adds any.
pub record LogsDatagrams {W : Type 0} (net : Net W) (received sent : W → List Datagram)
    : Type 0 where
  pub recv_ok :
      (s : ℤ) (w : W)
      → is_neg (net.zsock_recvfrom s w).0 ≡ false
      → received (net.zsock_recvfrom s w).2 ≡ received w ++ ((net.zsock_recvfrom s w).1 ∷ [])
  pub recv_err :
      (s : ℤ) (w : W)
      → is_neg (net.zsock_recvfrom s w).0 ≡ true
      → received (net.zsock_recvfrom s w).2 ≡ received w
  pub recv_sent : (s : ℤ) (w : W) → sent (net.zsock_recvfrom s w).2 ≡ sent w
  pub send_ok :
      (s : ℤ) (d : Datagram) (w : W)
      → is_neg (net.zsock_sendto s d w).0 ≡ false
      → sent (net.zsock_sendto s d w).1 ≡ sent w ++ (d ∷ [])
  pub send_err :
      (s : ℤ) (d : Datagram) (w : W)
      → is_neg (net.zsock_sendto s d w).0 ≡ true
      → sent (net.zsock_sendto s d w).1 ≡ sent w
  pub send_received :
      (s : ℤ) (d : Datagram) (w : W) → received (net.zsock_sendto s d w).1 ≡ received w
  pub socket_sent : (w : W) → sent (net.zsock_socket w).1 ≡ sent w
  pub socket_received : (w : W) → received (net.zsock_socket w).1 ≡ received w
  pub bind_sent : (s : ℤ) (w : W) → sent (net.zsock_bind s w).1 ≡ sent w
  pub bind_received : (s : ℤ) (w : W) → received (net.zsock_bind s w).1 ≡ received w
  pub close_sent : (s : ℤ) (w : W) → sent (net.zsock_close s w) ≡ sent w
  pub close_received : (s : ℤ) (w : W) → received (net.zsock_close s w) ≡ received w
  pub sleep_sent : (ms : ℕ) (w : W) → sent (net.k_sleep ms w) ≡ sent w
  pub sleep_received : (ms : ℕ) (w : W) → received (net.k_sleep ms w) ≡ received w
  pub uptime_sent : (w : W) → sent (net.k_uptime_get w).1 ≡ sent w

-- `Sub xs ys`: `xs` is `ys` with some elements left out, in order.
pub data Sub {ℓ} {A : Type ℓ} : List A → List A → Type ℓ where
  done : Sub [] []
  kept : (x : A) {xs ys : List A} → Sub xs ys → Sub (x ∷ xs) (x ∷ ys)
  lost : (x : A) {xs ys : List A} → Sub xs ys → Sub xs (x ∷ ys)

pub Sub-append {ℓ} :
    {A : Type ℓ} {xs ys us vs : List A} → Sub xs ys → Sub us vs → Sub (xs ++ us) (ys ++ vs)
Sub-append done t = t
Sub-append (kept x s) t = kept x (Sub-append s t)
Sub-append (lost x s) t = lost x (Sub-append s t)
