-- ===== src/Lan/Net.antt =====
-- The socket, address and kernel calls that
-- app/demos/ethernet_bridge/lan8651_t1s_demo/src/main.c makes.
use zephyr_start.Base.{
  Bool, List, Option, false, if◌then◌else◌, is_neg, true, ℕ, ℤ, ◌+◌, ◌-◌, ◌==ℤ◌, ◌≡◌,
}
use zephyr_start.Lan.Defs.{IfAddr}

-- A datagram: its sender's address, as bytes, and what it carries.
pub record Datagram : Type 0 where
  pub peer : List ℕ
  pub bytes : List ℕ

-- `W` is the state of the network and the clock. `zsock_recvfrom` returns its result with the
-- datagram that it stored, of 256 bytes at most; `unicast` holds the entries of the default interface.
pub record Net (W : Type 0) : Type 0 where
  pub zsock_socket : W → ℤ × W
  pub zsock_bind : ℤ → W → ℤ × W
  pub zsock_listen : ℤ → W → ℤ × W
  pub zsock_accept : ℤ → W → ℤ × W
  pub zsock_recvfrom : ℤ → W → ℤ × Datagram × W
  pub zsock_sendto : ℤ → Datagram → W → ℤ × W
  pub zsock_recv : ℤ → W → W
  pub zsock_send : ℤ → List ℕ → W → ℤ × W
  pub zsock_close : ℤ → W → W
  pub zsock_inet_pton : List ℕ → ℤ × List ℕ
  pub unicast : W → Option (List IfAddr)
  pub net_ipv4_is_addr_unspecified : List ℕ → Bool
  pub net_addr_ntop : List ℕ → List ℕ
  pub k_uptime_get : W → ℕ × W
  pub k_sleep : ℕ → W → W

-- 1 at the descriptor, 0 elsewhere.
unfoldable pub at : ℤ → ℤ → ℕ
at sock fd = if fd ==ℤ sock then 1 else 0

-- How often each descriptor is open, as the calls are documented: a call that makes a socket opens the
-- descriptor that it returns unless it fails, and `zsock_close` closes the descriptor that it is given.
pub record CountsSockets {W : Type 0} (net : Net W) (opened : W → ℤ → ℕ) : Type 0 where
  pub socket_ok :
      (w : W) (fd : ℤ)
      → is_neg (net.zsock_socket w).0 ≡ false
      → opened (net.zsock_socket w).1 fd ≡ opened w fd + at (net.zsock_socket w).0 fd
  pub socket_err :
      (w : W) (fd : ℤ)
      → is_neg (net.zsock_socket w).0 ≡ true
      → opened (net.zsock_socket w).1 fd ≡ opened w fd
  pub accept_ok :
      (s : ℤ) (w : W) (fd : ℤ)
      → is_neg (net.zsock_accept s w).0 ≡ false
      → opened (net.zsock_accept s w).1 fd ≡ opened w fd + at (net.zsock_accept s w).0 fd
  pub accept_err :
      (s : ℤ) (w : W) (fd : ℤ)
      → is_neg (net.zsock_accept s w).0 ≡ true
      → opened (net.zsock_accept s w).1 fd ≡ opened w fd
  pub close_one : (s : ℤ) (w : W) (fd : ℤ) → opened (net.zsock_close s w) fd ≡ opened w fd - at s fd
  pub bind_same : (s : ℤ) (w : W) (fd : ℤ) → opened (net.zsock_bind s w).1 fd ≡ opened w fd
  pub listen_same : (s : ℤ) (w : W) (fd : ℤ) → opened (net.zsock_listen s w).1 fd ≡ opened w fd
  pub recvfrom_same : (s : ℤ) (w : W) (fd : ℤ) → opened (net.zsock_recvfrom s w).2 fd ≡ opened w fd
  pub sendto_same :
      (s : ℤ) (d : Datagram) (w : W) (fd : ℤ) → opened (net.zsock_sendto s d w).1 fd ≡ opened w fd
  pub recv_same : (s : ℤ) (w : W) (fd : ℤ) → opened (net.zsock_recv s w) fd ≡ opened w fd
  pub send_same :
      (s : ℤ) (bytes : List ℕ) (w : W) (fd : ℤ)
      → opened (net.zsock_send s bytes w).1 fd ≡ opened w fd
  pub uptime_same : (w : W) (fd : ℤ) → opened (net.k_uptime_get w).1 fd ≡ opened w fd
  pub sleep_same : (ms : ℕ) (w : W) (fd : ℤ) → opened (net.k_sleep ms w) fd ≡ opened w fd
