-- ===== src/Lan/Defs.antt =====
-- The address lookup, the HTTP reply and the UDP message of
-- app/demos/ethernet_bridge/lan8651_t1s_demo/src/main.c.
use zephyr_start.Base.{
  Bool, List, Option, [], codes, decimal, decimal_loop, if◌then◌else◌, length, none, not, some,
  take, ℕ, ◌&&◌, ◌++◌, ◌-◌, ◌∷◌,
}

-- An entry of the `unicast` array of an interface.
pub record IfAddr : Type 0 where
  pub is_used : Bool
  pub address : List ℕ

-- `net_ipv4_is_addr_unspecified` and `net_addr_ntop` of Zephyr.
module _ (is_unspecified : List ℕ → Bool) (net_addr_ntop : List ℕ → List ℕ) where
  -- The loop of `get_ipv4_addr`.
  unfoldable pub first_used : List IfAddr → Option (List ℕ)
  first_used [] = none
  first_used (a ∷ later) =
      if a.is_used && not (is_unspecified a.address) then some a.address else first_used later

  -- `none` in place of the entries is a configuration that is NULL.
  unfoldable pub get_ipv4_addr : Option (List IfAddr) → Option (List ℕ)
  unfolding first_used
  get_ipv4_addr none = none
  get_ipv4_addr (some entries) = first_used entries

  -- The buffers of the callers have 16 bytes.
  unfoldable pub ipv4_to_text : Option (List IfAddr) → List ℕ
  unfolding get_ipv4_addr
  ipv4_to_text entries = elim (get_ipv4_addr entries) [
    | none ↦ codes "0.0.0.0"
    | some addr ↦ net_addr_ntop addr
  ]

-- `%PRId64` of a time since boot, which is not negative; twenty digits are enough below 2 ^ 64.
unfoldable pub decimal64 : ℕ → List ℕ
decimal64 n = decimal_loop 20 n []

-- What `snprintk` leaves in a buffer of `size` bytes, without its NUL.
abbrev pub stored : ℕ → List ℕ → List ℕ
stored size text = take (size - 1) text

-- The texts as formatted, whole.
unfoldable pub body_text : List ℕ → ℕ → ℕ → List ℕ
unfolding decimal64
body_text ip udp_port uptime =
    codes "lan8651_t1s_demo\nipv4="
    ++ (ip
        ++ (codes "\nudp_port="
            ++ (decimal udp_port ++ (codes "\nuptime_ms=" ++ (decimal64 uptime ++ codes "\n")))))

unfoldable pub head_text : ℕ → List ℕ
head_text body_len =
    codes "HTTP/1.1 200 OK\r\nContent-Type: text/plain\r\nContent-Length: "
    ++ (decimal body_len ++ codes "\r\nConnection: close\r\n\r\n")

-- The buffer and the length that `http_server` hands to `zsock_send`: `body` has 192 bytes and
-- `response` 384, while `body_len` and `response_len` are the lengths of the whole texts.
unfoldable pub http_reply : List ℕ → ℕ → ℕ → List ℕ × ℕ
unfolding body_text head_text
http_reply ip udp_port uptime =
    let whole = body_text ip udp_port uptime in
    let response = head_text (length whole) ++ stored 192 whole in
    (stored 384 response ++ (0 ∷ []), length response)

unfoldable pub message_text : ℕ → ℕ → List ℕ
unfolding decimal64
message_text seq uptime =
    codes "lan8651_t1s seq=" ++ (decimal seq ++ (codes " uptime_ms=" ++ decimal64 uptime))

-- The buffer of 64 bytes and the length that `main` hands to `zsock_sendto`.
unfoldable pub udp_message : ℕ → ℕ → List ℕ × ℕ
unfolding message_text
udp_message seq uptime =
    let text = message_text seq uptime in (stored 64 text ++ (0 ∷ []), length text)
