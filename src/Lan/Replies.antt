-- ===== src/Lan/Replies.antt =====
-- What `http_server` of app/demos/ethernet_bridge/lan8651_t1s_demo/src/main.c answers.
use zephyr_start.Base.{
  Every, Every-append, List, Option-cases, [], ap, append-nil, append_assoc, arith, false, inl, inr,
  is_neg, length, map, refl, sym, true, ℕ, ℤ, ◌++◌, ◌∙◌, ◌∷◌, ◌≡◌, ◌≤◌,
}
use zephyr_start.Lan.Servers.{answer, http_server, ip_buf, world_of}
use zephyr_start.Lan.Reply.{http_reply_lem, sent}
use zephyr_start.Lan.Net.{Net}
use zephyr_start.Lan.Kept.{IsKept, http_server-kept}
use zephyr_start.Lan.Defs.{body_text, get_ipv4_addr, head_text, http_reply, ipv4_to_text}

-- The descriptors accepted so far, and the calls of `zsock_send` so far, each with its descriptor and
-- its bytes, whatever it returned; no other call sends on a stream. The text of an address has 15
-- characters at most.
pub record LogsReplies {W : Type 0} (net : Net W) (accepted : W → List ℤ)
    (replies : W → List (ℤ × List ℕ)) : Type 0 where
  pub text_short : (a : List ℕ) → length (net.net_addr_ntop a) ≤ 15
  pub accept_ok :
      (s : ℤ) (w : W)
      → is_neg (net.zsock_accept s w).0 ≡ false
      → accepted (net.zsock_accept s w).1 ≡ accepted w ++ ((net.zsock_accept s w).0 ∷ [])
  pub accept_err :
      (s : ℤ) (w : W)
      → is_neg (net.zsock_accept s w).0 ≡ true
      → accepted (net.zsock_accept s w).1 ≡ accepted w
  pub accept_replies : (s : ℤ) (w : W) → replies (net.zsock_accept s w).1 ≡ replies w
  pub send_replies :
      (s : ℤ) (bytes : List ℕ) (w : W)
      → replies (net.zsock_send s bytes w).1 ≡ replies w ++ ((s, bytes) ∷ [])
  pub send_accepted :
      (s : ℤ) (bytes : List ℕ) (w : W) → accepted (net.zsock_send s bytes w).1 ≡ accepted w
  pub recv_replies : (s : ℤ) (w : W) → replies (net.zsock_recv s w) ≡ replies w
  pub recv_accepted : (s : ℤ) (w : W) → accepted (net.zsock_recv s w) ≡ accepted w
  pub uptime_replies : (w : W) → replies (net.k_uptime_get w).1 ≡ replies w
  pub uptime_accepted : (w : W) → accepted (net.k_uptime_get w).1 ≡ accepted w
  pub socket_replies : (w : W) → replies (net.zsock_socket w).1 ≡ replies w
  pub socket_accepted : (w : W) → accepted (net.zsock_socket w).1 ≡ accepted w
  pub bind_replies : (s : ℤ) (w : W) → replies (net.zsock_bind s w).1 ≡ replies w
  pub bind_accepted : (s : ℤ) (w : W) → accepted (net.zsock_bind s w).1 ≡ accepted w
  pub listen_replies : (s : ℤ) (w : W) → replies (net.zsock_listen s w).1 ≡ replies w
  pub listen_accepted : (s : ℤ) (w : W) → accepted (net.zsock_listen s w).1 ≡ accepted w
  pub close_replies : (s : ℤ) (w : W) → replies (net.zsock_close s w) ≡ replies w
  pub close_accepted : (s : ℤ) (w : W) → accepted (net.zsock_close s w) ≡ accepted w
  pub sleep_replies : (ms : ℕ) (w : W) → replies (net.k_sleep ms w) ≡ replies w
  pub sleep_accepted : (ms : ℕ) (w : W) → accepted (net.k_sleep ms w) ≡ accepted w

-- A whole response: the head, with the length of the body, and the body.
abbrev pub IsReply : ℕ → List ℕ → Type 0
IsReply udp_port bytes =
    (ip : List ℕ) × (uptime : ℕ) × (bytes
      ≡ head_text (length (body_text ip udp_port uptime)) ++ body_text ip udp_port uptime)

map-append {ℓ κ} :
    {A : Type ℓ} {B : Type κ} (f : A → B) (xs ys : List A) → map f (xs ++ ys) ≡ map f xs ++ map f ys
map-append f [] ys = refl
map-append f (x ∷ xs) ys = ap (λ l. f x ∷ l) (map-append f xs ys)

module _ {W : Type 0} (net : Net W) (accepted : W → List ℤ) (replies : W → List (ℤ × List ℕ))
    (k : LogsReplies net accepted replies) where
  -- From `w` to `w'` the replies `rs` were sent: the descriptors are those of the clients accepted
  -- meanwhile, in order, each once.
  pub record Answered (udp_port : ℕ) (w w' : W) : Type 0 where
    pub rs : List (ℤ × List ℕ)
    pub went : replies w' ≡ replies w ++ rs
    pub each_client : accepted w' ≡ accepted w ++ map (λ r. r.0) rs
    pub whole : Every rs (λ r. IsReply udp_port r.1)

  Answered-same :
      (udp_port : ℕ) (w w' : W)
      → replies w' ≡ replies w
      → accepted w' ≡ accepted w
      → Answered udp_port w w'
  Answered-same udp_port w w' r a = record {
    rs = [];
    went = r ∙ sym (append-nil (replies w));
    each_client = a ∙ sym (append-nil (accepted w));
    whole = tt;
  }

  Answered-trans :
      (udp_port : ℕ) (u v w : W)
      → Answered udp_port u v
      → Answered udp_port v w
      → Answered udp_port u w
  Answered-trans udp_port u v w a b = record {
    rs = a.rs ++ b.rs;
    went = b.went ∙ (ap (λ l. l ++ b.rs) a.went ∙ append_assoc (replies u) a.rs b.rs);
    each_client =
        b.each_client
        ∙ (ap (λ l. l ++ map (λ r. r.0) b.rs) a.each_client
            ∙ (append_assoc (accepted u) (map (λ r. r.0) a.rs) (map (λ r. r.0) b.rs)
                ∙ ap (λ l. accepted u ++ l) (sym (map-append (λ r. r.0) a.rs b.rs))));
    whole = Every-append (λ r. IsReply udp_port r.1) a.rs b.rs b.whole a.whole;
  }

  ip_buf-short : (w : W) → length (ip_buf net w) ≤ 15
  unfolding ip_buf ipv4_to_text
  ip_buf-short w =
      elim (Option-cases
        (get_ipv4_addr net.net_ipv4_is_addr_unspecified net.net_addr_ntop (net.unicast w))) [
          | inl e ↦ ground (arith)
          | inr (addr, e) ↦ ground (arith, k.text_short addr)
        ]

  answer-Answered :
      (udp_port : ℕ) (s : ℤ) (w : W)
      → is_neg (net.zsock_accept s w).0 ≡ false
      → Answered udp_port w (answer net udp_port (net.zsock_accept s w).0 (net.zsock_accept s w).1)
  unfolding answer
  answer-Answered udp_port s w good =
      let (client, w1) = net.zsock_accept s w in
      let asked = net.zsock_recv client w1 in
      let (uptime, w2) = net.k_uptime_get asked in
      let ip : List ℕ = ip_buf net asked in
      let bytes : List ℕ = sent (http_reply ip udp_port uptime) in
      let (ret, said) = net.zsock_send client bytes w2 in
      record {
        rs = (client, bytes) ∷ [];
        went =
            k.close_replies client said
            ∙ (k.send_replies client bytes w2
                ∙ ap (λ l. l ++ ((client, bytes) ∷ []))
                    (k.uptime_replies asked ∙ (k.recv_replies client w1 ∙ k.accept_replies s w)));
        each_client =
            k.close_accepted client said
            ∙ (k.send_accepted client bytes w2
                ∙ (k.uptime_accepted asked ∙ (k.recv_accepted client w1 ∙ k.accept_ok s w good)));
        whole = ((ip, uptime, (http_reply_lem ip udp_port uptime (ip_buf-short asked)).1), tt);
      }

  Answered-IsKept : (udp_port : ℕ) → IsKept net udp_port (Answered udp_port)
  Answered-IsKept p = record {
    none_yet = λ w. Answered-same p w w refl refl;
    then_on = λ u v w a b. Answered-trans p u v w a b;
    socket = λ w. Answered-same p w _ (k.socket_replies w) (k.socket_accepted w);
    bind = λ s w. Answered-same p w _ (k.bind_replies s w) (k.bind_accepted s w);
    listen = λ s w. Answered-same p w _ (k.listen_replies s w) (k.listen_accepted s w);
    close = λ s w. Answered-same p w _ (k.close_replies s w) (k.close_accepted s w);
    sleep = λ ms w. Answered-same p w _ (k.sleep_replies ms w) (k.sleep_accepted ms w);
    refused = λ s w bad. Answered-same p w _ (k.accept_replies s w) (k.accept_err s w bad);
    served = λ s w good. answer-Answered p s w good;
  }

  -- However often the server starts again, it calls `zsock_send` once for each client that it accepts,
  -- in order and on the client's own socket, with a whole response, whose head gives the exact length
  -- of its body.
  pub http_server-Answered :
      (ns : List ℕ) (udp_port : ℕ) (w : W)
      → Answered udp_port w (world_of (http_server net ns udp_port w))
  http_server-Answered ns udp_port w =
      http_server-kept net udp_port (Answered udp_port) (Answered-IsKept udp_port) ns w
