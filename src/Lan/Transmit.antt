-- ===== src/Lan/Transmit.antt =====
-- What the last loop of `main` of app/demos/ethernet_bridge/lan8651_t1s_demo/src/main.c sends.
use zephyr_start.Base.{
  Bool-cases, List, [], ap, append-nil, append_assoc, if◌then◌else◌, inl, inr, is_neg, suc, sym,
  take, zero, ℕ, ℤ, ◌%◌, ◌++◌, ◌+◌, ◌^◌, ◌∙◌, ◌∷◌, ◌≡◌,
}
use zephyr_start.Lan.Servers.{transmit}
use zephyr_start.Lan.Reply.{udp_message_lem}
use zephyr_start.Lan.Net.{Datagram, Net}
use zephyr_start.Lan.Defs.{message_text, udp_message}
use zephyr_start.Lan.Datagrams.{LogsDatagrams}

-- A call of `zsock_sendto`: its socket, what it was to send, and what it returned.
pub record SendCall : Type 0 where
  pub socket : ℤ
  pub datagram : Datagram
  pub result : ℤ

-- The calls so far; no other call of the transmitter sends a datagram.
pub record LogsCalls {W : Type 0} (net : Net W) (calls : W → List SendCall) : Type 0 where
  pub sendto_call :
      (s : ℤ) (d : Datagram) (w : W)
      → calls (net.zsock_sendto s d w).1
        ≡ calls w ++ (record { socket = s; datagram = d; result = (net.zsock_sendto s d w).0 } ∷ [])
  pub uptime_call : (w : W) → calls (net.k_uptime_get w).1 ≡ calls w
  pub sleep_call : (ms : ℕ) (w : W) → calls (net.k_sleep ms w) ≡ calls w

-- `Numbered sock peer n seq cs`: the calls `cs` are `n` in number, each on `sock` and with one whole
-- message to `peer`, numbered from `seq` on; the numbers wrap around at 2 ^ 32.
pub data Numbered (sock : ℤ) (peer : List ℕ) : ℕ → ℕ → List SendCall → Type 0 where
  no_more : (seq : ℕ) → Numbered sock peer 0 seq []
  said :
      (n seq uptime : ℕ) (result : ℤ) (cs : List SendCall)
      → Numbered sock peer n ((seq + 1) % 2 ^ 32) cs
      → Numbered sock peer (suc n) seq (
          record {
            socket = sock;
            datagram = record { peer = peer; bytes = message_text seq uptime };
            result = result;
          }
          ∷ cs)

-- The datagrams of the calls that did not fail.
unfoldable pub delivered : List SendCall → List Datagram
delivered [] = []
delivered (c ∷ cs) = if is_neg c.result then delivered cs else c.datagram ∷ delivered cs

abbrev datagram_to : List ℕ → List ℕ → Datagram
datagram_to peer bytes = record { peer = peer; bytes = bytes }

abbrev call_of : ℤ → ℤ → Datagram → SendCall
call_of sock result d = record { socket = sock; datagram = d; result = result }

module _ {W : Type 0} (net : Net W) (received sent : W → List Datagram) (calls : W → List SendCall)
    (k : LogsDatagrams net received sent) (l : LogsCalls net calls) where
  -- From `w` to `w'`, `n` messages numbered from `seq` on were tried, and those went out whose send did
  -- not fail.
  pub record Transmits (sock : ℤ) (peer : List ℕ) (n seq : ℕ) (w w' : W) : Type 0 where
    pub cs : List SendCall
    pub tried : calls w' ≡ calls w ++ cs
    pub numbered : Numbered sock peer n seq cs
    pub went : sent w' ≡ sent w ++ delivered cs

  -- The loop tries each of its messages once, on its socket and to its peer, in the order of their
  -- numbers, which count up from `seq` modulo 2 ^ 32, each message whole and with its own number; what
  -- goes out are the messages whose send does not fail, in that order, and nothing else.
  pub transmit-Transmits :
      (n interval seq : ℕ) (sock : ℤ) (peer : List ℕ) (w : W)
      → Transmits sock peer n seq w (transmit net n interval seq sock peer w)
  unfolding transmit delivered
  transmit-Transmits zero interval seq sock peer w = record {
    cs = [];
    tried = sym (append-nil (calls w));
    numbered = no_more seq;
    went = sym (append-nil (sent w));
  }
  transmit-Transmits (suc n) interval seq sock peer w =
      let (uptime, w1) = net.k_uptime_get w in
      let (msg, len) = udp_message seq uptime in
      let d : Datagram = record { peer = peer; bytes = take len msg } in
      let (ret, w2) = net.zsock_sendto sock d w1 in
      let w3 = net.k_sleep interval w2 in
      let rest = transmit-Transmits n interval ((seq + 1) % 2 ^ 32) sock peer w3 in
      let text : Datagram = record { peer = peer; bytes = message_text seq uptime } in
      let whole : d ≡ text = ap (λ b. datagram_to peer b) (udp_message_lem seq uptime).1 in
      record {
        cs = call_of sock ret text ∷ rest.cs;
        tried =
            rest.tried
            ∙ (ap (λ c. c ++ rest.cs)
                  (l.sleep_call interval w2
                    ∙ (l.sendto_call sock d w1
                        ∙ (ap (λ c. c ++ (call_of sock ret d ∷ [])) (l.uptime_call w)
                            ∙ ap (λ x. calls w ++ (call_of sock ret x ∷ [])) whole)))
                ∙ append_assoc (calls w) (call_of sock ret text ∷ []) rest.cs);
        numbered = said n seq uptime ret rest.cs rest.numbered;
        went = elim (Bool-cases (is_neg ret)) [
          | inl failed ↦ rw failed (
              rest.went
              ∙ ap (λ c. c ++ delivered rest.cs)
                  (k.sleep_sent interval w2 ∙ (k.send_err sock d w1 failed ∙ k.uptime_sent w)))
          | inr fine ↦ rw fine (
              rest.went
              ∙ (ap (λ c. c ++ delivered rest.cs)
                    (k.sleep_sent interval w2
                      ∙ (k.send_ok sock d w1 fine
                          ∙ (ap (λ c. c ++ (d ∷ [])) (k.uptime_sent w)
                              ∙ ap (λ x. sent w ++ (x ∷ [])) whole)))
                  ∙ append_assoc (sent w) (text ∷ []) (delivered rest.cs)))
        ];
      }
