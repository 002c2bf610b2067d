-- ===== src/CanGen/Frames.antt =====
-- What a receiver reads in the demo frames of
-- app/demos/frdm_can_traffic_generator/src/main.c.
use zephyr_start.Base.{
  Every, List, [], arith, get_or, if◌then◌else◌, length, ℕ, ◌%◌, ◌*◌, ◌+◌, ◌<◌, ◌^◌, ◌∷◌, ◌≡◌, ◌≤◌,
}
use zephyr_start.CanGen.Defs.{demo_frames, heartbeat, sensor, status}
use zephyr_start.CanGen.Board.{IsLittleEndian, Board, Frame}

-- The value of bytes that stand low byte first.
pub decode_le : List ℕ → ℕ
decode_le [] = 0
decode_le (x ∷ xs) = x + 256 * decode_le xs

-- A frame as the controller takes it: an identifier of 11 or 29 bits, and as many bytes as its length
-- says, at most 8.
pub record IsFrame (f : Frame) : Type 0 where
  pub id_fits : f.id < (if f.ide then 2 ^ 29 else 2 ^ 11)
  pub full : length f.payload ≡ f.dlc
  pub short : f.dlc ≤ 8
  pub bytes : Every f.payload (λ x. x < 256)

module _ {W : Type 0} (b : Board W) (e : IsLittleEndian b) where
  heartbeat-IsFrame : (seq : ℕ) → IsFrame (heartbeat b seq)
  unfolding heartbeat
  heartbeat-IsFrame seq = ground arith

  status-IsFrame : (seq uptime_ms : ℕ) → IsFrame (status b seq uptime_ms)
  unfolding status
  status-IsFrame seq uptime_ms = record {
    id_fits = omega arith;
    full = simp (e.le16, e.le32) (omega arith);
    short = omega arith;
    bytes = simp (e.le16, e.le32) (omega arith);
  }

  sensor-IsFrame : (seq : ℕ) → IsFrame (sensor b seq)
  unfolding sensor
  sensor-IsFrame seq = record {
    id_fits = omega arith;
    full = simp e.le16 (omega arith);
    short = omega arith;
    bytes = simp e.le16 (omega arith);
  }

  -- The three frames of a set are well formed.
  pub demo_frames-IsFrame : (seq uptime_ms : ℕ) → Every (demo_frames b seq uptime_ms) IsFrame
  demo_frames-IsFrame seq uptime_ms =
      (heartbeat-IsFrame seq, (status-IsFrame seq uptime_ms, (sensor-IsFrame seq, tt)))

  -- From the status frame a receiver reads the low half of the sequence number and, below 2 ^ 32,
  -- the uptime; from the sensor frame the same half of the sequence number, and readings from 2200
  -- to 2595 and from 3300 to 3324, which follow the sequence number.
  pub demo_frames-decode :
      (seq uptime_ms : ℕ)
      → uptime_ms < 2 ^ 32
      → let s = (status b seq uptime_ms).payload in
        let t = (sensor b seq).payload in
        let byte = λ (p : List ℕ) (i : ℕ). get_or p i 0 in
        (decode_le (byte s 2 ∷ byte s 3 ∷ []) ≡ seq % 2 ^ 16)
        × (decode_le (byte s 4 ∷ byte s 5 ∷ byte s 6 ∷ byte s 7 ∷ []) ≡ uptime_ms)
        × (decode_le (byte t 0 ∷ byte t 1 ∷ []) ≡ seq % 2 ^ 16)
        × (decode_le (byte t 2 ∷ byte t 3 ∷ []) ≡ 2200 + seq % 80 * 5)
        × (decode_le (byte t 4 ∷ byte t 5 ∷ []) ≡ 3300 + seq % 25)
  unfolding status sensor decode_le
  demo_frames-decode seq uptime_ms h = simp (e.le16, e.le32) (omega arith)
