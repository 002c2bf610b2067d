-- ===== src/T1s/Firmware.antt =====
-- The firmware upload, `firmware_handler` of
-- app/demos/ethernet_bridge/t1s_device/src/main.c.
pub mod Uploads
pub mod Failures
pub mod Restarts
pub mod Reboots
pub mod Success
mod Tests
use zephyr_start.Base.{
  Bool, List, [], false, if◌then◌else◌, is_neg, length, true, ℕ, ℤ, ◌%◌, ◌+◌, ◌^◌, ◌∷◌,
}

-- `enum http_transaction_status`; the two kinds of data carry their bytes.
pub data Status : Type 0 where
  aborted complete : Status
  data_more data_final : List ℕ → Status

-- `boot_request_upgrade`, the flash image writer of MCUboot, and the work queue.
pub record Loader (W : Type 0) : Type 0 where
  pub flash_img_init : W → ℤ × W
  pub flash_img_buffered_write : List ℕ → Bool → W → ℤ × W
  pub boot_request_upgrade : W → ℤ × W
  pub schedule_reboot : W → W

-- `fw_in_progress`, `fw_received` (a `size_t` of 32 bits), and the world outside.
pub record Upload (W : Type 0) : Type 0 where
  pub fw_in_progress : Bool
  pub fw_received : ℕ
  pub world : W

-- The text of the reply: `{"ok":true,"bytes":N}` or `{"ok":false}`.
pub data Body : Type 0 where
  accepted : ℕ → Body
  rejected : Body

-- What the handler writes to the response context: nothing, or a body as its final chunk, with or
-- without the cross-origin header.
pub data Response : Type 0 where
  silent : Response
  final_chunk : Bool → Body → Response

module _ {W : Type 0} (l : Loader W) where
  unfoldable pub fw_abort : Upload W → Upload W
  fw_abort u = record u { fw_in_progress = false; fw_received = 0 }

  -- The label `error`; the header is set if the final part had been reached.
  unfoldable pub fail : Bool → Upload W → Response × Upload W
  unfolding fw_abort
  fail cors u = (final_chunk cors rejected, fw_abort u)

  unfoldable pub after_upgrade : ℕ → ℤ × W → Upload W → Response × Upload W
  unfolding fail
  after_upgrade total (ret, w) u =
      if is_neg ret
      then fail true (record u { world = w })
      else (final_chunk true (accepted total), record u { world = l.schedule_reboot w })

  unfoldable pub finish : Bool → Upload W → Response × Upload W
  unfolding after_upgrade fw_abort
  finish false u = (silent, u)
  finish true u = after_upgrade u.fw_received (l.boot_request_upgrade u.world) (fw_abort u)

  unfoldable pub after_write : List ℕ → Bool → ℤ × W → Upload W → Response × Upload W
  unfolding fail finish
  after_write bytes final (ret, w) u =
      if is_neg ret
      then fail false (record u { world = w })
      else finish final
          (record u { world = w; fw_received = (u.fw_received + length bytes) % 2 ^ 32 })

  unfoldable pub write : List ℕ → Bool → Upload W → Response × Upload W
  unfolding after_write finish
  write [] final u = finish final u
  write (x ∷ bytes) final u =
      after_write (x ∷ bytes) final (l.flash_img_buffered_write (x ∷ bytes) final u.world) u

  unfoldable pub after_init : List ℕ → Bool → ℤ × W → Upload W → Response × Upload W
  unfolding write fail
  after_init bytes final (ret, w) u =
      if is_neg ret
      then fail false (record u { world = w })
      else write bytes final (record u { world = w; fw_in_progress = true; fw_received = 0 })

  unfoldable pub handle_data : List ℕ → Bool → Upload W → Response × Upload W
  unfolding after_init write
  handle_data bytes final u =
      if u.fw_in_progress
      then write bytes final u
      else after_init bytes final (l.flash_img_init u.world) u

  unfoldable pub firmware_handler : Status → Upload W → Response × Upload W
  unfolding fw_abort handle_data
  firmware_handler aborted u = (silent, fw_abort u)
  firmware_handler complete u = (silent, u)
  firmware_handler (data_more bytes) u = handle_data bytes false u
  firmware_handler (data_final bytes) u = handle_data bytes true u
