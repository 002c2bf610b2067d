-- ===== src/T1s/Firmware/Failures.antt =====
-- Every reply of `firmware_handler` of
-- app/demos/ethernet_bridge/t1s_device/src/main.c, failures included.
use zephyr_start.Base.{
  Bool, List, [], arith, false, if◌then◌else◌, length, suc, true, ℕ, ◌%◌, ◌&&◌, ◌+◌, ◌^◌, ◌||◌, ◌∷◌,
  ◌≡◌,
}
use zephyr_start.T1s.Firmware.Uploads.{IsLoader}
use zephyr_start.T1s.Firmware.{
  Loader, Response, Status, Upload, aborted, after_write, data_final, data_more, fail, final_chunk,
  finish, firmware_handler, handle_data, rejected, write, complete, accepted, silent, after_init,
}

-- The reply reports success.
abbrev pub is_accepted : Response → Bool
is_accepted silent = false
is_accepted (final_chunk cors (accepted n)) = true
is_accepted (final_chunk cors rejected) = false

abbrev pub is_rejected : Response → Bool
is_rejected silent = false
is_rejected (final_chunk cors (accepted n)) = false
is_rejected (final_chunk cors rejected) = true

module _ {W : Type 0} (l : Loader W) (given : W → List ℕ) (upgrades : W → ℕ)
    (k : IsLoader l given upgrades) where
  -- What a call with result `result` does, begun with `before` upgrades.
  record IsOutcome (before : ℕ) (result : Response × Upload W) : Type 0 where
    marked : upgrades result.1.world ≡ (if is_accepted result.0 then suc before else before)
    accepted_idle : is_accepted result.0 ≡ true → result.1.fw_in_progress ≡ false
    accepted_clear : is_accepted result.0 ≡ true → result.1.fw_received ≡ 0
    rejected_idle : is_rejected result.0 ≡ true → result.1.fw_in_progress ≡ false
    rejected_clear : is_rejected result.0 ≡ true → result.1.fw_received ≡ 0

  finish-IsOutcome : (final : Bool) (u : Upload W) → IsOutcome (upgrades u.world) (finish l final u)
  unfolding finish
  finish-IsOutcome false u = ground arith
  finish-IsOutcome true u =
      ground
        (arith, k.request_upgrades u.world, k.reboot_upgrades (l.boot_request_upgrade u.world).1)

  write-IsOutcome :
      (bytes : List ℕ) (final : Bool) (u : Upload W)
      → IsOutcome (upgrades u.world) (write l bytes final u)
  unfolding write after_write fail
  write-IsOutcome [] final u = finish-IsOutcome final u
  write-IsOutcome (x ∷ bytes) final u =
      let w : W = (l.flash_img_buffered_write (x ∷ bytes) final u.world).1 in
      let written : Upload W = record u {
        world = w;
        fw_received = (u.fw_received + length (x ∷ bytes)) % 2 ^ 32;
      } in
      ground (arith, k.write_upgrades (x ∷ bytes) final u.world, finish-IsOutcome final written)

  handle_data-IsOutcome :
      (bytes : List ℕ) (final : Bool) (u : Upload W)
      → IsOutcome (upgrades u.world) (handle_data l bytes final u)
  unfolding handle_data after_init fail
  handle_data-IsOutcome bytes final u =
      let begun : Upload W = record u {
        world = (l.flash_img_init u.world).1;
        fw_in_progress = true;
        fw_received = 0;
      } in
      ground (
        arith,
        k.init_upgrades u.world,
        write-IsOutcome bytes final u,
        write-IsOutcome bytes final begun,
      )

  firmware_handler-IsOutcome :
      (s : Status) (u : Upload W) → IsOutcome (upgrades u.world) (firmware_handler l s u)
  unfolding firmware_handler
  firmware_handler-IsOutcome aborted u = ground arith
  firmware_handler-IsOutcome complete u = ground arith
  firmware_handler-IsOutcome (data_more bytes) u = handle_data-IsOutcome bytes false u
  firmware_handler-IsOutcome (data_final bytes) u = handle_data-IsOutcome bytes true u

  -- After a reply that reports a failure no session is open.
  pub rejected_stops :
      (s : Status) (u : Upload W)
      → is_rejected (firmware_handler l s u).0 ≡ true
      → (firmware_handler l s u).1.fw_in_progress ≡ false
  rejected_stops s u = (firmware_handler-IsOutcome s u).rejected_idle

  -- On every call, whatever its status: one upgrade is marked if the reply is a success and none
  -- otherwise, and after a reply, of a success or of a failure, no session is open and no byte is
  -- counted.
  pub firmware_handler_outcome :
      (s : Status) (u : Upload W)
      → let (r, u') = firmware_handler l s u in
        let replied = is_accepted r || is_rejected r in
        (upgrades u'.world ≡ (if is_accepted r then suc (upgrades u.world) else upgrades u.world))
        × (replied && u'.fw_in_progress ≡ false)
        × ((if replied then u'.fw_received else 0) ≡ 0)
  firmware_handler_outcome s u =
      let o = firmware_handler-IsOutcome s u in
      let (r, u') = firmware_handler l s u in
      (
        o.marked,
        ground (arith, o.accepted_idle, o.rejected_idle),
        ground (arith, o.accepted_clear, o.rejected_clear),
      )
