-- ===== src/T1s/Firmware/Reboots.antt =====
-- When `firmware_handler` of app/demos/ethernet_bridge/t1s_device/src/main.c schedules a reboot.
use zephyr_start.Base.{
  Bool, List, [], arith, false, if◌then◌else◌, length, refl, suc, true, ℕ, ◌%◌, ◌+◌, ◌^◌, ◌∷◌, ◌≡◌,
}
use zephyr_start.T1s.Firmware.Failures.{is_accepted}
use zephyr_start.T1s.Firmware.{
  Loader, Response, Status, Upload, aborted, after_upgrade, after_write, data_final, data_more,
  fail, finish, firmware_handler, handle_data, write, complete, after_init,
}

-- `reboots` counts the calls that schedule the reboot, which no other call does.
pub record CountsReboots {W : Type 0} (l : Loader W) (reboots : W → ℕ) : Type 0 where
  pub init_keeps : (w : W) → reboots (l.flash_img_init w).1 ≡ reboots w
  pub write_keeps :
      (bytes : List ℕ) (final : Bool) (w : W)
      → reboots (l.flash_img_buffered_write bytes final w).1 ≡ reboots w
  pub request_keeps : (w : W) → reboots (l.boot_request_upgrade w).1 ≡ reboots w
  pub schedule_counts : (w : W) → reboots (l.schedule_reboot w) ≡ suc (reboots w)

-- The handler on the calls of the server, in order.
unfoldable pub handler_calls :
    {W : Type 0} → Loader W → List Status → Upload W → List Response × Upload W
handler_calls l [] u = ([], u)
handler_calls l (s ∷ ss) u =
    let (r, u') = firmware_handler l s u in let (rs, u'') = handler_calls l ss u' in (r ∷ rs, u'')

abbrev pub accepted_count : List Response → ℕ
accepted_count [] = 0
accepted_count (r ∷ rs) = (if is_accepted r then 1 else 0) + accepted_count rs

module _ {W : Type 0} (l : Loader W) (reboots : W → ℕ) (k : CountsReboots l reboots) where
  -- One reboot more for a success.
  abbrev Schedules : ℕ → Response × Upload W → Type 0
  Schedules before (r, u) = reboots u.world ≡ (if is_accepted r then suc before else before)

  finish-Schedules : (final : Bool) (u : Upload W) → Schedules (reboots u.world) (finish l final u)
  unfolding finish after_upgrade fail
  finish-Schedules false u = refl
  finish-Schedules true u =
      let requested = (l.boot_request_upgrade u.world).1 in
      ground (arith, k.request_keeps u.world, k.schedule_counts requested)

  write-Schedules :
      (bytes : List ℕ) (final : Bool) (u : Upload W)
      → Schedules (reboots u.world) (write l bytes final u)
  unfolding write after_write fail
  write-Schedules [] final u = finish-Schedules final u
  write-Schedules (x ∷ bytes) final u =
      let w : W = (l.flash_img_buffered_write (x ∷ bytes) final u.world).1 in
      let written : Upload W = record u {
        world = w;
        fw_received = (u.fw_received + length (x ∷ bytes)) % 2 ^ 32;
      } in
      ground (arith, k.write_keeps (x ∷ bytes) final u.world, finish-Schedules final written)

  handle_data-Schedules :
      (bytes : List ℕ) (final : Bool) (u : Upload W)
      → Schedules (reboots u.world) (handle_data l bytes final u)
  unfolding handle_data after_init fail
  handle_data-Schedules bytes final u =
      let begun : Upload W = record u {
        world = (l.flash_img_init u.world).1;
        fw_in_progress = true;
        fw_received = 0;
      } in
      ground (
        arith,
        k.init_keeps u.world,
        write-Schedules bytes final u,
        write-Schedules bytes final begun,
      )

  firmware_handler-Schedules :
      (s : Status) (u : Upload W) → Schedules (reboots u.world) (firmware_handler l s u)
  unfolding firmware_handler
  firmware_handler-Schedules aborted u = refl
  firmware_handler-Schedules complete u = refl
  firmware_handler-Schedules (data_more bytes) u = handle_data-Schedules bytes false u
  firmware_handler-Schedules (data_final bytes) u = handle_data-Schedules bytes true u

  -- Over any sequence of calls, as many reboots are scheduled as replies report a success: no failed,
  -- aborted or unfinished upload restarts the device.
  pub handler_calls-reboots :
      (ss : List Status) (u : Upload W)
      → reboots (handler_calls l ss u).1.world
        ≡ reboots u.world + accepted_count (handler_calls l ss u).0
  unfolding handler_calls
  handler_calls-reboots [] u = omega arith
  handler_calls-reboots (s ∷ ss) u =
      ground
        (arith, firmware_handler-Schedules s u, handler_calls-reboots ss (firmware_handler l s u).1)
