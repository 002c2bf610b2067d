-- ===== src/T1s/Firmware/Restarts.antt =====
-- What follows a rejected part of an upload, for `firmware_handler` of
-- app/demos/ethernet_bridge/t1s_device/src/main.c.
use zephyr_start.Base.{
  List, ap, arith, false, is_neg, length, refl, suc, sym, true, ℕ, ◌%◌, ◌++◌, ◌^◌, ◌∙◌, ◌∷◌, ◌≡◌,
}
use zephyr_start.T1s.Firmware.Uploads.{IsFlushing, IsLoader}
use zephyr_start.T1s.Firmware.Failures.{
  firmware_handler_outcome, is_accepted, is_rejected, rejected_stops,
}
use zephyr_start.T1s.Firmware.{
  Loader, Response, Upload, after_upgrade, after_write, data_final, data_more, fail, final_chunk,
  finish, firmware_handler, handle_data, rejected, write, silent, accepted, after_init,
}

rejected_not_accepted : (r : Response) → is_rejected r ≡ true → is_accepted r ≡ false
rejected_not_accepted silent h = refl
rejected_not_accepted (final_chunk cors (accepted n)) h = sym h
rejected_not_accepted (final_chunk cors rejected) h = refl

module _ {W : Type 0} (l : Loader W) (given image : W → List ℕ) (upgrades : W → ℕ)
    (k : IsLoader l given upgrades) (f : IsFlushing l given image) where
  -- A last part that finds no session, on calls that do not fail.
  alone_accepted :
      (x : ℕ) (bytes : List ℕ) (u : Upload W)
      → u.fw_in_progress ≡ false
      → let begun = (l.flash_img_init u.world).1 in
        let written = l.flash_img_buffered_write (x ∷ bytes) true begun in
        is_neg (l.flash_img_init u.world).0 ≡ false
        → is_neg written.0 ≡ false
        → is_neg (l.boot_request_upgrade written.1).0 ≡ false
        → let (reply, u') = firmware_handler l (data_final (x ∷ bytes)) u in
          (reply ≡ final_chunk true (accepted (length (x ∷ bytes) % 2 ^ 32)))
          × (image u'.world ≡ x ∷ bytes)
          × (upgrades u'.world ≡ suc (upgrades u.world))
  unfolding firmware_handler handle_data after_init write after_write finish after_upgrade fail
  alone_accepted x bytes u idle e1 e2 e3 =
      let begun = (l.flash_img_init u.world).1 in
      let written = (l.flash_img_buffered_write (x ∷ bytes) true begun).1 in
      let requested = (l.boot_request_upgrade written).1 in
      let flashed : image written ≡ x ∷ bytes =
        f.write_flushed (x ∷ bytes) begun e2
        ∙ (k.write_given (x ∷ bytes) true begun e2
            ∙ ap (λ before. before ++ (x ∷ bytes)) (k.init_given u.world e1)) in
      ground (
        arith,
        flashed,
        k.init_upgrades u.world,
        k.write_upgrades (x ∷ bytes) true begun,
        f.request_image written,
        k.request_upgrades written,
        f.reboot_image requested,
        k.reboot_upgrades requested,
      )

  -- Where a part is answered with a failure and the next call brings the last part, which is not
  -- empty and on which no call of the writer or of the boot loader fails, the reply is a success, and
  -- an upgrade is requested to an image that holds the last part alone.
  pub rejected-restarts :
      (p : List ℕ) (u : Upload W)
      → is_rejected (firmware_handler l (data_more p) u).0 ≡ true
      → let u' = (firmware_handler l (data_more p) u).1 in
        (x : ℕ) (bytes : List ℕ)
        → let begun = (l.flash_img_init u'.world).1 in
          let written = l.flash_img_buffered_write (x ∷ bytes) true begun in
          is_neg (l.flash_img_init u'.world).0 ≡ false
          → is_neg written.0 ≡ false
          → is_neg (l.boot_request_upgrade written.1).0 ≡ false
          → let (reply, u'') = firmware_handler l (data_final (x ∷ bytes)) u' in
            (reply ≡ final_chunk true (accepted (length (x ∷ bytes) % 2 ^ 32)))
            × (image u''.world ≡ x ∷ bytes)
            × (upgrades u''.world ≡ suc (upgrades u.world))
  rejected-restarts p u failed x bytes e1 e2 e3 =
      let marked = (firmware_handler_outcome l given upgrades k (data_more p) u).0 in
      let stopped = rejected_stops l given upgrades k (data_more p) u failed in
      let u' = (firmware_handler l (data_more p) u).1 in
      let (reply, flashed, counted) = alone_accepted x bytes u' stopped e1 e2 e3 in
      let unmarked : upgrades u'.world ≡ upgrades u.world =
        ground
          (arith, marked, failed, rejected_not_accepted (firmware_handler l (data_more p) u).0) in
      (reply, flashed, counted ∙ ap suc unmarked)
