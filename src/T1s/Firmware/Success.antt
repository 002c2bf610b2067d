-- ===== src/T1s/Firmware/Success.antt =====
-- That an upload succeeds where nothing fails, for `firmware_handler` of
-- app/demos/ethernet_bridge/t1s_device/src/main.c.
use zephyr_start.Base.{
  Bool, Bool-cases, List, [], ap, arith, false, inl, inr, is_neg, length, refl, suc, true, ℕ, ◌%◌,
  ◌++◌, ◌+◌, ◌^◌, ◌∙◌, ◌∷◌, ◌≡◌,
}
use zephyr_start.T1s.Firmware.Uploads.{
  AllSilent, IsFlushing, IsLoader, joined, send_parts, upload_lem,
}
use zephyr_start.T1s.Firmware.{
  Loader, Upload, after_upgrade, after_write, data_final, data_more, final_chunk, finish,
  firmware_handler, handle_data, write, accepted, silent, after_init,
}

-- A loader on which no call fails.
pub record IsHealthy {W : Type 0} (l : Loader W) : Type 0 where
  pub inits : (w : W) → is_neg (l.flash_img_init w).0 ≡ false
  pub writes :
      (bytes : List ℕ) (final : Bool) (w : W)
      → is_neg (l.flash_img_buffered_write bytes final w).0 ≡ false
  pub requests : (w : W) → is_neg (l.boot_request_upgrade w).0 ≡ false

module _ {W : Type 0} (l : Loader W) (h : IsHealthy l) where
  write-silent : (bytes : List ℕ) (u : Upload W) → (write l bytes false u).0 ≡ silent
  unfolding write after_write finish
  write-silent [] u = refl
  write-silent (x ∷ bytes) u = ground (arith, h.writes (x ∷ bytes) false u.world)

  more-silent :
      (bytes : List ℕ) (u : Upload W) → (firmware_handler l (data_more bytes) u).0 ≡ silent
  unfolding firmware_handler handle_data after_init
  more-silent bytes u =
      let begun : Upload W = record u {
        world = (l.flash_img_init u.world).1;
        fw_in_progress = true;
        fw_received = 0;
      } in
      ground (arith, h.inits u.world, write-silent bytes u, write-silent bytes begun)

  parts-AllSilent : (ps : List (List ℕ)) (u : Upload W) → AllSilent (send_parts l ps u).0
  unfolding send_parts
  parts-AllSilent [] u = tt
  parts-AllSilent (p ∷ ps) u =
      (more-silent p u, parts-AllSilent ps (firmware_handler l (data_more p) u).1)

  finish-accepted : (u : Upload W) → (finish l true u).0 ≡ final_chunk true (accepted u.fw_received)
  unfolding finish after_upgrade
  finish-accepted u = ground (arith, h.requests u.world)

  write-accepted :
      (bytes : List ℕ) (u : Upload W)
      → (n : ℕ) × ((write l bytes true u).0 ≡ final_chunk true (accepted n))
  unfolding write after_write
  write-accepted [] u = (u.fw_received, finish-accepted u)
  write-accepted (x ∷ bytes) u =
      let written : Upload W = record u {
        world = (l.flash_img_buffered_write (x ∷ bytes) true u.world).1;
        fw_received = (u.fw_received + length (x ∷ bytes)) % 2 ^ 32;
      } in
      (
        written.fw_received,
        ground (arith, h.writes (x ∷ bytes) true u.world, finish-accepted written),
      )

  final-accepted :
      (bytes : List ℕ) (u : Upload W)
      → (n : ℕ) × ((firmware_handler l (data_final bytes) u).0 ≡ final_chunk true (accepted n))
  unfolding firmware_handler handle_data after_init
  final-accepted bytes u = elim (Bool-cases u.fw_in_progress) [
    | inl open_session ↦ let (n, e) = write-accepted bytes u in (n, ground arith)
    | inr idle_session ↦
        let begun : Upload W = record u {
          world = (l.flash_img_init u.world).1;
          fw_in_progress = true;
          fw_received = 0;
        } in
        let (n, e) = write-accepted bytes begun in (n, ground (arith, h.inits u.world))
  ]

  -- A part leaves the upload in progress.
  more-in_progress :
      (bytes : List ℕ) (u : Upload W)
      → (firmware_handler l (data_more bytes) u).1.fw_in_progress ≡ true
  unfolding firmware_handler handle_data after_init write after_write finish
  more-in_progress [] u = ground (arith, h.inits u.world)
  more-in_progress (x ∷ bytes) u =
      let fresh : W = (l.flash_img_init u.world).1 in
      ground (
        arith,
        h.inits u.world,
        h.writes (x ∷ bytes) false u.world,
        h.writes (x ∷ bytes) false fresh,
      )

  parts-in_progress :
      (ps : List (List ℕ)) (u : Upload W)
      → u.fw_in_progress ≡ true
      → (send_parts l ps u).1.fw_in_progress ≡ true
  unfolding send_parts
  parts-in_progress [] u e = e
  parts-in_progress (p ∷ ps) u e =
      parts-in_progress ps (firmware_handler l (data_more p) u).1 (more-in_progress p u)

module _ {W : Type 0} (l : Loader W) (given image : W → List ℕ) (upgrades : W → ℕ)
    (k : IsLoader l given upgrades) (f : IsFlushing l given image) (h : IsHealthy l) where
  -- A last part with bytes flushes the writer.
  final-flushed :
      (x : ℕ) (bytes : List ℕ) (u : Upload W)
      → let u' = (firmware_handler l (data_final (x ∷ bytes)) u).1 in
        image u'.world ≡ given u'.world
  unfolding firmware_handler handle_data after_init write after_write finish after_upgrade
  final-flushed x bytes u =
      let fresh : W = (l.flash_img_init u.world).1 in
      let w1 : W = (l.flash_img_buffered_write (x ∷ bytes) true u.world).1 in
      let w2 : W = (l.flash_img_buffered_write (x ∷ bytes) true fresh).1 in
      let r1 : W = (l.boot_request_upgrade w1).1 in
      let r2 : W = (l.boot_request_upgrade w2).1 in
      ground (
        arith,
        h.inits u.world,
        h.writes (x ∷ bytes) true u.world,
        h.writes (x ∷ bytes) true fresh,
        h.requests w1,
        h.requests w2,
        f.write_flushed (x ∷ bytes) u.world,
        f.write_flushed (x ∷ bytes) fresh,
        f.request_image w1,
        f.request_image w2,
        f.reboot_image r1,
        f.reboot_image r2,
        k.request_given w1,
        k.request_given w2,
        k.reboot_given r1,
        k.reboot_given r2,
      )

  -- On a loader on which no call fails, an upload in any parts, the last of which is not empty,
  -- succeeds: the reply reports the length of the parts joined in order, which are then what the slot
  -- holds, one upgrade was requested, and the handler is ready for the next upload.
  pub upload_succeeds :
      (ps : List (List ℕ)) (x : ℕ) (bytes : List ℕ) (u : Upload W)
      → u.fw_in_progress ≡ false
      → let all = joined ps ++ (x ∷ bytes) in
        let (reply, u') = firmware_handler l (data_final (x ∷ bytes)) (send_parts l ps u).1 in
        (reply ≡ final_chunk true (accepted (length all % 2 ^ 32)))
        × (image u'.world ≡ all)
        × (upgrades u'.world ≡ suc (upgrades u.world))
        × (u'.fw_in_progress ≡ false)
        × (u'.fw_received ≡ 0)
  upload_succeeds ps x bytes u idle =
      let sent = (send_parts l ps u).1 in
      let (n, reply) = final-accepted l h (x ∷ bytes) sent in
      let (all_given, counted, marked, stopped, cleared) =
        upload_lem l given upgrades k ps (x ∷ bytes) true n u idle (parts-AllSilent l h ps u)
          reply in
      (
        reply ∙ ap (λ m. final_chunk true (accepted m)) counted,
        final-flushed x bytes sent ∙ all_given,
        marked,
        stopped,
        cleared,
      )

  empty-unflushed :
      (u : Upload W)
      → u.fw_in_progress ≡ true
      → image (firmware_handler l (data_final []) u).1.world ≡ image u.world
  unfolding firmware_handler handle_data write finish after_upgrade
  empty-unflushed u going =
      let asked : W = (l.boot_request_upgrade u.world).1 in
      ground (arith, h.requests u.world, f.request_image u.world, f.reboot_image asked)

  -- On a loader on which no call fails, an upload in one part or more that ends with an empty last
  -- part is answered with success, with the length of the parts, and marked for the next boot, although
  -- the slot holds only what it held before the last part: the writer is not told to flush.
  pub upload_unflushed :
      (p : List ℕ) (ps : List (List ℕ)) (u : Upload W)
      → u.fw_in_progress ≡ false
      → let sent = (send_parts l (p ∷ ps) u).1 in
        let (reply, u') = firmware_handler l (data_final []) sent in
        (reply ≡ final_chunk true (accepted (length (joined (p ∷ ps) ++ []) % 2 ^ 32)))
        × (image u'.world ≡ image sent.world)
        × (upgrades u'.world ≡ suc (upgrades u.world))
  unfolding send_parts
  upload_unflushed p ps u idle =
      let sent = (send_parts l (p ∷ ps) u).1 in
      let (n, reply) = final-accepted l h [] sent in
      let (all_given, counted, marked, stopped, cleared) =
        upload_lem l given upgrades k (p ∷ ps) [] true n u idle (parts-AllSilent l h (p ∷ ps) u)
          reply in
      let going : sent.fw_in_progress ≡ true =
        parts-in_progress l h ps (firmware_handler l (data_more p) u).1
          (more-in_progress l h p u) in
      (reply ∙ ap (λ m. final_chunk true (accepted m)) counted, empty-unflushed sent going, marked)
