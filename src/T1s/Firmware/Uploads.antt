-- ===== src/T1s/Firmware/Uploads.antt =====
-- What an upload gives to the flash writer, for `firmware_handler` of
-- app/demos/ethernet_bridge/t1s_device/src/main.c.
use zephyr_start.Base.{
  Bool, List, [], ap, append-nil, append_assoc, arith, false, if◌then◌else◌, inr, is_neg, length,
  length-append, refl, suc, true, ℕ, ◌%◌, ◌++◌, ◌+◌, ◌^◌, ◌∙◌, ◌∷◌, ◌≡◌, ◌⊎◌,
}
use zephyr_start.T1s.Firmware.{
  Loader, Response, Upload, after_write, data_final, data_more, fail, final_chunk, finish,
  firmware_handler, handle_data, write, accepted, silent, after_init,
}

-- The documented contract of the writer: `given` is what it was given since it was set up, in the second
-- slot or still in its buffer; `upgrades` counts the upgrades that were requested with success.
pub record IsLoader {W : Type 0} (l : Loader W) (given : W → List ℕ) (upgrades : W → ℕ)
    : Type 0 where
  pub init_given :
      (w : W) → is_neg (l.flash_img_init w).0 ≡ false → given (l.flash_img_init w).1 ≡ []
  pub init_upgrades : (w : W) → upgrades (l.flash_img_init w).1 ≡ upgrades w
  pub write_given :
      (bytes : List ℕ) (final : Bool) (w : W)
      → is_neg (l.flash_img_buffered_write bytes final w).0 ≡ false
      → given (l.flash_img_buffered_write bytes final w).1 ≡ given w ++ bytes
  pub write_upgrades :
      (bytes : List ℕ) (final : Bool) (w : W)
      → upgrades (l.flash_img_buffered_write bytes final w).1 ≡ upgrades w
  pub request_given : (w : W) → given (l.boot_request_upgrade w).1 ≡ given w
  pub request_upgrades :
      (w : W)
      → upgrades (l.boot_request_upgrade w).1
        ≡ (if is_neg (l.boot_request_upgrade w).0 then upgrades w else suc (upgrades w))
  pub reboot_given : (w : W) → given (l.schedule_reboot w) ≡ given w
  pub reboot_upgrades : (w : W) → upgrades (l.schedule_reboot w) ≡ upgrades w

-- The rest of the contract: `image` is what the second slot holds of it. A write that is told to flush
-- leaves all that was given in the slot.
pub record IsFlushing {W : Type 0} (l : Loader W) (given image : W → List ℕ) : Type 0 where
  pub write_flushed :
      (bytes : List ℕ) (w : W)
      → is_neg (l.flash_img_buffered_write bytes true w).0 ≡ false
      → image (l.flash_img_buffered_write bytes true w).1
        ≡ given (l.flash_img_buffered_write bytes true w).1
  pub request_image : (w : W) → image (l.boot_request_upgrade w).1 ≡ image w
  pub reboot_image : (w : W) → image (l.schedule_reboot w) ≡ image w

module _ {W : Type 0} (l : Loader W) where
  -- The responses to parts of an upload that are not the last.
  unfoldable pub send_parts : List (List ℕ) → Upload W → List Response × Upload W
  send_parts [] u = ([], u)
  send_parts (p ∷ ps) u =
      let (r, u') = firmware_handler l (data_more p) u in
      let (rs, u'') = send_parts ps u' in (r ∷ rs, u'')

-- Which responses say nothing.
abbrev pub AllSilent : List Response → Type 0
AllSilent [] = Unit {0}
AllSilent (r ∷ rs) = (r ≡ silent) × AllSilent rs

unfoldable pub joined : List (List ℕ) → List ℕ
joined [] = []
joined (p ∷ ps) = p ++ joined ps

module _ {W : Type 0} (l : Loader W) (given : W → List ℕ) (upgrades : W → ℕ)
    (k : IsLoader l given upgrades) where
  -- The bytes of the session so far; a session that has not begun has none.
  abbrev Holds : List ℕ → Upload W → Type 0
  Holds acc u =
      ((u.fw_in_progress ≡ true) × (given u.world ≡ acc) × (u.fw_received ≡ length acc % 2 ^ 32))
      ⊎ ((u.fw_in_progress ≡ false) × (acc ≡ []))

  more-Holds :
      (acc bytes : List ℕ) (u : Upload W)
      → Holds acc u
      → (firmware_handler l (data_more bytes) u).0 ≡ silent
      → Holds (acc ++ bytes) (firmware_handler l (data_more bytes) u).1
        × (upgrades (firmware_handler l (data_more bytes) u).1.world ≡ upgrades u.world)
  unfolding firmware_handler
  more-Holds acc [] u h q =
      ground (arith, append-nil acc, k.init_given u.world, k.init_upgrades u.world)
  more-Holds acc (x ∷ bytes) u h q =
      let fresh : W = (l.flash_img_init u.world).1 in
      ground (
        arith,
        k.init_given u.world,
        k.init_upgrades u.world,
        k.write_given (x ∷ bytes) false u.world,
        k.write_upgrades (x ∷ bytes) false u.world,
        k.write_given (x ∷ bytes) false fresh,
        k.write_upgrades (x ∷ bytes) false fresh,
        length-append acc (x ∷ bytes),
      )

  -- What a final part that is answered with success has done, before the upgrade is requested.
  record Finished (data_all : List ℕ) (before : ℕ) (cors : Bool) (n : ℕ) (u : Upload W)
      : Type 0 where
    flashed : given u.world ≡ data_all
    counted : n ≡ length data_all % 2 ^ 32
    header : cors ≡ true
    marked : upgrades u.world ≡ suc before
    stopped : u.fw_in_progress ≡ false
    cleared : u.fw_received ≡ 0

  finish-Finished :
      (acc : List ℕ) (cors : Bool) (n : ℕ) (u : Upload W)
      → given u.world ≡ acc
      → u.fw_received ≡ length acc % 2 ^ 32
      → (finish l true u).0 ≡ final_chunk cors (accepted n)
      → Finished acc (upgrades u.world) cors n (finish l true u).1
  unfolding finish
  finish-Finished acc cors n u e r q =
      let asked : W = (l.boot_request_upgrade u.world).1 in
      ground (
        arith,
        k.request_given u.world,
        k.request_upgrades u.world,
        k.reboot_given asked,
        k.reboot_upgrades asked,
      )

  write-Finished :
      (acc bytes : List ℕ) (cors : Bool) (n : ℕ) (u : Upload W)
      → given u.world ≡ acc
      → u.fw_received ≡ length acc % 2 ^ 32
      → (write l bytes true u).0 ≡ final_chunk cors (accepted n)
      → Finished (acc ++ bytes) (upgrades u.world) cors n (write l bytes true u).1
  unfolding write after_write fail
  write-Finished acc [] cors n u e r q = rw (append-nil acc) (finish-Finished acc cors n u e r q)
  write-Finished acc (x ∷ bytes) cors n u e r q =
      let w : W = (l.flash_img_buffered_write (x ∷ bytes) true u.world).1 in
      let written : Upload W = record u {
        world = w;
        fw_received = (u.fw_received + length (x ∷ bytes)) % 2 ^ 32;
      } in
      ground (
        arith,
        k.write_given (x ∷ bytes) true u.world,
        k.write_upgrades (x ∷ bytes) true u.world,
        length-append acc (x ∷ bytes),
        finish-Finished (acc ++ (x ∷ bytes)) cors n written,
      )

  final-Finished :
      (acc bytes : List ℕ) (cors : Bool) (n : ℕ) (u : Upload W)
      → Holds acc u
      → (firmware_handler l (data_final bytes) u).0 ≡ final_chunk cors (accepted n)
      → Finished
          (acc ++ bytes)
          (upgrades u.world)
          cors
          n
          (firmware_handler l (data_final bytes) u).1
  unfolding firmware_handler handle_data after_init fail
  final-Finished acc bytes cors n u h q =
      let begun : Upload W = record u {
        world = (l.flash_img_init u.world).1;
        fw_in_progress = true;
        fw_received = 0;
      } in
      ground (
        arith,
        write-Finished acc bytes cors n u,
        write-Finished [] bytes cors n begun,
        k.init_given u.world,
        k.init_upgrades u.world,
      )

  parts-Holds :
      (ps : List (List ℕ)) (acc : List ℕ) (u : Upload W)
      → Holds acc u
      → AllSilent (send_parts l ps u).0
      → Holds (acc ++ joined ps) (send_parts l ps u).1
        × (upgrades (send_parts l ps u).1.world ≡ upgrades u.world)
  unfolding send_parts joined
  parts-Holds [] acc u h q = rw (append-nil acc) (h, refl)
  parts-Holds (p ∷ ps) acc u h q =
      let step = more-Holds acc p u h q.0 in
      let rest = parts-Holds ps (acc ++ p) (firmware_handler l (data_more p) u).1 step.0 q.1 in
      rw (← append_assoc acc p (joined ps)) (rest.0, rest.1 ∙ step.1)

  -- An upload in parts, none of which failed, that ends with the reply `accepted n`: the writer was
  -- given the parts joined in order and nothing else, `n` is their length, one upgrade was requested, and
  -- the handler is ready for the next upload.
  pub upload_lem :
      (ps : List (List ℕ)) (last : List ℕ) (cors : Bool) (n : ℕ) (u : Upload W)
      → u.fw_in_progress ≡ false
      → AllSilent (send_parts l ps u).0
      → let sent = (send_parts l ps u).1 in
        (firmware_handler l (data_final last) sent).0 ≡ final_chunk cors (accepted n)
        → let u' = (firmware_handler l (data_final last) sent).1 in
          (given u'.world ≡ joined ps ++ last)
          × (n ≡ length (joined ps ++ last) % 2 ^ 32)
          × (upgrades u'.world ≡ suc (upgrades u.world))
          × (u'.fw_in_progress ≡ false)
          × (u'.fw_received ≡ 0)
  upload_lem ps last cors n u idle q f =
      let sent = parts-Holds ps [] u (inr (idle, refl)) q in
      let done = final-Finished (joined ps) last cors n (send_parts l ps u).1 sent.0 f in
      (done.flashed, done.counted, done.marked ∙ ap suc sent.1, done.stopped, done.cleared)
