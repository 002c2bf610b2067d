-- ===== src/T1s/Firmware/Tests.antt =====
-- Tests of the firmware upload, and instances of its theorems.
use zephyr_start.Base.{
  Bool, List, [], arith, false, if◌then◌else◌, neg, pos, refl, suc, true, ℕ, ◌&&◌, ◌++◌, ◌+◌, ◌==◌,
  ◌||◌, ◌∷◌, ◌≡◌,
}
use zephyr_start.T1s.Firmware.Uploads.{AllSilent, IsFlushing, IsLoader, joined, send_parts}
use zephyr_start.T1s.Firmware.Success.{upload_succeeds, upload_unflushed, IsHealthy}
use zephyr_start.T1s.Firmware.Restarts.{rejected-restarts}
use zephyr_start.T1s.Firmware.Reboots.{
  CountsReboots, accepted_count, handler_calls, handler_calls-reboots,
}
use zephyr_start.T1s.Firmware.Failures.{firmware_handler_outcome, is_accepted, is_rejected}
use zephyr_start.T1s.Firmware.{
  Loader, Status, Upload, aborted, data_final, data_more, final_chunk, firmware_handler, complete,
  accepted,
}

-- The second slot of the flash, with a writer that keeps what it is given until it is told to flush.
record Slot : Type 0 where
  given : List ℕ
  image : List ℕ
  upgrades : ℕ

abbrev put : List ℕ → Bool → Slot → Slot
put bytes final w =
    let all = w.given ++ bytes in record w { given = all; image = if final then all else w.image }

abbrev loader : Loader Slot
loader = record {
  flash_img_init = λ w. (pos 0, record w { given = []; image = [] });
  flash_img_buffered_write = λ bytes final w. (pos 0, put bytes final w);
  boot_request_upgrade = λ w. (pos 0, record w { upgrades = suc w.upgrades });
  schedule_reboot = λ w. w;
}

loader-IsLoader : IsLoader loader (λ w. w.given) (λ w. w.upgrades)
loader-IsLoader = record {
  init_given = λ w h. refl;
  init_upgrades = λ w. refl;
  write_given = λ bytes final w h. refl;
  write_upgrades = λ bytes final w. refl;
  request_given = λ w. refl;
  request_upgrades = λ w. refl;
  reboot_given = λ w. refl;
  reboot_upgrades = λ w. refl;
}

loader-IsFlushing : IsFlushing loader (λ w. w.given) (λ w. w.image)
loader-IsFlushing = record {
  write_flushed = λ bytes w h. refl;
  request_image = λ w. refl;
  reboot_image = λ w. refl;
}

abbrev idle : Upload Slot
idle = record {
  fw_in_progress = false;
  fw_received = 0;
  world = record { given = []; image = 1 ∷ []; upgrades = 0 };
}

abbrev parts : List (List ℕ)
parts = (4 ∷ 5 ∷ []) ∷ (6 ∷ []) ∷ []

parts_silent : AllSilent (send_parts loader parts idle).0
unfolding send_parts firmware_handler
parts_silent = (refl, (refl, tt))

last_accepted :
    (firmware_handler loader (data_final (7 ∷ [])) (send_parts loader parts idle).1).0
    ≡ final_chunk true (accepted 4)
unfolding send_parts firmware_handler
last_accepted = refl

loader-IsHealthy : IsHealthy loader
loader-IsHealthy = record {
  inits = λ w. refl;
  writes = λ bytes final w. refl;
  requests = λ w. refl;
}

upload_succeeds_example :
    let (reply, u') =
      firmware_handler loader (data_final (7 ∷ [])) (send_parts loader parts idle).1 in
    (reply ≡ final_chunk true (accepted 4))
    × (u'.world.image ≡ 4 ∷ 5 ∷ 6 ∷ 7 ∷ [])
    × (u'.world.upgrades ≡ 1)
    × (u'.fw_in_progress ≡ false)
    × (u'.fw_received ≡ 0)
unfolding joined
upload_succeeds_example =
    upload_succeeds loader (λ w. w.given) (λ w. w.image) (λ w. w.upgrades) loader-IsLoader
      loader-IsFlushing loader-IsHealthy parts 7 [] idle refl

-- The slot is still empty when it is marked for the next boot.
upload_unflushed_example :
    let (reply, u') = firmware_handler loader (data_final []) (send_parts loader parts idle).1 in
    (reply ≡ final_chunk true (accepted 3)) × (u'.world.image ≡ []) × (u'.world.upgrades ≡ 1)
unfolding joined send_parts firmware_handler
upload_unflushed_example =
    upload_unflushed loader (λ w. w.given) (λ w. w.image) (λ w. w.upgrades) loader-IsLoader
      loader-IsFlushing loader-IsHealthy (4 ∷ 5 ∷ []) ((6 ∷ []) ∷ []) idle refl

firmware_handler_outcome_example :
    let (r, u') = firmware_handler loader (data_final (7 ∷ [])) idle in
    (u'.world.upgrades ≡ (if is_accepted r then 1 else 0))
    × ((is_accepted r || is_rejected r) && u'.fw_in_progress ≡ false)
    × ((if is_accepted r || is_rejected r then u'.fw_received else 0) ≡ 0)
firmware_handler_outcome_example =
    firmware_handler_outcome loader (λ w. w.given) (λ w. w.upgrades) loader-IsLoader
      (data_final (7 ∷ [])) idle

-- A writer that fails on a part that begins with 255.
abbrev spoilt : List ℕ → Bool
spoilt [] = false
spoilt (b ∷ bytes) = b == 255

abbrev flaky : Loader Slot
flaky = record {
  flash_img_init = λ w. (pos 0, record w { given = []; image = [] });
  flash_img_buffered_write =
      λ bytes final w. if spoilt bytes then (neg 5, w) else (pos 0, put bytes final w);
  boot_request_upgrade = λ w. (pos 0, record w { upgrades = suc w.upgrades });
  schedule_reboot = λ w. w;
}

flaky-IsLoader : IsLoader flaky (λ w. w.given) (λ w. w.upgrades)
flaky-IsLoader = record {
  init_given = λ w h. refl;
  init_upgrades = λ w. refl;
  write_given = λ bytes final w h. ground (arith, h);
  write_upgrades = λ bytes final w. ground arith;
  request_given = λ w. refl;
  request_upgrades = λ w. refl;
  reboot_given = λ w. refl;
  reboot_upgrades = λ w. refl;
}

flaky-IsFlushing : IsFlushing flaky (λ w. w.given) (λ w. w.image)
flaky-IsFlushing = record {
  write_flushed = λ bytes w h. ground (arith, h);
  request_image = λ w. refl;
  reboot_image = λ w. refl;
}

-- Of an upload of 4, 255 and 7 the last byte alone is marked for the next boot.
rejected-restarts_example :
    let (r, u) = firmware_handler flaky (data_more (4 ∷ [])) idle in
    let u' = (firmware_handler flaky (data_more (255 ∷ [])) u).1 in
    let (reply, u'') = firmware_handler flaky (data_final (7 ∷ [])) u' in
    (reply ≡ final_chunk true (accepted 1)) × (u''.world.image ≡ 7 ∷ []) × (u''.world.upgrades ≡ 1)
unfolding firmware_handler
rejected-restarts_example =
    rejected-restarts flaky (λ w. w.given) (λ w. w.image) (λ w. w.upgrades) flaky-IsLoader
      flaky-IsFlushing (255 ∷ []) (firmware_handler flaky (data_more (4 ∷ [])) idle).1 refl 7 []
      refl refl refl

-- The world is the number of reboots.
abbrev restarting : Loader ℕ
restarting = record {
  flash_img_init = λ w. (pos 0, w);
  flash_img_buffered_write = λ bytes final w. if spoilt bytes then (neg 5, w) else (pos 0, w);
  boot_request_upgrade = λ w. (pos 0, w);
  schedule_reboot = λ w. suc w;
}

restarting-CountsReboots : CountsReboots restarting (λ w. w)
restarting-CountsReboots = record {
  init_keeps = λ w. refl;
  write_keeps = λ bytes final w. ground arith;
  request_keeps = λ w. refl;
  schedule_counts = λ w. refl;
}

abbrev not_started : Upload ℕ
not_started = record { fw_in_progress = false; fw_received = 0; world = 0 }

-- An upload that is aborted, one that fails, and one that succeeds: one reboot.
abbrev three_uploads : List Status
three_uploads =
    data_more (4 ∷ [])
    ∷ aborted
    ∷ data_final (255 ∷ [])
    ∷ data_more (5 ∷ [])
    ∷ data_final (6 ∷ [])
    ∷ complete
    ∷ []

handler_calls-reboots_example :
    (handler_calls restarting three_uploads not_started).1.world
    ≡ 0 + accepted_count (handler_calls restarting three_uploads not_started).0
handler_calls-reboots_example =
    handler_calls-reboots restarting (λ w. w) restarting-CountsReboots three_uploads not_started

one_reboot : (handler_calls restarting three_uploads not_started).1.world ≡ 1
unfolding handler_calls firmware_handler
one_reboot = refl
