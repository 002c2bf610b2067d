-- ===== src/Littlefs/Tests.antt =====
-- A disk in memory, tests on it, and instances of the theorems about app/demos/littlefs/src/main.c.
use zephyr_start.Base.{
  List, [], ap, arith, drop, false, get_or, if◌then◌else◌, is_neg, is_nil, length, pos, refl,
  replicate, some, suc, take, true, zero, ℕ, ℤ, ◌++◌, ◌+◌, ◌<◌, ◌∷◌, ◌≡◌,
}
use zephyr_start.Littlefs.Pattern.Boots.{boots_lem, boots}
use zephyr_start.Littlefs.Pattern.{incr_pattern, init_pattern}
use zephyr_start.Littlefs.Handles.{Calls, Counts, IsFinite, main-closes, main-ends}
use zephyr_start.Littlefs.Fs.{
  Dirent, Fs, littlefs_binary_file_adj, littlefs_increase_infile_value, littlefs_mount, main,
}
use zephyr_start.Littlefs.File.{IsFile, IsHealthy}
use zephyr_start.Littlefs.Counted.{boots_counted, boots_counted-count}
use zephyr_start.Littlefs.Adjusted.{boots_adjusted, boots_adjusted-boots}

-- One file, the position of its handle, the entries that a listing has left, and the calls made.
record Disk : Type 0 where
  file : List ℕ
  position : ℕ
  left : ℕ
  calls : Calls

abbrev next_entry : ℕ → Disk → ℤ × Dirent × Disk
next_entry zero w = (pos 0, record { name = []; is_file = false; size = 0 }, w)
next_entry (suc n) w =
    (pos 0, record { name = 97 ∷ []; is_file = true; size = n }, record w { left = n })

abbrev disk_fs : Fs Disk
disk_fs = record {
  fs_opendir =
      λ p w. (pos 0, record w { left = 2; calls = record (w.calls) { opens = suc w.calls.opens } });
  fs_readdir = λ p w. next_entry w.left w;
  fs_closedir = λ p w. record w { calls = record (w.calls) { closes = suc w.calls.closes } };
  fs_open = λ p w.
      (pos 0, record w { position = 0; calls = record (w.calls) { opens = suc w.calls.opens } });
  fs_stat = λ p w. (pos 0, record { name = p; is_file = true; size = length w.file }, w);
  fs_read = λ p n w.
      let bytes = take n (drop w.position w.file) in
      (pos (length bytes), bytes, record w { position = w.position + length bytes });
  fs_seek = λ p w. (pos 0, record w { position = 0 });
  fs_write =
      λ p bytes w. (pos (length bytes), record w { file = bytes ++ drop (length bytes) w.file });
  fs_close = λ p w. (pos 0, record w { calls = record (w.calls) { closes = suc w.calls.closes } });
  fs_mount = λ w. (pos 0, w);
  fs_unmount =
      λ w. (pos 0, record w { calls = record (w.calls) { unmounts = suc w.calls.unmounts } });
  fs_statvfs = λ w. (pos 0, w);
  flash_area_open =
      λ w. (pos 0, record w { calls = record (w.calls) { areas = suc w.calls.areas } });
  flash_area_flatten = λ w. (pos 0, w);
  flash_area_close =
      λ w. record w { calls = record (w.calls) { area_closes = suc w.calls.area_closes } };
}

abbrev disk : Disk
disk = record {
  file = [];
  position = 0;
  left = 0;
  calls = record { opens = 0; closes = 0; areas = 0; area_closes = 0; unmounts = 0 };
}

next_entry-calls : (n : ℕ) (w : Disk) → (next_entry n w).2.calls ≡ w.calls
next_entry-calls zero w = refl
next_entry-calls (suc n) w = refl

disk-Counts : Counts disk_fs (λ w. w.calls)
disk-Counts = record {
  opendir = λ p w. refl;
  readdir = λ p w. next_entry-calls w.left w;
  closedir = λ p w. refl;
  open_file = λ p w. refl;
  stat = λ p w. refl;
  read = λ p n w. refl;
  seek = λ p w. refl;
  write = λ p bytes w. refl;
  close = λ p w. refl;
  mount = λ w. refl;
  unmount = λ w. refl;
  statvfs = λ w. refl;
  area_open = λ w. refl;
  flatten = λ w. refl;
  area_close = λ w. refl;
}

next_entry-falls :
    (n : ℕ) (w : Disk) → is_nil (next_entry n w).1.name ≡ false → (next_entry n w).2.left < n
next_entry-falls zero w h = absurd (ground arith)
next_entry-falls (suc n) w h = omega arith

disk-IsFinite : IsFinite disk_fs (λ w. w.left) 2
disk-IsFinite = record {
  falls = λ p w z h. next_entry-falls w.left w h;
  bounded = λ p w. omega arith;
}

disk-IsFile : IsFile disk_fs [] (λ w. w.file) (λ w. w.position)
disk-IsFile = record {
  open_content = λ w. refl;
  open_position = λ w h. refl;
  stat_content = λ w. refl;
  stat_position = λ w. refl;
  stat_size = λ w h. (refl, refl, refl);
  read_content = λ n w. refl;
  read_bytes = λ n w h q. ap (λ k. take n (drop k w.file)) h;
  seek_content = λ w. refl;
  seek_position = λ w h. refl;
  write_content = λ bytes w h q. refl;
  close_content = λ w. refl;
}

disk-IsHealthy : IsHealthy disk_fs []
disk-IsHealthy = record {
  opens = λ w. refl;
  stats = λ w. refl;
  reads = λ n w. refl;
  seeks = λ w. refl;
  writes = λ bytes w. refl;
  closes = λ w. refl;
}

-- A small array through two increments.
small_pattern :
    incr_pattern (incr_pattern (init_pattern [] 10) 10 1) 10 1
    ≡ 3 ∷ 0xAA ∷ 0xAA ∷ 0xAA ∷ 0xAA ∷ 0xAA ∷ 0xAA ∷ 0xAA ∷ 4 ∷ 0xAC ∷ []
unfolding incr_pattern init_pattern
small_pattern = refl

boots_lem_example : get_or (boots 200) 16 0 ≡ 203
boots_lem_example = boots_lem 200 16 (omega arith)

abbrev counted : Disk
counted = record disk {
  file = 2 ∷ [];
  calls = record { opens = 2; closes = 2; areas = 0; area_closes = 0; unmounts = 0 };
}

counted_twice :
    boots_counted disk_fs [] (λ w. w.file) (λ w. w.position) disk-IsFile 2 disk ≡ some counted
unfolding boots_counted littlefs_increase_infile_value
counted_twice = refl

boots_counted-count_example :
    (w' : Disk) × (boots_counted disk_fs [] (λ w. w.file) (λ w. w.position) disk-IsFile 300 disk
      ≡ some w')
    × (w'.file ≡ 44 ∷ [])
boots_counted-count_example =
    boots_counted-count disk_fs [] (λ w. w.file) (λ w. w.position) disk-IsFile disk-IsHealthy 299
      disk refl

abbrev adjusted : Disk
adjusted = (littlefs_binary_file_adj disk_fs [] (replicate 547 0) disk).2

adjusted_once :
    boots_adjusted disk_fs [] (λ w. w.file) (λ w. w.position) disk-IsFile 1 disk ≡ some adjusted
unfolding boots_adjusted littlefs_binary_file_adj
adjusted_once = refl

boots_adjusted-boots_example :
    (w' : Disk) × (boots_adjusted disk_fs [] (λ w. w.file) (λ w. w.position) disk-IsFile 5 disk
      ≡ some w')
    × (w'.file ≡ boots 4)
boots_adjusted-boots_example =
    boots_adjusted-boots disk_fs [] (λ w. w.file) (λ w. w.position) disk-IsFile disk-IsHealthy 4
      disk refl

abbrev paths : List ℕ
paths = 47 ∷ []

main-ends_example :
    (w' : Disk) × (main disk_fs false false 3 paths paths paths (0 ∷ []) disk ≡ some w')
main-ends_example =
    main-ends disk_fs (λ w. w.left) 2 disk-IsFinite false false paths paths paths (0 ∷ []) disk

main_done : (w' : Disk) × (main disk_fs false false 3 paths paths paths (0 ∷ []) disk ≡ some w')
main_done =
    main-ends disk_fs (λ w. w.left) 2 disk-IsFinite false false paths paths paths (0 ∷ []) disk

main-closes_example :
    let b = main_done.0.calls in
    (b.opens + 0 ≡ 0 + b.closes)
    × (b.areas + 0 ≡ 0 + b.area_closes)
    × (b.unmounts ≡ (if is_neg (littlefs_mount disk_fs false false disk).0 then 0 else 1) + 0)
main-closes_example =
    main-closes disk_fs (λ w. w.calls) disk-Counts false false 3 paths paths paths (0 ∷ []) disk
      main_done.1
