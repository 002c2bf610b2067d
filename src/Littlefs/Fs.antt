-- ===== src/Littlefs/Fs.antt =====
-- The file system calls of app/demos/littlefs/src/main.c and the functions that make them.
-- A `struct fs_file_t` or `struct fs_dir_t` is named by the path that it was opened with.
use zephyr_start.Base.{
  Bool, List, Option, [], get_or, if◌then◌else◌, is_neg, is_nil, is_zero, none, not, pos, some, suc,
  zero, ℕ, ℤ, ◌%◌, ◌&&◌, ◌+◌, ◌==◌, ◌||◌, ◌∷◌,
}
use zephyr_start.Littlefs.Pattern.{incr_pattern, init_pattern, test_file_size}

-- A `struct fs_dirent`; the listing prints the name, the kind and the size.
pub record Dirent : Type 0 where
  pub name : List ℕ
  pub is_file : Bool
  pub size : ℕ

-- Zephyr's file system and flash area calls, and those of the world's state `W`.
-- `fs_read` of `n` bytes returns its result with the bytes that it stored.
pub record Fs (W : Type 0) : Type 0 where
  pub fs_opendir : List ℕ → W → ℤ × W
  pub fs_readdir : List ℕ → W → ℤ × Dirent × W
  pub fs_closedir : List ℕ → W → W
  pub fs_open : List ℕ → W → ℤ × W
  pub fs_stat : List ℕ → W → ℤ × Dirent × W
  pub fs_read : List ℕ → ℕ → W → ℤ × List ℕ × W
  pub fs_seek : List ℕ → W → ℤ × W
  pub fs_write : List ℕ → List ℕ → W → ℤ × W
  pub fs_close : List ℕ → W → ℤ × W
  pub fs_mount : W → ℤ × W
  pub fs_unmount : W → ℤ × W
  pub fs_statvfs : W → ℤ × W
  pub flash_area_open : W → ℤ × W
  pub flash_area_flatten : W → ℤ × W
  pub flash_area_close : W → W

-- A buffer after bytes have been stored at its start.
unfoldable pub overlay : List ℕ → List ℕ → List ℕ
overlay [] buf = buf
overlay (x ∷ xs) [] = []
overlay (x ∷ xs) (y ∷ buf) = x ∷ overlay xs buf

module _ {W : Type 0} (fs : Fs W) where
  -- The `for (;;)` of `lsdir`, with fuel; `none` is out of fuel. The entries are the printed ones.
  unfoldable pub read_entries : ℕ → List ℕ → W → Option (ℤ × List Dirent × W)
  read_entries zero path w = none
  read_entries (suc fuel) path w =
      let (res, entry, w') = fs.fs_readdir path w in
      let more = read_entries fuel path w' in
      if not (is_zero res) || is_nil entry.name
      then some (res, [], w')
      else (elim more [ none ↦ none | some (r, es, w'') ↦ some (r, entry ∷ es, w'') ])

  unfoldable pub lsdir : ℕ → List ℕ → W → Option (ℤ × List Dirent × W)
  unfolding read_entries
  lsdir fuel path w =
      let (res, w') = fs.fs_opendir path w in
      if is_zero res
      then (elim (read_entries fuel path w') [
        | none ↦ none
        | some (r, es, w'') ↦ some (r, es, fs.fs_closedir path w'')
      ])
      else some (res, [], w')

  -- The label `out` of the two functions below.
  unfoldable pub out : List ℕ → ℤ → W → ℤ × W
  out fname rc w =
      let (ret, w') = fs.fs_close fname w in
      if is_neg ret then (ret, w') else (if is_neg rc then rc else pos 0, w')

  after_seek : List ℕ → List ℕ → ℤ × W → ℤ × W
  unfolding out
  after_seek fname bytes (rc, w) =
      if is_neg rc
      then out fname rc w
      else (let (rc', w') = fs.fs_write fname bytes w in out fname rc' w')

  -- Seek to the start, write, and `out`.
  unfoldable pub write_back : List ℕ → List ℕ → W → ℤ × W
  unfolding after_seek
  write_back fname bytes w = after_seek fname bytes (fs.fs_seek fname w)

  abbrev pub boot_count : List ℕ → ℕ
  boot_count bytes = get_or (overlay bytes (0 ∷ [])) 0 0

  after_read : List ℕ → ℤ × List ℕ × W → ℤ × W
  unfolding write_back out overlay
  after_read fname (rc, bytes, w) =
      if is_neg rc then out fname rc w else write_back fname ((boot_count bytes + 1) % 256 ∷ []) w

  unfoldable pub littlefs_increase_infile_value : List ℕ → W → ℤ × W
  unfolding after_read
  littlefs_increase_infile_value fname w =
      let (rc, w') = fs.fs_open fname w in
      if is_neg rc then (rc, w') else after_read fname (fs.fs_read fname 1 w')

  unfoldable pub after_pattern_read : List ℕ → List ℕ → ℤ × List ℕ × W → ℤ × List ℕ × W
  unfolding write_back out overlay incr_pattern
  after_pattern_read fname buf (rc, bytes, w) =
      let full = overlay bytes buf in
      if is_neg rc
      then (let (r, w') = out fname rc w in (r, full, w'))
      else (let next = incr_pattern full test_file_size 1 in
          let (r, w') = write_back fname next w in (r, next, w'))

  unfoldable pub after_stat : List ℕ → List ℕ → ℤ × Dirent × W → ℤ × List ℕ × W
  unfolding after_pattern_read write_back out init_pattern
  after_stat fname buf (rc, dirent, w) =
      if is_neg rc
      then (let (r, w') = out fname rc w in (r, buf, w'))
      else (if is_zero rc && (dirent.is_file && dirent.size == 0)
          then (let fresh = init_pattern buf test_file_size in
              let (r, w') = write_back fname fresh w in (r, fresh, w'))
          else after_pattern_read fname buf (fs.fs_read fname test_file_size w))

  -- The list is `file_test_pattern`, which keeps its bytes between calls.
  unfoldable pub littlefs_binary_file_adj : List ℕ → List ℕ → W → ℤ × List ℕ × W
  unfolding after_stat
  littlefs_binary_file_adj fname buf w =
      let (rc, w') = fs.fs_open fname w in
      if is_neg rc then (rc, buf, w') else after_stat fname buf (fs.fs_stat fname w')

  -- `wipe` is CONFIG_APP_WIPE_STORAGE.
  unfoldable pub littlefs_flash_erase : Bool → W → ℤ × W
  littlefs_flash_erase wipe w =
      let (rc, w') = fs.flash_area_open w in
      if is_neg rc
      then (rc, w')
      else (let (rc', w'') = (if wipe then fs.flash_area_flatten w' else (rc, w')) in
          (rc', fs.flash_area_close w''))

  -- The build with flash storage; `automounted` says that the partition's entry mounts by itself.
  unfoldable pub littlefs_mount : Bool → Bool → W → ℤ × W
  unfolding littlefs_flash_erase
  littlefs_mount wipe automounted w =
      let (rc, w') = littlefs_flash_erase wipe w in
      if is_neg rc
      then (rc, w')
      else (if automounted
          then (pos 0, w')
          else (let (rc', w'') = fs.fs_mount w' in (if is_neg rc' then rc' else pos 0, w'')))

  -- From the mounted volume to the label `out`: the size of the volume, the listing, the two files.
  unfoldable pub main_files : ℕ → List ℕ → List ℕ → List ℕ → List ℕ → W → Option W
  unfolding lsdir littlefs_increase_infile_value littlefs_binary_file_adj
  main_files fuel mnt_point fname1 fname2 buf w =
      let (rc, w1) = fs.fs_statvfs w in
      if is_neg rc then some w1 else (elim (lsdir fuel mnt_point w1) [
        | none ↦ none
        | some (rc2, entries, w2) ↦
            if is_neg rc2
            then some w2
            else (let (rc3, w3) = littlefs_increase_infile_value fname1 w2 in
                if is_zero rc3
                then (let (rc4, buf', w4) = littlefs_binary_file_adj fname2 buf w3 in some w4)
                else some w3)
      ])

  -- `main`; its result is always 0.
  unfoldable pub main : Bool → Bool → ℕ → List ℕ → List ℕ → List ℕ → List ℕ → W → Option W
  unfolding littlefs_mount main_files
  main wipe automounted fuel mnt_point fname1 fname2 buf w =
      let (rc, w') = littlefs_mount wipe automounted w in
      if is_neg rc then some w' else (elim (main_files fuel mnt_point fname1 fname2 buf w') [
        | none ↦ none
        | some w'' ↦ some (fs.fs_unmount w'').1
      ])
