-- ===== src/Littlefs/Handles.antt =====
-- Every handle that is opened is closed, in app/demos/littlefs/src/main.c.
use zephyr_start.Base.{
  Bool, List, Option-cases, [], arith, false, if◌then◌else◌, inl, inr, is_neg, is_nil, is_zero,
  none, some, suc, true, zero, ℕ, ℤ, ◌%◌, ◌+◌, ◌<◌, ◌∷◌, ◌≡◌, ◌≢◌, ◌≤◌,
}
use zephyr_start.Littlefs.Pattern.{incr_pattern, init_pattern, test_file_size}
use zephyr_start.Littlefs.Fs.{
  Dirent, Fs, boot_count, littlefs_binary_file_adj, littlefs_flash_erase,
  littlefs_increase_infile_value, littlefs_mount, lsdir, main_files, out, overlay, read_entries,
  write_back, main,
}

-- How many calls of each kind the program has made: opens that succeeded, and closes.
pub record Calls : Type 0 where
  pub opens : ℕ
  pub closes : ℕ
  pub areas : ℕ
  pub area_closes : ℕ
  pub unmounts : ℕ

-- `calls` counts the calls of `fs`, of files and of directories together.
pub record Counts {W : Type 0} (fs : Fs W) (calls : W → Calls) : Type 0 where
  pub opendir :
      (p : List ℕ) (w : W)
      → calls (fs.fs_opendir p w).1 ≡ (
          if is_zero (fs.fs_opendir p w).0
          then record (calls w) { opens = suc (calls w).opens }
          else calls w)
  pub readdir : (p : List ℕ) (w : W) → calls (fs.fs_readdir p w).2 ≡ calls w
  pub closedir :
      (p : List ℕ) (w : W)
      → calls (fs.fs_closedir p w) ≡ record (calls w) { closes = suc (calls w).closes }
  pub open_file :
      (p : List ℕ) (w : W)
      → calls (fs.fs_open p w).1 ≡ (
          if is_neg (fs.fs_open p w).0
          then calls w
          else record (calls w) { opens = suc (calls w).opens })
  pub stat : (p : List ℕ) (w : W) → calls (fs.fs_stat p w).2 ≡ calls w
  pub read : (p : List ℕ) (n : ℕ) (w : W) → calls (fs.fs_read p n w).2 ≡ calls w
  pub seek : (p : List ℕ) (w : W) → calls (fs.fs_seek p w).1 ≡ calls w
  pub write : (p bytes : List ℕ) (w : W) → calls (fs.fs_write p bytes w).1 ≡ calls w
  pub close :
      (p : List ℕ) (w : W)
      → calls (fs.fs_close p w).1 ≡ record (calls w) { closes = suc (calls w).closes }
  pub mount : (w : W) → calls (fs.fs_mount w).1 ≡ calls w
  pub unmount :
      (w : W) → calls (fs.fs_unmount w).1 ≡ record (calls w) { unmounts = suc (calls w).unmounts }
  pub statvfs : (w : W) → calls (fs.fs_statvfs w).1 ≡ calls w
  pub area_open :
      (w : W)
      → calls (fs.flash_area_open w).1 ≡ (
          if is_neg (fs.flash_area_open w).0
          then calls w
          else record (calls w) { areas = suc (calls w).areas })
  pub flatten : (w : W) → calls (fs.flash_area_flatten w).1 ≡ calls w
  pub area_close :
      (w : W)
      → calls (fs.flash_area_close w) ≡ record (calls w) { area_closes = suc (calls w).area_closes }

module _ {W : Type 0} (fs : Fs W) (calls : W → Calls) (k : Counts fs calls) where
  -- From `a` to `b` as many handles were closed as opened, and nothing was unmounted.
  pub record Balanced (a b : Calls) : Type 0 where
    pub files : b.opens + a.closes ≡ a.opens + b.closes
    pub areas : b.areas + a.area_closes ≡ a.areas + b.area_closes
    pub unmounts : b.unmounts ≡ a.unmounts

  write_back-calls :
      (f bytes : List ℕ) (w : W)
      → calls (write_back fs f bytes w).1 ≡ record (calls w) { closes = suc (calls w).closes }
  unfolding write_back out
  write_back-calls f bytes w =
      let sought : W = (fs.fs_seek f w).1 in
      let written : W = (fs.fs_write f bytes sought).1 in
      ground (arith, k.seek f w, k.write f bytes sought, k.close f written, k.close f sought)

  increase-Balanced :
      (f : List ℕ) (w : W) → Balanced (calls w) (calls (littlefs_increase_infile_value fs f w).1)
  unfolding littlefs_increase_infile_value out
  increase-Balanced f w =
      let opened : W = (fs.fs_open f w).1 in
      let (rc, bytes, seen) = fs.fs_read f 1 opened in
      ground (
        arith,
        k.open_file f w,
        k.read f 1 opened,
        k.close f seen,
        write_back-calls f ((boot_count fs bytes + 1) % 256 ∷ []) seen,
      )

  binary-Balanced :
      (f buf : List ℕ) (w : W) → Balanced (calls w) (calls (littlefs_binary_file_adj fs f buf w).2)
  unfolding littlefs_binary_file_adj out
  binary-Balanced f buf w =
      let opened : W = (fs.fs_open f w).1 in
      let stated : W = (fs.fs_stat f opened).2 in
      let (rc, bytes, seen) = fs.fs_read f test_file_size stated in
      ground (
        arith,
        k.open_file f w,
        k.stat f opened,
        k.close f stated,
        k.read f test_file_size stated,
        k.close f seen,
        write_back-calls f (init_pattern buf test_file_size) stated,
        write_back-calls f (incr_pattern (overlay bytes buf) test_file_size 1) seen,
      )

  read_entries-calls :
      (fuel : ℕ) (p : List ℕ) (w : W) {r : ℤ} {es : List Dirent} {w' : W}
      → read_entries fs fuel p w ≡ some (r, es, w')
      → calls w' ≡ calls w
  unfolding read_entries
  read_entries-calls zero p w h = cc
  read_entries-calls (suc fuel) p w {r} {es} {w'} h =
      let next : W = (fs.fs_readdir p w).2 in
      elim (Option-cases (read_entries fs fuel p next)) [
        | inl e ↦ ground (arith, k.readdir p w)
        | inr ((r2, es2, w2), e) ↦ ground (arith, k.readdir p w, read_entries-calls fuel p next e)
      ]

  lsdir-Balanced :
      (fuel : ℕ) (p : List ℕ) (w : W) {r : ℤ} {es : List Dirent} {w' : W}
      → lsdir fs fuel p w ≡ some (r, es, w')
      → Balanced (calls w) (calls w')
  unfolding lsdir
  lsdir-Balanced fuel p w {r} {es} {w'} h =
      let opened : W = (fs.fs_opendir p w).1 in
      elim (Option-cases (read_entries fs fuel p opened)) [
        | inl e ↦ ground (arith, k.opendir p w)
        | inr ((r2, es2, w2), e) ↦
            ground (arith, k.opendir p w, read_entries-calls fuel p opened e, k.closedir p w2)
      ]

  mount-Balanced :
      (wipe automounted : Bool) (w : W)
      → Balanced (calls w) (calls (littlefs_mount fs wipe automounted w).1)
  unfolding littlefs_mount littlefs_flash_erase
  mount-Balanced wipe automounted w =
      let opened : W = (fs.flash_area_open w).1 in
      let wiped : W = (fs.flash_area_flatten opened).1 in
      ground (
        arith,
        k.area_open w,
        k.flatten opened,
        k.area_close opened,
        k.area_close wiped,
        k.mount (fs.flash_area_close opened),
        k.mount (fs.flash_area_close wiped),
      )

  pub main_files-Balanced :
      (fuel : ℕ) (mnt f1 f2 buf : List ℕ) (w : W) {w' : W}
      → main_files fs fuel mnt f1 f2 buf w ≡ some w'
      → Balanced (calls w) (calls w')
  unfolding main_files
  main_files-Balanced fuel mnt f1 f2 buf w h =
      let ready : W = (fs.fs_statvfs w).1 in
      elim (Option-cases (lsdir fs fuel mnt ready)) [
        | inl e ↦ ground (arith, k.statvfs w)
        | inr ((r, es, listed), e) ↦
            let counted : W = (littlefs_increase_infile_value fs f1 listed).1 in
            ground (
              arith,
              k.statvfs w,
              lsdir-Balanced fuel mnt ready e,
              increase-Balanced f1 listed,
              binary-Balanced f2 buf counted,
            )
      ]

  -- When `main` ends, every file, directory and flash area that it opened is closed, whichever call
  -- failed, and it has unmounted once if the mount had succeeded and not at all otherwise.
  pub main-closes :
      (wipe automounted : Bool) (fuel : ℕ) (mnt f1 f2 buf : List ℕ) (w : W) {w' : W}
      → main fs wipe automounted fuel mnt f1 f2 buf w ≡ some w'
      → let a = calls w in
        let b = calls w' in
        (b.opens + a.closes ≡ a.opens + b.closes)
        × (b.areas + a.area_closes ≡ a.areas + b.area_closes)
        × (b.unmounts
            ≡ (if is_neg (littlefs_mount fs wipe automounted w).0 then 0 else 1) + a.unmounts)
  unfolding main
  main-closes wipe automounted fuel mnt f1 f2 buf w h =
      let mounted : W = (littlefs_mount fs wipe automounted w).1 in
      elim (Option-cases (main_files fs fuel mnt f1 f2 buf mounted)) [
        | inl e ↦ ground (arith, mount-Balanced wipe automounted w)
        | inr (done, e) ↦ ground (
          arith,
          mount-Balanced wipe automounted w,
          main_files-Balanced fuel mnt f1 f2 buf mounted e,
          k.unmount done,
        )
      ]

-- The contract of a directory of at most `n` entries: `left` falls with each entry that is read.
pub record IsFinite {W : Type 0} (fs : Fs W) (left : W → ℕ) (n : ℕ) : Type 0 where
  pub falls :
      (p : List ℕ) (w : W)
      → is_zero (fs.fs_readdir p w).0 ≡ true
      → is_nil (fs.fs_readdir p w).1.name ≡ false
      → left (fs.fs_readdir p w).2 < left w
  pub bounded : (p : List ℕ) (w : W) → left (fs.fs_opendir p w).1 ≤ n

module _ {W : Type 0} (fs : Fs W) (left : W → ℕ) (n : ℕ) (fin : IsFinite fs left n) where
  read_entries-ne-none :
      (fuel : ℕ) (p : List ℕ) (w : W) → left w < fuel → read_entries fs fuel p w ≢ none
  unfolding read_entries
  read_entries-ne-none zero p w h = absurd (omega arith)
  read_entries-ne-none (suc fuel) p w h =
      let next : W = (fs.fs_readdir p w).2 in
      ground (arith, fin.falls p w, read_entries-ne-none fuel p next)

  lsdir-ne-none : (p : List ℕ) (w : W) → lsdir fs (suc n) p w ≢ none
  unfolding lsdir
  lsdir-ne-none p w =
      let opened : W = (fs.fs_opendir p w).1 in
      ground (arith, fin.bounded p w, read_entries-ne-none (suc n) p opened)

  main_files-ne-none :
      (mnt f1 f2 buf : List ℕ) (w : W) → main_files fs (suc n) mnt f1 f2 buf w ≢ none
  unfolding main_files
  main_files-ne-none mnt f1 f2 buf w = ground (arith, lsdir-ne-none mnt (fs.fs_statvfs w).1)

  main-ne-none :
      (wipe automounted : Bool) (mnt f1 f2 buf : List ℕ) (w : W)
      → main fs wipe automounted (suc n) mnt f1 f2 buf w ≢ none
  unfolding main
  main-ne-none wipe automounted mnt f1 f2 buf w =
      ground (arith, main_files-ne-none mnt f1 f2 buf (littlefs_mount fs wipe automounted w).1)

  -- With fuel for one entry more than a directory can hold, `main` ends.
  pub main-ends :
      (wipe automounted : Bool) (mnt f1 f2 buf : List ℕ) (w : W)
      → (w' : W) × (main fs wipe automounted (suc n) mnt f1 f2 buf w ≡ some w')
  main-ends wipe automounted mnt f1 f2 buf w =
      elim (Option-cases (main fs wipe automounted (suc n) mnt f1 f2 buf w)) [
        | inl e ↦ absurd (main-ne-none wipe automounted mnt f1 f2 buf w e)
        | inr done ↦ done
      ]
