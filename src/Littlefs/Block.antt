-- ===== src/Littlefs/Block.antt =====
-- The build of app/demos/littlefs/src/main.c with a block device: its littlefs_mount, and main.
use zephyr_start.Base.{
  Bool, List, Option, Option-cases, [], ap, arith, codes, false, get_or, if◌then◌else◌, inl, inr,
  is_neg, length, length-append, none, refl, some, suc, sym, take, true, zero, ℕ, ℤ, ◌++◌, ◌+◌, ◌-◌,
  ◌<◌, ◌∙◌, ◌∷◌, ◌≡◌, ◌≢◌, ◌≤◌,
}
use zephyr_start.Littlefs.Handles.{Calls, Counts, main_files-Balanced}
use zephyr_start.Littlefs.Fs.{Fs, main_files}
use mathlib.Core.Option.{some-injective, none-ne-some}

-- The fields of `struct fs_mount_t` that the file names.
pub record Mount : Type 0 where
  pub storage_dev : List ℕ
  pub mnt_point : List ℕ
  pub use_disk_access : Bool

-- `__mp`
abbrev pub disk_mount : Mount
disk_mount = record { storage_dev = []; mnt_point = []; use_disk_access = true }

-- MAX_PATH_LEN, the size of the buffers for the names.
abbrev pub max_path_len : ℕ
max_path_len = 255

-- A name of a file, as `snprintf` leaves it in its buffer, without the NUL.
abbrev pub file_name : List ℕ → List ℕ → List ℕ
file_name mnt_point name = take (max_path_len - 1) (mnt_point ++ name)

module _ {W : Type 0} (fs : Fs W) (fs_mount : Mount → W → ℤ × W) where
  -- `disk_name` is DISK_NAME.
  unfoldable pub littlefs_mount_disk : List ℕ → Mount → W → ℤ × Mount × W
  littlefs_mount_disk disk_name mp w =
      let mp' = record mp {
        storage_dev = disk_name;
        mnt_point = codes "/" ++ disk_name ++ codes ":";
      } in
      let (rc, w') = fs_mount mp' w in (rc, mp', w')

  unfoldable pub main_disk : ℕ → List ℕ → List ℕ → W → Option W
  unfolding littlefs_mount_disk
  main_disk fuel disk_name buf w =
      let (rc, mp, w') = littlefs_mount_disk disk_name disk_mount w in
      let fname1 = file_name mp.mnt_point (codes "/boot_count") in
      let fname2 = file_name mp.mnt_point (codes "/pattern.bin") in
      if is_neg rc then some w' else (elim (main_files fs fuel mp.mnt_point fname1 fname2 buf w') [
        | none ↦ none
        | some w'' ↦ some (fs.fs_unmount w'').1
      ])

module _ {W : Type 0} (fs : Fs W) (fs_mount : Mount → W → ℤ × W) (calls : W → Calls)
    (k : Counts fs calls)
    (mount_counts : (mp : Mount) (w : W) → calls (fs_mount mp w).1 ≡ calls w) where
  -- From the answer of the mount on.
  mounted-closes :
      (failed : Bool) (fuel : ℕ) (mnt f1 f2 buf : List ℕ) (w w' : W)
      → (if failed then some w else (elim (main_files fs fuel mnt f1 f2 buf w) [
        | none ↦ none
        | some w'' ↦ some (fs.fs_unmount w'').1
      ]))
        ≡ some w'
      → let a = calls w in
        let b = calls w' in
        (b.opens + a.closes ≡ a.opens + b.closes)
        × (b.unmounts ≡ (if failed then 0 else 1) + a.unmounts)
  mounted-closes true fuel mnt f1 f2 buf w w' h =
      let same : w ≡ w' = some-injective w w' h in rw same (omega arith, omega arith)
  mounted-closes false fuel mnt f1 f2 buf w w' h =
      elim (Option-cases (main_files fs fuel mnt f1 f2 buf w)) [
        | inl e ↦ absurd (none-ne-some w' (rw e at h))
        | inr (done, e) ↦
            let last : (fs.fs_unmount done).1 ≡ w' =
              some-injective (fs.fs_unmount done).1 w' (rw e at h) in
            let files = main_files-Balanced fs calls k fuel mnt f1 f2 buf w e in
            rw (← last) (rw (k.unmount done) (omega (arith, files), omega (arith, files)))
      ]

  -- When `main` ends, every file and directory that it opened is closed, whichever call failed, and it
  -- has unmounted once if the mount had succeeded and not at all otherwise.
  pub main_disk-closes :
      (fuel : ℕ) (disk_name buf : List ℕ) (w : W) {w' : W}
      → main_disk fs fs_mount fuel disk_name buf w ≡ some w'
      → let failed = is_neg (littlefs_mount_disk fs fs_mount disk_name disk_mount w).0 in
        let a = calls w in
        let b = calls w' in
        (b.opens + a.closes ≡ a.opens + b.closes)
        × (b.unmounts ≡ (if failed then 0 else 1) + a.unmounts)
  unfolding main_disk
  main_disk-closes fuel disk_name buf w {w' = w'} h =
      let (rc, mp, mounted) = littlefs_mount_disk fs fs_mount disk_name disk_mount w in
      let fname1 = file_name mp.mnt_point (codes "/boot_count") in
      let fname2 = file_name mp.mnt_point (codes "/pattern.bin") in
      let unchanged : calls mounted ≡ calls w = mount_counts mp w in
      let balanced = mounted-closes (is_neg rc) fuel mp.mnt_point fname1 fname2 buf mounted w' h in
      rw (← unchanged) balanced

get_or-take : (n : ℕ) (xs : List ℕ) (i : ℕ) → i < n → get_or (take n xs) i 0 ≡ get_or xs i 0
get_or-take zero xs i below = absurd (omega arith)
get_or-take (suc n) [] i below = refl
get_or-take (suc n) (x ∷ xs) zero below = refl
get_or-take (suc n) (x ∷ xs) (suc i) below = get_or-take n xs i (omega arith)

get_or-append :
    (xs ys : List ℕ) (k i : ℕ) → k ≡ length xs + i → get_or (xs ++ ys) k 0 ≡ get_or ys i 0
get_or-append [] ys k i e = let same : k ≡ i = omega arith in rw same refl
get_or-append (x ∷ xs) ys zero i e = absurd (omega arith)
get_or-append (x ∷ xs) ys (suc k) i e = get_or-append xs ys k i (omega arith)

-- The letter after the slash, if the buffer reaches so far.
second_letter :
    (mnt_point name : List ℕ)
    → length mnt_point ≤ 252
    → get_or (file_name mnt_point name) (length mnt_point + 1) 0 ≡ get_or name 1 0
second_letter mnt_point name short =
    get_or-take 254 (mnt_point ++ name) (length mnt_point + 1) (omega arith)
    ∙ get_or-append mnt_point name (length mnt_point + 1) 1 refl

-- The two files have different names where the name of the disk has at most 250 characters; a longer
-- one is cut off before they differ.
pub file_name-ne :
    (disk_name : List ℕ)
    → length disk_name ≤ 250
    → let mnt_point = codes "/" ++ disk_name ++ codes ":" in
      file_name mnt_point (codes "/boot_count") ≢ file_name mnt_point (codes "/pattern.bin")
file_name-ne disk_name short e =
    let mnt_point = codes "/" ++ disk_name ++ codes ":" in
    let fits : length mnt_point ≤ 252 =
      omega (arith, length-append (codes "/" ++ disk_name) (codes ":"), short) in
    let letters : 98 ≡ 112 =
      sym (second_letter mnt_point (codes "/boot_count") fits)
      ∙ ap (λ text. get_or text (length mnt_point + 1) 0) e
      ∙ second_letter mnt_point (codes "/pattern.bin") fits in
    omega (arith, letters)
