-- ===== src/Littlefs/Counted.antt =====
-- The boot counter after any number of boots, for app/demos/littlefs/src/main.c.
use zephyr_start.Base.{
  List, Option, [], arith, if◌then◌else◌, is_zero, is_zero→eq, none, pos, refl, some, suc, zero, ℕ,
  ◌%◌, ◌+◌, ◌<◌, ◌∷◌, ◌≡◌,
}
use zephyr_start.Littlefs.Fs.{Fs, boot_count, littlefs_increase_infile_value, overlay}
use zephyr_start.Littlefs.File.{IsFile, out-ok, write_back-content, write_back-works, IsHealthy}

module _ {W : Type 0} (fs : Fs W) (f : List ℕ) (content : W → List ℕ) (position : W → ℕ)
    (k : IsFile fs f content position) where
  -- The count after one more boot.
  abbrev pub bumped : List ℕ → List ℕ
  bumped [] = 1 ∷ []
  bumped (x ∷ xs) = (x + 1) % 256 ∷ xs

  increase-content :
      (w : W)
      → (littlefs_increase_infile_value fs f w).0 ≡ pos 0
      → content (littlefs_increase_infile_value fs f w).1 ≡ bumped (content w)
  unfolding littlefs_increase_infile_value overlay
  increase-content w h =
      let (rc, opened) = fs.fs_open f w in
      let (rc', bytes, seen) = fs.fs_read f 1 opened in
      ground (
        arith,
        k.open_content w,
        k.open_position w,
        k.read_content 1 opened,
        k.read_bytes 1 opened,
        write_back-content fs f content position k ((boot_count fs bytes + 1) % 256 ∷ []) seen,
        out-ok fs f content position k rc' seen,
      )

  -- `n` boots, each of whose updates of the counter reports 0; `none` if one does not.
  unfoldable pub boots_counted : ℕ → W → Option W
  boots_counted zero w = some w
  boots_counted (suc n) w =
      let (rc, w') = littlefs_increase_infile_value fs f w in
      let rest = boots_counted n w' in if is_zero rc then rest else none

  count_from :
      (n x : ℕ) (w w' : W)
      → x < 256
      → content w ≡ x ∷ []
      → boots_counted n w ≡ some w'
      → content w' ≡ (x + n) % 256 ∷ []
  unfolding boots_counted
  count_from zero x w w' hx e h = ground arith
  count_from (suc n) x w w' hx e h =
      let (rc, next) = littlefs_increase_infile_value fs f w in
      ground (arith, increase-content w, is_zero→eq rc, count_from n ((x + 1) % 256) next w')

  -- From an empty file, after one boot or more, each of which reported success, the file holds one
  -- byte: the number of boots modulo 256.
  pub boots_counted_lem :
      (n : ℕ) (w w' : W)
      → content w ≡ []
      → boots_counted (suc n) w ≡ some w'
      → content w' ≡ suc n % 256 ∷ []
  unfolding boots_counted
  boots_counted_lem n w w' e h =
      let (rc, next) = littlefs_increase_infile_value fs f w in
      ground (arith, increase-content w, is_zero→eq rc, count_from n 1 next w')

module _ {W : Type 0} (fs : Fs W) (f : List ℕ) (content : W → List ℕ) (position : W → ℕ)
    (k : IsFile fs f content position) (h : IsHealthy fs f) where
  increase-works : (w : W) → (littlefs_increase_infile_value fs f w).0 ≡ pos 0
  unfolding littlefs_increase_infile_value
  increase-works w =
      let (rc, opened) = fs.fs_open f w in
      let (rc', bytes, seen) = fs.fs_read f 1 opened in
      ground (
        arith,
        h.opens w,
        h.reads 1 opened,
        write_back-works fs f h ((boot_count fs bytes + 1) % 256 ∷ []) seen,
      )

  counted-works : (n : ℕ) (w : W) → (w' : W) × (boots_counted fs f content position k n w ≡ some w')
  unfolding boots_counted
  counted-works zero w = (w, refl)
  counted-works (suc n) w =
      let (rc, next) = littlefs_increase_infile_value fs f w in
      let (w', done) = counted-works n next in (w', ground (arith, increase-works w))

  -- On a file that is empty at first and on which no call fails, any number of boots succeed, and
  -- leave one byte, the number of boots modulo 256.
  pub boots_counted-count :
      (n : ℕ) (w : W)
      → content w ≡ []
      → (w' : W) × (boots_counted fs f content position k (suc n) w ≡ some w')
        × (content w' ≡ suc n % 256 ∷ [])
  boots_counted-count n w e =
      let (w', done) = counted-works (suc n) w in
      (w', done, boots_counted_lem fs f content position k n w w' e done)
