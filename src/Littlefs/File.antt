-- ===== src/Littlefs/File.antt =====
-- What app/demos/littlefs/src/main.c relies on of a file, and the part that its two updates share.
use zephyr_start.Base.{List, arith, drop, false, is_neg, length, pos, take, true, ℕ, ℤ, ◌++◌, ◌≡◌}
use zephyr_start.Littlefs.Fs.{Fs, out, write_back}

-- The documented contract of a file `f`: its bytes, and the position of its handle. A write that
-- does not fail stores all of its bytes.
pub record IsFile {W : Type 0} (fs : Fs W) (f : List ℕ) (content : W → List ℕ) (position : W → ℕ)
    : Type 0 where
  pub open_content : (w : W) → content (fs.fs_open f w).1 ≡ content w
  pub open_position : (w : W) → is_neg (fs.fs_open f w).0 ≡ false → position (fs.fs_open f w).1 ≡ 0
  pub stat_content : (w : W) → content (fs.fs_stat f w).2 ≡ content w
  pub stat_position : (w : W) → position (fs.fs_stat f w).2 ≡ position w
  pub stat_size :
      (w : W)
      → is_neg (fs.fs_stat f w).0 ≡ false
      → ((fs.fs_stat f w).0 ≡ pos 0)
        × ((fs.fs_stat f w).1.is_file ≡ true)
        × ((fs.fs_stat f w).1.size ≡ length (content w))
  pub read_content : (n : ℕ) (w : W) → content (fs.fs_read f n w).2 ≡ content w
  pub read_bytes :
      (n : ℕ) (w : W)
      → position w ≡ 0
      → is_neg (fs.fs_read f n w).0 ≡ false
      → (fs.fs_read f n w).1 ≡ take n (content w)
  pub seek_content : (w : W) → content (fs.fs_seek f w).1 ≡ content w
  pub seek_position : (w : W) → is_neg (fs.fs_seek f w).0 ≡ false → position (fs.fs_seek f w).1 ≡ 0
  pub write_content :
      (bytes : List ℕ) (w : W)
      → position w ≡ 0
      → is_neg (fs.fs_write f bytes w).0 ≡ false
      → content (fs.fs_write f bytes w).1 ≡ bytes ++ drop (length bytes) (content w)
  pub close_content : (w : W) → content (fs.fs_close f w).1 ≡ content w

-- A file system on which no call on the file fails.
pub record IsHealthy {W : Type 0} (fs : Fs W) (f : List ℕ) : Type 0 where
  pub opens : (w : W) → is_neg (fs.fs_open f w).0 ≡ false
  pub stats : (w : W) → is_neg (fs.fs_stat f w).0 ≡ false
  pub reads : (n : ℕ) (w : W) → is_neg (fs.fs_read f n w).0 ≡ false
  pub seeks : (w : W) → is_neg (fs.fs_seek f w).0 ≡ false
  pub writes : (bytes : List ℕ) (w : W) → is_neg (fs.fs_write f bytes w).0 ≡ false
  pub closes : (w : W) → is_neg (fs.fs_close f w).0 ≡ false

module _ {W : Type 0} (fs : Fs W) (f : List ℕ) (content : W → List ℕ) (position : W → ℕ)
    (k : IsFile fs f content position) where
  pub out-content : (rc : ℤ) (w : W) → content (out fs f rc w).1 ≡ content w
  unfolding out
  out-content rc w = ground (arith, k.close_content w)

  -- `out` reports 0 only if nothing failed before it.
  pub out-ok : (rc : ℤ) (w : W) → (out fs f rc w).0 ≡ pos 0 → is_neg rc ≡ false
  unfolding out
  out-ok rc w h = ground arith

  pub write_back-content :
      (bytes : List ℕ) (w : W)
      → (write_back fs f bytes w).0 ≡ pos 0
      → content (write_back fs f bytes w).1 ≡ bytes ++ drop (length bytes) (content w)
  unfolding write_back
  write_back-content bytes w h =
      let (rc, sought) = fs.fs_seek f w in
      let (rc', written) = fs.fs_write f bytes sought in
      ground (
        arith,
        k.seek_content w,
        k.seek_position w,
        k.write_content bytes sought,
        out-content rc' written,
        out-ok rc' written,
        out-ok rc sought,
      )

module _ {W : Type 0} (fs : Fs W) (f : List ℕ) (h : IsHealthy fs f) where
  pub write_back-works : (bytes : List ℕ) (w : W) → (write_back fs f bytes w).0 ≡ pos 0
  unfolding write_back out
  write_back-works bytes w =
      let (rc, sought) = fs.fs_seek f w in
      let (rc', written) = fs.fs_write f bytes sought in
      ground (arith, h.seeks w, h.writes bytes sought, h.closes written)
