-- ===== src/Littlefs/Adjusted.antt =====
-- The test pattern after any number of boots, for app/demos/littlefs/src/main.c.
use zephyr_start.Base.{
  Bool-cases, List, Option, [], ap, append-nil, arith, drop, if◌then◌else◌, inl, inr, is_neg,
  is_zero, is_zero→eq, length, length-replicate, none, pos, refl, replicate, some, suc, sym,
  take-length, zero, ℕ, ◌++◌, ◌+◌, ◌∙◌, ◌∷◌, ◌≡◌, ◌⊎◌,
}
use zephyr_start.Littlefs.Pattern.Boots.{
  boots, boots-length, incr_pattern-length, init_pattern-length,
}
use zephyr_start.Littlefs.Pattern.{incr_pattern, init_pattern, test_file_size}
use zephyr_start.Littlefs.Fs.{
  Fs, after_pattern_read, after_stat, littlefs_binary_file_adj, overlay, write_back,
}
use zephyr_start.Littlefs.File.{IsFile, out-ok, write_back-content, write_back-works, IsHealthy}
use native.Mathlib.Nat.{add-zero, zero-add}

module _ {W : Type 0} (fs : Fs W) (f : List ℕ) (content : W → List ℕ) (position : W → ℕ)
    (k : IsFile fs f content position) where
  -- The pattern after one more boot.
  abbrev next_pattern : List ℕ → List ℕ → List ℕ
  next_pattern buf [] = init_pattern buf test_file_size
  next_pattern buf (x ∷ xs) = incr_pattern (x ∷ xs) test_file_size 1

  overlay-all : (xs buf : List ℕ) → length buf ≡ length xs → overlay xs buf ≡ xs
  unfolding overlay
  overlay-all [] [] h = refl
  overlay-all [] (y ∷ buf) h = absurd (omega arith)
  overlay-all (x ∷ xs) [] h = absurd (omega arith)
  overlay-all (x ∷ xs) (y ∷ buf) h = ap (λ r. x ∷ r) (overlay-all xs buf (omega arith))

  drop-nil : (n : ℕ) → drop {A = ℕ} n [] ≡ []
  drop-nil zero = refl
  drop-nil (suc n) = refl

  drop-length : (n : ℕ) (xs : List ℕ) → length xs ≡ n → drop n xs ≡ []
  drop-length zero [] h = refl
  drop-length zero (x ∷ xs) h = absurd (omega arith)
  drop-length (suc n) [] h = refl
  drop-length (suc n) (x ∷ xs) h = drop-length n xs (omega arith)

  -- A file that is empty or has the size of the pattern is replaced whole.
  abbrev Sized : List ℕ → Type 0
  Sized xs = (xs ≡ []) ⊎ (length xs ≡ 547)

  replace-content :
      (bytes : List ℕ) (w : W)
      → length bytes ≡ 547
      → Sized (content w)
      → (write_back fs f bytes w).0 ≡ pos 0
      → content (write_back fs f bytes w).1 ≡ bytes
  replace-content bytes w hb (inl e) h =
      write_back-content fs f content position k bytes w h
      ∙ (ap (λ r. bytes ++ drop (length bytes) r) e
          ∙ (ap (λ r. bytes ++ r) (drop-nil (length bytes)) ∙ append-nil bytes))
  replace-content bytes w hb (inr e) h =
      write_back-content fs f content position k bytes w h
      ∙ (ap (λ r. bytes ++ r) (drop-length (length bytes) (content w) (e ∙ sym hb))
          ∙ append-nil bytes)

  pattern_read-content :
      (buf : List ℕ) (w : W)
      → length buf ≡ 547
      → length (content w) ≡ 547
      → position w ≡ 0
      → (after_pattern_read fs f buf (fs.fs_read f test_file_size w)).0 ≡ pos 0
      → (content (after_pattern_read fs f buf (fs.fs_read f test_file_size w)).2
          ≡ incr_pattern (content w) 547 1)
        × (length (after_pattern_read fs f buf (fs.fs_read f test_file_size w)).1 ≡ 547)
  unfolding after_pattern_read
  pattern_read-content buf w hb hc hp h =
      let (rc, bytes, seen) = fs.fs_read f test_file_size w in
      let full : List ℕ = overlay bytes buf in
      elim (Bool-cases (is_neg rc)) [
        | inl bad ↦ ground (arith, out-ok fs f content position k rc seen)
        | inr good ↦
            let b : bytes ≡ content w =
              k.read_bytes test_file_size w hp good
              ∙ take-length test_file_size (content w) (omega arith) in
            let f_all : full ≡ content w =
              ap (λ r. overlay r buf) b ∙ overlay-all (content w) buf (hb ∙ sym hc) in
            let n : length (incr_pattern full test_file_size 1) ≡ 547 =
              incr_pattern-length full 547 1 ∙ (ap length f_all ∙ hc) in
            let same : length (content seen) ≡ 547 =
              ap length (k.read_content test_file_size w) ∙ hc in
            ground (
              arith,
              replace-content (incr_pattern full test_file_size 1) seen n (inr same),
              ap (λ r. incr_pattern r test_file_size 1) f_all,
            )
      ]

  pattern_fresh-content :
      (buf : List ℕ) (w : W)
      → length buf ≡ 547
      → content w ≡ []
      → (after_stat fs f buf (fs.fs_stat f w)).0 ≡ pos 0
      → (content (after_stat fs f buf (fs.fs_stat f w)).2 ≡ init_pattern buf 547)
        × (length (after_stat fs f buf (fs.fs_stat f w)).1 ≡ 547)
  unfolding after_stat
  pattern_fresh-content buf w hb hc h =
      let (rc, entry, stated) = fs.fs_stat f w in
      let empty : content stated ≡ [] = k.stat_content w ∙ hc in
      ground (
        arith,
        k.stat_size w,
        ap length hc,
        replace-content (init_pattern buf test_file_size) stated (init_pattern-length buf 547)
            (inl empty),
        init_pattern-length buf 547,
        out-ok fs f content position k rc stated,
      )

  pattern_old-content :
      (buf : List ℕ) (w : W)
      → length buf ≡ 547
      → length (content w) ≡ 547
      → position w ≡ 0
      → (after_stat fs f buf (fs.fs_stat f w)).0 ≡ pos 0
      → (content (after_stat fs f buf (fs.fs_stat f w)).2 ≡ incr_pattern (content w) 547 1)
        × (length (after_stat fs f buf (fs.fs_stat f w)).1 ≡ 547)
  unfolding after_stat
  pattern_old-content buf w hb hc hp h =
      let (rc, entry, stated) = fs.fs_stat f w in
      ground (
        arith,
        k.stat_size w,
        k.stat_content w,
        k.stat_position w,
        pattern_read-content buf stated,
        ap (λ r. incr_pattern r 547 1) (k.stat_content w),
        ap length (k.stat_content w),
        out-ok fs f content position k rc stated,
      )

  fresh-content :
      (buf : List ℕ) (w : W)
      → length buf ≡ 547
      → content w ≡ []
      → (littlefs_binary_file_adj fs f buf w).0 ≡ pos 0
      → (content (littlefs_binary_file_adj fs f buf w).2 ≡ init_pattern buf 547)
        × (length (littlefs_binary_file_adj fs f buf w).1 ≡ 547)
  unfolding littlefs_binary_file_adj
  fresh-content buf w hb hc h =
      let (rc, opened) = fs.fs_open f w in
      ground (arith, k.open_content w, pattern_fresh-content buf opened)

  old-content :
      (buf : List ℕ) (w : W)
      → length buf ≡ 547
      → length (content w) ≡ 547
      → (littlefs_binary_file_adj fs f buf w).0 ≡ pos 0
      → (content (littlefs_binary_file_adj fs f buf w).2 ≡ incr_pattern (content w) 547 1)
        × (length (littlefs_binary_file_adj fs f buf w).1 ≡ 547)
  unfolding littlefs_binary_file_adj
  old-content buf w hb hc h =
      let (rc, opened) = fs.fs_open f w in
      ground (
        arith,
        k.open_content w,
        k.open_position w,
        ap length (k.open_content w),
        ap (λ r. incr_pattern r 547 1) (k.open_content w),
        pattern_old-content buf opened,
      )

  -- `n` boots, each of whose updates of the pattern reports 0; `none` if one does not. The buffer
  -- is a static variable, so each boot begins with zeros.
  unfoldable pub boots_adjusted : ℕ → W → Option W
  boots_adjusted zero w = some w
  boots_adjusted (suc n) w =
      let (rc, buf, w') = littlefs_binary_file_adj fs f (replicate test_file_size 0) w in
      let rest = boots_adjusted n w' in if is_zero rc then rest else none

  adjusted_from :
      (n m : ℕ) (w w' : W)
      → content w ≡ boots m
      → boots_adjusted n w ≡ some w'
      → content w' ≡ boots (m + n)
  unfolding boots_adjusted boots
  adjusted_from zero m w w' e h = ground (arith, ap boots (add-zero m))
  adjusted_from (suc n) m w w' e h =
      let z : ℕ = 0 in
      let (rc, buf, next) = littlefs_binary_file_adj fs f (replicate test_file_size z) w in
      elim (Bool-cases (is_zero rc)) [
        | inl good ↦
            let grown : content next ≡ boots (suc m) =
              (old-content (replicate test_file_size z) w (length-replicate 547 z)
                (ap length e ∙ boots-length m) (is_zero→eq rc good)).0
              ∙ ap (λ r. incr_pattern r 547 1) e in
            let left : boots_adjusted n next ≡ some w' = ground arith in
            adjusted_from n (suc m) next w' grown left ∙ ap boots (omega arith)
        | inr bad ↦ absurd (ground arith)
      ]

  init_pattern_any : (p q : List ℕ) (size : ℕ) → init_pattern p size ≡ init_pattern q size
  unfolding init_pattern
  init_pattern_any p q size = refl

  -- From an empty file, after one boot or more, each of which reported success, the file holds the
  -- pattern of that many boots: the first writes it, and each of the others increments it.
  pub boots_adjusted_lem :
      (n : ℕ) (w w' : W)
      → content w ≡ []
      → boots_adjusted (suc n) w ≡ some w'
      → content w' ≡ boots n
  unfolding boots_adjusted boots
  boots_adjusted_lem n w w' e h =
      let z : ℕ = 0 in
      let zeros : List ℕ = replicate test_file_size z in
      let (rc, buf, next) = littlefs_binary_file_adj fs f zeros w in
      elim (Bool-cases (is_zero rc)) [
        | inl good ↦
            let written : content next ≡ boots 0 =
              (fresh-content zeros w (length-replicate 547 z) e (is_zero→eq rc good)).0
              ∙ init_pattern_any zeros [] 547 in
            let left : boots_adjusted n next ≡ some w' = ground arith in
            adjusted_from n 0 next w' written left ∙ ap boots (zero-add n)
        | inr bad ↦ absurd (ground arith)
      ]

module _ {W : Type 0} (fs : Fs W) (f : List ℕ) (content : W → List ℕ) (position : W → ℕ)
    (k : IsFile fs f content position) (h : IsHealthy fs f) where
  adjust-works : (buf : List ℕ) (w : W) → (littlefs_binary_file_adj fs f buf w).0 ≡ pos 0
  unfolding littlefs_binary_file_adj after_stat after_pattern_read
  adjust-works buf w =
      let (rc, opened) = fs.fs_open f w in
      let (rc', entry, stated) = fs.fs_stat f opened in
      let (rc'', bytes, seen) = fs.fs_read f test_file_size stated in
      ground (
        arith,
        h.opens w,
        h.stats opened,
        h.reads test_file_size stated,
        write_back-works fs f h (init_pattern buf test_file_size) stated,
        write_back-works fs f h (incr_pattern (overlay bytes buf) test_file_size 1) seen,
      )

  adjusted-works :
      (n : ℕ) (w : W) → (w' : W) × (boots_adjusted fs f content position k n w ≡ some w')
  unfolding boots_adjusted
  adjusted-works zero w = (w, refl)
  adjusted-works (suc n) w =
      let z : ℕ = 0 in
      let (rc, buf, next) = littlefs_binary_file_adj fs f (replicate test_file_size z) w in
      let (w', done) = adjusted-works n next in
      (w', ground (arith, adjust-works (replicate test_file_size z) w))

  -- On a file that is empty at first and on which no call fails, any number of boots succeed, and
  -- leave the pattern of that many boots: the first writes it, and each of the others increments it.
  pub boots_adjusted-boots :
      (n : ℕ) (w : W)
      → content w ≡ []
      → (w' : W) × (boots_adjusted fs f content position k (suc n) w ≡ some w')
        × (content w' ≡ boots n)
  boots_adjusted-boots n w e =
      let (w', done) = adjusted-works (suc n) w in
      (w', done, boots_adjusted_lem fs f content position k n w w' e done)
