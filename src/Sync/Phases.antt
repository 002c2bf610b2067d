-- ===== src/Sync/Phases.antt =====
-- The states that a schedule of app/demos/synchronization/src/main.c goes through.
use zephyr_start.Base.{
  Bool, List, [], ap, arith, if◌then◌else◌, inl, inr, length, refl, suc, sym, true, zero, ℕ, ◌%◌,
  ◌*◌, ◌+◌, ◌==◌, ◌∙◌, ◌∷◌, ◌≡◌, ◌≢◌, ◌⊎◌,
}
use zephyr_start.Sync.Defs.{Name, Sys, thread_a, thread_b, greeted, waiting, Event, run, taken}

-- The greetings of `n` turns, the last one first.
abbrev pub turns : ℕ → List Name
turns zero = []
turns (suc n) = (if n % 2 == 0 then thread_a else thread_b) ∷ turns n

-- The states that a schedule goes through, after `k` greetings of each thread.
pub data Phase : Type 0 where
  a_next a_took a_said b_next b_took b_said : Phase

unfoldable pub at : Bool → Phase → ℕ → Sys
at started a_next k = record {
  started = started;
  a_place = waiting;
  b_place = waiting;
  a_sem = 1;
  b_sem = 0;
  said = turns (2 * k);
}
at started a_took k = record {
  started = started;
  a_place = taken;
  b_place = waiting;
  a_sem = 0;
  b_sem = 0;
  said = turns (2 * k);
}
at started a_said k = record {
  started = started;
  a_place = greeted;
  b_place = waiting;
  a_sem = 0;
  b_sem = 0;
  said = turns (2 * k + 1);
}
at started b_next k = record {
  started = started;
  a_place = waiting;
  b_place = waiting;
  a_sem = 0;
  b_sem = 1;
  said = turns (2 * k + 1);
}
at started b_took k = record {
  started = started;
  a_place = waiting;
  b_place = taken;
  a_sem = 0;
  b_sem = 0;
  said = turns (2 * k + 1);
}
at started b_said k = record {
  started = started;
  a_place = waiting;
  b_place = greeted;
  a_sem = 0;
  b_sem = 0;
  said = turns (2 * k + 2);
}

pub turn_a : (k : ℕ) → thread_a ∷ turns (2 * k) ≡ turns (2 * k + 1)
turn_a k = let even : (2 * k) % 2 ≡ 0 = omega arith in ground arith

pub turn_b : (k : ℕ) → thread_b ∷ turns (2 * k + 1) ≡ turns (2 * k + 2)
turn_b k = let odd : (2 * k + 1) % 2 ≡ 1 = omega arith in ground arith

pub turn_again : (k : ℕ) → turns (2 * k + 2) ≡ turns (2 * suc k)
turn_again k = ap turns (omega arith)

length-turns : (n : ℕ) → length (turns n) ≡ n
length-turns zero = refl
length-turns (suc n) = ap suc (length-turns n)

pub at-said :
    (started : Bool) (p : Phase) (k : ℕ)
    → (at started p k).said ≡ turns (length (at started p k).said)
unfolding at
at-said started a_next k = ap turns (sym (length-turns (2 * k)))
at-said started a_took k = ap turns (sym (length-turns (2 * k)))
at-said started a_said k = ap turns (sym (length-turns (2 * k + 1)))
at-said started b_next k = ap turns (sym (length-turns (2 * k + 1)))
at-said started b_took k = ap turns (sym (length-turns (2 * k + 1)))
at-said started b_said k = ap turns (sym (length-turns (2 * k + 2)))

pub at-excludes :
    (started : Bool) (p : Phase) (k : ℕ)
    → ((at started p k).a_place ≡ waiting) ⊎ ((at started p k).b_place ≡ waiting)
unfolding at
at-excludes started a_next k = inl refl
at-excludes started a_took k = inr refl
at-excludes started a_said k = inr refl
at-excludes started b_next k = inl refl
at-excludes started b_took k = inl refl
at-excludes started b_said k = inl refl

pub at-started : (started : Bool) (p : Phase) (k : ℕ) → (at started p k).started ≡ started
unfolding at
at-started started a_next k = refl
at-started started a_took k = refl
at-started started a_said k = refl
at-started started b_next k = refl
at-started started b_took k = refl
at-started started b_said k = refl

pub moves_a : {s t u : Sys} → s ≡ t → t.a_place ≢ u.a_place → s ≢ u
moves_a e ne = λ eq. ne (ap (λ r. r.a_place) (sym e ∙ eq))

pub moves_b : {s t u : Sys} → s ≡ t → t.b_place ≢ u.b_place → s ≢ u
moves_b e ne = λ eq. ne (ap (λ r. r.b_place) (sym e ∙ eq))

pub said_a_next : (k : ℕ) → (at true a_next k).said ≡ turns (2 * k)
unfolding at
said_a_next k = refl

-- A round of either thread's three steps.
abbrev pub full_rounds : ℕ → List Event
full_rounds zero = []
full_rounds (suc n) =
    run thread_a
    ∷ run thread_a
    ∷ run thread_a
    ∷ run thread_b
    ∷ run thread_b
    ∷ run thread_b
    ∷ full_rounds n
