-- ===== src/Drift/Examples.antt =====
-- A window of two samples.
use congine.Drift.{Engine, init, sample_count, is_full}
use congine.Drift.Window.{Call, adds, adds_all, resets, after, latest, after-window}
use congine.Prelude.{ℕ, ◌≡◌, refl, true, List, [], ◌∷◌}

abbrev fresh : Engine ℕ
fresh = record { threshold = 0; max_samples = 2; reference = [] }

abbrev calls : List (Call ℕ)
calls = adds 9 ∷ resets ∷ adds_all (1 ∷ 2 ∷ []) ∷ adds 3 ∷ []

after-window_example :
    ((after calls fresh).reference ≡ 2 ∷ 3 ∷ [])
    × (sample_count (after calls fresh) ≡ 2)
    × (is_full (after calls fresh) ≡ true)
unfolding init latest
after-window_example = after-window 0 2 calls refl
