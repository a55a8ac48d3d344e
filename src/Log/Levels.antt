-- ===== src/Log/Levels.antt =====
-- The name and the color of each level.
use condor_fos.Base.{
  ℕ, zero, suc, ◌/◌, ◌<◌, ◌≡◌, refl, arith, List, [], ◌∷◌, ◌==◌, if◌then◌else◌, ℤ, pos, negsuc,
}
use condor_fos.Tty.{vga_make_color}
use condor_fos.Log.{level_index, level_color}

-- The four letters of a name.
abbrev pub name_of : ℤ → List ℕ
name_of (pos zero) = 32 ∷ 79 ∷ 75 ∷ 32 ∷ []
name_of (pos (suc zero)) = 87 ∷ 65 ∷ 82 ∷ 78 ∷ []
name_of (pos (suc (suc zero))) = 69 ∷ 82 ∷ 82 ∷ 79 ∷ []
name_of (pos (suc (suc (suc zero)))) = 70 ∷ 69 ∷ 82 ∷ 82 ∷ []
name_of (pos (suc (suc (suc (suc n))))) = 32 ∷ 63 ∷ 63 ∷ 32 ∷ []
name_of (negsuc zero) = 73 ∷ 78 ∷ 70 ∷ 79 ∷ []
name_of (negsuc (suc zero)) = 68 ∷ 69 ∷ 66 ∷ 71 ∷ []
name_of (negsuc (suc (suc zero))) = 70 ∷ 73 ∷ 78 ∷ 69 ∷ []
name_of (negsuc (suc (suc (suc n)))) = 32 ∷ 63 ∷ 63 ∷ 32 ∷ []

abbrev pub color_of : ℤ → ℕ
color_of (pos zero) = 10
color_of (pos (suc zero)) = 14
color_of (pos (suc (suc zero))) = 4
color_of (pos (suc (suc (suc zero)))) = 12
color_of (pos (suc (suc (suc (suc n))))) = 9
color_of (negsuc zero) = 7
color_of (negsuc (suc zero)) = 2
color_of (negsuc (suc (suc zero))) = 8
color_of (negsuc (suc (suc (suc n)))) = 9

-- The table `levels` of klogger.c, in its order.
abbrev pub level_names : ℕ → List ℕ
level_names i =
    if i == 0
    then 70 ∷ 73 ∷ 78 ∷ 69 ∷ []
    else if i == 1
    then 68 ∷ 69 ∷ 66 ∷ 71 ∷ []
    else if i == 2
    then 73 ∷ 78 ∷ 70 ∷ 79 ∷ []
    else if i == 3
    then 32 ∷ 79 ∷ 75 ∷ 32 ∷ []
    else if i == 4
    then 87 ∷ 65 ∷ 82 ∷ 78 ∷ []
    else if i == 5
    then 69 ∷ 82 ∷ 82 ∷ 79 ∷ []
    else if i == 6
    then 70 ∷ 69 ∷ 82 ∷ 82 ∷ []
    else 32 ∷ 63 ∷ 63 ∷ 32 ∷ []

-- The index of an unknown level.
index-above : (n : ℕ) → level_index (pos (suc (suc (suc (suc n))))) ≡ 7
unfolding level_index
index-above n = ground arith

index-below : (n : ℕ) → level_index (negsuc (suc (suc (suc n)))) ≡ 7
unfolding level_index
index-below n = ground arith

pub level_names-level_index : (level : ℤ) → level_names (level_index level) ≡ name_of level
unfolding level_index
level_names-level_index (pos zero) = refl
level_names-level_index (pos (suc zero)) = refl
level_names-level_index (pos (suc (suc zero))) = refl
level_names-level_index (pos (suc (suc (suc zero)))) = refl
level_names-level_index (pos (suc (suc (suc (suc n))))) = ground (arith, index-above n)
level_names-level_index (negsuc zero) = refl
level_names-level_index (negsuc (suc zero)) = refl
level_names-level_index (negsuc (suc (suc zero))) = refl
level_names-level_index (negsuc (suc (suc (suc n)))) = ground (arith, index-below n)

pub level_index-fits : (level : ℤ) → level_index level < 8
unfolding level_index
level_index-fits (pos zero) = omega arith
level_index-fits (pos (suc zero)) = omega arith
level_index-fits (pos (suc (suc zero))) = omega arith
level_index-fits (pos (suc (suc (suc zero)))) = omega arith
level_index-fits (pos (suc (suc (suc (suc n))))) = omega (arith, index-above n)
level_index-fits (negsuc zero) = omega arith
level_index-fits (negsuc (suc zero)) = omega arith
level_index-fits (negsuc (suc (suc zero))) = omega arith
level_index-fits (negsuc (suc (suc (suc n)))) = omega (arith, index-below n)

pub level_color_lem :
    (level : ℤ) (color : ℕ) → level_color level color ≡ vga_make_color (color_of level) (color / 16)
unfolding level_color
level_color_lem (pos zero) color = refl
level_color_lem (pos (suc zero)) color = refl
level_color_lem (pos (suc (suc zero))) color = refl
level_color_lem (pos (suc (suc (suc zero)))) color = refl
level_color_lem (pos (suc (suc (suc (suc n))))) color = ground arith
level_color_lem (negsuc zero) color = refl
level_color_lem (negsuc (suc zero)) color = refl
level_color_lem (negsuc (suc (suc zero))) color = refl
level_color_lem (negsuc (suc (suc (suc n)))) color = ground arith
