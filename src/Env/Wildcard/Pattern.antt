-- ===== src/Env/Wildcard/Pattern.antt =====
-- What a wildcard pattern means, apart from the code: a star stands for any run of bytes, any
-- other byte for itself.
use claw_crate.Base.{
  ℕ, zero, suc, ◌≤◌, Text, ◌≡◌, refl, ◌≢◌, true, [], ◌∷◌, length, drop, arith, ◌==◌, ==_iff,
  Bool-cases, inl, inr,
}
use claw_crate.Env.Wildcard.{star, only_stars}

pub data Matches : Text → Text → Type 0 where
  done : Matches [] []
  literal : {x : ℕ} {p c : Text} → x ≢ star → Matches p c → Matches (x ∷ p) (x ∷ c)
  skip : {x : ℕ} {p c : Text} → x ≡ star → Matches p c → Matches (x ∷ p) c
  grow : {x y : ℕ} {p c : Text} → x ≡ star → Matches (x ∷ p) c → Matches (x ∷ p) (y ∷ c)

-- A pattern that begins with a star matches exactly when the rest matches some suffix.
pub star_suffix :
    {x : ℕ} {p c : Text}
    → x ≡ star
    → Matches (x ∷ p) c
    → (k : ℕ) × (k ≤ length c) × Matches p (drop k c)
star_suffix e (literal n m) = absurd (n e)
star_suffix e (skip _ m) = (0, omega arith, m)
star_suffix e (grow _ m) = let (k, le, r) = star_suffix e m in (suc k, omega arith, r)

pub suffix_star : (k : ℕ) {x : ℕ} (p c : Text) → x ≡ star → Matches p (drop k c) → Matches (x ∷ p) c
suffix_star zero p c e m = skip e m
suffix_star (suc k) p [] e m = skip e m
suffix_star (suc k) p (y ∷ c) e m = grow e (suffix_star k p c e m)

-- A leading byte that is no star must be the candidate's.
pub literal_head :
    {x : ℕ} {p c : Text} → x ≢ star → Matches (x ∷ p) c → (r : Text) × (c ≡ x ∷ r) × Matches p r
literal_head n (literal {c = r} _ m) = (r, refl, m)
literal_head n (skip e m) = absurd (n e)
literal_head n (grow e m) = absurd (n e)

pub only_stars_sound : (p : Text) → only_stars p ≡ true → Matches p []
unfolding only_stars
only_stars_sound [] h = done
only_stars_sound (x ∷ p) h = elim (Bool-cases (x == star)) [
  | inl e ↦ skip ((==_iff x star).0 e) (only_stars_sound p (ground arith))
  | inr n ↦ absurd (ground arith)
]

pub only_stars_complete : (p : Text) → Matches p [] → only_stars p ≡ true
unfolding only_stars
only_stars_complete [] m = refl
only_stars_complete (x ∷ p) (skip e m) = ground (arith, only_stars_complete p m)
