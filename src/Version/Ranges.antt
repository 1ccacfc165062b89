-- ===== src/Version/Ranges.antt =====
-- registry/version.py: the ranges of the caret and the tilde.
use apcore_python.Prelude.{ℕ, ◌≤◌, ◌<◌, ◌≡◌, ◌↔◌, ◌⊎◌, true, arith}
use apcore_python.Version.{Semver, caret, tilde, satisfies}

-- `a` is `b` or a later one.
abbrev pub NotBelow : Semver → Semver → Type 0
NotBelow a b =
    (b.major < a.major)
    ⊎ ((b.major ≡ a.major) × ((b.minor < a.minor) ⊎ ((b.minor ≡ a.minor) × (b.patch ≤ a.patch))))

-- The two agree in the leftmost part of the target that is not zero, and to its left.
abbrev pub Compatible : Semver → Semver → Type 0
Compatible version target =
    (version.major ≡ target.major)
    × ((0 < target.major)
        ⊎ ((version.minor ≡ target.minor) × ((0 < target.minor) ⊎ (version.patch ≡ target.patch))))

-- A version satisfies `^target` just where it is not below the target and agrees with it in the
-- leftmost part that is not zero, and to its left.
pub satisfies-caret_iff :
    (parts : ℕ) (target version : Semver)
    → (satisfies caret parts target version ≡ true)
      ↔ (NotBelow version target × Compatible version target)
unfolding satisfies
satisfies-caret_iff parts target version = ground arith

-- A version satisfies `~target` just where it is not below the target and agrees with it in the
-- major version, and in the minor version too where the target names one.
pub satisfies-tilde_iff :
    (parts : ℕ) (target version : Semver)
    → (satisfies tilde parts target version ≡ true) ↔ (
        NotBelow version target
        × (version.major ≡ target.major)
        × (2 ≤ parts → version.minor ≡ target.minor))
unfolding satisfies
satisfies-tilde_iff parts target version = ground arith
