-- ===== src/Prelude/Table.antt =====
-- A Boolean test that holds of every number under a bound, settled by evaluation.
use linux_like_os_project.Prelude.{
  ℕ, zero, suc, ◌<◌, ◌≡◌, Bool, true, ◌&&◌, Bool-cases, inl, inr, ◌==◌, ==_iff, arith,
}
use mathlib.Core.Path.{subst}

unfoldable pub every : ℕ → (ℕ → Bool) → Bool
every zero test = true
every (suc k) test = every k test && test k

-- What the evaluation says of one number.
pub every_lem :
    (bound : ℕ) (test : ℕ → Bool) (i : ℕ) → every bound test ≡ true → i < bound → test i ≡ true
unfolding every
every_lem zero test i e small = absurd (omega arith)
every_lem (suc k) test i e small = elim (Bool-cases (k == i)) [
  | inl same ↦ subst (λ m. test m ≡ true) ((==_iff _ _).0 same) (ground (arith, e))
  | inr other ↦ every_lem k test i (ground (arith, e)) (ground (arith, other, small))
]
