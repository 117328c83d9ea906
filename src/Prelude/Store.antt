-- ===== src/Prelude/Store.antt =====
-- Byte-addressed memory, as a function from addresses to bytes.
use Prim.Native.Nat.{ℕ}
use mathlib.Core.Path.{◌≡◌, refl}
use mathlib.Core.Logic.{◌≢◌}
use native.Mathlib.Omega.{arith}
use linux_like_os_project.Prelude.Tests.{◌==◌, if◌then◌else◌}

abbrev pub Memory : Type 0
Memory = ℕ → ℕ

-- One byte written at an address.
unfoldable pub store : ℕ → ℕ → Memory → Memory
store a v m x = if x == a then v else m x

pub load-store_self : (a v : ℕ) (m : Memory) → store a v m a ≡ v
unfolding store
load-store_self a v m = ground arith

pub load-store_ne : (a v : ℕ) (m : Memory) (x : ℕ) → x ≢ a → store a v m x ≡ m x
unfolding store
load-store_ne a v m x h = ground arith

pub load-store : (a v : ℕ) (m : Memory) (x : ℕ) → store a v m x ≡ (if x == a then v else m x)
unfolding store
load-store a v m x = refl
