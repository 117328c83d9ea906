-- ===== src/Kernel/Forest/Pop.antt =====
-- A process that gives way to its parent.
use mathlib.Core.Path.{subst}
use linux_like_os_project.Prelude.{
  ℕ, ◌<◌, ◌≢◌, ◌∙◌, inl, inr, refl, sym, List, arith, set, length, length-set,
}
use linux_like_os_project.Kernel.{base_shell_parent}
use linux_like_os_project.Kernel.Forest.{Taken, IsForest, Taken-small, freed-cases, still-Taken}
use linux_like_os_project.Kernel.Forest.Change.{put, put_self, put_ne, eq-cases}

module _ {n : ℕ} {ps : List ℕ} {top parent : ℕ → ℕ} (f : IsForest n ps top parent) where
  -- The top of terminal `s`, no base shell, gives way to its parent.
  module _ (s : ℕ) (a : s < n) (below : parent (top s) ≢ base_shell_parent) where
    pub next-Taken : Taken ps (parent (top s))
    next-Taken = elim (f.rooted (top s) (f.taken s a)) [ inl e ↦ absurd (below e) | inr t ↦ t ]

    inside : top s < length ps
    inside = omega (arith, f.count, Taken-small ps (top s) f.count (f.taken s a))

    -- Each new top is in use, is not the process that leaves, and is no process's parent but its.
    popped-at :
        (P : ℕ → ℕ → Type 0)
        → P s (parent (top s))
        → ((i : ℕ) → i < n → s ≢ i → P i (top i))
        → (i : ℕ) → i < n
        → P i (put s (parent (top s)) top i)
    popped-at P new old i b = elim (eq-cases s i) [
      | inl e ↦
          subst (λ j. P j (put s (parent (top s)) top j)) e
            (subst (P s) (sym (put_self s (parent (top s)) top)) new)
      | inr ne ↦ subst (P i) (sym (put_ne (parent (top s)) top ne)) (old i b ne)
    ]

    pub popped-Taken : (p : ℕ) → Taken (set ps (top s) 0) p → (top s ≢ p) × Taken ps p
    popped-Taken p t = freed-cases ps (top s) p inside t

    pub pop-IsForest : IsForest n (set ps (top s) 0) (put s (parent (top s)) top) parent
    pop-IsForest = record {
      count = length-set ps (top s) 0 ∙ f.count;
      taken =
          popped-at (λ _ p. Taken (set ps (top s) 0) p)
            (still-Taken ps (top s) 0 (parent (top s)) inside
              (λ e. f.leaf (top s) s (f.taken s a) a (sym e)) next-Taken)
            (λ i b ne. still-Taken ps (top s) 0 (top i) inside (f.apart s i a b ne) (f.taken i b));
      apart = λ i j b d.
          popped-at (λ k x. k ≢ j → x ≢ put s (parent (top s)) top j)
            (popped-at (λ k x. s ≢ k → parent (top s) ≢ x) (λ ne. absurd (ne refl))
              (λ k u w _. f.leaf (top s) k (f.taken s a) u) j d)
            (λ k u w.
              popped-at (λ l x. k ≢ l → top k ≢ x)
                (λ ne e. f.leaf (top s) k (f.taken s a) u (sym e)) (λ l x y ne. f.apart k l u x ne)
                j d)
            i b;
      rooted = λ p t. elim (f.rooted p (popped-Taken p t).1) [
        | inl e ↦ inl e
        | inr u ↦ inr (
            still-Taken ps (top s) 0 (parent p) inside
              (λ e. f.leaf p s (popped-Taken p t).1 a (sym e)) u)
      ];
      leaf = λ p i t b.
          popped-at (λ _ x. parent p ≢ x)
            (λ e.
              f.one_child (top s) p (f.taken s a) (popped-Taken p t).1 (popped-Taken p t).0 below
                (sym e))
            (λ k u w. f.leaf p k (popped-Taken p t).1 u) i b;
      one_child = λ p q t u. f.one_child p q (popped-Taken p t).1 (popped-Taken q u).1;
    }
