-- ===== src/Keyboard/Switch.antt =====
-- The pages of video memory that switch_screen of student-distrib/keyboard.c copies.
use mathlib.Core.Path.{subst}
use linux_like_os_project.Prelude.{
  ℕ, zero, suc, leb, ◌&&◌, true, if◌then◌else◌, ◌+◌, ◌-◌, ◌*◌, ◌<◌, ◌≤◌, ◌≡◌, ◌≢◌, ◌⊎◌, inl, inr,
  refl, ap, ap₂, ◌∙◌, arith, ltb, ◌==◌, Bool-cases, Memory, store, load-store_self, load-store_ne,
}
use linux_like_os_project.Console.{move_cursor, video_addr}
use linux_like_os_project.Keyboard.{Keyboard, copy_bytes, switch_screen}

-- The page behind the screen of a terminal.
abbrev pub page : ℕ → ℕ
page t = video_addr + (t + 1) * 4096

abbrev Apart : ℕ → ℕ → Type 0
Apart dest src = (dest + 4096 ≤ src) ⊎ (src + 4096 ≤ dest)

copy-outside :
    (n i dest src : ℕ) (m : Memory) (a : ℕ)
    → (a < dest + i) ⊎ (dest + i + n ≤ a)
    → copy_bytes n i dest src m a ≡ m a
unfolding copy_bytes
copy-outside zero i dest src m a h = refl
copy-outside (suc n) i dest src m a h =
    copy-outside n (i + 1) dest src (store (dest + i) (m (src + i)) m) a (omega (arith, h))
    ∙ load-store_ne (dest + i) (m (src + i)) m a (omega (arith, h))

copy-inside :
    (n i dest src : ℕ) (m : Memory) (j : ℕ)
    → Apart dest src
    → i + n ≤ 4096
    → i ≤ j
    → j < i + n
    → copy_bytes n i dest src m (dest + j) ≡ m (src + j)
unfolding copy_bytes
copy-inside zero i dest src m j h fit low high = absurd (omega (arith, low, high))
copy-inside (suc n) i dest src m j h fit low high = elim (Bool-cases (i == j)) [
  | inl e ↦
      let same : j ≡ i = ground (arith, e) in
      rw same (
        copy-outside n (i + 1) dest src (store (dest + i) (m (src + i)) m) (dest + i) (omega arith)
        ∙ load-store_self (dest + i) (m (src + i)) m)
  | inr ne ↦
      let later : i + 1 ≤ j = ground (arith, ne, low) in
      copy-inside n (i + 1) dest src (store (dest + i) (m (src + i)) m) j h (omega (arith, fit))
        later (omega (arith, high))
      ∙ load-store_ne (dest + i) (m (src + i)) m (src + j) (omega (arith, h, fit, high, low))
]

-- The memory that a switch from terminal `s` to `n` leaves.
abbrev switched : ℕ → ℕ → Memory → Memory
switched s n m = copy_bytes 4096 0 video_addr (page n) (copy_bytes 4096 0 (page s) video_addr m)

switched-screen :
    (s n : ℕ) (m : Memory) (j : ℕ)
    → j < 4096
    → switched s n m (video_addr + j) ≡ copy_bytes 4096 0 (page s) video_addr m (page n + j)
switched-screen s n m j h =
    copy-inside 4096 0 video_addr (page n) _ j (omega arith) (omega arith) (omega arith)
      (omega (arith, h))

switched-saved :
    (s n : ℕ) (m : Memory) (j : ℕ) → j < 4096 → switched s n m (page s + j) ≡ m (video_addr + j)
switched-saved s n m j h =
    copy-outside 4096 0 video_addr (page n) _ (page s + j) (omega (arith, h))
    ∙ copy-inside 4096 0 (page s) video_addr m j (omega arith) (omega arith) (omega arith)
        (omega (arith, h))

-- An address neither on the screen nor on the page of the terminal that is left.
switched-rest :
    (s n : ℕ) (m : Memory) (a : ℕ)
    → (a < video_addr) ⊎ (video_addr + 4096 ≤ a)
    → (a < page s) ⊎ (page s + 4096 ≤ a)
    → switched s n m a ≡ m a
switched-rest s n m a h k =
    copy-outside 4096 0 video_addr (page n) _ a (omega (arith, h))
    ∙ copy-outside 4096 0 (page s) video_addr m a (omega (arith, k))

pages_apart : (s n : ℕ) → s ≢ n → (page s + 4096 ≤ page n) ⊎ (page n + 4096 ≤ page s)
pages_apart s n h = omega (arith, h)

-- There and back, on the screen and on the other terminal's page.
back-screen :
    (s n : ℕ) (m : Memory) (j : ℕ)
    → j < 4096
    → switched n s (switched s n m) (video_addr + j) ≡ m (video_addr + j)
back-screen s n m j h = elim (Bool-cases (n == s)) [
  | inl e ↦
      let same : n ≡ s = ground (arith, e) in
      rw same (
        switched-screen s s _ j h
        ∙ copy-inside 4096 0 (page s) video_addr _ j (omega arith) (omega arith) (omega arith)
            (omega (arith, h))
        ∙ switched-screen s s m j h
        ∙ copy-inside 4096 0 (page s) video_addr m j (omega arith) (omega arith) (omega arith)
            (omega (arith, h)))
  | inr ne ↦
      let other : s ≢ n = ground (arith, ne) in
      switched-screen n s _ j h
      ∙ copy-outside 4096 0 (page n) video_addr _ (page s + j)
          (omega (arith, h, pages_apart s n other))
      ∙ switched-saved s n m j h
]

back-page :
    (s n : ℕ) (m : Memory) (j : ℕ)
    → s ≢ n
    → j < 4096
    → switched n s (switched s n m) (page n + j) ≡ m (page n + j)
back-page s n m j ne h =
    switched-saved n s _ j h
    ∙ switched-screen s n m j h
    ∙ copy-outside 4096 0 (page s) video_addr m (page n + j) (omega (arith, h, pages_apart s n ne))

back-rest :
    (s n : ℕ) (m : Memory) (a : ℕ)
    → (a < page s) ⊎ (page s + 4096 ≤ a)
    → switched n s (switched s n m) a ≡ m a
back-rest s n m a k = elim (Bool-cases (leb video_addr a && ltb a (video_addr + 4096))) [
  | inl on_screen ↦
      let at : video_addr + (a - video_addr) ≡ a = ground (arith, on_screen) in
      subst (λ b. switched n s (switched s n m) b ≡ m b) at
        (back-screen s n m (a - video_addr) (ground (arith, on_screen)))
  | inr off_screen ↦ elim (Bool-cases (leb (page n) a && ltb a (page n + 4096))) [
    | inl on_page ↦
        let at : page n + (a - page n) ≡ a = ground (arith, on_page) in
        subst (λ b. switched n s (switched s n m) b ≡ m b) at
          (back-page s n m (a - page n) (λ e. own k on_page e) (ground (arith, on_page)))
    | inr off_page ↦
        switched-rest n s _ a (ground (arith, off_screen)) (ground (arith, off_page))
        ∙ switched-rest s n m a (ground (arith, off_screen)) k
  ]
]
  where
    own :
        (a < page s) ⊎ (page s + 4096 ≤ a)
        → (leb (page n) a && ltb a (page n + 4096)) ≡ true
        → s ≢ n
    own k e q = ground (arith, k, e, q)

-- The page of the terminal that was shown has what was on the screen.
back-saved :
    (s n : ℕ) (m : Memory) (j : ℕ)
    → j < 4096
    → switched n s (switched s n m) (page s + j) ≡ m (video_addr + j)
back-saved s n m j h = elim (Bool-cases (n == s)) [
  | inl e ↦
      let same : n ≡ s = ground (arith, e) in
      rw same (
        switched-saved s s _ j h
        ∙ switched-screen s s m j h
        ∙ copy-inside 4096 0 (page s) video_addr m j (omega arith) (omega arith) (omega arith)
            (omega (arith, h)))
  | inr ne ↦
      let other : s ≢ n = ground (arith, ne) in
      switched-rest n s _ (page s + j) (omega arith) (omega (arith, h, pages_apart s n other))
      ∙ switched-saved s n m j h
]

back-eq :
    (s n : ℕ) (m : Memory) (a : ℕ)
    → switched n s (switched s n m) a
      ≡ (if leb (page s) a && ltb a (page s + 4096) then m (a - (s + 1) * 4096) else m a)
back-eq s n m a = elim (Bool-cases (leb (page s) a && ltb a (page s + 4096))) [
  | inl inside ↦
      let at : page s + (a - page s) ≡ a = ground (arith, inside) in
      let from : video_addr + (a - page s) ≡ a - (s + 1) * 4096 = ground (arith, inside) in
      rw inside (
        subst (λ b. switched n s (switched s n m) b ≡ m (a - (s + 1) * 4096)) at
          (back-saved s n m (a - page s) (ground (arith, inside)) ∙ ap m from))
  | inr outside ↦ rw outside (back-rest s n m a (ground (arith, outside)))
]

switch_screen-video :
    (n : ℕ) (k : Keyboard)
    → (switch_screen n k).console.video ≡ switched k.console.screen_terminal n k.console.video
unfolding switch_screen move_cursor
switch_screen-video n k = refl

switch_screen-same :
    (n : ℕ) (k : Keyboard)
    → ((switch_screen n k).console.screen_terminal ≡ n)
      × ((switch_screen n k).console.terminal_array ≡ k.console.terminal_array)
      × ((switch_screen n k).console.curr_terminal ≡ k.console.curr_terminal)
unfolding switch_screen move_cursor
switch_screen-same n k = (refl, refl, refl)

-- switch_screen to a terminal and back to the one that was shown: that one is shown again, the terminals are
-- as they were, and so is every byte of memory, the screen's and the other terminal's page among them, but
-- on the page behind the screen of the terminal that was shown, which has what was on the screen.
pub switch_back :
    (n : ℕ) (k : Keyboard) (a : ℕ)
    → let s = k.console.screen_terminal in
      let k' = switch_screen s (switch_screen n k) in
      (k'.console.screen_terminal ≡ s)
      × (k'.console.terminal_array ≡ k.console.terminal_array)
      × (k'.console.curr_terminal ≡ k.console.curr_terminal)
      × (k'.console.video a ≡ (
          if leb (page s) a && ltb a (page s + 4096)
          then k.console.video (a - (s + 1) * 4096)
          else k.console.video a))
switch_back n k a =
    let s = k.console.screen_terminal in
    let k1 = switch_screen n k in
    let one = switch_screen-same n k in
    let two = switch_screen-same s k1 in
    (
      two.0,
      two.1 ∙ one.1,
      two.2 ∙ one.2,
      ap (λ (m : Memory). m a)
            (switch_screen-video s k1
              ∙ ap₂ (λ t (m : Memory). switched t s m) one.0 (switch_screen-video n k))
          ∙ back-eq s n k.console.video a,
    )
