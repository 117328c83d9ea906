-- ===== src/Console/Output.antt =====
-- Output leaves the terminals' processes and the choice of terminals alone.
use linux_like_os_project.Prelude.{
  ℕ, ◌<◌, ◌≡◌, refl, ◌∙◌, List, [], ◌∷◌, ◌==◌, inl, inr, Bool-cases, arith, length,
}
use linux_like_os_project.Console.{
  Console, Terminal, terminal, target, putc, puts, clear, max_terminals,
}
use linux_like_os_project.Console.Cursor.{
  IsConsole, Placed, Moves, Moves-IsConsole, advance, settle, advance-settle-Placed, putc-Moves,
  target-lt,
}
use linux_like_os_project.Console.Steps.{clear-Moves}

-- A console after output.
pub record Prints (c c' : Console) : Type 0 where
  pub formed : IsConsole c'
  pub curr : c'.curr_terminal ≡ c.curr_terminal
  pub screen : c'.screen_terminal ≡ c.screen_terminal
  pub process : (j : ℕ) → (terminal c' j).pid ≡ (terminal c j).pid
  pub flag : (j : ℕ) → (terminal c' j).flag ≡ (terminal c j).flag

pub Prints-refl : {c : Console} → IsConsole c → Prints c c
Prints-refl v = record {
  formed = v;
  curr = refl;
  screen = refl;
  process = λ j. refl;
  flag = λ j. refl;
}

pub Prints-trans : {c c' c'' : Console} → Prints c c' → Prints c' c'' → Prints c c''
Prints-trans a b = record {
  formed = b.formed;
  curr = b.curr ∙ a.curr;
  screen = b.screen ∙ a.screen;
  process = λ j. b.process j ∙ a.process j;
  flag = λ j. b.flag j ∙ a.flag j;
}

-- A step that moves one terminal, and leaves its process and its flag.
pub Moves-Prints :
    {c c' : Console} {i : ℕ} {t : Terminal}
    → IsConsole c
    → i < max_terminals
    → Placed t
    → t.pid ≡ (terminal c i).pid
    → t.flag ≡ (terminal c i).flag
    → Moves c c' i t
    → Prints c c'
Moves-Prints {c} {c'} {i} {t} v h p e f s =
    let inside : i < length c.terminal_array = rw v.count h in
    record {
      formed = Moves-IsConsole v h p s;
      curr = s.curr;
      screen = s.screen;
      process = λ j. elim (Bool-cases (i == j)) [
        | inl here ↦ ground (arith, s.moved j inside, e, here)
        | inr there ↦ ground (arith, s.moved j inside, there)
      ];
      flag = λ j. elim (Bool-cases (i == j)) [
        | inl here ↦ ground (arith, s.moved j inside, f, here)
        | inr there ↦ ground (arith, s.moved j inside, there)
      ];
    }

advanced-pid : (ch : ℕ) (t : Terminal) → (settle (advance ch t)).pid ≡ t.pid
unfolding settle advance
advanced-pid ch t = ground arith

advanced-flag : (ch : ℕ) (t : Terminal) → (settle (advance ch t)).flag ≡ t.flag
unfolding settle advance
advanced-flag ch t = ground arith

pub putc-Prints : (ch : ℕ) {c : Console} → IsConsole c → Prints c (putc ch c)
putc-Prints ch {c} v =
    let t = terminal c (target c) in
    Moves-Prints v (target-lt v) (advance-settle-Placed ch t (v.placed (target c) (target-lt v)))
      (advanced-pid ch t) (advanced-flag ch t) (putc-Moves ch v)

pub clear-Prints : {c : Console} → IsConsole c → Prints c (clear c)
clear-Prints {c} v =
    Moves-Prints v (target-lt v) (record { column = omega arith; row = omega arith }) refl refl
      (clear-Moves c)

pub puts-Prints : (s : List ℕ) {c : Console} → IsConsole c → Prints c (puts s c)
unfolding puts
puts-Prints [] v = Prints-refl v
puts-Prints (ch ∷ s) {c} v =
    let p = putc-Prints ch v in
    elim (Bool-cases (ch == 0)) [
      | inl done ↦ rw (done, puts) (Prints-refl v)
      | inr more ↦ rw (more, puts) (Prints-trans p (puts-Prints s p.formed))
    ]

-- A console on which another terminal may be shown now.
pub record Stays (c c' : Console) : Type 0 where
  pub formed : IsConsole c'
  pub curr : c'.curr_terminal ≡ c.curr_terminal
  pub process : (j : ℕ) → (terminal c' j).pid ≡ (terminal c j).pid
  pub flag : (j : ℕ) → (terminal c' j).flag ≡ (terminal c j).flag

pub Stays-refl : {c : Console} → IsConsole c → Stays c c
Stays-refl v = record { formed = v; curr = refl; process = λ j. refl; flag = λ j. refl }

pub Stays-trans : {c c' c'' : Console} → Stays c c' → Stays c' c'' → Stays c c''
Stays-trans a b = record {
  formed = b.formed;
  curr = b.curr ∙ a.curr;
  process = λ j. b.process j ∙ a.process j;
  flag = λ j. b.flag j ∙ a.flag j;
}

pub Prints-Stays : {c c' : Console} → Prints c c' → Stays c c'
Prints-Stays p = record { formed = p.formed; curr = p.curr; process = p.process; flag = p.flag }
