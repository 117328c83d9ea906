-- ===== src/LineEdit/Edit.antt =====
-- The changes of a terminal by a key against the edit of its line.
use linux_like_os_project.Prelude.{
  ℕ, suc, ◌+◌, ◌-◌, ◌%◌, ◌<◌, ◌≡◌, ◌≢◌, refl, sym, ◌∙◌, ap, ap₂, length-append, arith, ◌==◌,
  if◌then◌else◌, length, List, [], ◌∷◌, ◌++◌, Bool-cases, inl, inr, set, take, length-set,
}
use linux_like_os_project.Console.{Terminal}
use linux_like_os_project.Console.Cursor.{Placed}
use linux_like_os_project.LineEdit.{
  max_buf_size, end_of_line, backspace_pressed, enter_key, put_byte, grow, shrink, zero_first,
}
use linux_like_os_project.LineEdit.Line.{
  line, drop_last, edit_line, take-set, take-set_above, drop_last-take, length-take_le,
  edit_line-add, edit_line-full, edit_line-enter, edit_line-delete,
}
use linux_like_os_project.LineEdit.Echo.{SameLine}

-- A terminal whose line fits its buffer of 128 bytes, with room for one byte more.
pub record HasRoom (t : Terminal) : Type 0 where
  pub size : length t.buffer ≡ max_buf_size
  pub room : t.buffer_size < max_buf_size

-- What a key that reads into the line leaves: the new line, its length in the byte, ENTER noted, and
-- the reader still waiting.
pub record Edited (key : ℕ) (t t' : Terminal) : Type 0 where
  pub new_line : line t' ≡ edit_line key (line t)
  pub size : length t'.buffer ≡ max_buf_size
  pub count : t'.buffer_size ≡ length (edit_line key (line t))
  pub entered : t'.enter_flag ≡ (if key == enter_key then 1 else t.enter_flag)
  pub still_waiting : t'.waiting_in_read ≡ t.waiting_in_read

pub put-Placed : (b : ℕ) {t : Terminal} → Placed t → Placed (put_byte b t)
unfolding put_byte
put-Placed b p = record { column = p.column; row = p.row }

length-line : (t : Terminal) → HasRoom t → length (line t) ≡ t.buffer_size
unfolding line
length-line t h = length-take_le t.buffer_size t.buffer (omega arith)

-- One byte more behind the line.
grown :
    (b : ℕ) (t u : Terminal)
    → HasRoom t
    → SameLine (put_byte b t) u
    → (take ((u.buffer_size + 1) % 256) u.buffer ≡ line t ++ (b ∷ []))
      × ((u.buffer_size + 1) % 256 ≡ suc t.buffer_size)
      × (length u.buffer ≡ max_buf_size)
unfolding put_byte line
grown b t u h s =
    let e : (u.buffer_size + 1) % 256 ≡ suc t.buffer_size = omega arith in
    (
      ap₂ take e s.buffer ∙ take-set t.buffer_size t.buffer b (omega arith),
      e,
      ap length s.buffer ∙ length-set t.buffer t.buffer_size b ∙ h.size,
    )

same-flags :
    (b : ℕ) (t u : Terminal)
    → SameLine (put_byte b t) u
    → (u.enter_flag ≡ t.enter_flag) × (u.waiting_in_read ≡ t.waiting_in_read)
unfolding put_byte
same-flags b t u s = (s.enter_flag, s.waiting_in_read)

length-snoc : (s : List ℕ) (b : ℕ) → length (s ++ (b ∷ [])) ≡ suc (length s)
length-snoc s b = omega (arith, length-append s (b ∷ []))

pub add-Edited :
    (ch : ℕ) (t u : Terminal)
    → HasRoom t
    → ch ≢ backspace_pressed
    → ch ≢ enter_key
    → t.buffer_size ≢ max_buf_size - 1
    → SameLine (put_byte ch t) u
    → Edited ch t (grow u)
unfolding grow line
add-Edited ch t u h nb ne nf s =
    let (l, n, size) = grown ch t u h s in
    let e = edit_line-add ch (line t) nb ne (rw (length-line t h) nf) in
    record {
      new_line = l ∙ sym e;
      size = size;
      count = n ∙ sym (ap length e ∙ length-snoc (line t) ch ∙ ap suc (length-line t h));
      entered = ground (arith, same-flags ch t u s);
      still_waiting = (same-flags ch t u s).1;
    }

pub enter-Edited :
    (t u : Terminal)
    → HasRoom t
    → SameLine (put_byte end_of_line t) u
    → Edited enter_key t (grow (record u { enter_flag = 1 }))
unfolding grow line
enter-Edited t u h s =
    let (l, n, size) = grown end_of_line t u h s in
    let e = edit_line-enter (line t) in
    record {
      new_line = l ∙ sym e;
      size = size;
      count = n ∙ sym (ap length e ∙ length-snoc (line t) end_of_line ∙ ap suc (length-line t h));
      entered = refl;
      still_waiting = (same-flags end_of_line t u s).1;
    }

-- A terminal with the same line, whose bytes behind the line may differ.
pub record Behind (t t' : Terminal) : Type 0 where
  pub same_line : line t' ≡ line t
  size : length t'.buffer ≡ length t.buffer
  count : t'.buffer_size ≡ t.buffer_size
  entered : t'.enter_flag ≡ t.enter_flag
  still_waiting : t'.waiting_in_read ≡ t.waiting_in_read

pub zero_first-Behind : (t : Terminal) → Behind t (zero_first t)
unfolding put_byte zero_first line
zero_first-Behind t = elim (Bool-cases (t.buffer_size == 0)) [
  | inl z ↦ rw z (record {
    same_line = take-set_above t.buffer_size t.buffer_size t.buffer 0 (omega arith);
    size = length-set t.buffer t.buffer_size 0;
    count = refl;
    entered = refl;
    still_waiting = refl;
  })
  | inr p ↦
      rw p (record {
        same_line = refl;
        size = refl;
        count = refl;
        entered = refl;
        still_waiting = refl;
      })
]

pub Behind-Edited : {key : ℕ} {t u u' : Terminal} → Edited key t u → Behind u u' → Edited key t u'
Behind-Edited e b = record {
  new_line = b.same_line ∙ e.new_line;
  size = b.size ∙ e.size;
  count = b.count ∙ e.count;
  entered = b.entered ∙ e.entered;
  still_waiting = b.still_waiting ∙ e.still_waiting;
}

shrink-Edited :
    (t u : Terminal)
    → HasRoom t
    → 0 < t.buffer_size
    → SameLine t u
    → Edited backspace_pressed t (shrink u)
unfolding put_byte shrink line
shrink-Edited t u h pos s =
    let n = t.buffer_size in
    let k = t.buffer_size - 1 in
    let e : (u.buffer_size + 255) % 256 ≡ k = omega arith in
    let whole : suc k ≡ n = omega arith in
    let cut : take k t.buffer ≡ drop_last (line t) =
      sym (drop_last-take k t.buffer (omega arith)) ∙ ap (λ m. drop_last (take m t.buffer)) whole in
    record {
      new_line =
          ap₂ take e (ap₂ (λ b m. set b m 0) s.buffer s.buffer_size)
          ∙ take-set_above k n t.buffer 0 (omega arith)
          ∙ cut
          ∙ sym (edit_line-delete (line t));
      size =
          ap₂ (λ b m. length (set b m 0)) s.buffer s.buffer_size ∙ length-set t.buffer n 0 ∙ h.size;
      count =
          e
          ∙ sym (length-take_le k t.buffer (omega arith))
          ∙ ap length (cut ∙ sym (edit_line-delete (line t)));
      entered = s.enter_flag;
      still_waiting = s.waiting_in_read;
    }

pub delete-Edited :
    (t u : Terminal)
    → HasRoom t
    → 0 < t.buffer_size
    → SameLine t u
    → Edited backspace_pressed t (zero_first (shrink u))
delete-Edited t u h pos s = Behind-Edited (shrink-Edited t u h pos s) (zero_first-Behind (shrink u))

pub empty-Edited : (t : Terminal) → HasRoom t → t.buffer_size ≡ 0 → Edited backspace_pressed t t
unfolding line edit_line drop_last
empty-Edited t h e =
    let empty : line t ≡ [] = ap (λ n. take n t.buffer) e in
    let still : edit_line backspace_pressed (line t) ≡ [] = ap drop_last empty in
    record {
      new_line = empty ∙ sym still;
      size = h.size;
      count = e ∙ sym (ap length still);
      entered = refl;
      still_waiting = refl;
    }

pub full-Edited :
    (ch : ℕ) (t : Terminal)
    → HasRoom t
    → ch ≢ backspace_pressed
    → ch ≢ enter_key
    → t.buffer_size ≡ max_buf_size - 1
    → Edited ch t t
full-Edited ch t h nb ne f =
    let e = edit_line-full ch (line t) nb ne (length-line t h ∙ f) in
    record {
      new_line = sym e;
      size = h.size;
      count = sym (ap length e ∙ length-line t h);
      entered = ground arith;
      still_waiting = refl;
    }
