-- ===== src/Console/Frame.antt =====
-- Which bytes of video memory the console writes.
use linux_like_os_project.Prelude.{
  ℕ, zero, suc, ◌+◌, ◌-◌, ◌*◌, ◌≤◌, ◌<◌, ◌≡◌, refl, ◌∙◌, ◌⊎◌, arith, Memory, store,
}
use linux_like_os_project.Console.{
  put_cell, clear_cells, scroll_row, scroll_rows, blank_row, scroll, num_cols, num_rows,
}

-- An address outside the cells from `lo` up to `hi` of a page.
abbrev pub Outside : ℕ → ℕ → ℕ → ℕ → Type 0
Outside page lo hi a = (a < page + lo * 2) ⊎ (page + hi * 2 ≤ a)

pub put_cell_frame :
    (page k c attr : ℕ) (m : Memory) (a : ℕ)
    → Outside page k (k + 1) a
    → put_cell page k c attr m a ≡ m a
unfolding put_cell store
put_cell_frame page k c attr m a h = ground arith

pub clear_cells_frame :
    (n k page attr : ℕ) (m : Memory) (a : ℕ)
    → Outside page k (k + n) a
    → clear_cells n k page attr m a ≡ m a
unfolding clear_cells
clear_cells_frame zero k page attr m a h = refl
clear_cells_frame (suc n) k page attr m a h =
    clear_cells_frame n (k + 1) page attr (put_cell page k 32 attr m) a (omega arith)
    ∙ put_cell_frame page k 32 attr m a (omega arith)

scroll_row_frame :
    (n i j page attr : ℕ) (m : Memory) (a : ℕ)
    → Outside page (num_cols * i + j) (num_cols * i + j + n) a
    → scroll_row n i j page attr m a ≡ m a
unfolding scroll_row
scroll_row_frame zero i j page attr m a h = refl
scroll_row_frame (suc n) i j page attr m a h =
    scroll_row_frame n i (j + 1) page attr _ a (omega arith)
    ∙ put_cell_frame page (num_cols * i + j) _ attr m a (omega arith)

blank_row_frame :
    (n i j page attr : ℕ) (m : Memory) (a : ℕ)
    → Outside page (num_cols * i + j) (num_cols * i + j + n) a
    → blank_row n i j page attr m a ≡ m a
unfolding blank_row
blank_row_frame zero i j page attr m a h = refl
blank_row_frame (suc n) i j page attr m a h =
    blank_row_frame n i (j + 1) page attr (put_cell page (num_cols * i + j) 0 attr m) a
      (omega arith)
    ∙ put_cell_frame page (num_cols * i + j) 0 attr m a (omega arith)

scroll_rows_frame :
    (n i page attr : ℕ) (m : Memory) (a : ℕ)
    → Outside page (num_cols * i) (num_cols * (i + n)) a
    → scroll_rows n i page attr m a ≡ m a
unfolding scroll_rows
scroll_rows_frame zero i page attr m a h = refl
scroll_rows_frame (suc n) i page attr m a h =
    scroll_rows_frame n (i + 1) page attr (scroll_row num_cols i 0 page attr m) a (omega arith)
    ∙ scroll_row_frame num_cols i 0 page attr m a (omega arith)

-- A scroll writes the 2000 cells of its page and nothing else.
pub scroll_frame :
    (page attr : ℕ) (m : Memory) (a : ℕ)
    → Outside page 0 (num_rows * num_cols) a
    → scroll page attr m a ≡ m a
unfolding scroll
scroll_frame page attr m a h =
    blank_row_frame num_cols (num_rows - 1) 0 page attr (scroll_rows (num_rows - 1) 0 page attr m) a
      (omega arith)
    ∙ scroll_rows_frame (num_rows - 1) 0 page attr m a (omega arith)
