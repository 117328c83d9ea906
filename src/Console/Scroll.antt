-- ===== src/Console/Scroll.antt =====
-- What a scroll leaves on the page.
use linux_like_os_project.Prelude.{
  ℕ, zero, suc, ◌+◌, ◌-◌, ◌*◌, ◌≤◌, ◌<◌, ◌≡◌, ap, ◌∙◌, arith, ltb, leb, ◌==◌, if◌then◌else◌, ◌&&◌,
  Memory, store,
}
use linux_like_os_project.Console.{
  put_cell, scroll_row, scroll_rows, blank_row, scroll, num_cols, num_rows,
}

-- The address of the character at a row and a column, and of its attribute.
abbrev pub cell : ℕ → ℕ → ℕ → ℕ
cell page r q = page + (num_cols * r + q) * 2

put_cell-cell :
    (page i j c attr : ℕ) (m : Memory) (r q : ℕ)
    → j < num_cols
    → q < num_cols
    → put_cell page (num_cols * i + j) c attr m (cell page r q)
      ≡ (if (r == i) && (q == j) then c else m (cell page r q))
unfolding put_cell store
put_cell-cell page i j c attr m r q hj hq = ground arith

scroll_row-cell :
    (n i j page attr : ℕ) (m : Memory) (r q : ℕ)
    → j + n ≤ num_cols
    → q < num_cols
    → scroll_row n i j page attr m (cell page r q) ≡ (
        if (r == i) && (leb j q && ltb q (j + n))
        then m (cell page (i + 1) q)
        else m (cell page r q))
unfolding scroll_row
scroll_row-cell zero i j page attr m r q hj hq = ground arith
scroll_row-cell (suc n) i j page attr m r q hj hq =
    let c = m (cell page (i + 1) j) in
    let m' = put_cell page (num_cols * i + j) c attr m in
    scroll_row-cell n i (j + 1) page attr m' r q (omega arith) hq
    ∙ ground (
      arith,
      put_cell-cell page i j c attr m r q (omega arith) hq,
      put_cell-cell page i j c attr m (i + 1) q (omega arith) hq,
    )

blank_row-cell :
    (n i j page attr : ℕ) (m : Memory) (r q : ℕ)
    → j + n ≤ num_cols
    → q < num_cols
    → blank_row n i j page attr m (cell page r q)
      ≡ (if (r == i) && (leb j q && ltb q (j + n)) then 0 else m (cell page r q))
unfolding blank_row
blank_row-cell zero i j page attr m r q hj hq = ground arith
blank_row-cell (suc n) i j page attr m r q hj hq =
    blank_row-cell n i (j + 1) page attr (put_cell page (num_cols * i + j) 0 attr m) r q
      (omega arith) hq
    ∙ ground (arith, put_cell-cell page i j 0 attr m r q (omega arith) hq)

scroll_rows-cell :
    (n i page attr : ℕ) (m : Memory) (r q : ℕ)
    → q < num_cols
    → scroll_rows n i page attr m (cell page r q)
      ≡ (if leb i r && ltb r (i + n) then m (cell page (r + 1) q) else m (cell page r q))
unfolding scroll_rows
scroll_rows-cell zero i page attr m r q hq = ground arith
scroll_rows-cell (suc n) i page attr m r q hq =
    scroll_rows-cell n (i + 1) page attr (scroll_row num_cols i 0 page attr m) r q hq
    ∙ ground (
      arith,
      scroll_row-cell num_cols i 0 page attr m r q (omega arith) hq,
      scroll_row-cell num_cols i 0 page attr m (r + 1) q (omega arith) hq,
    )

choose :
    (v w r q : ℕ)
    → r < num_rows
    → q < num_cols
    → (if (r == num_rows - 1) && (leb 0 q && ltb q (0 + num_cols))
        then 0
        else (if leb 0 r && ltb r (0 + (num_rows - 1)) then v else w))
      ≡ (if r == num_rows - 1 then 0 else v)
choose v w r q hr hq = ground arith

-- After the scroll of a page, each of the rows 0 to 23 shows the characters of the row below it, and
-- row 24 is empty.
pub scroll_lem :
    (page attr : ℕ) (m : Memory) (r q : ℕ)
    → r < num_rows
    → q < num_cols
    → scroll page attr m (cell page r q)
      ≡ (if r == num_rows - 1 then 0 else m (cell page (r + 1) q))
unfolding scroll
scroll_lem page attr m r q hr hq =
    blank_row-cell num_cols (num_rows - 1) 0 page attr (scroll_rows (num_rows - 1) 0 page attr m) r
      q (omega arith) hq
    ∙ ap (λ v. if (r == num_rows - 1) && (leb 0 q && ltb q (0 + num_cols)) then 0 else v)
        (scroll_rows-cell (num_rows - 1) 0 page attr m r q hq)
    ∙ choose (m (cell page (r + 1) q)) (m (cell page r q)) r q hr hq
