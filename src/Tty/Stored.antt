-- ===== src/Tty/Stored.antt =====
-- What printing leaves alone: the stored position, the default color and the update of the cursor.
use condor_fos.Base.{ℕ, zero, suc, ◌+◌, ◌≡◌, refl, ◌∙◌, leb, ◌==◌, Bool-cases, inl, inr, u8}
use condor_fos.Tty.{
  Terminal, put_entry_at, terminal_scroll, next_line, next_column, terminal_move_cursor, tab, back,
  is_special, special, put_plain, show_cursor, terminal_putchar_color,
}

pub record KeepsStored (t t' : Terminal) : Type 0 where
  pub column : t'.column_store ≡ t.column_store
  pub row : t'.row_store ≡ t.row_store
  pub color : t'.default_color ≡ t.default_color
  pub update_cursor : t'.should_update_cursor ≡ t.should_update_cursor

pub same : (t : Terminal) → KeepsStored t t
same t = record { column = refl; row = refl; color = refl; update_cursor = refl }

pub both : (t t' t'' : Terminal) → KeepsStored t t' → KeepsStored t' t'' → KeepsStored t t''
both t t' t'' a b = record {
  column = b.column ∙ a.column;
  row = b.row ∙ a.row;
  color = b.color ∙ a.color;
  update_cursor = b.update_cursor ∙ a.update_cursor;
}

KeepsStored-next_line : (t : Terminal) → KeepsStored t (next_line t)
unfolding next_line terminal_scroll
KeepsStored-next_line t = elim (Bool-cases (leb 25 (u8 (t.row + 1)))) [
  | inl bottom ↦
      rw bottom (record { column = refl; row = refl; color = refl; update_cursor = refl })
  | inr inside ↦
      rw inside (record { column = refl; row = refl; color = refl; update_cursor = refl })
]

KeepsStored-next_column : (limit : ℕ) (t : Terminal) → KeepsStored t (next_column limit t)
unfolding next_column
KeepsStored-next_column limit t =
    let right : Terminal = record t { column = u8 (t.column + 1) } in
    let moved : KeepsStored t right = record {
      column = refl;
      row = refl;
      color = refl;
      update_cursor = refl;
    } in
    elim (Bool-cases (leb limit (u8 (t.column + 1)))) [
      | inl wrap ↦ rw wrap (both t right (next_line right) moved (KeepsStored-next_line right))
      | inr stay ↦ rw stay moved
    ]

KeepsStored-tab : (n : ℕ) (t : Terminal) → KeepsStored t (tab n t)
unfolding tab put_entry_at
KeepsStored-tab zero t = same t
KeepsStored-tab (suc n) t =
    both t _ _
      (both t _ _ (record { column = refl; row = refl; color = refl; update_cursor = refl })
        (KeepsStored-next_column 81 _))
      (KeepsStored-tab n _)

KeepsStored-show_cursor : (t : Terminal) → KeepsStored t (show_cursor t)
unfolding terminal_move_cursor
KeepsStored-show_cursor t = elim (Bool-cases (t.should_update_cursor == 0)) [
  | inl hidden ↦
      rw hidden (record { column = refl; row = refl; color = refl; update_cursor = refl })
  | inr shown ↦ rw shown (record { column = refl; row = refl; color = refl; update_cursor = refl })
]

KeepsStored-special : (t : Terminal) (c : ℕ) → KeepsStored t (special t c)
unfolding special back put_entry_at
KeepsStored-special t c = elim (Bool-cases (c == 10)) [
  | inl line ↦ rw line (KeepsStored-next_line t)
  | inr other ↦ elim (Bool-cases (c == 9)) [
    | inl tabs ↦ rw (other, tabs) (KeepsStored-tab 4 t)
    | inr backspace ↦
        rw (other, backspace)
          (record { column = refl; row = refl; color = refl; update_cursor = refl })
  ]
]

KeepsStored-put_plain : (t : Terminal) (uc color : ℕ) → KeepsStored t (put_plain t uc color)
unfolding put_plain put_entry_at
KeepsStored-put_plain t uc color =
    both t _ _ (record { column = refl; row = refl; color = refl; update_cursor = refl })
      (KeepsStored-next_column 80 _)

-- A character of any kind keeps them.
pub KeepsStored-putchar :
    (t : Terminal) (uc color : ℕ) → KeepsStored t (terminal_putchar_color t uc color)
unfolding terminal_putchar_color
KeepsStored-putchar t uc color = elim (Bool-cases (is_special uc)) [
  | inl control ↦
      rw control (both t _ _ (KeepsStored-special t uc) (KeepsStored-show_cursor (special t uc)))
  | inr plain ↦ rw plain (
      both t _ _ (KeepsStored-put_plain t uc color)
        (KeepsStored-show_cursor (put_plain t uc color)))
]
