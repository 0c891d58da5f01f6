-- ===== src/Apps/Terminal/Calls.antt =====
-- Whatever a guest writes, its screen goes through calls of the screen's operations only.
use sshos.Base.{
  ℕ, Bool, true, false, not, ◌&&◌, ◌||◌, ◌≡◌, refl, ap, subst, sym, ◌∙◌, List, [], ◌∷◌, ◌++◌, Bytes,
  ◌==◌, if◌then◌else◌, arith, inl, inr, Option-cases,
}
use sshos.Base.Int.{pos, pos_part, ◌-ℤ◌, ==_ℤ}
use sshos.Vt.Parser.{
  Params, Event, print, execute, csi, esc, osc, dcs_start, dcs_data, dcs_end, param_or,
}
use sshos.Vt.Parser.Machine.{feed}
use sshos.Vt.Attrs.{apply_sgr}
use sshos.Vt.Charset.{charset_from_final}
use sshos.Vt.Modes.{Modes, apply_dec_private}
use sshos.Vt.Screen.{Screen}
use sshos.Vt.Screen.Bounds.{IsValid}
use sshos.Base.Text.{==_Bytes}
use sshos.Vt.Reply.{reply_for_csi}
use sshos.Vt.Screen.Run.{
  backspace_op, carriage_return_op, clear_all_tabs_op, clear_tab_op, delete_chars_op,
  delete_lines_op, enter_alt_op, erase_chars_op, erase_display_op, erase_line_op, insert_chars_op,
  insert_lines_op, leave_alt_op, line_feed_op, move_down_op, move_left_op, move_right_op,
  move_to_op, move_up_op, next_line_op, print_op, reset_scroll_region_op, restore_cursor_op,
  reverse_index_op, save_cursor_op, set_autowrap_op, set_charset_op, set_column_op, set_pen_op,
  set_row_op, set_scroll_region_op, set_tab_op, tab_op, Op, perform, perform_all,
  perform_all-IsValid,
}
use sshos.Apps.Terminal.{
  Tab, count_of, executed, sync_modes, set_region, csi_screen, on_csi, esc_screen, on_osc, handle,
  handle_all, receive, split_at_semicolon, is_title,
}

abbrev executed_ops : ℕ → List Op
executed_ops b =
    if b == 0x0A || b == 0x0B || b == 0x0C
    then line_feed_op ∷ []
    else if b == 0x0D
    then carriage_return_op ∷ []
    else if b == 0x08
    then backspace_op ∷ []
    else if b == 0x09
    then tab_op ∷ []
    else []

abbrev sync_ops : Modes → Screen → List Op
sync_ops m s =
    set_autowrap_op m.autowrap
    ∷ (if m.alt_screen && not s.alt
        then enter_alt_op ∷ []
        else if not m.alt_screen && s.alt
        then leave_alt_op ∷ []
        else [])

abbrev region_op : Params → Screen → Op
region_op [] s = reset_scroll_region_op
region_op (p ∷ ps) s =
    set_scroll_region_op (count_of (p ∷ ps) 0 -ℤ pos 1) (param_or (p ∷ ps) 1 (pos s.rows) -ℤ pos 1)

abbrev csi_ops : Params → ℕ → Screen → List Op
csi_ops params b s =
    let n = count_of params 0 in
    if b == b'A'
    then move_up_op n ∷ []
    else if b == b'B'
    then move_down_op n ∷ []
    else if b == b'C'
    then move_right_op n ∷ []
    else if b == b'D'
    then move_left_op n ∷ []
    else if b == b'G'
    then set_column_op (n -ℤ pos 1) ∷ []
    else if b == b'd'
    then set_row_op (n -ℤ pos 1) ∷ []
    else if b == b'H' || b == b'f'
    then move_to_op (count_of params 1 -ℤ pos 1) (count_of params 0 -ℤ pos 1) ∷ []
    else if b == b'J'
    then erase_display_op (pos_part (param_or params 0 (pos 0))) ∷ []
    else if b == b'K'
    then erase_line_op (pos_part (param_or params 0 (pos 0))) ∷ []
    else if b == b'X'
    then erase_chars_op n ∷ []
    else if b == b'@'
    then insert_chars_op n ∷ []
    else if b == b'P'
    then delete_chars_op n ∷ []
    else if b == b'L'
    then insert_lines_op n ∷ []
    else if b == b'M'
    then delete_lines_op n ∷ []
    else if b == b'r'
    then region_op params s ∷ []
    else if b == b'g'
    then (if ==_ℤ (param_or params 0 (pos 0)) (pos 0)
        then clear_tab_op ∷ []
        else if ==_ℤ (param_or params 0 (pos 0)) (pos 3)
        then clear_all_tabs_op ∷ []
        else [])
    else if b == b'm'
    then set_pen_op (apply_sgr params s.pen) ∷ []
    else []

abbrev esc_ops : Bytes → ℕ → List Op
esc_ops intermediates b =
    if ==_Bytes intermediates (b'(' ∷ [])
    then set_charset_op (charset_from_final b) ∷ []
    else if not (==_Bytes intermediates [])
    then []
    else if b == b'7'
    then save_cursor_op ∷ []
    else if b == b'8'
    then restore_cursor_op ∷ []
    else if b == b'D'
    then line_feed_op ∷ []
    else if b == b'M'
    then reverse_index_op ∷ []
    else if b == b'E'
    then next_line_op ∷ []
    else if b == b'H'
    then set_tab_op ∷ []
    else []

module _ (ambiguous : Bool) where
  -- Some calls take one screen to the other.
  Runs : Screen → Screen → Type 0
  Runs s t = (ops : List Op) × (t ≡ perform_all ambiguous ops s)

  executed-Runs : (b : ℕ) (s : Screen) → Runs s (executed b s)
  unfolding Runs executed
  executed-Runs b s = (executed_ops b, ground arith)

  region-perform :
      (params : Params) (s : Screen)
      → set_region params s ≡ perform ambiguous (region_op params s) s
  region-perform [] s = refl
  region-perform (p ∷ ps) s = refl

  csi_screen-Runs : (params : Params) (b : ℕ) (s : Screen) → Runs s (csi_screen params b s)
  unfolding Runs csi_screen
  csi_screen-Runs params b s = (csi_ops params b s, ground (arith, region-perform params s))

  esc_screen-Runs :
      (intermediates : Bytes) (b : ℕ) (s : Screen) → Runs s (esc_screen intermediates b s)
  unfolding Runs esc_screen
  esc_screen-Runs intermediates b s = (esc_ops intermediates b, ground arith)

  sync_modes-Runs : (m : Modes) (s : Screen) → Runs s (sync_modes m s)
  unfolding Runs sync_modes
  sync_modes-Runs m s = (sync_ops m s, ground arith)

  Runs-self : (s : Screen) → Runs s s
  unfolding Runs
  Runs-self s = ([], refl)

  perform_all-append :
      (xs ys : List Op) (s : Screen)
      → perform_all ambiguous (xs ++ ys) s ≡ perform_all ambiguous ys (perform_all ambiguous xs s)
  perform_all-append [] ys s = refl
  perform_all-append (x ∷ xs) ys s = perform_all-append xs ys (perform ambiguous x s)

  Runs-trans : (s t u : Screen) → Runs s t → Runs t u → Runs s u
  unfolding Runs
  Runs-trans s t u (xs, p) (ys, q) =
      (xs ++ ys, q ∙ ap (perform_all ambiguous ys) p ∙ sym (perform_all-append xs ys s))

  -- The tab's screen is where some calls take `s`.
  record Follows (s : Screen) (t : Tab) : Type 0 where
    run : Runs s t.screen

  Follows-if :
      (b : Bool) (s : Screen) (t u : Tab)
      → Follows s t
      → Follows s u
      → Follows s (if b then t else u)
  Follows-if true s t u p q = p
  Follows-if false s t u p q = q

  -- The tab itself, or one with the same screen.
  same : (t u : Tab) → u.screen ≡ t.screen → Follows t.screen u
  unfolding Runs
  same t u e = record { run = ([], e) }

  on_csi-Follows :
      (params : Params) (intermediates : Bytes) (b : ℕ) (t : Tab)
      → Follows t.screen (on_csi params intermediates b t)
  unfolding on_csi
  on_csi-Follows params intermediates b t =
      let modes = apply_dec_private params (b == b'h') t.modes in
      let answer = reply_for_csi params intermediates b t.screen.cx t.screen.cy t.modes in
      Follows-if (not (==_Bytes answer [])) t.screen _ _ (same t _ refl) (
        Follows-if (==_Bytes intermediates (b'?' ∷ [])) t.screen _ _
          (Follows-if (b == b'h' || b == b'l') t.screen _ _
            (record { run = sync_modes-Runs modes t.screen }) (same t t refl))
          (Follows-if (not (==_Bytes intermediates [])) t.screen _ _ (same t t refl)
            (record { run = csi_screen-Runs params b t.screen })))

  on_osc-Follows : (text : Bytes) (t : Tab) → Follows t.screen (on_osc text t)
  unfolding on_osc
  on_osc-Follows text t = elim (Option-cases (split_at_semicolon text)) [
    | inl e ↦ rw e (same t t refl)
    | inr ((id, title), e) ↦
        rw e (Follows-if (is_title id) t.screen _ _ (same t _ refl) (same t t refl))
  ]

  handle-Follows : (e : Event) (t : Tab) → Follows t.screen (handle ambiguous e t)
  unfolding handle
  handle-Follows (print cp) t = record { run = unfold Runs in (print_op cp ∷ [], refl) }
  handle-Follows (execute b) t = record { run = executed-Runs b t.screen }
  handle-Follows (csi params intermediates b) t = on_csi-Follows params intermediates b t
  handle-Follows (esc intermediates b) t = record { run = esc_screen-Runs intermediates b t.screen }
  handle-Follows (osc text) t = on_osc-Follows text t
  handle-Follows (dcs_start params intermediates b) t = same t t refl
  handle-Follows (dcs_data chunk) t = same t t refl
  handle-Follows dcs_end t = same t t refl

  handle_all-Runs : (es : List Event) (t : Tab) → Runs t.screen (handle_all ambiguous es t).screen
  handle_all-Runs [] t = Runs-self t.screen
  handle_all-Runs (e ∷ es) t =
      Runs-trans t.screen (handle ambiguous e t).screen _ (handle-Follows e t).run
        (handle_all-Runs es (handle ambiguous e t))

  -- Whatever bytes a guest writes, what they do to its screen is a run of the screen's operations.
  pub receive-perform_all :
      (bytes : Bytes) (t : Tab)
      → (ops : List Op) × ((receive ambiguous bytes t).screen ≡ perform_all ambiguous ops t.screen)
  unfolding receive Runs
  receive-perform_all bytes t =
      handle_all-Runs (feed bytes t.parser).1 (record t { parser = (feed bytes t.parser).0 })

  -- Whatever bytes a guest writes, in whatever pieces, its cursor stays on the grid, its region and
  -- its stops stay inside, its pages keep their size, and its history stays valid.
  pub receive-IsValid :
      (bytes : Bytes) (t : Tab) → IsValid t.screen → IsValid (receive ambiguous bytes t).screen
  receive-IsValid bytes t v =
      let (ops, e) = receive-perform_all bytes t in
      subst IsValid (sym e) (perform_all-IsValid ambiguous ops t.screen v)
