-- ===== src/Wm/Decor/Inverse.antt =====
-- `hit_window` is the inverse of what `draw_decor` draws.
use sshos.Base.{ℕ, ◌+◌, ◌-◌, ◌*◌, ◌/◌, ◌<◌, ◌≡◌, refl, arith, true, false, ltb}
use sshos.Base.Int.{
  ℤ, pos, pos_part, ◌+ℤ◌, ◌-ℤ◌, ◌≤ℤ◌, ◌<ℤ◌, ltb_ℤ, leb_ℤ, ==_ℤ, max_ℤ, add_parts, sub_parts,
  zero_part,
}
use sshos.Render.Cell.{Rect, contains}
use sshos.Wm.{Window, client_rect}
use sshos.Wm.Decor.{
  buttons_for, buttons_x, button_view, client, result, which_button, hit_frame, hit_window,
}

-- The cells of a rectangle.
abbrev pub HasCell : Rect → ℤ → ℤ → Type 0
HasCell r x y = (r.x ≤ℤ x) × (r.y ≤ℤ y) × (x <ℤ r.x +ℤ r.w) × (y <ℤ r.y +ℤ r.h)

contains-true : (r : Rect) (x y : ℤ) → HasCell r x y → contains r x y ≡ true
contains-true r x y (a, b, c, d) = ground arith

differ_lt : (a b : ℤ) → a <ℤ b → ==_ℤ a b ≡ false
differ_lt a b h = ground arith

differ_gt : (a b : ℤ) → b <ℤ a → ==_ℤ a b ≡ false
differ_gt a b h = ground arith

max_pos : (a p q : ℤ) → p ≤ℤ q → q <ℤ p +ℤ max_ℤ (pos 0) a → q <ℤ p +ℤ a
max_pos a p q h k = let s = add_parts p a in let z = add_parts p (pos 0) in ground arith

-- A place between the two borders, in one direction.
between :
    (start extent p : ℤ)
    → start +ℤ pos 1 ≤ℤ p
    → p <ℤ start +ℤ pos 1 +ℤ max_ℤ (pos 0) (extent -ℤ pos 2)
    → (start <ℤ p) × (p <ℤ start +ℤ extent -ℤ pos 1)
between start extent p h k =
    let l = max_pos (extent -ℤ pos 2) (start +ℤ pos 1) p h k in
    (
      omega (arith, h, add_parts start (pos 1)),
      omega (
        arith,
        l,
        add_parts start (pos 1),
        sub_parts extent (pos 2),
        add_parts (start +ℤ pos 1) (extent -ℤ pos 2),
        add_parts start extent,
        sub_parts (start +ℤ extent) (pos 1),
      ),
    )

before_last : (p start extent : ℤ) → p <ℤ start +ℤ extent -ℤ pos 1 → p <ℤ start +ℤ extent
before_last p start extent h = omega (arith, h, sub_parts (start +ℤ extent) (pos 1))

-- Every cell of a window's client area is hit as client, with its place in the area.
pub hit_window-client :
    (w : Window) (x y : ℤ)
    → HasCell (client_rect w.display_rect) x y
    → hit_window w x y ≡ record {
      what = client;
      win = w.id;
      lx = x -ℤ (client_rect w.display_rect).x;
      ly = y -ℤ (client_rect w.display_rect).y;
    }
unfolding hit_frame
hit_window-client w x y (a, b, c, d) =
    let f = w.display_rect in
    let (xl, xr) = between f.x f.w x a c in
    let (yl, yr) = between f.y f.h y b d in
    let in_frame =
      contains-true f x y (
        omega (arith, xl),
        omega (arith, yl),
        before_last x f.x f.w xr,
        before_last y f.y f.h yr,
      ) in
    rw
      (
        in_frame,
        differ_lt x (f.x +ℤ f.w -ℤ pos 1) xr,
        differ_gt y f.y yl,
        differ_lt y (f.y +ℤ f.h -ℤ pos 1) yr,
        contains-true (client_rect f) x y (a, b, c, d),
      )
      refl

buttons_fit : (w : ℤ) → 0 < buttons_for w → pos (7 + 3 * buttons_for w) ≤ℤ w
buttons_fit w h = ground arith

-- `n` buttons of three cells that end one cell before the frame does, and a cell of button `i`.
module _ (fx fw : ℤ) (n i : ℕ) (x : ℤ) where
  abbrev first_x : ℤ
  first_x = fx +ℤ fw -ℤ pos 1 -ℤ pos (3 * n)

  abbrev IsOnButton : Type 0
  IsOnButton =
      (pos (7 + 3 * n) ≤ℤ fw)
      × (i < n)
      × (first_x +ℤ pos (3 * i) ≤ℤ x)
      × (x <ℤ first_x +ℤ pos (3 * i) +ℤ pos 3)

  button_place :
      IsOnButton
      → (fx ≤ℤ x) × (first_x ≤ℤ x) × (x <ℤ first_x +ℤ pos (3 * n)) × (x <ℤ fx +ℤ fw -ℤ pos 1)
  button_place (fit, h, l, r) =
      let a = add_parts fx fw in
      let b = sub_parts (fx +ℤ fw) (pos 1) in
      let c = sub_parts (fx +ℤ fw -ℤ pos 1) (pos (3 * n)) in
      let d = add_parts first_x (pos (3 * i)) in
      let e = add_parts (first_x +ℤ pos (3 * i)) (pos 3) in
      let g = add_parts first_x (pos (3 * n)) in
      (
        omega (arith, fit, h, l, r, a, b, c, d, e, g),
        omega (arith, fit, h, l, r, a, b, c, d, e, g),
        omega (arith, fit, h, l, r, a, b, c, d, e, g),
        omega (arith, fit, h, l, r, a, b, c, d, e, g),
      )

  button_slot : IsOnButton → pos_part (x -ℤ first_x) / 3 ≡ i
  button_slot (fit, h, l, r) = omega (
    arith,
    l,
    r,
    sub_parts x first_x,
    zero_part (x -ℤ first_x),
    add_parts first_x (pos (3 * i)),
    add_parts (first_x +ℤ pos (3 * i)) (pos 3),
  )

same_ℤ : (a b : ℤ) → a ≤ℤ b → b <ℤ a +ℤ pos 1 → ==_ℤ b a ≡ true
same_ℤ a b h k = let s = add_parts a (pos 1) in ground arith

-- Every cell where a button is drawn, on a window that has a row, is hit as that button.
pub hit_window-button :
    (w : Window) (i : ℕ) (x y : ℤ)
    → i < buttons_for w.display_rect.w
    → pos 1 ≤ℤ w.display_rect.h
    → HasCell (button_view w.display_rect i) x y
    → hit_window w x y ≡ result (which_button (3 - buttons_for w.display_rect.w + i)) w.id
unfolding hit_frame
hit_window-button w i x y h high (a, b, c, d) =
    let f = w.display_rect in
    let n = buttons_for f.w in
    let on : IsOnButton f.x f.w n i x = (buttons_fit f.w (omega (arith, h)), h, a, c) in
    let (left, from, to, last) = button_place f.x f.w n i x on in
    let tall : y <ℤ f.y +ℤ f.h = omega (arith, d, high, add_parts f.y (pos 1), add_parts f.y f.h) in
    let in_frame = contains-true f x y (left, b, before_last x f.x f.w last, tall) in
    let some_button : ltb 0 n ≡ true = ground arith in
    let from' : leb_ℤ (buttons_x f) x ≡ true = ground arith in
    let to' : ltb_ℤ x (buttons_x f +ℤ pos (3 * n)) ≡ true = ground arith in
    rw
      (
        in_frame,
        differ_lt x (f.x +ℤ f.w -ℤ pos 1) last,
        same_ℤ f.y y b d,
        some_button,
        from',
        to',
        button_slot f.x f.w n i x on,
      )
      refl
