-- ===== src/Wm/Layout/Reversible.antt =====
-- What the display takes from a window it gives back: a layout is a function of what is wanted.
use sshos.Base.{
  ℕ, ◌≡◌, refl, ap, ◌∙◌, inl, inr, true, false, not, ◌&&◌, some, List, [], ◌∷◌, map, arith, ◌==◌,
  Bool-cases,
}
use sshos.Base.Int.{ℤ}
use sshos.Render.Cell.{Rect}
use sshos.Wm.{WinMode, normal, minimized, maximized, fullscreen, Window, frame_min, clamp_to}
use sshos.Wm.Manager.{
  WindowManager, ==_WinMode, find, update, leave_fullscreen, enter_mode, others_leave, set_mode,
}
use sshos.Wm.Manager.Stack.{leave-id, enter-id}
use sshos.Wm.Layout.{lay_out, relayout}
use mathlib.Core.Option.{some-injective}

map-lay_out :
    (a b : Rect) (ca ra cb rb : ℤ) (ws : List Window)
    → map (lay_out a ca ra) (map (lay_out b cb rb) ws) ≡ map (lay_out a ca ra) ws
map-lay_out a b ca ra cb rb [] = refl
map-lay_out a b ca ra cb rb (w ∷ ws) = ap (◌∷◌ (lay_out a ca ra w)) (map-lay_out a b ca ra cb rb ws)

-- A screen that shrinks, or changes in any way, and then comes back gives back the whole layout:
-- a layout forgets every earlier one.
pub relayout-relayout :
    (a b : Rect) (ca ra cb rb : ℤ) (m : WindowManager)
    → relayout a ca ra (relayout b cb rb m) ≡ relayout a ca ra m
unfolding relayout
relayout-relayout a b ca ra cb rb m =
    ap (λ ws. record m { stack = ws }) (map-lay_out a b ca ra cb rb m.stack)

find-update :
    (id : ℕ) (f : Window → Window) (w : Window) (ws : List Window)
    → ((v : Window) → (f v).id ≡ v.id)
    → find id ws ≡ some w
    → find id (update id f ws) ≡ some (f w)
unfolding find update
find-update id f w [] same h = ground arith
find-update id f w (v ∷ ws) same h = elim (Bool-cases (v.id == id)) [
  | inl e ↦
      let e' = ap (λ i. i == id) (same v) ∙ e in
      rw (e, e') (ap (λ u. some (f u)) (some-injective v w (rw e at h)))
  | inr e ↦ rw (e, e) (find-update id f w ws same (rw e at h))
]

find-map_leave :
    (id : ℕ) (w : Window) (ws : List Window)
    → find id ws ≡ some w
    → find id (map (leave_fullscreen id) ws) ≡ some w
unfolding find
find-map_leave id w [] h = ground arith
find-map_leave id w (v ∷ ws) h = elim (Bool-cases (v.id == id)) [
  | inl e ↦
      let e' : (leave_fullscreen id v).id == id ≡ true = ap (λ i. i == id) (leave-id id v) ∙ e in
      rw e' (ap some (stays e) ∙ rw e at h)
  | inr e ↦
      let e' : (leave_fullscreen id v).id == id ≡ false = ap (λ i. i == id) (leave-id id v) ∙ e in
      rw e' (find-map_leave id w ws (rw e at h))
]
  where
    stays : v.id == id ≡ true → leave_fullscreen id v ≡ v
    stays e = rw e refl

-- The window is found again after `set_mode`, in the mode asked for.
find-set_mode :
    (id : ℕ) (mode : WinMode) (work : Rect) (w : Window) (m : WindowManager)
    → find id m.stack ≡ some w
    → find id (set_mode id mode work m).stack ≡ some (enter_mode mode work w)
unfolding set_mode
find-set_mode id mode work w m h =
    rw (set_mode, h)
      (find-update id (enter_mode mode work) w (others_leave mode w id m.stack) (enter-id mode work)
        others)
  where
    others : find id (others_leave mode w id m.stack) ≡ some w
    others = elim (Bool-cases (==_WinMode mode fullscreen && not (==_WinMode w.mode fullscreen))) [
      | inl e ↦ rw e (find-map_leave id w m.stack h)
      | inr e ↦ rw e h
    ]

enter-user_rect :
    (mode : WinMode) (work : Rect) (w : Window)
    → ((enter_mode mode work w).user_rect ≡ w.user_rect)
      × ((enter_mode mode work w).min_size ≡ w.min_size)
enter-user_rect normal work w = (ground arith, ground arith)
enter-user_rect minimized work w = (ground arith, ground arith)
enter-user_rect maximized work w = (ground arith, ground arith)
enter-user_rect fullscreen work w = (ground arith, ground arith)

-- A window of the stack that is put in any mode, in whatever work area, and then in the normal one
-- is normal, remembers the place it was wanted in, and is at that place clamped to the work area.
pub set_mode-set_mode :
    (id : ℕ) (mode : WinMode) (there here : Rect) (w : Window) (m : WindowManager)
    → find id m.stack ≡ some w
    → (v : Window) × (find id (set_mode id normal here (set_mode id mode there m)).stack ≡ some v)
      × (v.display_rect ≡ clamp_to w.user_rect here (frame_min w.min_size))
      × (v.user_rect ≡ w.user_rect)
      × (v.mode ≡ normal)
set_mode-set_mode id mode there here w m h =
    let w' = enter_mode mode there w in
    let (user, least) = enter-user_rect mode there w in
    (
      enter_mode normal here w',
      find-set_mode id normal here w' (set_mode id mode there m)
          (find-set_mode id mode there w m h),
      λ i. clamp_to (user i) here (frame_min (least i)),
      user,
      refl,
    )
