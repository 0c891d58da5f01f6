-- ===== src/Wm/Manager/Known.antt =====
-- src/wm/manager.cpp: the windows of a run are those that were there and those that it opens.
use mathlib.Core.List.{Memᴰ}
use mathlib.Core.List.Memᴰ
use sshos.Base.{
  ℕ, ◌-◌, refl, sym, subst, inl, inr, Bool, true, false, not, ◌&&◌, Option, none, some, List, [],
  ◌∷◌, ◌++◌, map, All, All-append, All-append_left, All-append_right, length, leb, Bool-cases,
  Option-cases,
}
use sshos.Render.Cell.{Size, Rect}
use sshos.Wm.{WinMode, fullscreen, Window}
use sshos.Wm.Manager.{
  WindowManager, ==_WinMode, find, leave_fullscreen, focus, open_window, close, set_rect, start_of,
  step_from, step, enter_mode, others_leave, set_mode, max_windows,
}
use sshos.Wm.Manager.Stack.{leave-id, enter-id, update-All, raise-All, remove-All}
use sshos.Wm.Manager.Run.{
  Op, open_op, close_op, raise_op, focus_op, next_op, prev_op, set_mode_op, set_rect_op, operate,
  operate_all, listed, handed_out, opened,
}

-- A property of the identifiers that are there and of those handed out is one of all in the end.
module _ (P : ℕ → Type 0) where
  abbrev Has : Window → Type 0
  Has w = P w.id

  map-Has : (id : ℕ) (ws : List Window) → All Has ws → All Has (map (leave_fullscreen id) ws)
  map-Has id [] h = tt
  map-Has id (w ∷ ws) h = (subst P (sym (leave-id id w)) h.0, map-Has id ws h.1)

  focus-Has : (id : ℕ) (m : WindowManager) → All Has m.stack → All Has (focus id m).stack
  unfolding focus
  focus-Has id m h = raise-All Has id (map (leave_fullscreen id) m.stack) (map-Has id m.stack h)

  step-Has : (forward : Bool) (m : WindowManager) → All Has m.stack → All Has (step forward m).stack
  unfolding step
  step-Has forward m h =
      elim (Option-cases (
        step_from forward m.stack (start_of m.stack m.focused 0 (length m.stack - 1)) 1
          (length m.stack))) [
            | inl e ↦ rw (step, e) h
            | inr (id, e) ↦ rw (step, e) (focus-Has id m h)
          ]

  open-Has :
      (app : Option Size) (work : Rect) (m : WindowManager)
      → All P (listed (open_window app work m).0)
      → All Has m.stack
      → All Has (open_window app work m).1.stack
  unfolding open_window
  open-Has none work m new h = h
  open-Has (some least) work m new h = elim (Bool-cases (leb max_windows (length m.stack))) [
    | inl e ↦ rw e h
    | inr e ↦
        let given : P m.next_id = (rw e at new).0 in
        rw e (focus-Has m.next_id _ (All-append Has m.stack _ h (given, tt)))
  ]

  set_mode-Has :
      (id : ℕ) (mode : WinMode) (work : Rect) (m : WindowManager)
      → All Has m.stack
      → All Has (set_mode id mode work m).stack
  unfolding set_mode
  set_mode-Has id mode work m h = elim (Option-cases (find id m.stack)) [
    | inl e ↦ rw (set_mode, e) h
    | inr (w, e) ↦
        rw (set_mode, e)
          (update-All Has (enter_mode mode work) (λ v k. subst P (sym (enter-id mode work v)) k) id
            (others_leave mode w id m.stack) (others mode w))
  ]
    where
      others : (mode : WinMode) (w : Window) → All Has (others_leave mode w id m.stack)
      others mode w =
          elim (Bool-cases (==_WinMode mode fullscreen && not (==_WinMode w.mode fullscreen))) [
            | inl e ↦ rw e (map-Has id m.stack h)
            | inr e ↦ rw e h
          ]

  close-Has : (id : ℕ) (m : WindowManager) → All Has m.stack → All Has (close id m).1.stack
  unfolding close
  close-Has id m h = elim (Option-cases (find id m.stack)) [
    | inl e ↦ rw (close, e) h
    | inr (w, e) ↦ rw (close, e) (remove-All Has id m.stack h)
  ]

  operate-Has :
      (op : Op) (m : WindowManager)
      → All P (handed_out op m)
      → All Has m.stack
      → All Has (operate op m).stack
  operate-Has (open_op app work) m new h = open-Has app work m new h
  operate-Has (close_op id) m new h = close-Has id m h
  operate-Has (raise_op id) m new h = raise-All Has id m.stack h
  operate-Has (focus_op id) m new h = focus-Has id m h
  operate-Has next_op m new h = step-Has true m h
  operate-Has prev_op m new h = step-Has false m h
  operate-Has (set_mode_op id mode work) m new h = set_mode-Has id mode work m h
  operate-Has (set_rect_op id user work) m new h =
      unfold set_rect in update-All Has _ (λ v k. k) id m.stack h

  pub operate_all-Has :
      (ops : List Op) (m : WindowManager)
      → All P (opened ops m)
      → All Has m.stack
      → All Has (operate_all ops m).stack
  operate_all-Has [] m new h = h
  operate_all-Has (op ∷ ops) m new h =
      operate_all-Has ops (operate op m)
        (All-append_right P (handed_out op m) (opened ops (operate op m)) new)
        (operate-Has op m (All-append_left P (handed_out op m) (opened ops (operate op m)) new) h)

All-members {ℓ κ} :
    {A : Type ℓ} (P : A → Type κ) (xs : List A) → ((x : A) → Memᴰ x xs → P x) → All P xs
All-members P [] each = tt
All-members P (x ∷ xs) each =
    (each x (Memᴰ.head refl), All-members P xs (λ y m. each y (Memᴰ.tail m)))

abbrev pub identifiers : List Window → List ℕ
identifiers ws = map (λ w. w.id) ws

-- Every window in the end has an identifier that was there in the beginning, or one handed out.
pub operate_all-opened :
    (ops : List Op) (m : WindowManager)
    → All (λ w. Memᴰ w.id (identifiers m.stack ++ opened ops m)) (operate_all ops m).stack
operate_all-opened ops m =
    operate_all-Has (λ i. Memᴰ i (identifiers m.stack ++ opened ops m)) ops m
      (All-members _ (opened ops m) (λ i k. Memᴰ.append_right (identifiers m.stack) k))
      (All-members _ m.stack (λ w k. Memᴰ.append_left (opened ops m) (Memᴰ.map (λ v. v.id) k)))
