-- ===== src/Wm/Manager/Run.antt =====
-- src/wm/manager.hpp: a run of the window manager, with the identifiers that it hands out.
use sshos.Base.{
  ℕ, ◌+◌, ◌%◌, ◌^◌, ◌≤◌, ◌<◌, ◌≡◌, subst, inl, inr, true, false, Option, none, some, List, [], ◌∷◌,
  ◌++◌, arith, length, leb, Bool-cases,
}
use sshos.Render.Cell.{Size, Rect}
use sshos.Wm.{WinMode}
use sshos.Wm.Manager.{
  WindowManager, raise, focus, open_window, close, set_rect, step, set_mode, max_windows,
}

-- The operations of the manager, with what their callers give.
pub data Op : Type 0 where
  open_op : Option Size → Rect → Op
  close_op : ℕ → Op
  raise_op : ℕ → Op
  focus_op : ℕ → Op
  next_op : Op
  prev_op : Op
  set_mode_op : ℕ → WinMode → Rect → Op
  set_rect_op : ℕ → Rect → Rect → Op

abbrev pub operate : Op → WindowManager → WindowManager
operate (open_op app work) m = (open_window app work m).1
operate (close_op id) m = (close id m).1
operate (raise_op id) m = record m { stack = raise id m.stack }
operate (focus_op id) m = focus id m
operate next_op m = step true m
operate prev_op m = step false m
operate (set_mode_op id mode work) m = set_mode id mode work m
operate (set_rect_op id user work) m = set_rect id user work m

abbrev pub operate_all : List Op → WindowManager → WindowManager
operate_all [] m = m
operate_all (op ∷ ops) m = operate_all ops (operate op m)

abbrev pub listed : Option ℕ → List ℕ
listed none = []
listed (some id) = id ∷ []

-- The identifier that an operation answers, where it opens a window.
abbrev pub handed_out : Op → WindowManager → List ℕ
handed_out (open_op app work) m = listed (open_window app work m).0
handed_out (close_op id) m = []
handed_out (raise_op id) m = []
handed_out (focus_op id) m = []
handed_out next_op m = []
handed_out prev_op m = []
handed_out (set_mode_op id mode work) m = []
handed_out (set_rect_op id user work) m = []

-- The identifiers of the windows that a run opens, in the order of their opening, also of those
-- that it closes again.
abbrev pub opened : List Op → WindowManager → List ℕ
opened [] m = []
opened (op ∷ ops) m = handed_out op m ++ opened ops (operate op m)

-- Each identifier is larger than those before it, and none is under `from`.
abbrev pub IsAscending : ℕ → List ℕ → Type 0
IsAscending from [] = Unit
IsAscending from (id ∷ ids) = (from ≤ id) × IsAscending (id + 1) ids

pub IsAscending-later :
    (from later : ℕ) (ids : List ℕ) → from ≤ later → IsAscending later ids → IsAscending from ids
IsAscending-later from later [] n h = tt
IsAscending-later from later (id ∷ ids) n h = (omega (arith, n, h.0), h.1)

-- An operation answers no identifier but the next one, which is no longer the next one after it.
pub operate-IsAscending :
    (op : Op) (m : WindowManager) (ids : List ℕ)
    → m.next_id + 1 < 2 ^ 32
    → m.next_id ≤ (operate op m).next_id
    → IsAscending (operate op m).next_id ids
    → IsAscending m.next_id (handed_out op m ++ ids)
unfolding open_window focus
operate-IsAscending (open_op none work) m ids r n h = h
operate-IsAscending (open_op (some least) work) m ids r n h =
    elim (Bool-cases (leb max_windows (length m.stack))) [
      | inl e ↦ rw e (rw (e, operate) at h)
      | inr e ↦
          let same : (m.next_id + 1) % 2 ^ 32 ≡ m.next_id + 1 = omega arith in
          rw e (omega arith, subst (λ k. IsAscending k ids) same (rw (e, operate) at h))
    ]
operate-IsAscending (close_op id) m ids r n h = IsAscending-later m.next_id _ ids n h
operate-IsAscending (raise_op id) m ids r n h = h
operate-IsAscending (focus_op id) m ids r n h = h
operate-IsAscending next_op m ids r n h = IsAscending-later m.next_id _ ids n h
operate-IsAscending prev_op m ids r n h = IsAscending-later m.next_id _ ids n h
operate-IsAscending (set_mode_op id mode work) m ids r n h = IsAscending-later m.next_id _ ids n h
operate-IsAscending (set_rect_op id user work) m ids r n h = IsAscending-later m.next_id _ ids n h
