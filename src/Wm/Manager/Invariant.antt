-- ===== src/Wm/Manager/Invariant.antt =====
-- What holds of the windows whatever is done with them.
use mathlib.Core.List.{Memᴰ}
use sshos.Base.{
  ℕ, ◌+◌, ◌-◌, ◌%◌, ◌^◌, ◌≤◌, ◌<◌, ◌≡◌, ◌≢◌, refl, ap, subst, inl, inr, Bool, true, false, not,
  ◌&&◌, none, some, List, [], ◌∷◌, ◌++◌, map, arith, All, All-append, length, leb, if◌then◌else◌,
  Bool-cases, Option-cases,
}
use sshos.Render.Cell.{Size, Rect}
use sshos.Wm.{WinMode, fullscreen, Window, frame_min, clamp_to}
use sshos.Wm.Manager.{
  WindowManager, ==_WinMode, find, update, leave_fullscreen, focus, new_window, open_window, close,
  set_rect, start_of, step_from, step, enter_mode, others_leave, set_mode, max_windows,
}
use sshos.Wm.Manager.Stack.{
  has_screen, full_count, CanLeave, IsOld, IsStack, append-AreDistinct, full_count-append,
  raise-IsStack, leave-IsStack, update-IsStack, remove-IsStack, full_count-alone, full_count-update,
  full_count-same, map-HasNot, map-AreDistinct, leave-id, enter-mode, enter-id, enter-CanLeave,
}
use sshos.Wm.Manager.Run.{
  Op, open_op, close_op, raise_op, focus_op, next_op, prev_op, set_mode_op, set_rect_op, operate,
  operate_all, opened, IsAscending, operate-IsAscending,
}
use sshos.Wm.Manager.Known.{identifiers, operate_all-opened}

-- No two windows have one identifier, those to come are larger, no window has the whole screen but
-- one, and each has a mode to go back to.
abbrev pub IsValid : WindowManager → Type 0
IsValid m = IsStack m.next_id m.stack

Distinct_of_old : (next : ℕ) (ws : List Window) → All (IsOld next) ws → All (λ v. v.id ≢ next) ws
Distinct_of_old next [] h = tt
Distinct_of_old next (w ∷ ws) h = (λ e. omega (arith, h.0, e), Distinct_of_old next ws h.1)

IsOld-more : (next : ℕ) (ws : List Window) → All (IsOld next) ws → All (IsOld (next + 1)) ws
IsOld-more next [] h = tt
IsOld-more next (w ∷ ws) h = (omega (arith, h.0), IsOld-more next ws h.1)

open-IsStack :
    (next : ℕ) (least : Size) (work : Rect) (n : ℕ) (ws : List Window)
    → IsStack next ws
    → IsStack (next + 1) (ws ++ new_window next least work n ∷ [])
open-IsStack next least work n ws (d, o, c, one) =
    let w = new_window next least work n in
    (
      append-AreDistinct w ws (Distinct_of_old next ws o) d,
      All-append (IsOld (next + 1)) ws (w ∷ []) (IsOld-more next ws o) (omega arith, tt),
      All-append CanLeave ws (w ∷ []) c (refl, tt),
      omega (arith, one, full_count-append ws (w ∷ [])),
    )

set_mode-IsStack :
    (next id : ℕ) (mode : WinMode) (work : Rect) (w : Window) (ws : List Window)
    → find id ws ≡ some w
    → IsStack next ws
    → IsStack next (update id (enter_mode mode work) (others_leave mode w id ws))
set_mode-IsStack next id mode work w ws found v =
    elim (Bool-cases (==_WinMode mode fullscreen && not (==_WinMode w.mode fullscreen))) [
      | inl e ↦ rw e (
          update-IsStack next id f (map (leave_fullscreen id) ws) (enter-id mode work)
            (enter-CanLeave mode work)
            (full_count-alone id f (map (leave_fullscreen id) ws)
              (map-AreDistinct (leave_fullscreen id) (leave-id id) ws v.0) (map-HasNot id ws v.2))
            (leave-IsStack next id ws v))
      | inr e ↦
          rw e
            (update-IsStack next id f ws (enter-id mode work) (enter-CanLeave mode work) (kept e) v)
    ]
  where
    f : Window → Window
    f = enter_mode mode work

    kept :
        ==_WinMode mode fullscreen && not (==_WinMode w.mode fullscreen) ≡ false
        → full_count (update id f ws) ≤ 1
    kept e =
        let one : full_count ws ≤ 1 = v.3 in
        let counted = full_count-update id f w ws found in
        let now : has_screen (f w) ≡ (if ==_WinMode mode fullscreen then 1 else 0) =
          ap (λ k. if ==_WinMode k fullscreen then 1 else 0) (enter-mode mode work w) in
        ground arith

-- The invariant, with how far the identifiers have gone.
abbrev IsNext : ℕ → WindowManager → Type 0
IsNext next m = IsValid m × (next ≤ m.next_id) × (m.next_id ≤ next + 1)

focus-IsNext : (id next : ℕ) (m : WindowManager) → IsNext next m → IsNext next (focus id m)
unfolding focus
focus-IsNext id next m (v, a, n) = (
  raise-IsStack m.next_id id (map (leave_fullscreen id) m.stack)
      (leave-IsStack m.next_id id m.stack v),
  a,
  n,
)

step-IsNext :
    (forward : Bool) (next : ℕ) (m : WindowManager) → IsNext next m → IsNext next (step forward m)
unfolding step
step-IsNext forward next m v =
    elim (Option-cases (
      step_from forward m.stack (start_of m.stack m.focused 0 (length m.stack - 1)) 1
        (length m.stack))) [
          | inl e ↦ rw (step, e) v
          | inr (id, e) ↦ rw (step, e) (focus-IsNext id next m v)
        ]

open-IsNext :
    (least : Size) (work : Rect) (m : WindowManager)
    → m.next_id + 1 < 2 ^ 32
    → IsValid m
    → IsNext m.next_id (open_window (some least) work m).1
unfolding open_window
open-IsNext least work m r v = elim (Bool-cases (leb max_windows (length m.stack))) [
  | inl e ↦ rw e (v, omega arith, omega arith)
  | inr e ↦ rw e (
      focus-IsNext m.next_id m.next_id _ (
        subst (λ n. IsStack n (m.stack ++ new_window m.next_id least work m.cascade ∷ [])) same
            (open-IsStack m.next_id least work m.cascade m.stack v),
        omega (arith, same),
        omega (arith, same),
      ))
]
  where
    same : m.next_id + 1 ≡ (m.next_id + 1) % 2 ^ 32
    same = omega arith

close-IsNext : (id : ℕ) (m : WindowManager) → IsValid m → IsNext m.next_id (close id m).1
unfolding close
close-IsNext id m v = elim (Option-cases (find id m.stack)) [
  | inl e ↦ rw (close, e) (v, omega arith, omega arith)
  | inr (w, e) ↦ rw (close, e) (remove-IsStack m.next_id id m.stack v, omega arith, omega arith)
]

set_mode-IsNext :
    (id : ℕ) (mode : WinMode) (work : Rect) (m : WindowManager)
    → IsValid m
    → IsNext m.next_id (set_mode id mode work m)
unfolding set_mode
set_mode-IsNext id mode work m v = elim (Option-cases (find id m.stack)) [
  | inl e ↦ rw (set_mode, e) (v, omega arith, omega arith)
  | inr (w, e) ↦
      rw (set_mode, e)
        (set_mode-IsStack m.next_id id mode work w m.stack e v, omega arith, omega arith)
]

set_rect-IsNext :
    (id : ℕ) (user work : Rect) (m : WindowManager)
    → IsValid m
    → IsNext m.next_id (set_rect id user work m)
unfolding set_rect
set_rect-IsNext id user work m v =
    (update-IsStack m.next_id id f m.stack (λ w. refl) (λ w h. h) one v, omega arith, omega arith)
  where
    f : Window → Window
    f w = record w { user_rect = user; display_rect = clamp_to user work (frame_min w.min_size) }

    one : full_count (update id f m.stack) ≤ 1
    one = omega (arith, full_count-same id f m.stack (λ w. refl), v.3)

operate-IsNext :
    (op : Op) (m : WindowManager)
    → m.next_id + 1 < 2 ^ 32
    → IsValid m
    → IsNext m.next_id (operate op m)
operate-IsNext (open_op none work) m r v = unfold open_window in (v, omega arith, omega arith)
operate-IsNext (open_op (some least) work) m r v = open-IsNext least work m r v
operate-IsNext (close_op id) m r v = close-IsNext id m v
operate-IsNext (raise_op id) m r v =
    (raise-IsStack m.next_id id m.stack v, omega arith, omega arith)
operate-IsNext (focus_op id) m r v = focus-IsNext id m.next_id m (v, omega arith, omega arith)
operate-IsNext next_op m r v = step-IsNext true m.next_id m (v, omega arith, omega arith)
operate-IsNext prev_op m r v = step-IsNext false m.next_id m (v, omega arith, omega arith)
operate-IsNext (set_mode_op id mode work) m r v = set_mode-IsNext id mode work m v
operate-IsNext (set_rect_op id user work) m r v = set_rect-IsNext id user work m v

-- The identifiers that a run hands out.
opened-IsAscending :
    (ops : List Op) (m : WindowManager)
    → m.next_id + length ops < 2 ^ 32
    → IsValid m
    → IsAscending m.next_id (opened ops m)
opened-IsAscending [] m r v = tt
opened-IsAscending (op ∷ ops) m r v =
    let (w, a, n) = operate-IsNext op m (omega (arith, r)) v in
    operate-IsAscending op m (opened ops (operate op m)) (omega (arith, r)) a
      (opened-IsAscending ops (operate op m) (omega (arith, r, n)) w)

run-IsValid :
    (ops : List Op) (m : WindowManager)
    → m.next_id + length ops < 2 ^ 32
    → IsValid m
    → IsValid (operate_all ops m)
run-IsValid [] m r v = v
run-IsValid (op ∷ ops) m r v =
    let (w, a, n) = operate-IsNext op m (omega (arith, r)) v in
    run-IsValid ops (operate op m) (omega (arith, r, n)) w

-- Whatever is done with the windows, in any order, and for identifiers that exist or not: the
-- identifiers that the run hands out only grow and are not under the next one at its start, so
-- that none is used again, be its window closed or not; every window in the end has one of them, or
-- one that was there at the start; no two windows have the same; those to come are larger than all
-- in use; at most one window has the whole screen, and each window has a mode other than it to go
-- back to. As many operations as leave the identifiers, of 32 bits, some room.
pub operate_all-IsValid :
    (ops : List Op) (m : WindowManager)
    → m.next_id + length ops < 2 ^ 32
    → IsValid m
    → IsValid (operate_all ops m)
      × IsAscending m.next_id (opened ops m)
      × All (λ w. Memᴰ w.id (identifiers m.stack ++ opened ops m)) (operate_all ops m).stack
operate_all-IsValid ops m r v =
    (run-IsValid ops m r v, opened-IsAscending ops m r v, operate_all-opened ops m)
