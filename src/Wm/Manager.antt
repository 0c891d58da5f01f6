-- ===== src/Wm/Manager.antt =====
-- src/wm/manager.hpp and src/wm/manager.cpp: the stack of windows, the focus and the modes.
-- The stack is kept front window last, as the code keeps it. An identifier is a `uint32_t`.
use sshos.Base.{
  ℕ, zero, suc, ◌+◌, ◌-◌, ◌*◌, ◌%◌, ◌^◌, Bool, true, false, not, ◌&&◌, ◌||◌, Option, none, some,
  List, [], ◌∷◌, ◌++◌, map, reverse, Bytes, length, get_elem?, ltb, leb, ◌==◌, if◌then◌else◌,
}
use sshos.Base.Int.{ℤ, pos, negsuc, pos_part, neg_part, ◌+ℤ◌, ◌-ℤ◌, ltb_ℤ, leb_ℤ}
use sshos.Render.Cell.{Size, Rect, contains}
use sshos.Wm.{WinMode, normal, minimized, maximized, fullscreen, Window, frame_min, clamp_to}
pub mod Stack
pub mod Run
pub mod Known
pub mod Invariant

abbrev pub max_windows : ℕ
max_windows = 64

abbrev pub default_rect : Rect
default_rect = record { x = pos 2; y = pos 1; w = pos 44; h = pos 14 }

abbrev pub cascade_dx : ℕ
cascade_dx = 2

abbrev pub cascade_dy : ℕ
cascade_dy = 1

pub record WindowManager : Type 0 where
  pub stack : List Window
  pub next_id : ℕ
  pub focused : ℕ
  pub cascade : ℕ

abbrev pub new_manager : WindowManager
new_manager = record { stack = []; next_id = 1; focused = 0; cascade = 0 }

-- `distance` and `snap`.
abbrev pub distance : ℤ → ℤ → ℤ
distance a b = if ltb_ℤ b a then a -ℤ b else b -ℤ a

abbrev pub snap_axis : ℤ → ℤ → ℤ → ℤ → ℤ → ℤ
snap_axis start extent from room tolerance =
    if leb_ℤ (distance start from) tolerance
    then from
    else if leb_ℤ (distance (start +ℤ extent) (from +ℤ room)) tolerance
    then from +ℤ room -ℤ extent
    else start

abbrev pub snap : Rect → Rect → ℤ → Rect
snap r work tolerance = record r {
  x = snap_axis r.x r.w work.x work.w tolerance;
  y = snap_axis r.y r.h work.y work.h tolerance;
}

abbrev pub ==_WinMode : WinMode → WinMode → Bool
==_WinMode normal normal = true
==_WinMode minimized minimized = true
==_WinMode maximized maximized = true
==_WinMode fullscreen fullscreen = true
==_WinMode _ _ = false

unfoldable pub find : ℕ → List Window → Option Window
find id [] = none
find id (w ∷ ws) = if w.id == id then some w else find id ws

-- What is written through the pointer that `find` gives: the first window of that identifier.
unfoldable pub update : ℕ → (Window → Window) → List Window → List Window
update id f [] = []
update id f (w ∷ ws) = if w.id == id then f w ∷ ws else w ∷ update id f ws

-- `raise`: `std::rotate` from the window found to the end.
unfoldable pub raise : ℕ → List Window → List Window
raise id [] = []
raise id (w ∷ ws) = if w.id == id then ws ++ w ∷ [] else w ∷ raise id ws

-- The loop of `focus`, and that of `set_mode`.
abbrev pub leave_fullscreen : ℕ → Window → Window
leave_fullscreen id w =
    if not (w.id == id) && ==_WinMode w.mode fullscreen
    then record w { mode = w.before_fullscreen }
    else w

unfoldable pub focus : ℕ → WindowManager → WindowManager
focus id m = record m { stack = raise id (map (leave_fullscreen id) m.stack); focused = id }

-- What `open` makes of an application whose least size is `least`.
abbrev pub cascaded : ℕ → Rect
cascaded n = record default_rect {
  x = default_rect.x +ℤ pos (cascade_dx * n);
  y = default_rect.y +ℤ pos (cascade_dy * n);
}

abbrev pub new_window : ℕ → Size → Rect → ℕ → Window
new_window id least work n = record {
  id = id;
  title = [];
  app_id = [];
  user_rect = cascaded n;
  display_rect = clamp_to (cascaded n) work (frame_min least);
  mode = normal;
  before_fullscreen = normal;
  min_size = least;
  sent_size = record { w = negsuc 0; h = negsuc 0 };
  close_requested = false;
}

abbrev pub next_cascade : Rect → ℕ → ℕ
next_cascade work n =
    let next = cascaded (n + 1) in
    if ltb_ℤ (work.x +ℤ work.w) (next.x +ℤ next.w) || ltb_ℤ (work.y +ℤ work.h) (next.y +ℤ next.h)
    then 0
    else n + 1

-- The window opened, where the ceiling is not reached; `none` is an application that is missing.
unfoldable pub open_window : Option Size → Rect → WindowManager → Option ℕ × WindowManager
open_window none work m = (none, m)
open_window (some least) work m = if leb max_windows (length m.stack) then (none, m) else (
  some m.next_id,
  focus m.next_id (record m {
    stack = m.stack ++ new_window m.next_id least work m.cascade ∷ [];
    next_id = (m.next_id + 1) % 2 ^ 32;
    cascade = next_cascade work m.cascade;
  }),
)

unfoldable pub remove : ℕ → List Window → List Window
remove id [] = []
remove id (w ∷ ws) = if w.id == id then ws else w ∷ remove id ws

-- `stack_.back()->id`, or 0.
abbrev pub last_id : List Window → ℕ
last_id [] = 0
last_id (w ∷ []) = w.id
last_id (w ∷ v ∷ ws) = last_id (v ∷ ws)

abbrev pub close_found : ℕ → WindowManager → WindowManager
close_found id m =
    let stack = remove id m.stack in
    record m { stack = stack; focused = if m.focused == id then last_id stack else m.focused }

unfoldable pub close : ℕ → WindowManager → Bool × WindowManager
close id m = elim (find id m.stack) [ none ↦ (false, m) | some w ↦ (true, close_found id m) ]

-- `set_rect`; every window has an application.
unfoldable pub set_rect : ℕ → Rect → Rect → WindowManager → WindowManager
set_rect id user work m = record m {
  stack =
      update id
        (λ w. record w {
          user_rect = user;
          display_rect = clamp_to user work (frame_min w.min_size);
        })
        m.stack;
}

-- `step`: where it starts, and the first window from there, `delta` by `delta`, that is not
-- minimized.
abbrev pub start_of : List Window → ℕ → ℕ → ℕ → ℕ
start_of [] focused i none_found = none_found
start_of (w ∷ ws) focused i none_found =
    if w.id == focused then i else start_of ws focused (suc i) none_found

-- `((start + delta * k) % n + n) % n` for a `delta` of 1 or -1 and a `k` of at most `n`.
abbrev pub wrapped : Bool → ℕ → ℕ → ℕ → ℕ
wrapped forward start k n = if forward then (start + k) % n else (start + (n - k)) % n

unfoldable pub step_from : Bool → List Window → ℕ → ℕ → ℕ → Option ℕ
step_from forward stack start k zero = none
step_from forward stack start k (suc rest) =
    let later = step_from forward stack start (suc k) rest in
    elim (get_elem? stack (wrapped forward start k (length stack))) [
      | none ↦ none
      | some w ↦ if ==_WinMode w.mode minimized then later else some w.id
    ]

unfoldable pub step : Bool → WindowManager → WindowManager
step forward m =
    let n = length m.stack in
    elim (step_from forward m.stack (start_of m.stack m.focused 0 (n - 1)) 1 n) [
      | none ↦ m
      | some id ↦ focus id m
    ]

abbrev pub focus_next : WindowManager → WindowManager
focus_next m = step true m

abbrev pub focus_prev : WindowManager → WindowManager
focus_prev m = step false m

-- `hit`, from the front: the stack backwards.
unfoldable pub hit_from : List Window → ℤ → ℤ → Option ℕ
hit_from [] x y = none
hit_from (w ∷ ws) x y =
    if not (==_WinMode w.mode minimized) && contains w.display_rect x y
    then some w.id
    else hit_from ws x y

abbrev pub hit : WindowManager → ℤ → ℤ → Option ℕ
hit m x y = hit_from (reverse m.stack) x y

-- `set_mode`: what it does to the window itself.
abbrev pub project : WinMode → Rect → Window → Window
project normal work w = record w {
  mode = normal;
  display_rect = clamp_to w.user_rect work (frame_min w.min_size);
}
project maximized work w = record w { mode = maximized; display_rect = work }
project fullscreen work w = record w { mode = fullscreen; display_rect = work }
project minimized work w = record w { mode = minimized }

abbrev pub note_mode : WinMode → Window → Window
note_mode mode w =
    if ==_WinMode mode fullscreen && not (==_WinMode w.mode fullscreen)
    then record w { before_fullscreen = w.mode }
    else w

abbrev pub enter_mode : WinMode → Rect → Window → Window
enter_mode mode work w = project mode work (note_mode mode w)

abbrev pub others_leave : WinMode → Window → ℕ → List Window → List Window
others_leave mode w id ws =
    if ==_WinMode mode fullscreen && not (==_WinMode w.mode fullscreen)
    then map (leave_fullscreen id) ws
    else ws

unfoldable pub set_mode : ℕ → WinMode → Rect → WindowManager → WindowManager
set_mode id mode work m = elim (find id m.stack) [
  | none ↦ m
  | some w ↦ record m { stack = update id (enter_mode mode work) (others_leave mode w id m.stack) }
]
