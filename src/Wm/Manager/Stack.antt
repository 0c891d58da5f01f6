-- ===== src/Wm/Manager/Stack.antt =====
-- The stack of windows: what its changes keep of its identifiers, and of the windows that have the
-- whole screen.
use mathlib.Core.Option.{some-injective}
use sshos.Base.{
  ℕ, ◌+◌, ◌≤◌, ◌<◌, ◌≡◌, ◌≢◌, refl, ap, sym, subst, ◌∙◌, inl, inr, false, some, List, [], ◌∷◌, ◌++◌,
  map, arith, All, All-append, ◌==◌, if◌then◌else◌, Bool-cases,
}
use sshos.Render.Cell.{Rect}
use sshos.Wm.{WinMode, normal, minimized, maximized, fullscreen, Window}
use sshos.Wm.Manager.{
  ==_WinMode, find, update, raise, leave_fullscreen, remove, note_mode, enter_mode,
}

-- The windows that have the whole screen.
abbrev pub has_screen : Window → ℕ
has_screen w = if ==_WinMode w.mode fullscreen then 1 else 0

abbrev pub full_count : List Window → ℕ
full_count [] = 0
full_count (w ∷ ws) = has_screen w + full_count ws

abbrev pub AreDistinct : List Window → Type 0
AreDistinct [] = Unit
AreDistinct (w ∷ ws) = All (λ v. v.id ≢ w.id) ws × AreDistinct ws

-- A window that leaves the whole screen has a mode to go back to.
abbrev pub CanLeave : Window → Type 0
CanLeave w = ==_WinMode w.before_fullscreen fullscreen ≡ false

abbrev pub IsOld : ℕ → Window → Type 0
IsOld next w = w.id < next

-- What holds of a stack of windows of identifiers under `next`.
abbrev pub IsStack : ℕ → List Window → Type 0
IsStack next ws = AreDistinct ws × All (IsOld next) ws × All CanLeave ws × (full_count ws ≤ 1)

-- The window at an identifier changes, but for the identifier.
module _ (f : Window → Window) (same : (w : Window) → (f w).id ≡ w.id) where
  map-other : (i : ℕ) (ws : List Window) → All (λ v. v.id ≢ i) ws → All (λ v. v.id ≢ i) (map f ws)
  map-other i [] h = tt
  map-other i (w ∷ ws) h = (λ e. h.0 (sym (same w) ∙ e), map-other i ws h.1)

  pub map-AreDistinct : (ws : List Window) → AreDistinct ws → AreDistinct (map f ws)
  map-AreDistinct [] h = tt
  map-AreDistinct (w ∷ ws) h = (
    subst (λ i. All (λ v. v.id ≢ i) (map f ws)) (sym (same w)) (map-other w.id ws h.0),
    map-AreDistinct ws h.1,
  )

  map-IsOld : (n : ℕ) (ws : List Window) → All (IsOld n) ws → All (IsOld n) (map f ws)
  map-IsOld n [] h = tt
  map-IsOld n (w ∷ ws) h = (subst (λ i. i < n) (sym (same w)) h.0, map-IsOld n ws h.1)

  update-other :
      (id i : ℕ) (ws : List Window) → All (λ v. v.id ≢ i) ws → All (λ v. v.id ≢ i) (update id f ws)
  unfolding update
  update-other id i [] h = tt
  update-other id i (w ∷ ws) h = elim (Bool-cases (w.id == id)) [
    | inl e ↦ rw e (λ q. h.0 (sym (same w) ∙ q), h.1)
    | inr e ↦ rw e (h.0, update-other id i ws h.1)
  ]

  update-AreDistinct : (id : ℕ) (ws : List Window) → AreDistinct ws → AreDistinct (update id f ws)
  unfolding update
  update-AreDistinct id [] h = tt
  update-AreDistinct id (w ∷ ws) h = elim (Bool-cases (w.id == id)) [
    | inl e ↦ rw e (subst (λ i. All (λ v. v.id ≢ i) ws) (sym (same w)) h.0, h.1)
    | inr e ↦ rw e (update-other id w.id ws h.0, update-AreDistinct id ws h.1)
  ]

  update-IsOld : (id n : ℕ) (ws : List Window) → All (IsOld n) ws → All (IsOld n) (update id f ws)
  unfolding update
  update-IsOld id n [] h = tt
  update-IsOld id n (w ∷ ws) h = elim (Bool-cases (w.id == id)) [
    | inl e ↦ rw e (subst (λ i. i < n) (sym (same w)) h.0, h.1)
    | inr e ↦ rw e (h.0, update-IsOld id n ws h.1)
  ]

pub update-All :
    (P : Window → Type 0) (f : Window → Window)
    → ((w : Window) → P w → P (f w))
    → (id : ℕ) (ws : List Window) → All P ws
    → All P (update id f ws)
unfolding update
update-All P f keep id [] h = tt
update-All P f keep id (w ∷ ws) h = elim (Bool-cases (w.id == id)) [
  | inl e ↦ rw e (keep w h.0, h.1)
  | inr e ↦ rw e (h.0, update-All P f keep id ws h.1)
]

-- `raise`.
pub raise-All : (P : Window → Type 0) (id : ℕ) (ws : List Window) → All P ws → All P (raise id ws)
unfolding raise
raise-All P id [] h = tt
raise-All P id (w ∷ ws) h = elim (Bool-cases (w.id == id)) [
  | inl e ↦ rw e (All-append P ws (w ∷ []) h.1 (h.0, tt))
  | inr e ↦ rw e (h.0, raise-All P id ws h.1)
]

pub append-AreDistinct :
    (w : Window) (ws : List Window)
    → All (λ v. v.id ≢ w.id) ws
    → AreDistinct ws
    → AreDistinct (ws ++ w ∷ [])
append-AreDistinct w [] h d = (tt, tt)
append-AreDistinct w (v ∷ ws) h d = (
  All-append (λ u. u.id ≢ v.id) ws (w ∷ []) d.0 (λ e. h.0 (sym e), tt),
  append-AreDistinct w ws h.1 d.1,
)

raise-AreDistinct : (id : ℕ) (ws : List Window) → AreDistinct ws → AreDistinct (raise id ws)
unfolding raise
raise-AreDistinct id [] h = tt
raise-AreDistinct id (w ∷ ws) h = elim (Bool-cases (w.id == id)) [
  | inl e ↦ rw e (append-AreDistinct w ws h.0 h.1)
  | inr e ↦ rw e (raise-All (λ v. v.id ≢ w.id) id ws h.0, raise-AreDistinct id ws h.1)
]

pub full_count-append :
    (ws vs : List Window) → full_count (ws ++ vs) ≡ full_count ws + full_count vs
full_count-append [] vs = omega arith
full_count-append (w ∷ ws) vs = omega (arith, full_count-append ws vs)

full_count-raise : (id : ℕ) (ws : List Window) → full_count (raise id ws) ≡ full_count ws
unfolding raise
full_count-raise id [] = refl
full_count-raise id (w ∷ ws) = elim (Bool-cases (w.id == id)) [
  | inl e ↦ rw e (omega (arith, full_count-append ws (w ∷ [])))
  | inr e ↦ rw e (ap (◌+◌ (has_screen w)) (full_count-raise id ws))
]

-- `focus`: the windows behind leave the whole screen.
module _ (id : ℕ) where
  pub leave-id : (w : Window) → (leave_fullscreen id w).id ≡ w.id
  leave-id w = ground arith

  leave-CanLeave : (w : Window) → CanLeave w → CanLeave (leave_fullscreen id w)
  leave-CanLeave w h = ground arith

  leave-has_screen :
      (w : Window)
      → CanLeave w
      → (has_screen (leave_fullscreen id w) ≤ has_screen w)
        × (w.id ≢ id → has_screen (leave_fullscreen id w) ≡ 0)
  leave-has_screen w h = (ground arith, λ n. ground arith)

  pub map-CanLeave :
      (ws : List Window) → All CanLeave ws → All CanLeave (map (leave_fullscreen id) ws)
  map-CanLeave [] h = tt
  map-CanLeave (w ∷ ws) h = (leave-CanLeave w h.0, map-CanLeave ws h.1)

  full_count-map :
      (ws : List Window)
      → All CanLeave ws
      → full_count (map (leave_fullscreen id) ws) ≤ full_count ws
  full_count-map [] h = omega arith
  full_count-map (w ∷ ws) h = omega (arith, full_count-map ws h.1, (leave-has_screen w h.0).0)

  -- No window but those of the identifier has the whole screen.
  abbrev HasNot : Window → Type 0
  HasNot w = w.id ≢ id → has_screen w ≡ 0

  pub map-HasNot : (ws : List Window) → All CanLeave ws → All HasNot (map (leave_fullscreen id) ws)
  map-HasNot [] h = tt
  map-HasNot (w ∷ ws) h =
      (λ n. (leave-has_screen w h.0).1 (λ e. n (leave-id w ∙ e)), map-HasNot ws h.1)

  full_count-HasNot :
      (ws : List Window) → All HasNot ws → All (λ v. v.id ≢ id) ws → full_count ws ≡ 0
  full_count-HasNot [] h n = refl
  full_count-HasNot (w ∷ ws) h n = omega (arith, h.0 n.0, full_count-HasNot ws h.1 n.1)

  pub full_count-alone :
      (f : Window → Window) (ws : List Window)
      → AreDistinct ws
      → All HasNot ws
      → full_count (update id f ws) ≤ 1
  unfolding update
  full_count-alone f [] d h = omega arith
  full_count-alone f (w ∷ ws) d h = elim (Bool-cases (w.id == id)) [
    | inl e ↦
        let none_else =
          full_count-HasNot ws h.1 (subst (λ i. All (λ v. v.id ≢ i) ws) (ground arith) d.0) in
        rw e (ground arith)
    | inr e ↦
        let off : has_screen w ≡ 0 = h.0 (ground arith) in
        rw e (omega (arith, off, full_count-alone f ws d.1 h.1))
  ]

  pub full_count-update :
      (f : Window → Window) (w : Window) (ws : List Window)
      → find id ws ≡ some w
      → full_count (update id f ws) + has_screen w ≡ full_count ws + has_screen (f w)
  unfolding find update
  full_count-update f w [] h = ground arith
  full_count-update f w (v ∷ ws) h = elim (Bool-cases (v.id == id)) [
    | inl e ↦ rw e (
        subst
          (λ u.
            has_screen (f v) + full_count ws + has_screen u
            ≡ has_screen v + full_count ws + has_screen (f u))
          (some-injective v w (rw e at h)) (omega arith))
    | inr e ↦ rw e (omega (arith, full_count-update f w ws (rw e at h)))
  ]

-- `close`.
pub remove-All : (P : Window → Type 0) (id : ℕ) (ws : List Window) → All P ws → All P (remove id ws)
unfolding remove
remove-All P id [] h = tt
remove-All P id (w ∷ ws) h = elim (Bool-cases (w.id == id)) [
  | inl e ↦ rw e h.1
  | inr e ↦ rw e (h.0, remove-All P id ws h.1)
]

remove-AreDistinct : (id : ℕ) (ws : List Window) → AreDistinct ws → AreDistinct (remove id ws)
unfolding remove
remove-AreDistinct id [] h = tt
remove-AreDistinct id (w ∷ ws) h = elim (Bool-cases (w.id == id)) [
  | inl e ↦ rw e h.1
  | inr e ↦ rw e (remove-All (λ v. v.id ≢ w.id) id ws h.0, remove-AreDistinct id ws h.1)
]

full_count-remove : (id : ℕ) (ws : List Window) → full_count (remove id ws) ≤ full_count ws
unfolding remove
full_count-remove id [] = omega arith
full_count-remove id (w ∷ ws) = elim (Bool-cases (w.id == id)) [
  | inl e ↦ rw e (omega arith)
  | inr e ↦ rw e (omega (arith, full_count-remove id ws))
]

pub remove-IsStack :
    (next id : ℕ) (ws : List Window) → IsStack next ws → IsStack next (remove id ws)
remove-IsStack next id ws (d, o, c, n) = (
  remove-AreDistinct id ws d,
  remove-All (IsOld next) id ws o,
  remove-All CanLeave id ws c,
  omega (arith, n, full_count-remove id ws),
)

pub raise-IsStack : (next id : ℕ) (ws : List Window) → IsStack next ws → IsStack next (raise id ws)
raise-IsStack next id ws (d, o, c, n) = (
  raise-AreDistinct id ws d,
  raise-All (IsOld next) id ws o,
  raise-All CanLeave id ws c,
  omega (arith, n, full_count-raise id ws),
)

pub leave-IsStack :
    (next id : ℕ) (ws : List Window) → IsStack next ws → IsStack next (map (leave_fullscreen id) ws)
leave-IsStack next id ws (d, o, c, n) = (
  map-AreDistinct (leave_fullscreen id) (leave-id id) ws d,
  map-IsOld (leave_fullscreen id) (leave-id id) next ws o,
  map-CanLeave id ws c,
  omega (arith, n, full_count-map id ws c),
)

-- A change that keeps the identifier and the way back, and takes the whole screen only where no
-- other window has it.
pub update-IsStack :
    (next id : ℕ) (f : Window → Window) (ws : List Window)
    → ((w : Window) → (f w).id ≡ w.id)
    → ((w : Window) → CanLeave w → CanLeave (f w))
    → full_count (update id f ws) ≤ 1
    → IsStack next ws
    → IsStack next (update id f ws)
update-IsStack next id f ws same way one (d, o, c, n) = (
  update-AreDistinct f same id ws d,
  update-IsOld f same id next ws o,
  update-All CanLeave f way id ws c,
  one,
)

-- `set_mode`.
pub enter-mode : (mode : WinMode) (work : Rect) (w : Window) → (enter_mode mode work w).mode ≡ mode
enter-mode normal work w = refl
enter-mode minimized work w = refl
enter-mode maximized work w = refl
enter-mode fullscreen work w = refl

note-id : (mode : WinMode) (w : Window) → (note_mode mode w).id ≡ w.id
note-id mode w = ground arith

note-CanLeave : (mode : WinMode) (w : Window) → CanLeave w → CanLeave (note_mode mode w)
note-CanLeave mode w h = ground arith

pub enter-id : (mode : WinMode) (work : Rect) (w : Window) → (enter_mode mode work w).id ≡ w.id
enter-id normal work w = note-id normal w
enter-id minimized work w = note-id minimized w
enter-id maximized work w = note-id maximized w
enter-id fullscreen work w = note-id fullscreen w

pub enter-CanLeave :
    (mode : WinMode) (work : Rect) (w : Window) → CanLeave w → CanLeave (enter_mode mode work w)
enter-CanLeave normal work w h = note-CanLeave normal w h
enter-CanLeave minimized work w h = note-CanLeave minimized w h
enter-CanLeave maximized work w h = note-CanLeave maximized w h
enter-CanLeave fullscreen work w h = note-CanLeave fullscreen w h

pub full_count-same :
    (id : ℕ) (f : Window → Window) (ws : List Window)
    → ((w : Window) → (f w).mode ≡ w.mode)
    → full_count (update id f ws) ≡ full_count ws
unfolding update
full_count-same id f [] h = refl
full_count-same id f (w ∷ ws) h = elim (Bool-cases (w.id == id)) [
  | inl e ↦ rw e (ap (λ k. (if ==_WinMode k fullscreen then 1 else 0) + full_count ws) (h w))
  | inr e ↦ rw e (ap (◌+◌ (has_screen w)) (full_count-same id f ws h))
]
