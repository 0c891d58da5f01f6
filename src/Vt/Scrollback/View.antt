-- ===== src/Vt/Scrollback/View.antt =====
-- Where the history is read from: the offset stays inside it, and follows what it shows.
use sshos.Base.{
  ℕ, ◌+◌, ◌-◌, ◌<◌, true, false, ◌≡◌, refl, sym, ap, subst, ◌∙◌, inl, inr, ◌⊎◌, List, [], ◌∷◌,
  arith, ltb, ◌==◌,
}
use sshos.Vt.Cell.{ScreenCell}
use sshos.Vt.Scrollback.{
  ScrollbackLine, Scrollback, follow, place, trim, push, at, clear, scroll_back, scroll_forward,
  scroll_to_bottom, IsValid,
}
use sshos.Vt.Scrollback.Ring.{
  grown, cycled, place_room, place_full, grown_old, cycled_old, place-IsValid, push_on, at_offset,
}

-- The line that the row `r` of the history's part of the view shows.
abbrev pub shown : Scrollback → ℕ → ScrollbackLine
shown sb r = at sb (sb.size - sb.offset + r)

follow_up :
    (sb : Scrollback)
    → 0 < sb.offset
    → sb.offset < sb.size
    → follow sb ≡ record sb { offset = sb.offset + 1 }
follow_up sb a b =
    let e : ltb 0 sb.offset ≡ true = ground arith in
    let f : ltb sb.size (sb.offset + 1) ≡ false = ground arith in rw (e, f) refl

-- Output does not move what is read: while the history is read, and the oldest line shown does
-- not leave it, each row of it that is shown is the same line after `push`.
pub shown-push :
    (cells : List ScreenCell) (sb : Scrollback)
    → IsValid sb
    → 0 < sb.offset
    → sb.offset < sb.capacity
    → (r : ℕ) → r < sb.offset
    → shown (push cells sb) r ≡ shown sb r
shown-push cells sb v off top r h =
    ap (λ s. shown s r) (push_on cells sb (omega arith)) ∙ elim room_or_full [
      | inl room ↦
          ap (λ s. shown (follow s) r) (place_room (trim cells) sb v room)
          ∙ ap (λ s. shown s r) (follow_up (grown (trim cells) sb) off (omega arith))
          ∙ at_offset (grown (trim cells) sb) (sb.offset + 1) _
          ∙ ap (at (grown (trim cells) sb)) (omega arith)
          ∙ grown_old (trim cells) sb v room (sb.size - sb.offset + r) (omega arith)
      | inr full ↦
          ap (λ s. shown (follow s) r) (place_full (trim cells) sb v full (omega arith))
          ∙ ap (λ s. shown s r) (follow_up (cycled (trim cells) sb) off (omega arith))
          ∙ at_offset (cycled (trim cells) sb) (sb.offset + 1) _
          ∙ cycled_old (trim cells) sb v full (sb.size - (sb.offset + 1) + r) (omega arith)
          ∙ ap (at sb) (omega arith)
    ]
  where
    room_or_full : (sb.size < sb.capacity) ⊎ (sb.size ≡ sb.capacity)
    room_or_full = ground arith

-- The operations of the history.
pub data Op : Type 0 where
  push_op : List ScreenCell → Op
  clear_op : Op
  back_op : ℕ → Op
  forward_op : ℕ → Op
  bottom_op : Op

abbrev pub scroll : Op → Scrollback → Scrollback
scroll (push_op cells) sb = push cells sb
scroll clear_op sb = clear sb
scroll (back_op n) sb = scroll_back n sb
scroll (forward_op n) sb = scroll_forward n sb
scroll bottom_op sb = scroll_to_bottom sb

abbrev pub scroll_all : List Op → Scrollback → Scrollback
scroll_all [] sb = sb
scroll_all (op ∷ ops) sb = scroll_all ops (scroll op sb)

follow-IsValid : (sb : Scrollback) → IsValid sb → IsValid (follow sb)
follow-IsValid sb v = ground arith

pub push-IsValid :
    (cells : List ScreenCell) (sb : Scrollback) → IsValid sb → IsValid (push cells sb)
push-IsValid cells sb v = elim off_or_on [
  | inl e ↦ subst IsValid (sym (push_off e)) v
  | inr h ↦
      subst IsValid (sym (push_on cells sb h))
        (follow-IsValid (place (trim cells) sb) (place-IsValid (trim cells) sb v h))
]
  where
    off_or_on : (sb.capacity ≡ 0) ⊎ (0 < sb.capacity)
    off_or_on = ground arith

    push_off : sb.capacity ≡ 0 → push cells sb ≡ sb
    push_off e = let t : sb.capacity == 0 ≡ true = ground arith in unfold push in rw t refl

scroll-IsValid : (op : Op) (sb : Scrollback) → IsValid sb → IsValid (scroll op sb)
scroll-IsValid (push_op cells) sb v = push-IsValid cells sb v
scroll-IsValid clear_op sb v = ground arith
scroll-IsValid (back_op n) sb v = ground arith
scroll-IsValid (forward_op n) sb v = ground arith
scroll-IsValid bottom_op sb v = ground arith

-- Every history that is valid stays so under any operations: the ring keeps its slots, the
-- indices stay inside, and the offset never goes beyond the lines that are there.
pub scroll_all-IsValid :
    (ops : List Op) (sb : Scrollback) → IsValid sb → IsValid (scroll_all ops sb)
scroll_all-IsValid [] sb v = v
scroll_all-IsValid (op ∷ ops) sb v = scroll_all-IsValid ops (scroll op sb) (scroll-IsValid op sb v)
