-- ===== src/Render/Cell.antt =====
-- src/render/cell.hpp: sizes, rectangles, colours and styles.
use sshos.Base.{ℕ, Bool, true, false, ◌&&◌, ◌==◌}
use sshos.Base.Int.{ℤ, ◌+ℤ◌, ltb_ℤ, leb_ℤ}

pub record Size : Type 0 where
  pub w : ℤ
  pub h : ℤ

pub record Rect : Type 0 where
  pub x : ℤ
  pub y : ℤ
  pub w : ℤ
  pub h : ℤ

-- `Rect::contains`.
abbrev pub contains : Rect → ℤ → ℤ → Bool
contains r px py = leb_ℤ r.x px && leb_ℤ r.y py && ltb_ℤ px (r.x +ℤ r.w) && ltb_ℤ py (r.y +ℤ r.h)

pub data ColorKind : Type 0 where
  default_color : ColorKind
  indexed : ColorKind
  rgb : ColorKind

abbrev pub ==_ColorKind : ColorKind → ColorKind → Bool
==_ColorKind default_color default_color = true
==_ColorKind indexed indexed = true
==_ColorKind rgb rgb = true
==_ColorKind _ _ = false

pub record Color : Type 0 where
  pub kind : ColorKind
  pub idx : ℕ
  pub r : ℕ
  pub g : ℕ
  pub b : ℕ

-- `Color::def`.
abbrev pub def : Color
def = record { kind = default_color; idx = 0; r = 0; g = 0; b = 0 }

abbrev pub ==_Color : Color → Color → Bool
==_Color a b =
    ==_ColorKind a.kind b.kind && a.idx == b.idx && a.r == b.r && a.g == b.g && a.b == b.b

pub record Style : Type 0 where
  pub fg : Color
  pub bg : Color
  pub attrs : ℕ

abbrev pub plain : Style
plain = record { fg = def; bg = def; attrs = 0 }

abbrev pub ==_Style : Style → Style → Bool
==_Style a b = ==_Color a.fg b.fg && ==_Color a.bg b.bg && a.attrs == b.attrs
