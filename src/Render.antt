-- ===== src/Render.antt =====
-- The drawing layer: the cells, the colours and the rectangles that it shares with the rest.
pub mod Cell
pub mod Width
pub mod Surface
