-- ===== src/Surface/Documented.antt =====
-- src/tbm_surface.h: what the comments on the pixel formats say of them.
use libtbm.Base.{ℕ, ◌+◌, ◌*◌, ◌/◌, List, [], ◌∷◌}
use libtbm.Surface.Format.{
  format_c8, format_rgb332, format_bgr233, format_xrgb4444, format_xbgr4444, format_rgbx4444,
  format_bgrx4444, format_argb4444, format_abgr4444, format_rgba4444, format_bgra4444,
  format_xrgb1555, format_xbgr1555, format_rgbx5551, format_bgrx5551, format_argb1555,
  format_abgr1555, format_rgba5551, format_bgra5551, format_rgb565, format_bgr565, format_rgb888,
  format_bgr888, format_xrgb8888, format_xbgr8888, format_rgbx8888, format_bgrx8888,
  format_argb8888, format_abgr8888, format_rgba8888, format_bgra8888, format_xrgb2101010,
  format_xbgr2101010, format_rgbx1010102, format_bgrx1010102, format_argb2101010,
  format_abgr2101010, format_rgba1010102, format_bgra1010102, format_yuyv, format_yvyu, format_uyvy,
  format_vyuy, format_ayuv, format_nv12, format_nv21, format_nv16, format_nv61, format_yuv410,
  format_yvu410, format_yuv411, format_yvu411, format_yuv420, format_yvu420, format_yuv422,
  format_yvu422, format_yuv444, format_yvu444, format_nv12mt,
}

-- A word whose fields have these widths, for so many pixels; or a plane of 8-bit Y, and for each
-- `h` by `v` pixels two 8-bit samples of colour, in one plane or in two.
pub data Layout : Type 0 where
  word : (widths : List ℕ) (pixels : ℕ) → Layout
  two_planes three_planes : (h v : ℕ) → Layout

abbrev pub sum : List ℕ → ℕ
sum [] = 0
sum (x ∷ l) = x + sum l

abbrev pub planes_of : Layout → ℕ
planes_of (word w p) = 1
planes_of (two_planes h v) = 2
planes_of (three_planes h v) = 3

abbrev pub bits_per_pixel : Layout → ℕ
bits_per_pixel (word w p) = sum w / p
bits_per_pixel (two_planes h v) = 8 + 16 / (h * v)
bits_per_pixel (three_planes h v) = 8 + 16 / (h * v)

-- "YUYV" and so on: a word of 32 bits holds two pixels.
abbrev pub pixels_per_word : Layout → ℕ
pixels_per_word (word w p) = p
pixels_per_word (two_planes h v) = 1
pixels_per_word (three_planes h v) = 1

abbrev pub documented : List (ℕ × Layout)
documented =
    (format_c8, word (8 ∷ []) 1)
    ∷ (format_rgb332, word (3 ∷ 3 ∷ 2 ∷ []) 1)
    ∷ (format_bgr233, word (2 ∷ 3 ∷ 3 ∷ []) 1)
    ∷ (format_xrgb4444, word (4 ∷ 4 ∷ 4 ∷ 4 ∷ []) 1)
    ∷ (format_xbgr4444, word (4 ∷ 4 ∷ 4 ∷ 4 ∷ []) 1)
    ∷ (format_rgbx4444, word (4 ∷ 4 ∷ 4 ∷ 4 ∷ []) 1)
    ∷ (format_bgrx4444, word (4 ∷ 4 ∷ 4 ∷ 4 ∷ []) 1)
    ∷ (format_argb4444, word (4 ∷ 4 ∷ 4 ∷ 4 ∷ []) 1)
    ∷ (format_abgr4444, word (4 ∷ 4 ∷ 4 ∷ 4 ∷ []) 1)
    ∷ (format_rgba4444, word (4 ∷ 4 ∷ 4 ∷ 4 ∷ []) 1)
    ∷ (format_bgra4444, word (4 ∷ 4 ∷ 4 ∷ 4 ∷ []) 1)
    ∷ (format_xrgb1555, word (1 ∷ 5 ∷ 5 ∷ 5 ∷ []) 1)
    ∷ (format_xbgr1555, word (1 ∷ 5 ∷ 5 ∷ 5 ∷ []) 1)
    ∷ (format_rgbx5551, word (5 ∷ 5 ∷ 5 ∷ 1 ∷ []) 1)
    ∷ (format_bgrx5551, word (5 ∷ 5 ∷ 5 ∷ 1 ∷ []) 1)
    ∷ (format_argb1555, word (1 ∷ 5 ∷ 5 ∷ 5 ∷ []) 1)
    ∷ (format_abgr1555, word (1 ∷ 5 ∷ 5 ∷ 5 ∷ []) 1)
    ∷ (format_rgba5551, word (5 ∷ 5 ∷ 5 ∷ 1 ∷ []) 1)
    ∷ (format_bgra5551, word (5 ∷ 5 ∷ 5 ∷ 1 ∷ []) 1)
    ∷ (format_rgb565, word (5 ∷ 6 ∷ 5 ∷ []) 1)
    ∷ (format_bgr565, word (5 ∷ 6 ∷ 5 ∷ []) 1)
    ∷ (format_rgb888, word (8 ∷ 8 ∷ 8 ∷ []) 1)
    ∷ (format_bgr888, word (8 ∷ 8 ∷ 8 ∷ []) 1)
    ∷ (format_xrgb8888, word (8 ∷ 8 ∷ 8 ∷ 8 ∷ []) 1)
    ∷ (format_xbgr8888, word (8 ∷ 8 ∷ 8 ∷ 8 ∷ []) 1)
    ∷ (format_rgbx8888, word (8 ∷ 8 ∷ 8 ∷ 8 ∷ []) 1)
    ∷ (format_bgrx8888, word (8 ∷ 8 ∷ 8 ∷ 8 ∷ []) 1)
    ∷ (format_argb8888, word (8 ∷ 8 ∷ 8 ∷ 8 ∷ []) 1)
    ∷ (format_abgr8888, word (8 ∷ 8 ∷ 8 ∷ 8 ∷ []) 1)
    ∷ (format_rgba8888, word (8 ∷ 8 ∷ 8 ∷ 8 ∷ []) 1)
    ∷ (format_bgra8888, word (8 ∷ 8 ∷ 8 ∷ 8 ∷ []) 1)
    ∷ (format_xrgb2101010, word (2 ∷ 10 ∷ 10 ∷ 10 ∷ []) 1)
    ∷ (format_xbgr2101010, word (2 ∷ 10 ∷ 10 ∷ 10 ∷ []) 1)
    ∷ (format_rgbx1010102, word (10 ∷ 10 ∷ 10 ∷ 2 ∷ []) 1)
    ∷ (format_bgrx1010102, word (10 ∷ 10 ∷ 10 ∷ 2 ∷ []) 1)
    ∷ (format_argb2101010, word (2 ∷ 10 ∷ 10 ∷ 10 ∷ []) 1)
    ∷ (format_abgr2101010, word (2 ∷ 10 ∷ 10 ∷ 10 ∷ []) 1)
    ∷ (format_rgba1010102, word (10 ∷ 10 ∷ 10 ∷ 2 ∷ []) 1)
    ∷ (format_bgra1010102, word (10 ∷ 10 ∷ 10 ∷ 2 ∷ []) 1)
    ∷ (format_yuyv, word (8 ∷ 8 ∷ 8 ∷ 8 ∷ []) 2)
    ∷ (format_yvyu, word (8 ∷ 8 ∷ 8 ∷ 8 ∷ []) 2)
    ∷ (format_uyvy, word (8 ∷ 8 ∷ 8 ∷ 8 ∷ []) 2)
    ∷ (format_vyuy, word (8 ∷ 8 ∷ 8 ∷ 8 ∷ []) 2)
    ∷ (format_ayuv, word (8 ∷ 8 ∷ 8 ∷ 8 ∷ []) 1)
    ∷ (format_nv12, two_planes 2 2)
    ∷ (format_nv21, two_planes 2 2)
    ∷ (format_nv16, two_planes 2 1)
    ∷ (format_nv61, two_planes 2 1)
    ∷ (format_yuv410, three_planes 4 4)
    ∷ (format_yvu410, three_planes 4 4)
    ∷ (format_yuv411, three_planes 4 1)
    ∷ (format_yvu411, three_planes 4 1)
    ∷ (format_yuv420, three_planes 2 2)
    ∷ (format_yvu420, three_planes 2 2)
    ∷ (format_yuv422, three_planes 2 1)
    ∷ (format_yvu422, three_planes 2 1)
    ∷ (format_yuv444, three_planes 1 1)
    ∷ (format_yvu444, three_planes 1 1)
    ∷ (format_nv12mt, two_planes 2 2)
    ∷ []
