-- ===== src/Surface/Table.antt =====
-- src/tbm_surface_internal.c: `tbm_surface_internal_get_num_planes` and `tbm_surface_internal_get_bpp`.
use libtbm.Base.{ℕ, List, [], ◌∷◌, has, if◌then◌else◌}
use libtbm.Surface.Format.{
  format_c8, format_rgb332, format_bgr233, format_xrgb4444, format_xbgr4444, format_rgbx4444,
  format_bgrx4444, format_argb4444, format_abgr4444, format_rgba4444, format_bgra4444,
  format_xrgb1555, format_xbgr1555, format_rgbx5551, format_bgrx5551, format_argb1555,
  format_abgr1555, format_rgba5551, format_bgra5551, format_rgb565, format_bgr565, format_rgb888,
  format_bgr888, format_xrgb8888, format_xbgr8888, format_rgbx8888, format_bgrx8888,
  format_argb8888, format_abgr8888, format_rgba8888, format_bgra8888, format_xrgb2101010,
  format_xbgr2101010, format_rgbx1010102, format_bgrx1010102, format_argb2101010,
  format_abgr2101010, format_rgba1010102, format_bgra1010102, format_yuyv, format_yvyu, format_uyvy,
  format_vyuy, format_ayuv, format_nv12, format_nv21, format_nv16, format_nv61, format_yuv410,
  format_yvu410, format_yuv411, format_yvu411, format_yuv420, format_yvu420, format_yuv422,
  format_yvu422, format_yuv444, format_yvu444, format_nv12mt,
}

-- The cases of the two switches that have one result.
abbrev pub planes_1 : List ℕ
planes_1 =
    format_c8 ∷ format_rgb332 ∷ format_bgr233 ∷ format_xrgb4444 ∷ format_xbgr4444 ∷ format_rgbx4444
    ∷ format_bgrx4444 ∷ format_argb4444 ∷ format_abgr4444 ∷ format_rgba4444 ∷ format_bgra4444
    ∷ format_xrgb1555 ∷ format_xbgr1555 ∷ format_rgbx5551 ∷ format_bgrx5551 ∷ format_argb1555
    ∷ format_abgr1555 ∷ format_rgba5551 ∷ format_bgra5551 ∷ format_rgb565 ∷ format_bgr565
    ∷ format_rgb888 ∷ format_bgr888 ∷ format_xrgb8888 ∷ format_xbgr8888 ∷ format_rgbx8888
    ∷ format_bgrx8888 ∷ format_argb8888 ∷ format_abgr8888 ∷ format_rgba8888 ∷ format_bgra8888
    ∷ format_xrgb2101010 ∷ format_xbgr2101010 ∷ format_rgbx1010102 ∷ format_bgrx1010102
    ∷ format_argb2101010 ∷ format_abgr2101010 ∷ format_rgba1010102 ∷ format_bgra1010102
    ∷ format_yuyv ∷ format_yvyu ∷ format_uyvy ∷ format_vyuy ∷ format_ayuv ∷ []

abbrev pub planes_2 : List ℕ
planes_2 = format_nv12 ∷ format_nv12mt ∷ format_nv21 ∷ format_nv16 ∷ format_nv61 ∷ []

abbrev pub planes_3 : List ℕ
planes_3 =
    format_yuv410 ∷ format_yvu410 ∷ format_yuv411 ∷ format_yvu411 ∷ format_yuv420 ∷ format_yvu420
    ∷ format_yuv422 ∷ format_yvu422 ∷ format_yuv444 ∷ format_yvu444 ∷ []

abbrev pub bpp_8 : List ℕ
bpp_8 = format_c8 ∷ format_rgb332 ∷ format_bgr233 ∷ []

abbrev pub bpp_16 : List ℕ
bpp_16 =
    format_xrgb4444 ∷ format_xbgr4444 ∷ format_rgbx4444 ∷ format_bgrx4444 ∷ format_argb4444
    ∷ format_abgr4444 ∷ format_rgba4444 ∷ format_bgra4444 ∷ format_xrgb1555 ∷ format_xbgr1555
    ∷ format_rgbx5551 ∷ format_bgrx5551 ∷ format_argb1555 ∷ format_abgr1555 ∷ format_rgba5551
    ∷ format_bgra5551 ∷ format_rgb565 ∷ format_bgr565 ∷ []

abbrev pub bpp_24 : List ℕ
bpp_24 = format_rgb888 ∷ format_bgr888 ∷ []

abbrev pub bpp_32 : List ℕ
bpp_32 =
    format_xrgb8888 ∷ format_xbgr8888 ∷ format_rgbx8888 ∷ format_bgrx8888 ∷ format_argb8888
    ∷ format_abgr8888 ∷ format_rgba8888 ∷ format_bgra8888 ∷ format_xrgb2101010 ∷ format_xbgr2101010
    ∷ format_rgbx1010102 ∷ format_bgrx1010102 ∷ format_argb2101010 ∷ format_abgr2101010
    ∷ format_rgba1010102 ∷ format_bgra1010102 ∷ format_yuyv ∷ format_yvyu ∷ format_uyvy
    ∷ format_vyuy ∷ format_ayuv ∷ []

abbrev pub bpp_12 : List ℕ
bpp_12 = format_nv12 ∷ format_nv12mt ∷ format_nv21 ∷ []

abbrev pub bpp_16_b : List ℕ
bpp_16_b = format_nv16 ∷ format_nv61 ∷ []

abbrev pub bpp_9 : List ℕ
bpp_9 = format_yuv410 ∷ format_yvu410 ∷ []

abbrev pub bpp_12_b : List ℕ
bpp_12_b = format_yuv411 ∷ format_yvu411 ∷ format_yuv420 ∷ format_yvu420 ∷ []

abbrev pub bpp_16_c : List ℕ
bpp_16_c = format_yuv422 ∷ format_yvu422 ∷ []

abbrev pub bpp_24_b : List ℕ
bpp_24_b = format_yuv444 ∷ format_yvu444 ∷ []

-- `tbm_surface_internal_get_num_planes`
unfoldable pub get_num_planes : ℕ → ℕ
get_num_planes format =
    if has format planes_1
    then 1
    else if has format planes_2
    then 2
    else if has format planes_3
    then 3
    else 0

-- `tbm_surface_internal_get_bpp`
unfoldable pub get_bpp : ℕ → ℕ
get_bpp format =
    if has format bpp_8
    then 8
    else if has format bpp_16
    then 16
    else if has format bpp_24
    then 24
    else if has format bpp_32
    then 32
    else if has format bpp_12
    then 12
    else if has format bpp_16_b
    then 16
    else if has format bpp_9
    then 9
    else if has format bpp_12_b
    then 12
    else if has format bpp_16_c
    then 16
    else if has format bpp_24_b
    then 24
    else 0
