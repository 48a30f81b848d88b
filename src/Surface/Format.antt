-- ===== src/Surface/Format.antt =====
-- src/tbm_surface.h and src/tbm_surface_internal.c: the pixel formats.
use libtbm.Base.{ℕ, ◌+◌, ◌*◌, ◌^◌}

-- `__tbm_fourcc_code`
abbrev pub fourcc : (a b c d : ℕ) → ℕ
fourcc a b c d = a + b * 2 ^ 8 + c * 2 ^ 16 + d * 2 ^ 24

abbrev pub format_c8 : ℕ
format_c8 = fourcc 67 56 32 32

abbrev pub format_rgb332 : ℕ
format_rgb332 = fourcc 82 71 66 56  -- "RGB8"

abbrev pub format_bgr233 : ℕ
format_bgr233 = fourcc 66 71 82 56  -- "BGR8"

abbrev pub format_xrgb4444 : ℕ
format_xrgb4444 = fourcc 88 82 49 50  -- "XR12"

abbrev pub format_xbgr4444 : ℕ
format_xbgr4444 = fourcc 88 66 49 50  -- "XB12"

abbrev pub format_rgbx4444 : ℕ
format_rgbx4444 = fourcc 82 88 49 50  -- "RX12"

abbrev pub format_bgrx4444 : ℕ
format_bgrx4444 = fourcc 66 88 49 50  -- "BX12"

abbrev pub format_argb4444 : ℕ
format_argb4444 = fourcc 65 82 49 50  -- "AR12"

abbrev pub format_abgr4444 : ℕ
format_abgr4444 = fourcc 65 66 49 50  -- "AB12"

abbrev pub format_rgba4444 : ℕ
format_rgba4444 = fourcc 82 65 49 50  -- "RA12"

abbrev pub format_bgra4444 : ℕ
format_bgra4444 = fourcc 66 65 49 50  -- "BA12"

abbrev pub format_xrgb1555 : ℕ
format_xrgb1555 = fourcc 88 82 49 53  -- "XR15"

abbrev pub format_xbgr1555 : ℕ
format_xbgr1555 = fourcc 88 66 49 53  -- "XB15"

abbrev pub format_rgbx5551 : ℕ
format_rgbx5551 = fourcc 82 88 49 53  -- "RX15"

abbrev pub format_bgrx5551 : ℕ
format_bgrx5551 = fourcc 66 88 49 53  -- "BX15"

abbrev pub format_argb1555 : ℕ
format_argb1555 = fourcc 65 82 49 53  -- "AR15"

abbrev pub format_abgr1555 : ℕ
format_abgr1555 = fourcc 65 66 49 53  -- "AB15"

abbrev pub format_rgba5551 : ℕ
format_rgba5551 = fourcc 82 65 49 53  -- "RA15"

abbrev pub format_bgra5551 : ℕ
format_bgra5551 = fourcc 66 65 49 53  -- "BA15"

abbrev pub format_rgb565 : ℕ
format_rgb565 = fourcc 82 71 49 54  -- "RG16"

abbrev pub format_bgr565 : ℕ
format_bgr565 = fourcc 66 71 49 54  -- "BG16"

abbrev pub format_rgb888 : ℕ
format_rgb888 = fourcc 82 71 50 52  -- "RG24"

abbrev pub format_bgr888 : ℕ
format_bgr888 = fourcc 66 71 50 52  -- "BG24"

abbrev pub format_xrgb8888 : ℕ
format_xrgb8888 = fourcc 88 82 50 52  -- "XR24"

abbrev pub format_xbgr8888 : ℕ
format_xbgr8888 = fourcc 88 66 50 52  -- "XB24"

abbrev pub format_rgbx8888 : ℕ
format_rgbx8888 = fourcc 82 88 50 52  -- "RX24"

abbrev pub format_bgrx8888 : ℕ
format_bgrx8888 = fourcc 66 88 50 52  -- "BX24"

abbrev pub format_argb8888 : ℕ
format_argb8888 = fourcc 65 82 50 52  -- "AR24"

abbrev pub format_abgr8888 : ℕ
format_abgr8888 = fourcc 65 66 50 52  -- "AB24"

abbrev pub format_rgba8888 : ℕ
format_rgba8888 = fourcc 82 65 50 52  -- "RA24"

abbrev pub format_bgra8888 : ℕ
format_bgra8888 = fourcc 66 65 50 52  -- "BA24"

abbrev pub format_xrgb2101010 : ℕ
format_xrgb2101010 = fourcc 88 82 51 48  -- "XR30"

abbrev pub format_xbgr2101010 : ℕ
format_xbgr2101010 = fourcc 88 66 51 48  -- "XB30"

abbrev pub format_rgbx1010102 : ℕ
format_rgbx1010102 = fourcc 82 88 51 48  -- "RX30"

abbrev pub format_bgrx1010102 : ℕ
format_bgrx1010102 = fourcc 66 88 51 48  -- "BX30"

abbrev pub format_argb2101010 : ℕ
format_argb2101010 = fourcc 65 82 51 48  -- "AR30"

abbrev pub format_abgr2101010 : ℕ
format_abgr2101010 = fourcc 65 66 51 48  -- "AB30"

abbrev pub format_rgba1010102 : ℕ
format_rgba1010102 = fourcc 82 65 51 48  -- "RA30"

abbrev pub format_bgra1010102 : ℕ
format_bgra1010102 = fourcc 66 65 51 48  -- "BA30"

abbrev pub format_yuyv : ℕ
format_yuyv = fourcc 89 85 89 86  -- "YUYV"

abbrev pub format_yvyu : ℕ
format_yvyu = fourcc 89 86 89 85  -- "YVYU"

abbrev pub format_uyvy : ℕ
format_uyvy = fourcc 85 89 86 89  -- "UYVY"

abbrev pub format_vyuy : ℕ
format_vyuy = fourcc 86 89 85 89  -- "VYUY"

abbrev pub format_ayuv : ℕ
format_ayuv = fourcc 65 89 85 86  -- "AYUV"

abbrev pub format_nv12 : ℕ
format_nv12 = fourcc 78 86 49 50  -- "NV12"

abbrev pub format_nv21 : ℕ
format_nv21 = fourcc 78 86 50 49  -- "NV21"

abbrev pub format_nv16 : ℕ
format_nv16 = fourcc 78 86 49 54  -- "NV16"

abbrev pub format_nv61 : ℕ
format_nv61 = fourcc 78 86 54 49  -- "NV61"

abbrev pub format_yuv410 : ℕ
format_yuv410 = fourcc 89 85 86 57  -- "YUV9"

abbrev pub format_yvu410 : ℕ
format_yvu410 = fourcc 89 86 85 57  -- "YVU9"

abbrev pub format_yuv411 : ℕ
format_yuv411 = fourcc 89 85 49 49  -- "YU11"

abbrev pub format_yvu411 : ℕ
format_yvu411 = fourcc 89 86 49 49  -- "YV11"

abbrev pub format_yuv420 : ℕ
format_yuv420 = fourcc 89 85 49 50  -- "YU12"

abbrev pub format_yvu420 : ℕ
format_yvu420 = fourcc 89 86 49 50  -- "YV12"

abbrev pub format_yuv422 : ℕ
format_yuv422 = fourcc 89 85 49 54  -- "YU16"

abbrev pub format_yvu422 : ℕ
format_yvu422 = fourcc 89 86 49 54  -- "YV16"

abbrev pub format_yuv444 : ℕ
format_yuv444 = fourcc 89 85 50 52  -- "YU24"

abbrev pub format_yvu444 : ℕ
format_yvu444 = fourcc 89 86 50 52  -- "YV24"

abbrev pub format_nv12mt : ℕ
format_nv12mt = fourcc 84 77 49 50  -- "TM12"
