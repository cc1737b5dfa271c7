-- ===== src/Base/Code.antt =====
-- The return codes of netcwmp_xo/libcwmp/include/cwmp/error.h that the modelled functions return.
pub data Rc : Type 0 where
  cwmp_ok cwmp_error cwmp_timeout : Rc
