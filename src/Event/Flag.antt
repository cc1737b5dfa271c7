-- ===== src/Event/Flag.antt =====
-- `EVENT_REBOOT_BOOTSTRAP_FLAG` and the others of netcwmp_xo/libcwmp/include/cwmp/event.h
use netcwmp_xo.Base.{ℕ}

abbrev pub bootstrap : ℕ
bootstrap = 1

abbrev pub acs : ℕ
acs = 2

abbrev pub transfercomplete : ℕ
transfercomplete = 4
