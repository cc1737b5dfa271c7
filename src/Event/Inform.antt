-- ===== src/Event/Inform.antt =====
-- `enum InformEventType` of netcwmp_xo/libcwmp/include/cwmp/cwmp.h
use netcwmp_xo.Base.{ℕ}

abbrev pub bootstrap : ℕ
bootstrap = 0

abbrev pub boot : ℕ
boot = 1

abbrev pub valuechange : ℕ
valuechange = 4

abbrev pub connectionrequest : ℕ
connectionrequest = 6

abbrev pub transfercomplete : ℕ
transfercomplete = 7

abbrev pub mreboot : ℕ
mreboot = 11

abbrev pub mdownload : ℕ
mdownload = 13

abbrev pub max : ℕ
max = 18
