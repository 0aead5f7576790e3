-- ===== src/Listener/Codes.antt =====
-- include/listener.h: the CALLBACK_RETCODE_ codes; include/mqmsg.h: the message types.
use rpiweatherd.Base.{ℕ, ℤ, pos, neg}

abbrev pub success : ℤ
success = pos 0

abbrev pub unknown_param : ℤ
unknown_param = neg 1001

abbrev pub param_error : ℤ
param_error = neg 1002

abbrev pub unknown_command : ℤ
unknown_command = neg 1003

abbrev pub params_missing : ℤ
params_missing = neg 1004

abbrev pub too_many_params : ℤ
too_many_params = neg 1005

abbrev pub no_params_needed : ℤ
no_params_needed = neg 1006

abbrev pub memory_error : ℤ
memory_error = neg 1007

abbrev pub device_error : ℤ
device_error = neg 1008

abbrev pub msgtype_writeentry : ℕ
msgtype_writeentry = 100

abbrev pub msgtype_fetch : ℕ
msgtype_fetch = 101

abbrev pub msgtype_current : ℕ
msgtype_current = 102

abbrev pub msgtype_stats : ℕ
msgtype_stats = 103

abbrev pub msgtype_config : ℕ
msgtype_config = 104
