-- ===== src/Http/Error.antt =====
-- include/http.h: the HTTP_PARSER_ERROR_ codes.
use rpiweatherd.Base.{ℤ, pos, neg}

abbrev pub success : ℤ
success = pos 0

abbrev pub unknown_param : ℤ
unknown_param = neg 1

abbrev pub request_too_long : ℤ
request_too_long = neg 2

abbrev pub params_required : ℤ
params_required = neg 3

abbrev pub bad_request_format : ℤ
bad_request_format = neg 4

abbrev pub wrong_protocol : ℤ
wrong_protocol = neg 5

abbrev pub no_memory : ℤ
no_memory = neg 6

abbrev pub duplicate_params : ℤ
duplicate_params = neg 7
