-- ===== src/AmxxModule/Errors.antt =====
-- src/sdk/amxxmodule.h: the error codes of the abstract machine, AMX_ERR_NONE and the others.
use amxx_mqtt_client.Prelude.{ℕ}

pub data AmxError : Type 0 where
  no_error forced_exit assert stackerr bounds memaccess invinstr stacklow heaplow : AmxError
  callback native divide sleep invstate memory format version notfound index debug : AmxError
  init userdata init_jit params domain : AmxError

abbrev pub error_code : AmxError → ℕ
error_code AmxError.no_error = 0
error_code AmxError.forced_exit = 1
error_code AmxError.assert = 2
error_code AmxError.stackerr = 3
error_code AmxError.bounds = 4
error_code AmxError.memaccess = 5
error_code AmxError.invinstr = 6
error_code AmxError.stacklow = 7
error_code AmxError.heaplow = 8
error_code AmxError.callback = 9
error_code AmxError.native = 10
error_code AmxError.divide = 11
error_code AmxError.sleep = 12
error_code AmxError.invstate = 13
error_code AmxError.memory = 16
error_code AmxError.format = 17
error_code AmxError.version = 18
error_code AmxError.notfound = 19
error_code AmxError.index = 20
error_code AmxError.debug = 21
error_code AmxError.init = 22
error_code AmxError.userdata = 23
error_code AmxError.init_jit = 24
error_code AmxError.params = 25
error_code AmxError.domain = 26
