-- ===== src/Natives/Args.antt =====
-- What the natives of src/natives.cpp share: their arguments and the error report.
use amxx_mqtt_client.Prelude.{ℕ, ◌/◌, Bool, List, ◌&&◌, get_or, ltb, leb}
use amxx_mqtt_client.External.{Cell, LogMessage, log_error}
use amxx_mqtt_client.World.{World, note}

abbrev pub param : List Cell → ℕ → Cell
param params i = get_or params i 0

-- ARG_COUNT: the first cell is the size of the others in bytes, and is converted to size_t.
unfoldable pub arg_count : List Cell → ℕ
arg_count params = param params 0 / 4

-- MF_LogError, and the result 0.
abbrev pub fail : LogMessage → World → Cell × World
fail msg w = (0, note (log_error msg) w)

-- x < 0, of a 32-bit pattern.
abbrev pub is_negative : Cell → Bool
is_negative x = leb 2147483648 x

-- x > n, of a 32-bit pattern and a constant n that is not negative.
abbrev pub greater : Cell → ℕ → Bool
greater x n = ltb n x && ltb x 2147483648
