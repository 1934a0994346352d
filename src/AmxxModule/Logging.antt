-- ===== src/AmxxModule/Logging.antt =====
-- MF_Log and MF_LogError of src/sdk/amxxmodule.cpp: a text is formatted into a buffer and handed to the
-- core with the tag of the module.
pub mod Reports
use Prim.Native.String.{String}
use amxx_mqtt_client.Prelude.{
  ℕ, zero, suc, ◌+◌, ◌-◌, ◌/◌, ◌%◌, ◌^◌, Bool, true, false, Option, none, some, List, [], ◌∷◌, ◌++◌,
  take, ltb, ◌==◌, if◌then◌else◌,
}
use amxx_mqtt_client.External.{Cell, Text}
use amxx_mqtt_client.AmxxModule.Config.{module_logtag}
use amxx_mqtt_client.AmxxModule.Errors.{AmxError, error_code}

-- The arguments that the module gives to a format.
pub data FormatArgument : Type 0 where
  text : Text → FormatArgument
  number : Cell → FormatArgument

-- The decimal digits, at most `fuel + 1` of them: ten hold every number below 2 ^ 32.
unfoldable pub digits : ℕ → ℕ → Text
digits zero n = (48 + n % 10) ∷ []
digits (suc fuel) n =
    let higher = digits fuel (n / 10) in
    if ltb n 10 then (48 + n) ∷ [] else higher ++ (48 + n % 10) ∷ []

-- `%d` of a 32-bit pattern.
unfoldable pub decimal : Cell → Text
unfolding digits
decimal n = if ltb n (2 ^ 31) then digits 9 n else b'-' ∷ digits 9 (2 ^ 32 - n)

abbrev pub put : Text → Option Text → Option Text
put front none = none
put front (some rest) = some (front ++ rest)

-- A conversion, with what is left of the arguments for the rest of the format. There is no result where
-- C leaves the behaviour open: a missing or wrong argument, another conversion.
unfoldable pub convert : ℕ → List FormatArgument → (List FormatArgument → Option Text) → Option Text
unfolding decimal
convert c [] rest = if c == b'%' then put (b'%' ∷ []) (rest []) else none
convert c (text t ∷ args) rest =
    if c == b'%'
    then put (b'%' ∷ []) (rest (text t ∷ args))
    else if c == b's'
    then put t (rest args)
    else none
convert c (number n ∷ args) rest =
    if c == b'%'
    then put (b'%' ∷ []) (rest (number n ∷ args))
    else if c == b'd'
    then put (decimal n) (rest args)
    else none

-- The text that a format stands for.
unfoldable pub format : Text → List FormatArgument → Option Text
unfolding convert
format [] args = some []
format (c ∷ []) args = if c == b'%' then none else some (c ∷ [])
format (c ∷ d ∷ rest) args = elim (c == b'%') [
  | true ↦ convert d args (format rest)
  | false ↦ put (c ∷ []) (format (d ∷ rest) args)
]

-- vsnprintf: at most `size - 1` bytes and the null byte.
unfoldable pub vsnprintf : ℕ → Text → List FormatArgument → Option Text
unfolding format
vsnprintf size fmt args = elim (format fmt args) [ none ↦ none | some t ↦ some (take (size - 1) t) ]

-- char msg[3072]
abbrev pub buffer_size : ℕ
buffer_size = 3072

-- The arguments with which the core's function is called, after its own "[%s] %s".
pub record Logged : Type 0 where
  pub tag : String
  pub message : Text

abbrev pub tagged : Option Text → Option Logged
tagged none = none
tagged (some t) = some (record { tag = module_logtag; message = t })

unfoldable pub mf_log : Text → List FormatArgument → Option Logged
unfolding vsnprintf
mf_log fmt args = tagged (vsnprintf (buffer_size - 1) fmt args)

unfoldable pub mf_log_error : AmxError → Text → List FormatArgument → ℕ × Option Logged
unfolding vsnprintf
mf_log_error err fmt args = (error_code err, tagged (vsnprintf (buffer_size - 1) fmt args))
