-- ===== src/AmxxModule/Logging/Reports/Exact.antt =====
-- That MF_Log and MF_LogError of src/sdk/amxxmodule.cpp are handed the texts that the module means, and
-- how much of them the buffer holds.
use mathlib.Core.List.{append-nil}
use amxx_mqtt_client.Prelude.{
  ℕ, zero, suc, ◌+◌, ◌-◌, ◌/◌, ◌%◌, ◌^◌, ◌≤◌, ◌≡◌, refl, ap, ◌∙◌, false, Option, none, some, List,
  [], ◌∷◌, ◌++◌, length, take, length-append, All, ltb, ◌==◌, arith, Bool-cases, inl, inr, codes,
}
use amxx_mqtt_client.External.{
  Cell, Text, Exception, LogMessage, too_few_arguments, invalid_client_handle,
  invalid_options_handle, invalid_qos, empty_topic, invalid_option_name, missing_callback, what,
  no_error, no_factory, no_api, no_registry, version_mismatch, LogLine, hook_error, attach_banner,
  detach_banner,
}
use amxx_mqtt_client.Natives.Table.{native_name}
use amxx_mqtt_client.AmxxModule.Config.{module_logtag}
use amxx_mqtt_client.AmxxModule.Logging.{
  FormatArgument, digits, decimal, put, convert, format, vsnprintf, Logged, tagged, mf_log,
  mf_log_error,
}
use amxx_mqtt_client.AmxxModule.Logging.Reports.{
  error_format, report, hook_error_text, line_format, log_line,
}

-- What the report says, put together without a format. An exception has no such text.
abbrev pub meant : LogMessage → Option Text
meant (too_few_arguments n) =
    some
      (codes "Too few arguments to " ++ codes (native_name n) ++ codes ", the inc file incorrect?")
meant (invalid_client_handle h) = some (codes "Invalid mqtt client handle: " ++ decimal h)
meant (invalid_options_handle h) = some (codes "Invalid mqtt connect options handle: " ++ decimal h)
meant (invalid_qos q) =
    some (codes "Invalid MQTT QoS: " ++ decimal q ++ codes " (expected 0, 1, or 2)")
meant empty_topic = some (codes "Topic name could not be empty")
meant invalid_option_name = some (codes "Invalid option name")
meant (missing_callback name) =
    some (codes "Callback function \"" ++ name ++ codes "\" is not exists")
meant (what e) = none

format-error_format :
    (what_of : Exception → Text) (m : LogMessage) (t : Text)
    → meant m ≡ some t
    → format (error_format what_of m).0 (error_format what_of m).1 ≡ some t
unfolding format
format-error_format what_of (too_few_arguments n) t h = h
format-error_format what_of (invalid_client_handle n) t h =
    ap (λ u. some (codes "Invalid mqtt client handle: " ++ u)) (append-nil (decimal n)) ∙ h
format-error_format what_of (invalid_options_handle n) t h =
    ap (λ u. some (codes "Invalid mqtt connect options handle: " ++ u)) (append-nil (decimal n)) ∙ h
format-error_format what_of (invalid_qos n) t h = h
format-error_format what_of empty_topic t h = h
format-error_format what_of invalid_option_name t h = h
format-error_format what_of (missing_callback name) t h = h
format-error_format what_of (what e) t h = absurd (ground arith)

-- A text, as the core is handed it.
abbrev pub handed : Text → Logged
handed t = record { tag = module_logtag; message = take 3070 t }

tagged-vsnprintf :
    (fmt : Text) (args : List FormatArgument) (t : Text)
    → format fmt args ≡ some t
    → tagged (vsnprintf 3071 fmt args) ≡ some (handed t)
unfolding vsnprintf
tagged-vsnprintf fmt args t h = rw (h, tagged) refl

-- Every error report but that of an exception is handed to the core with code 10 and the tag of the
-- module, and its text is what the report means, cut to the 3070 bytes that the buffer holds.
pub report-meant :
    (what_of : Exception → Text) (m : LogMessage) (t : Text)
    → meant m ≡ some t
    → report what_of m ≡ (10, some (handed t))
unfolding report mf_log_error
report-meant what_of m t h =
    ap (λ logged. (10, logged))
      (tagged-vsnprintf (error_format what_of m).0 (error_format what_of m).1 t
        (format-error_format what_of m t h))

-- No percent sign.
abbrev pub IsPlain : Text → Type 0
IsPlain t = All (λ c. (c == b'%') ≡ false) t

format_plain : (t : Text) (args : List FormatArgument) → IsPlain t → format t args ≡ some t
unfolding format
format_plain [] args h = refl
format_plain (c ∷ []) args h = rw h.0 refl
format_plain (c ∷ d ∷ t) args h = rw (h.0, format, format_plain (d ∷ t) args h.1) refl

put-none : (front : Text) (o : Option Text) → o ≡ none → put front o ≡ none
put-none front o h = rw h refl

format_percent :
    (pre : Text) (c : ℕ) (post : Text)
    → IsPlain pre
    → (c == b'%') ≡ false
    → format (pre ++ b'%' ∷ c ∷ post) [] ≡ none
unfolding format
format_percent [] c post h other = rw (other, convert) refl
format_percent (x ∷ []) c post h other =
    rw (h.0, format) (put-none (x ∷ []) _ (format_percent [] c post tt other))
format_percent (x ∷ y ∷ pre) c post h other =
    rw (h.0, format) (put-none (x ∷ []) _ (format_percent (y ∷ pre) c post h.1 other))

-- An exception whose text has no percent sign is reported with the text as it is, cut to 3070 bytes.
pub exception_plain :
    (what_of : Exception → Text) (e : Exception)
    → IsPlain (what_of e)
    → report what_of (what e) ≡ (10, some (handed (what_of e)))
unfolding report mf_log_error
exception_plain what_of e h =
    ap (λ logged. (10, logged))
      (tagged-vsnprintf (what_of e) [] (what_of e) (format_plain (what_of e) [] h))

-- An exception in whose text the first percent sign is followed by another character is not reported
-- with any text that the language defines: the text is the format, and the conversion has no argument.
pub exception_percent :
    (what_of : Exception → Text) (e : Exception) (pre : Text) (c : ℕ) (post : Text)
    → what_of e ≡ pre ++ b'%' ∷ c ∷ post
    → IsPlain pre
    → (c == b'%') ≡ false
    → report what_of (what e) ≡ (10, none)
unfolding report mf_log_error vsnprintf
exception_percent what_of e pre c post same h other =
    rw (same, tagged, format_percent pre c post h other) refl

length-digits : (fuel n : ℕ) → length (digits fuel n) ≤ fuel + 1
unfolding digits
length-digits zero n = omega arith
length-digits (suc fuel) n = elim (Bool-cases (ltb n 10)) [
  | inl small ↦ rw small (omega arith)
  | inr large ↦ rw large (
      omega (
        arith,
        length-digits fuel (n / 10),
        length-append (digits fuel (n / 10)) ((48 + n % 10) ∷ []),
      ))
]

length-decimal : (n : Cell) → length (decimal n) ≤ 11
unfolding decimal
length-decimal n = elim (Bool-cases (ltb n (2 ^ 31))) [
  | inl small ↦ rw small (omega (arith, length-digits 9 n))
  | inr large ↦ rw large (omega (arith, length-digits 9 (2 ^ 32 - n)))
]

take_all : (n : ℕ) (t : Text) → length t ≤ n → take n t ≡ t
take_all zero [] h = refl
take_all zero (c ∷ t) h = absurd (omega arith)
take_all (suc n) [] h = refl
take_all (suc n) (c ∷ t) h = ap (λ u. c ∷ u) (take_all n t (omega arith))

-- What MF_Log says, put together without a format.
abbrev pub line_text : LogLine → Text
line_text (hook_error e) = hook_error_text e
line_text attach_banner = codes "==================OnAmxxAttach=================="
line_text detach_banner = codes "==================OnAmxxDetach=================="

length-four :
    (h a d b : Text)
    → length (h ++ a ++ d ++ b ++ d) ≡ length h + length a + length d + length b + length d
length-four h a d b = omega (
  arith,
  length-append h a,
  length-append (h ++ a) d,
  length-append (h ++ a ++ d) b,
  length-append (h ++ a ++ d ++ b) d,
)

length-line_text : (l : LogLine) → length (line_text l) ≤ 3070
unfolding hook_error_text
length-line_text (hook_error no_error) = omega arith
length-line_text (hook_error no_factory) = omega arith
length-line_text (hook_error no_api) = omega arith
length-line_text (hook_error no_registry) = omega arith
length-line_text (hook_error (version_mismatch major minor)) =
    rw
      (length-four (codes "ReHLDS API version mismatch: need 3.7+, found ") (decimal major)
        (codes ".") (decimal minor))
      (omega (arith, length-decimal major, length-decimal minor))
length-line_text attach_banner = omega arith
length-line_text detach_banner = omega arith

format-line_format : (l : LogLine) → format (line_format l).0 (line_format l).1 ≡ some (line_text l)
unfolding format
format-line_format (hook_error e) = ap some (append-nil (hook_error_text e))
format-line_format attach_banner = refl
format-line_format detach_banner = refl

-- Every line that the module logs is handed to the core whole: the error of the hook, with both version
-- numbers whatever they are, and the two banners.
pub log_line_whole :
    (l : LogLine) → log_line l ≡ some (record { tag = module_logtag; message = line_text l })
unfolding log_line mf_log
log_line_whole l =
    tagged-vsnprintf (line_format l).0 (line_format l).1 (line_text l) (format-line_format l)
    ∙ ap (λ t. some (record { tag = module_logtag; message = t }))
        (take_all 3070 (line_text l) (length-line_text l))
