-- ===== src/AmxxModule/Metamod/Versions.antt =====
-- Which callers the Metamod part of src/sdk/amxxmodule.cpp goes along with.
use amxx_mqtt_client.Prelude.{
  ℕ, ◌≡◌, ◌↔◌, ◌≢◌, ◌^◌, ◌≤◌, ◌<◌, refl, inl, inr, Bool, true, false, ◌&&◌, ◌||◌, not, Option, none,
  some, ◌==◌, arith, Bool-cases,
}
use amxx_mqtt_client.External.{Cell, Text}
use amxx_mqtt_client.AmxxModule.Metamod.{
  Headers, Table, MetaState, get_table, int_lt, compare_versions, check_version, meta_query,
  meta_attach, meta_detach,
}

-- A function for a table succeeds exactly if the version that it is asked for is its own. Either way
-- its own version is left behind the pointer, so that it succeeds when it is asked again.
pub get_table_agrees :
    (t : Table) (ours address : ℕ) (version : Cell) (s s' : MetaState)
    → let first = get_table t ours (some address) version s in
      let second = get_table t ours (some address) first.version s' in
      ((first.result ≡ true) ↔ (version ≡ ours)) × (second.result ≡ true)
get_table_agrees t ours address version s s' = elim (Bool-cases (version == ours)) [
  | inl same ↦ ground (arith, same)
  | inr other ↦ ground (arith, other)
]

-- The major versions are the same, and Metamod's minor version is not the older one.
abbrev is_compatible : Cell × Cell → Cell × Cell → Bool
is_compatible (mmajor, mminor) (pmajor, pminor) = (pmajor == mmajor) && not (int_lt mminor pminor)

compare_versions-compatible :
    (h : Headers) (ifvers : Text) (m p : Cell × Cell)
    → m.0 < 2 ^ 32
    → p.0 < 2 ^ 32
    → (compare_versions h ifvers m p).0 ≡ is_compatible m p
unfolding compare_versions
compare_versions-compatible h ifvers (mmajor, mminor) (pmajor, pminor) bm bp =
    ground (arith, bm, bp)

-- sscanf fills two ints.
abbrev ScansInts : Headers → Type 0
ScansInts h = (t : Text) → (h.scan t).0 < 2 ^ 32

-- The version of Metamod is that of the module, or compatible with it.
abbrev is_welcome : Headers → Text → Bool
is_welcome h ifvers =
    h.f_str_eq ifvers h.meta_interface_version
    || is_compatible (h.scan ifvers) (h.scan h.meta_interface_version)

check_version-welcome :
    (h : Headers) (ifvers : Text) → ScansInts h → (check_version h ifvers).0 ≡ is_welcome h ifvers
unfolding check_version
check_version-welcome h ifvers ints =
    let same =
      compare_versions-compatible h ifvers (h.scan ifvers) (h.scan h.meta_interface_version)
        (ints ifvers) (ints h.meta_interface_version) in
    elim (Bool-cases (h.f_str_eq ifvers h.meta_interface_version)) [
      | inl equal ↦ ground (arith, equal)
      | inr differ ↦ rw differ same
    ]

-- Meta_Query with the functions of Metamod answers that the module goes on exactly if Metamod has the
-- version of the module, or its major version and no older minor one. It keeps the functions and tells
-- what the module is in either case; without them it does nothing and refuses.
pub meta_query_answers :
    (h : Headers) (developer : Bool) (ifvers : Text) (u : ℕ) (s : MetaState)
    → ScansInts h
    → let a = meta_query h developer ifvers (some u) s in
      let b = meta_query h developer ifvers none s in
      (a.result ≡ is_welcome h ifvers)
      × (a.has_info ≡ true)
      × (a.state.meta_util_funcs ≡ some u)
      × (b.result ≡ false)
      × (b.has_info ≡ false)
      × (b.state ≡ s)
unfolding meta_query
meta_query_answers h developer ifvers u s ints =
    (check_version-welcome h ifvers ints, refl, refl, refl, refl, refl)

abbrev is_given : Option ℕ → Bool
is_given none = false
is_given (some _) = true

-- Meta_Attach succeeds exactly if it is not too late and both pointers are given. The caller has the
-- module's table exactly then.
pub meta_attach_succeeds :
    (h : Headers) (now : ℕ) (function_table globals gamedll : Option ℕ) (s : MetaState)
    → let a = meta_attach h now function_table globals gamedll s in
      ((a.result ≡ true)
        ↔ ((now ≤ h.anytime) × (is_given globals ≡ true) × (is_given function_table ≡ true)))
      × (a.is_copied ≡ a.result)
unfolding meta_attach
meta_attach_succeeds h now none none gamedll s = ground arith
meta_attach_succeeds h now none (some g) gamedll s = ground arith
meta_attach_succeeds h now (some t) none gamedll s = ground arith
meta_attach_succeeds h now (some t) (some g) gamedll s = ground arith

-- Meta_Detach refuses exactly what comes too late and is not forced.
pub meta_detach_refuses :
    (h : Headers) (now reason : ℕ)
    → ((meta_detach h now reason).0 ≡ false) ↔ ((h.anytime < now) × (reason ≢ h.cmd_forced))
unfolding meta_detach
meta_detach_refuses h now reason = ground arith
