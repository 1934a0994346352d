-- ===== src/RehldsFrameHook.antt =====
-- src/RehldsFrameHook.h and src/RehldsFrameHook.cpp: finding the engine's SV_Frame registry, and the
-- hook in it. The dynamic loader and the engine are an `Engine`.
pub mod Lookups
pub mod Registry
use amxx_mqtt_client.Prelude.{
  ℕ, Bool, true, false, Option, none, some, List, [], ◌∷◌, ◌==◌, not, ◌||◌, ltb, if◌then◌else◌,
}
use amxx_mqtt_client.External.{
  Cell, register_hook, unregister_hook, HookError, no_error, no_factory, no_api, no_registry,
  version_mismatch,
}
use amxx_mqtt_client.World.{World, note}
use amxx_mqtt_client.Natives.Args.{is_negative}

-- Whether _WIN32 is defined.
pub data Platform : Type 0 where
  windows linux : Platform

-- The names that FindEngineFactory tries, and in which order it does.
pub data EngineName : Type 0 where
  swds sw hw engine_i486 dot_engine_i486 : EngineName

abbrev pub candidates : Platform → List EngineName
candidates windows = swds ∷ sw ∷ hw ∷ []
candidates linux = engine_i486 ∷ dot_engine_i486 ∷ []

pub record Engine : Type 0 where
  pub platform : Platform
  -- dlopen with RTLD_NOLOAD, and dlsym of CreateInterface; on Windows GetModuleHandleA and
  -- GetProcAddress.
  pub dlopen : EngineName → Option ℕ
  pub dlsym : ℕ → Option ℕ
  -- The factory's answer to VREHLDS_HLDS_API_VERSION.
  pub api : ℕ → Option ℕ
  pub major_version : ℕ → Cell
  pub minor_version : ℕ → Cell
  pub hookchains : ℕ → Option ℕ
  pub sv_frame : ℕ → Option ℕ

abbrev pub rehlds_api_version_major : ℕ
rehlds_api_version_major = 3

abbrev pub minimum_api_minor : ℕ
minimum_api_minor = 7

-- The loop over the names: the first loaded library that has a factory.
unfoldable pub first_factory : Engine → List EngineName → Option ℕ
first_factory e [] = none
first_factory e (name ∷ names) =
    let rest = first_factory e names in
    elim (e.dlopen name) [
      | none ↦ rest
      | some library ↦ elim (e.dlsym library) [ none ↦ rest | some f ↦ some f ]
    ]

unfoldable pub find_engine_factory : Engine → Option ℕ
unfolding first_factory
find_engine_factory e = first_factory e (candidates e.platform)

-- hooks ? hooks->SV_Frame() : nullptr, and its error.
unfoldable pub registry_of : Engine → ℕ → Option ℕ × HookError
registry_of e api = elim (e.hookchains api) [
  | none ↦ (none, no_registry)
  | some hooks ↦ elim (e.sv_frame hooks) [
    | none ↦ (none, no_registry)
    | some registry ↦ (some registry, no_error)
  ]
]

-- minor < minimumApiMinor, of a 32-bit pattern.
unfoldable pub is_bad_version : Cell → Cell → Bool
is_bad_version major minor =
    not (major == rehlds_api_version_major) || is_negative minor || ltb minor minimum_api_minor

unfoldable pub find_frame_registry : Engine → Option ℕ × HookError
unfolding registry_of is_bad_version
find_frame_registry e = elim (find_engine_factory e) [
  | none ↦ (none, no_factory)
  | some factory ↦ elim (e.api factory) [
    | none ↦ (none, no_api)
    | some api ↦
        let major = e.major_version api in
        let minor = e.minor_version api in
        if is_bad_version major minor
        then (none, version_mismatch major minor)
        else registry_of e api
  ]
]

unfoldable pub check_rehlds_api : Engine → Bool × HookError
check_rehlds_api e =
    let (registry, error) = find_frame_registry e in
    (elim registry [ none ↦ false | some _ ↦ true ], error)

unfoldable pub register_rehlds_frame_hook : Engine → World → Bool × HookError × World
register_rehlds_frame_hook e w = elim w.frame_registry [
  | some _ ↦ (true, no_error, w)
  | none ↦
      let (found, error) = find_frame_registry e in
      elim found [
        | none ↦ (false, error, record w { frame_registry = none })
        | some registry ↦ (
          true,
          error,
          note (register_hook registry) (record w { frame_registry = some registry }),
        )
      ]
]

unfoldable pub unregister_rehlds_frame_hook : World → World
unregister_rehlds_frame_hook w = elim w.frame_registry [
  | none ↦ w
  | some registry ↦ note (unregister_hook registry) (record w { frame_registry = none })
]
