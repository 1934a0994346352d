-- ===== src/AmxxModule/Metamod.antt =====
-- The Metamod part of src/sdk/amxxmodule.cpp, which src/sdk/moduleconfig.h leaves out (USE_METAMOD): how
-- Metamod and the engine are given the module's tables of functions. The FN_META_ functions are not
-- defined.
pub mod Slots
pub mod EntityApi
pub mod EngineFuncs
pub mod NewFuncs
pub mod Offered
pub mod Guards
pub mod Versions
use Prim.Native.String.{String}
use amxx_mqtt_client.Prelude.{
  ℕ, ◌+◌, ◌%◌, ◌^◌, Bool, true, false, ◌&&◌, ◌||◌, not, Option, none, some, List, [], ◌∷◌, ◌++◌,
  ltb, ◌==◌, if◌then◌else◌,
}
use amxx_mqtt_client.External.{Cell, Text}
use amxx_mqtt_client.AmxxModule.Config.{module_logtag}

-- The six tables: of the entity, engine and new functions, each also for the calls after the game's.
pub data Table : Type 0 where
  entity_api entity_api_post engine_funcs engine_funcs_post new_funcs new_funcs_post : Table

abbrev pub table_index : Table → ℕ
table_index Table.entity_api = 0
table_index Table.entity_api_post = 1
table_index Table.engine_funcs = 2
table_index Table.engine_funcs_post = 3
table_index Table.new_funcs = 4
table_index Table.new_funcs_post = 5

-- What the headers of Metamod and of the engine define: the versions INTERFACE_VERSION,
-- ENGINE_INTERFACE_VERSION, NEW_DLL_FUNCTIONS_VERSION and META_INTERFACE_VERSION, PT_ANYTIME and
-- PNL_CMD_FORCED, FStrEq, and what sscanf with "%d:%d" leaves in two ints that were 0.
pub record Headers : Type 0 where
  pub interface_version : Cell
  pub engine_interface_version : Cell
  pub new_dll_functions_version : Cell
  pub meta_interface_version : Text
  pub anytime : ℕ
  pub cmd_forced : ℕ
  pub f_str_eq : Text → Text → Bool
  pub scan : Text → Cell × Cell

-- What LOG_MESSAGE, LOG_ERROR, LOG_DEVELOPER and UTIL_LogPrintf are given.
pub data MetaMessage : Type 0 where
  called : Table → Cell → MetaMessage
  called_with_null : Table → MetaMessage
  version_mismatch : Table → Cell → Cell → MetaMessage
  called_meta_query : Text → Text → MetaMessage
  null_util_funcs : MetaMessage
  meta_version_mismatch : String → Text → MetaMessage
  metamod_too_old metamod_incompatible metamod_newer : MetaMessage
  unexpected_comparison : Text → Cell → Cell → Text → Cell → Cell → MetaMessage
  cannot_load null_globals null_function_table cannot_unload : MetaMessage

-- The global variables, with addresses for pointers: g_pFunctionTable and the five like it,
-- gpMetaUtilFuncs, gpMetaGlobals and gpGamedllFuncs.
pub record MetaState : Type 0 where
  pub given_tables : Table → Option ℕ
  pub meta_util_funcs : Option ℕ
  pub meta_globals : Option ℕ
  pub gamedll_funcs : Option ℕ

abbrev pub store_table : (Table → Option ℕ) → Table → ℕ → Table → Option ℕ
store_table ts t address u = if table_index t == table_index u then some address else ts u

-- The result, what stands behind the pointer to the version, whether the table has been copied to the
-- caller's, the variables and the log.
pub record TableAnswer : Type 0 where
  pub result : Bool
  pub version : Cell
  pub is_copied : Bool
  pub state : MetaState
  pub log : List MetaMessage

-- The functions below are the same but for their table and its version.
abbrev pub get_table : Table → Cell → Option ℕ → Cell → MetaState → TableAnswer
get_table t ours none version s = record {
  result = false;
  version = version;
  is_copied = false;
  state = s;
  log = called t version ∷ called_with_null t ∷ [];
}
get_table t ours (some address) version s =
    if not (version == ours)
    then record {
      result = false;
      version = ours;
      is_copied = false;
      state = s;
      log = called t version ∷ version_mismatch t version ours ∷ [];
    }
    else record {
      result = true;
      version = version;
      is_copied = true;
      state = record s { given_tables = store_table s.given_tables t address };
      log = called t version ∷ [];
    }

abbrev pub get_entity_api2 : Headers → Option ℕ → Cell → MetaState → TableAnswer
get_entity_api2 h = get_table Table.entity_api h.interface_version

abbrev pub get_entity_api2_post : Headers → Option ℕ → Cell → MetaState → TableAnswer
get_entity_api2_post h = get_table Table.entity_api_post h.interface_version

abbrev pub get_engine_functions : Headers → Option ℕ → Cell → MetaState → TableAnswer
get_engine_functions h = get_table Table.engine_funcs h.engine_interface_version

abbrev pub get_engine_functions_post : Headers → Option ℕ → Cell → MetaState → TableAnswer
get_engine_functions_post h = get_table Table.engine_funcs_post h.engine_interface_version

abbrev pub get_new_dll_functions : Headers → Option ℕ → Cell → MetaState → TableAnswer
get_new_dll_functions h = get_table Table.new_funcs h.new_dll_functions_version

abbrev pub get_new_dll_functions_post : Headers → Option ℕ → Cell → MetaState → TableAnswer
get_new_dll_functions_post h = get_table Table.new_funcs_post h.new_dll_functions_version

-- `a < b` of two ints.
abbrev pub int_lt : Cell → Cell → Bool
int_lt a b = ltb ((a + 2 ^ 31) % 2 ^ 32) ((b + 2 ^ 31) % 2 ^ 32)

-- The comparison of two versions, Metamod's first: whether the module goes on, and the log.
unfoldable pub compare_versions :
    Headers → Text → Cell × Cell → Cell × Cell → Bool × List MetaMessage
compare_versions h ifvers (mmajor, mminor) (pmajor, pminor) =
    if int_lt mmajor pmajor || ((pmajor == mmajor) && int_lt mminor pminor)
    then (false, metamod_too_old ∷ [])
    else if int_lt pmajor mmajor
    then (false, metamod_incompatible ∷ [])
    else if (pmajor == mmajor) && int_lt pminor mminor
    then (true, metamod_newer ∷ [])
    else (
      true,
      unexpected_comparison ifvers mmajor mminor h.meta_interface_version pmajor pminor ∷ [],
    )

-- What Meta_Query does with the version.
unfoldable pub check_version : Headers → Text → Bool × List MetaMessage
unfolding compare_versions
check_version h ifvers =
    if not (h.f_str_eq ifvers h.meta_interface_version)
    then (let (goes_on, log) =
          compare_versions h ifvers (h.scan ifvers) (h.scan h.meta_interface_version) in
        (goes_on, meta_version_mismatch module_logtag ifvers ∷ log))
    else (true, [])

-- Whether the caller has been given Plugin_info.
pub record QueryAnswer : Type 0 where
  pub result : Bool
  pub has_info : Bool
  pub state : MetaState
  pub log : List MetaMessage

-- With the value of the variable `developer`.
unfoldable pub meta_query : Headers → Bool → Text → Option ℕ → MetaState → QueryAnswer
unfolding check_version
meta_query h developer ifvers util_funcs s =
    let first = if developer then called_meta_query ifvers h.meta_interface_version ∷ [] else [] in
    elim util_funcs [
      | none ↦ record {
        result = false;
        has_info = false;
        state = s;
        log = first ++ null_util_funcs ∷ [];
      }
      | some u ↦
          let (goes_on, log) = check_version h ifvers in
          record {
            result = goes_on;
            has_info = true;
            state = record s { meta_util_funcs = some u };
            log = first ++ log;
          }
    ]

-- Whether the table of the functions above has been copied to the caller's.
pub record AttachAnswer : Type 0 where
  pub result : Bool
  pub is_copied : Bool
  pub state : MetaState
  pub log : List MetaMessage

abbrev refuse : MetaMessage → MetaState → AttachAnswer
refuse m s = record { result = false; is_copied = false; state = s; log = m ∷ [] }

unfoldable pub meta_attach : Headers → ℕ → Option ℕ → Option ℕ → Option ℕ → MetaState → AttachAnswer
meta_attach h now function_table globals gamedll s =
    if ltb h.anytime now then refuse cannot_load s else elim globals [
      | none ↦ refuse null_globals s
      | some g ↦
          let s' = record s { meta_globals = some g } in
          elim function_table [
            | none ↦ refuse null_function_table s'
            | some _ ↦ record {
              result = true;
              is_copied = true;
              state = record s' { gamedll_funcs = gamedll };
              log = [];
            }
          ]
    ]

unfoldable pub meta_detach : Headers → ℕ → ℕ → Bool × List MetaMessage
meta_detach h now reason =
    if ltb h.anytime now && not (reason == h.cmd_forced)
    then (false, cannot_unload ∷ [])
    else (true, [])
