-- ===== src/AmxxModule/Memory.antt =====
-- The memory tester of src/sdk/amxxmodule.cpp, which a build with MEMORY_TEST has; moduleconfig.h leaves
-- it out. Each allocation is reported to the core with the file, line and function that make it.
pub mod Labels
use amxx_mqtt_client.Prelude.{
  ℕ, ◌+◌, ◌==◌, Bool, true, false, Option, none, some, List, [], ◌∷◌, ◌++◌, if◌then◌else◌, length,
  leb, codes,
}
use amxx_mqtt_client.External.{Text}
use amxx_mqtt_client.AmxxModule.Config.{module_name}

-- m_alloc_unknown and the others.
pub data AllocationType : Type 0 where
  unknown new new_array malloc calloc realloc delete delete_array free : AllocationType

abbrev pub type_code : AllocationType → ℕ
type_code AllocationType.unknown = 0
type_code AllocationType.new = 1
type_code AllocationType.new_array = 2
type_code AllocationType.malloc = 3
type_code AllocationType.calloc = 4
type_code AllocationType.realloc = 5
type_code AllocationType.delete = 6
type_code AllocationType.delete_array = 7
type_code AllocationType.free = 8

-- The static buffer of Mem_MakeSourceFile up to `pos`, and g_Mem_CurrentFilename and the others.
pub record Tester : Type 0 where
  pub prefix : Text
  pub filename : Text
  pub line : ℕ
  pub function : Text

abbrev pub unowned : Text
unowned = codes "??"

abbrev pub initial : Tester
initial = record { prefix = []; filename = unowned; line = 0; function = unowned }

-- A call of the core, or of the C library when the core has no such function. An address is a number,
-- and the null pointer 0.
pub data MemoryCall : Type 0 where
  core_allocator : Text → ℕ → Text → AllocationType → ℕ → MemoryCall
  core_reallocator : Text → ℕ → Text → AllocationType → ℕ → ℕ → MemoryCall
  core_deallocator : Text → ℕ → Text → AllocationType → ℕ → MemoryCall
  c_malloc : ℕ → MemoryCall
  c_realloc : ℕ → ℕ → MemoryCall
  c_free : ℕ → MemoryCall

-- Which of g_fn_Allocator, g_fn_Reallocator and g_fn_Deallocator are not null.
pub record MemoryFunctions : Type 0 where
  pub has_allocator : Bool
  pub has_reallocator : Bool
  pub has_deallocator : Bool

-- strrchr, and one further.
unfoldable pub after_last : ℕ → Text → Option Text
after_last c [] = none
after_last c (x ∷ xs) = elim (after_last c xs) [
  | some rest ↦ some rest
  | none ↦ if x == c then some xs else none
]

unfoldable pub file_part : Text → Text
unfolding after_last
file_part path = elim (after_last b'\\' path) [
  | some rest ↦ rest
  | none ↦ elim (after_last b'/' path) [ some rest ↦ rest | none ↦ path ]
]

-- char buffer[512]
abbrev pub label_size : ℕ
label_size = 512

abbrev pub module_label : Text
module_label = b'[' ∷ (codes module_name ++ b']' ∷ [])

-- There is no result where strcpy writes beyond the buffer.
unfoldable pub mem_make_source_file : Text → Tester → Option (Text × Tester)
unfolding file_part
mem_make_source_file path s =
    let prefix = if length s.prefix == 0 then module_label else s.prefix in
    let label = prefix ++ file_part path in
    if leb (length label + 1) label_size then some (label, record s { prefix = prefix }) else none

unfoldable pub mem_set_owner : Text → ℕ → Text → Tester → Tester
mem_set_owner filename line function s = record s {
  filename = filename;
  line = line;
  function = function;
}

unfoldable pub mem_reset_globals : Tester → Tester
unfolding mem_set_owner
mem_reset_globals s = mem_set_owner unowned 0 unowned s

-- The call with the label, or the C library's.
abbrev pub labelled : (Text → MemoryCall) → Option (Text × Tester) → Option (MemoryCall × Tester)
labelled call none = none
labelled call (some (label, s)) = some (call label, s)

unfoldable pub mem_allocator :
    MemoryFunctions → Text → ℕ → Text → AllocationType → ℕ → Tester → Option (MemoryCall × Tester)
unfolding mem_make_source_file
mem_allocator fs path line function type size s =
    if fs.has_allocator
    then labelled (λ label. core_allocator label line function type size)
        (mem_make_source_file path s)
    else some (c_malloc size, s)

unfoldable pub mem_reallocator :
    MemoryFunctions
    → Text
    → ℕ
    → Text
    → AllocationType
    → ℕ
    → ℕ
    → Tester
    → Option (MemoryCall × Tester)
unfolding mem_make_source_file
mem_reallocator fs path line function type size address s =
    if fs.has_reallocator
    then labelled (λ label. core_reallocator label line function type size address)
        (mem_make_source_file path s)
    else some (c_realloc address size, s)

unfoldable pub mem_deallocator :
    MemoryFunctions → Text → ℕ → Text → AllocationType → ℕ → Tester → Option (MemoryCall × Tester)
unfolding mem_make_source_file
mem_deallocator fs path line function type address s =
    if fs.has_deallocator
    then labelled (λ label. core_deallocator label line function type address)
        (mem_make_source_file path s)
    else some (c_free address, s)

abbrev at_least_one : ℕ → ℕ
at_least_one size = if size == 0 then 1 else size

-- The operators. What `new` returns is what its call returns, the null pointer included.
module _ (fs : MemoryFunctions) where
  abbrev pub allocate : AllocationType → ℕ → Tester → Option (MemoryCall × Tester)
  allocate type size s = mem_allocator fs s.filename s.line s.function type (at_least_one size) s

  unfoldable pub operator_new : ℕ → Tester → Option (MemoryCall × Tester)
  unfolding mem_allocator
  operator_new size s = allocate AllocationType.new size s

  unfoldable pub operator_new_array : ℕ → Tester → Option (MemoryCall × Tester)
  unfolding mem_allocator
  operator_new_array size s = allocate AllocationType.new_array size s

  -- The file and the line that these are given are not used.
  unfoldable pub operator_new_at : ℕ → Text → ℕ → Tester → Option (MemoryCall × Tester)
  unfolding mem_allocator
  operator_new_at size path line s = allocate AllocationType.new size s

  unfoldable pub operator_new_array_at : ℕ → Text → ℕ → Tester → Option (MemoryCall × Tester)
  unfolding mem_allocator
  operator_new_array_at size path line s = allocate AllocationType.new_array size s

  -- The null pointer is not freed: there is no call then.
  abbrev pub deallocate : AllocationType → ℕ → Tester → Option (Option MemoryCall × Tester)
  deallocate type address s =
      if address == 0
      then some (none, s)
      else elim (mem_deallocator fs s.filename s.line s.function type address s) [
        | none ↦ none
        | some (call, t) ↦ some (some call, t)
      ]

  unfoldable pub operator_delete : ℕ → Tester → Option (Option MemoryCall × Tester)
  unfolding mem_deallocator
  operator_delete address s = deallocate AllocationType.delete address s

  unfoldable pub operator_delete_array : ℕ → Tester → Option (Option MemoryCall × Tester)
  unfolding mem_deallocator
  operator_delete_array address s = deallocate AllocationType.delete_array address s
