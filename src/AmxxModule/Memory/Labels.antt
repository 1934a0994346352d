-- ===== src/AmxxModule/Memory/Labels.antt =====
-- The labels that Mem_MakeSourceFile of src/sdk/amxxmodule.cpp makes of file names.
use amxx_mqtt_client.Prelude.{
  ℕ, ◌+◌, ◌≡◌, ◌≤◌, ◌⊎◌, false, none, some, [], ◌∷◌, ◌++◌, length, arith, All, ◌==◌, Option-cases,
  inl, inr,
}
use amxx_mqtt_client.External.{Text}
use amxx_mqtt_client.AmxxModule.Memory.{
  Tester, module_label, after_last, file_part, mem_make_source_file, label_size,
}

-- The buffer is as at the beginning, or begins with the name of the module.
abbrev pub IsLabelling : Tester → Type 0
IsLabelling s = (s.prefix ≡ []) ⊎ (s.prefix ≡ module_label)

-- A file whose name is short enough is labelled with the module and the part behind its last separator,
-- however many were labelled before, and the buffer is kept for the next one.
pub mem_make_source_file_label :
    (path : Text) (s : Tester)
    → IsLabelling s
    → length (module_label ++ file_part path) + 1 ≤ label_size
    → (mem_make_source_file path s
        ≡ some (module_label ++ file_part path, record s { prefix = module_label }))
unfolding mem_make_source_file
mem_make_source_file_label path s (inl e) short = rw e (ground (arith, short))
mem_make_source_file_label path s (inr e) short = rw e (ground (arith, short))

-- A separator that does not stand in a text.
abbrev pub IsClear : ℕ → Text → Type 0
IsClear c t = All (λ x. (x == c) ≡ false) t

after_last-none : (c : ℕ) (t : Text) → after_last c t ≡ none → IsClear c t
unfolding after_last
after_last-none c [] e = tt
after_last-none c (x ∷ xs) e = elim (Option-cases (after_last c xs)) [
  | inl none' ↦ (ground (arith, e, none'), after_last-none c xs none')
  | inr (rest, found) ↦ absurd (ground (arith, e, found))
]

after_last-some : (c : ℕ) (t rest : Text) → after_last c t ≡ some rest → IsClear c rest
unfolding after_last
after_last-some c [] rest e = absurd (ground (arith, e))
after_last-some c (x ∷ xs) rest e = elim (Option-cases (after_last c xs)) [
  | inl none' ↦
      let same : xs ≡ rest = ground (arith, e, none') in rw (← same) (after_last-none c xs none')
  | inr (r, found) ↦
      let same : r ≡ rest = ground (arith, e, found) in
      after_last-some c xs rest (rw (← same) found)
]

-- The part that is kept of a path has no backslash if the path has one, and otherwise no slash.
pub file_part-IsClear :
    (path : Text) → IsClear b'\\' (file_part path) ⊎ IsClear b'/' (file_part path)
unfolding file_part
file_part-IsClear path = elim (Option-cases (after_last b'\\' path)) [
  | inr (rest, found) ↦ inl (rw (found, file_part) (after_last-some b'\\' path rest found))
  | inl no_backslash ↦ elim (Option-cases (after_last b'/' path)) [
    | inr (rest, found) ↦
        inr (rw (no_backslash, found, file_part) (after_last-some b'/' path rest found))
    | inl no_slash ↦
        inr (rw (no_backslash, no_slash, file_part) (after_last-none b'/' path no_slash))
  ]
]
