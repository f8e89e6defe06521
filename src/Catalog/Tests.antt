-- ===== src/Catalog/Tests.antt =====
-- native/agentseat-i18n.c on a small message file, and the theorems about it there.
use agent_seat.Prelude.{
  ℕ, zero, suc, ◌<◌, ◌≡◌, refl, arith, false, none, some, List, [], ◌∷◌, ◌++◌, CString, cstr, lt,
}
use agent_seat.Catalog.{
  Catalog, got, ◌>>=◌, catalog_word, check_entry, table_entry, string_at, str_compare, entry_text,
  translation, search_range, agentseat_translate, load_tables, load_catalog,
}
use agent_seat.Catalog.Bounds.{IsSafe, load-translate-IsSafe}
use agent_seat.Catalog.Lookup.{IsSorted, scan, translate-scan}
use agent_seat.Catalog.Language.{
  Environment, normalized_language, selected_language, selected_language-eq, case_eq, case_prefix,
  case_contains, up_to_colon, candidate_language, language_loop, overrides,
}

-- A file with the messages "a" and "b", which are translated to "x" and "y".
abbrev file : List ℕ
file =
    (0xde ∷ 0x12 ∷ 0x04 ∷ 0x95 ∷ 0 ∷ 0 ∷ 0 ∷ 0 ∷ 2 ∷ 0 ∷ 0 ∷ 0 ∷ 28 ∷ 0 ∷ 0 ∷ 0 ∷ 44 ∷ 0 ∷ 0 ∷ 0
      ∷ [])
    ++ (0 ∷ 0 ∷ 0 ∷ 0 ∷ 0 ∷ 0 ∷ 0 ∷ 0 ∷ [])
    ++ (1 ∷ 0 ∷ 0 ∷ 0 ∷ 60 ∷ 0 ∷ 0 ∷ 0 ∷ 1 ∷ 0 ∷ 0 ∷ 0 ∷ 62 ∷ 0 ∷ 0 ∷ 0 ∷ [])
    ++ (1 ∷ 0 ∷ 0 ∷ 0 ∷ 64 ∷ 0 ∷ 0 ∷ 0 ∷ 1 ∷ 0 ∷ 0 ∷ 0 ∷ 66 ∷ 0 ∷ 0 ∷ 0 ∷ [])
    ++ (97 ∷ 0 ∷ 98 ∷ 0 ∷ 120 ∷ 0 ∷ 121 ∷ 0 ∷ [])

abbrev loaded : Catalog
loaded = record { bytes = file; count = 2; originals = 28; translations = 44; swapped = false }

load_file : load_catalog file ≡ got (some loaded)
unfolding load_catalog load_tables catalog_word
load_file = refl

translate_b : agentseat_translate (some loaded) (cstr "b") ≡ got (cstr "y")
unfolding agentseat_translate search_range translation entry_text table_entry check_entry
    catalog_word string_at str_compare
translate_b = refl

translate_c : agentseat_translate (some loaded) (cstr "c") ≡ got (cstr "c")
unfolding agentseat_translate search_range translation entry_text table_entry check_entry
    catalog_word string_at str_compare
translate_c = refl

load-translate-IsSafe_example : IsSafe (load_catalog file >>= λ c. agentseat_translate c (cstr "b"))
load-translate-IsSafe_example = load-translate-IsSafe file (cstr "b")

abbrev names : ℕ → CString
names zero = cstr "a"
names (suc i) = cstr "b"

abbrev lens : ℕ → ℕ
lens i = 1

readable_lem : (i : ℕ) → i < 2 → entry_text loaded 28 i ≡ got (some (names i, lens i))
unfolding entry_text table_entry check_entry catalog_word string_at
readable_lem zero h = refl
readable_lem (suc zero) h = refl
readable_lem (suc (suc i)) h = absurd (omega arith)

ordered_lem : (i j : ℕ) → i < j → j < 2 → str_compare (names i) (names j) ≡ lt
unfolding str_compare
ordered_lem zero zero p q = absurd (omega arith)
ordered_lem zero (suc j) p q = refl
ordered_lem (suc i) zero p q = absurd (omega arith)
ordered_lem (suc i) (suc j) p q = absurd (omega arith)

loaded-IsSorted : IsSorted loaded names lens
loaded-IsSorted = record { readable = readable_lem; ordered = ordered_lem }

translate-scan_example : agentseat_translate (some loaded) (cstr "b") ≡ scan loaded (cstr "b") 0 2
translate-scan_example = translate-scan loaded names lens loaded-IsSorted (cstr "b")

abbrev taiwan : Environment
taiwan = record {
  agentseat_language = some (cstr "auto");
  language = some (cstr "en:zh-hant:zh");
  lc_all = none;
  lc_messages = none;
  lang = some (cstr "zh_CN.UTF-8");
}

selected_taiwan : selected_language taiwan ≡ some (cstr "zh_TW")
unfolding selected_language overrides case_eq language_loop up_to_colon candidate_language
    normalized_language case_prefix case_contains
selected_taiwan = refl

selected_language-eq_example : selected_language taiwan ≡ some (cstr "zh_TW")
unfolding overrides case_eq normalized_language case_prefix case_contains
selected_language-eq_example = selected_language-eq taiwan
